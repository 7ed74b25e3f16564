-- ===== src/Machine/Off/Cordon.antt =====
-- A running machine that is to go off is cordoned before anything else (`ensure_off` and the cordon of
-- `start_drain`, src/controller/node_power_management_config.rs).
use kube_hardware_autoscaler.Base.{
  ℕ, suc, Bool, true, false, ◌≡◌, refl, subst, ◌∙◌, ap, ◌⊎◌, inl, inr, Option, none, some, List, [],
  ◌∷◌, arith, Bool-cases,
}
use kube_hardware_autoscaler.Crd.Enums.{Phase}
use kube_hardware_autoscaler.Cluster.{Node, is_cordoned}
use kube_hardware_autoscaler.Drivers.Driver.{Result, ok, err}
use kube_hardware_autoscaler.Machine.Run.{
  Env, Effect, patch_node, cordon, Machine, ApiError, set_phase, cordon_node, continue, step,
  update, emit, event, pure, ◌>>◌,
}
use kube_hardware_autoscaler.Machine.Sleep.{standby_failed}
use kube_hardware_autoscaler.Machine.Commands.{issued}
use kube_hardware_autoscaler.Machine.Off.{
  start_drain, off_by_phase, notice_wake, arrive_off, is_down, off_after_notice, ensure_off,
}
use kube_hardware_autoscaler.Machine.Off.Commands.{
  notice_wake-Quiet, arrive_off-Quiet, start_drain-Quiet,
}

-- How often the Node was cordoned.
abbrev pub cordons : List Effect → ℕ
cordons [] = 0
cordons (patch_node cordon ∷ es) = suc (cordons es)
cordons (_ ∷ es) = cordons es

module _ (env : Env) where
  abbrev pub may_go_down : Phase → Bool
  may_go_down Phase.draining = true
  may_go_down Phase.powering_off = true
  may_go_down _ = false

  off_by_phase-Quiet :
      (p : Phase) (s : Machine) → may_go_down p ≡ false → issued (off_by_phase env p s).1 ≡ issued s
  unfolding off_by_phase
  off_by_phase-Quiet Phase.powering_off s h = cc
  off_by_phase-Quiet Phase.draining s h = cc
  off_by_phase-Quiet _ s h = start_drain-Quiet env env.node s

  pub notice_wake_phase : (s : Machine) → (notice_wake env s).st.phase ≡ s.st.phase
  unfolding notice_wake standby_failed
  notice_wake_phase s = ground arith

  -- The Node is there, and it was cordoned before or is now, by a write that succeeded.
  abbrev pub Cordoned : Machine → Machine → Type 0
  Cordoned s s' =
      (n : Node) × (env.node ≡ some n)
      × ((is_cordoned n ≡ true)
          ⊎ ((env.write cordon ≡ ok tt) × (cordons s'.log ≡ suc (cordons s.log))))

  abbrev pub CordonedFirst : Machine → Machine → Type 0
  CordonedFirst s s' = (may_go_down s'.st.phase ≡ false) ⊎ Cordoned s s'

  notice_wake-cordons : (s : Machine) → cordons (notice_wake env s).log ≡ cordons s.log
  unfolding notice_wake standby_failed
  notice_wake-cordons s = ground arith

  arrive_off-stays : (s : Machine) → may_go_down (arrive_off env s).st.phase ≡ false
  unfolding arrive_off set_phase
  arrive_off-stays s = ground arith

  -- The write of a Node that is not cordoned yet.
  write-Cordoned :
      (n : Node) (w : Result (Unit {0}) ApiError) (s : Machine)
      → env.node ≡ some n
      → env.write cordon ≡ w
      → may_go_down s.st.phase ≡ false
      → CordonedFirst s
          (continue {A = Bool} {B = ℕ}
            (elim w [ ok u ↦ (ok true, emit (patch_node cordon) s) | err e ↦ (err e, s) ])
            (λ done.
              step (λ s'. update (set_phase env Phase.draining) (emit (event "Draining") s'))
              >> pure 2)).1
  write-Cordoned n (ok _) s e k h = inr (n, e, inr (k, refl))
  write-Cordoned n (err f) s e k h = inl h

  start_drain-Cordoned :
      (n : Option Node) (s : Machine)
      → env.node ≡ n
      → may_go_down s.st.phase ≡ false
      → CordonedFirst s (start_drain env n s).1
  unfolding start_drain cordon_node
  start_drain-Cordoned none s e h = inl h
  start_drain-Cordoned (some n) s e h = elim (Bool-cases (is_cordoned n)) [
    | inl c ↦ inr (n, e, inl c)
    | inr c ↦ rw c (write-Cordoned n (env.write cordon) s e refl h)
  ]

  off_by_phase-Cordoned :
      (p : Phase) (s : Machine)
      → s.st.phase ≡ p
      → may_go_down p ≡ false
      → CordonedFirst s (off_by_phase env p s).1
  unfolding off_by_phase
  off_by_phase-Cordoned Phase.powering_off s e h = cc
  off_by_phase-Cordoned Phase.draining s e h = cc
  off_by_phase-Cordoned _ s e h = start_drain-Cordoned env.node s refl (ap may_go_down e ∙ h)

  off_after_notice-Cordoned :
      (s : Machine)
      → may_go_down s.st.phase ≡ false
      → (issued (off_after_notice env s).1 ≡ issued s) × CordonedFirst s (off_after_notice env s).1
  unfolding off_after_notice
  off_after_notice-Cordoned s h = elim (Bool-cases (is_down env s.st)) [
    | inl e ↦ rw e (arrive_off-Quiet env s, inl (arrive_off-stays s))
    | inr e ↦ rw e (off_by_phase-Quiet s.st.phase s h, off_by_phase-Cordoned s.st.phase s refl h)
  ]

  -- A machine that is neither draining nor powering off gets no power command from `ensure_off`, and it
  -- enters one of these phases only if its Node is there and is cordoned: either it was already, or
  -- the write that cordons it is made once and succeeds.
  pub ensure_off_cordons_first :
      (s : Machine)
      → may_go_down s.st.phase ≡ false
      → (issued (ensure_off env s).1 ≡ issued s) × CordonedFirst s (ensure_off env s).1
  unfolding ensure_off
  ensure_off_cordons_first s h =
      let t = notice_wake env s in
      let (quiet, first) = off_after_notice-Cordoned t (ap may_go_down (notice_wake_phase s) ∙ h) in
      (
        quiet ∙ notice_wake-Quiet env s,
        subst
            (λ k.
              (may_go_down (off_after_notice env t).1.st.phase ≡ false)
              ⊎ ((n : Node) × (env.node ≡ some n)
                  × ((is_cordoned n ≡ true)
                      ⊎ ((env.write cordon ≡ ok tt)
                          × (cordons (off_after_notice env t).1.log ≡ suc k)))))
            (notice_wake-cordons s) first,
      )
