-- ===== src/Machine/Off/Force.antt =====
-- When the power of a machine is cut again (`ensure_off` and its `forced_off_at`,
-- src/controller/node_power_management_config.rs).
use kube_hardware_autoscaler.Base.{
  Bool, true, false, not, ◌≡◌, ◌≢◌, refl, sym, ◌∙◌, ap, subst, ◌⊎◌, inl, inr, some, List, ◌∷◌,
  arith, length, is_some, is_none_or, ◌&&◌, Bool-cases, if◌then◌else◌,
}
use kube_hardware_autoscaler.Base.Int.{pos, ltb_ℤ}
use kube_hardware_autoscaler.Base.Time.{num_seconds}
use kube_hardware_autoscaler.Crd.Enums.{Phase, PowerAction}
use kube_hardware_autoscaler.Machine.Run.{Env, Machine, act, in_phase_for, since_last_action}
use kube_hardware_autoscaler.Machine.Sleep.{off_action, standby_failed}
use kube_hardware_autoscaler.Machine.Commands.{issued, issued-act}
use kube_hardware_autoscaler.Machine.Off.{
  forced_recently, settle, shutdown_timeout, last_failed, shut_down_instead, force_off, drain,
  while_powering_off, start_drain, off_by_phase, notice_wake, arrive_off, is_down, off_after_notice,
  ensure_off,
}
use kube_hardware_autoscaler.Machine.Off.Commands.{
  SoftCommands, act_off-SoftCommands, drain-SoftCommands, start_drain-Quiet, arrive_off-Quiet,
  notice_wake-Quiet,
}

longer : (l : List PowerAction) → l ≢ PowerAction.force_off ∷ l
longer l e = let k = ap length e in absurd (omega arith)

another :
    (a : PowerAction) (dry : Bool) (l : List PowerAction)
    → a ≢ PowerAction.force_off
    → (if dry then l else a ∷ l) ≢ PowerAction.force_off ∷ l
another a true l n e = longer l e
another a false l n e = n cc

module _ (env : Env) where
  -- No ForceOff was issued; or none was recent, and the time of this one is recorded.
  abbrev Forces : Machine → Machine → Type 0
  Forces s s' =
      (issued s' ≢ PowerAction.force_off ∷ issued s)
      ⊎ ((s'.st.forced_off_at ≡ some env.now) × (forced_recently env s.st ≡ false))

  SoftCommands-Forces : (s s' : Machine) → SoftCommands env s s' → Forces s s'
  SoftCommands-Forces s s' (inl h) = inl (λ e. longer (issued s) (sym h ∙ e))
  SoftCommands-Forces s s' (inr (inl h)) =
      inl (λ e. another PowerAction.power_off env.dry_run (issued s) (λ k. cc) (sym h ∙ e))
  SoftCommands-Forces s s' (inr (inr h)) =
      inl (λ e. another PowerAction.standby env.dry_run (issued s) (λ k. cc) (sym h ∙ e))

  shut_down_instead-Forces : (s : Machine) → Forces s (shut_down_instead env s)
  unfolding shut_down_instead standby_failed
  shut_down_instead-Forces s =
      SoftCommands-Forces s (shut_down_instead env s)
        (inr (inl (issued-act env PowerAction.power_off (standby_failed env s))))

  force_off-Forces : (s : Machine) → forced_recently env s.st ≡ false → Forces s (force_off env s)
  unfolding force_off
  force_off-Forces s h = inr (refl, h)

  unless_recent-Forces :
      (s : Machine) (recent : Bool)
      → forced_recently env s.st ≡ recent
      → Forces s (if recent then s else force_off env s)
  unless_recent-Forces s true h = SoftCommands-Forces s s (inl refl)
  unless_recent-Forces s false h = force_off-Forces s h

  while_powering_off-Forces : (s : Machine) → Forces s (while_powering_off env s)
  unfolding while_powering_off
  while_powering_off-Forces s =
      elim (Bool-cases (is_some s.st.standby_since && ltb_ℤ (settle env) (in_phase_for env s.st))) [
        | inl a ↦ rw a (shut_down_instead-Forces s)
        | inr a ↦ elim (Bool-cases (ltb_ℤ (shutdown_timeout env) (in_phase_for env s.st))) [
          | inl b ↦ rw (a, b) (unless_recent-Forces s (forced_recently env s.st) refl)
          | inr b ↦
              elim (Bool-cases (
                last_failed env s.st
                && ltb_ℤ (pos 30) (since_last_action env (off_action env s.st) s.st))) [
                  | inl c ↦
                      rw (a, b, c)
                        (SoftCommands-Forces s (act env (off_action env s.st) s).1
                          (act_off-SoftCommands env s s refl))
                  | inr c ↦ rw (a, b, c) (SoftCommands-Forces s s (inl refl))
                ]
        ]
      ]

  off_by_phase-Forces : (p : Phase) (s : Machine) → Forces s (off_by_phase env p s).1
  unfolding off_by_phase
  off_by_phase-Forces Phase.powering_off s = while_powering_off-Forces s
  off_by_phase-Forces Phase.draining s =
      SoftCommands-Forces s (drain env s).1 (drain-SoftCommands env s)
  off_by_phase-Forces _ s =
      SoftCommands-Forces s (start_drain env env.node s).1 (inl (start_drain-Quiet env env.node s))

  off_after_notice-Forces : (s : Machine) → Forces s (off_after_notice env s).1
  unfolding off_after_notice
  off_after_notice-Forces s = elim (Bool-cases (is_down env s.st)) [
    | inl e ↦ rw e (SoftCommands-Forces s (arrive_off env s) (inl (arrive_off-Quiet env s)))
    | inr e ↦ rw e (off_by_phase-Forces s.st.phase s)
  ]

  notice_wake_forced : (s : Machine) → (notice_wake env s).st.forced_off_at ≡ s.st.forced_off_at
  unfolding notice_wake standby_failed
  notice_wake_forced s = ground arith

  ensure_off-Forces : (s : Machine) → Forces s (ensure_off env s).1
  unfolding ensure_off
  ensure_off-Forces s = elim (off_after_notice-Forces (notice_wake env s)) [
    | inl n ↦ inl (λ e. n (e ∙ ap (λ l. PowerAction.force_off ∷ l) (sym (notice_wake-Quiet env s))))
    | inr (t, r) ↦ inr (
      t,
      subst (λ f. not (is_none_or f (λ t. ltb_ℤ (pos 90) (num_seconds env.now t))) ≡ false)
          (notice_wake_forced s) r,
    )
  ]

-- Where `ensure_off` has issued a ForceOff, no later `ensure_off` issues one while the status keeps the
-- time that it left in `forced_off_at` and no more than 90 seconds have passed, whatever else has
-- changed.
pub ensure_off_forces_once :
    (env env' : Env) (s s' : Machine)
    → issued (ensure_off env s).1 ≡ PowerAction.force_off ∷ issued s
    → s'.st.forced_off_at ≡ (ensure_off env s).1.st.forced_off_at
    → ltb_ℤ (pos 90) (num_seconds env'.now env.now) ≡ false
    → issued (ensure_off env' s').1 ≢ PowerAction.force_off ∷ issued s'
ensure_off_forces_once env env' s s' forced same recent = elim (ensure_off-Forces env s) [
  | inl n ↦ absurd (n forced)
  | inr (t, r) ↦ elim (ensure_off-Forces env' s') [
    | inl n ↦ n
    | inr (t', r') ↦
        let k : not (is_none_or (some env.now) (λ t. ltb_ℤ (pos 90) (num_seconds env'.now t)))
            ≡ false =
          subst (λ f. not (is_none_or f (λ t. ltb_ℤ (pos 90) (num_seconds env'.now t))) ≡ false)
            (same ∙ t) r' in
        absurd (ground arith)
  ]
]
