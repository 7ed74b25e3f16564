-- ===== src/Machine/Off/Drain.antt =====
-- What draining a machine promises its pods (`drain` and `ensure_off`,
-- src/controller/node_power_management_config.rs; `drain_class`, src/scaling.rs).
use kube_hardware_autoscaler.Base.{
  String, Bool, true, false, not, ◌≡◌, subst, refl, ◌∙◌, ◌⊎◌, inl, inr, List, [], ◌∷◌, map, filter,
  All, arith,
}
use kube_hardware_autoscaler.Base.Int.{as_i64, leb_ℤ}
use kube_hardware_autoscaler.Cluster.{Pod}
use kube_hardware_autoscaler.Scaling.Pods.{DrainClass, ignore, evict, drain_class}
use kube_hardware_autoscaler.Machine.Run
use kube_hardware_autoscaler.Machine.Run.{
  Env, Effect, Machine, in_phase_for, uncordon_if_ours, update, say,
}
use kube_hardware_autoscaler.Machine.Commands.{issued}
use kube_hardware_autoscaler.Machine.Off.{
  Found, survey, is_clear, evict_pod, evict_pods, drain, after_evictions, drain_timeout,
  drain_failed,
}
use kube_hardware_autoscaler.Machine.Off.Commands.{evict_pods-Quiet, abort-Quiet}

-- Every pod may be lost with the machine.
abbrev pub Evacuated : List Pod → Type 0
Evacuated pods = All (λ p. drain_class p ≡ ignore) pods

survey_clear : (pods : List Pod) → is_clear (survey pods) ≡ true → Evacuated pods
unfolding survey
survey_clear [] h = tt
survey_clear (p ∷ ps) h = ground (arith, survey_clear ps)

module _ (env : Env) where
  evict_pods_st : (pods : List Pod) (s : Machine) → (evict_pods pods s).st ≡ s.st
  unfolding evict_pods
  evict_pods_st [] s = refl
  evict_pods_st (p ∷ ps) s = ground (arith, evict_pods_st ps (evict_pod (drain_class p) p s))

  -- The drain timeout has passed, and the machine is to be powered off all the same.
  abbrev pub Forced : Machine → Type 0
  Forced s =
      (env.spec.lifecycle.force_after_drain_timeout ≡ true)
      × (leb_ℤ (in_phase_for env s.st) (as_i64 env.spec.lifecycle.drain_timeout_seconds) ≡ false)

  drain_timeout-Quiet :
      (f : Found) (s : Machine)
      → env.spec.lifecycle.force_after_drain_timeout ≡ false
      → issued (drain_timeout env f s).1 ≡ issued s
  unfolding drain_timeout
  drain_timeout-Quiet f s h = ground (arith, abort-Quiet env (drain_failed env f s))

  after_evictions_safe :
      (f : Found) (s : Machine)
      → (issued (after_evictions env f s).1 ≡ issued s) ⊎ ((is_clear f ≡ true) ⊎ Forced s)
  unfolding after_evictions
  after_evictions_safe f s = ground (arith, drain_timeout-Quiet f s)

  -- Draining issues no power command unless every pod on the machine may be lost with it, or the
  -- drain timeout has passed and the machine's lifecycle forces the power-off.
  pub drain_safe :
      (s : Machine) → (issued (drain env s).1 ≡ issued s) ⊎ (Evacuated env.pods ⊎ Forced s)
  unfolding drain
  drain_safe s =
      let t = evict_pods env.pods s in
      let same = evict_pods_st env.pods s in
      let quiet = evict_pods-Quiet env env.pods s in
      elim (after_evictions_safe (survey env.pods) t) [
        | inl h ↦ inl (h ∙ quiet)
        | inr (inl h) ↦ inr (inl (survey_clear env.pods h))
        | inr (inr (f, h)) ↦ inr (
            inr (
              f,
              subst
                  (λ st.
                    leb_ℤ (in_phase_for env st) (as_i64 env.spec.lifecycle.drain_timeout_seconds)
                    ≡ false)
                  same h,
            ))
      ]

-- The evictions among the effects, the latest first.
abbrev pub evictions : List Effect → List (String × String)
evictions [] = []
evictions (Run.evict namespace name ∷ es) = (namespace, name) ∷ evictions es
evictions (_ ∷ es) = evictions es

abbrev to_evict : DrainClass → Pod → Bool
to_evict evict p = not p.deleted
to_evict _ p = false

-- The pods that may be moved and are not leaving yet, in the order of the list.
abbrev pub movable : List Pod → List (String × String)
movable pods = map (λ p. (p.namespace, p.name)) (filter (λ p. to_evict (drain_class p) p) pods)

-- `xs` turned round, in front of `ys`.
abbrev pub rev_onto : List (String × String) → List (String × String) → List (String × String)
rev_onto [] ys = ys
rev_onto (x ∷ xs) ys = rev_onto xs (x ∷ ys)

-- The pods that are asked to leave are exactly the movable ones, in order: none that blocks, none
-- that may be lost with the machine, and none that is already being deleted.
pub evict_pods_exact :
    (pods : List Pod) (s : Machine)
    → evictions (evict_pods pods s).log ≡ rev_onto (movable pods) (evictions s.log)
unfolding evict_pods
evict_pods_exact [] s = refl
evict_pods_exact (p ∷ ps) s = ground (arith, evict_pods_exact ps (evict_pod (drain_class p) p s))
