-- ===== src/Crd/Effective.antt =====
-- Settings of a machine that can come from its pools (`effective_*`, src/crd.rs).
use kube_hardware_autoscaler.Base.{
  ℕ, min, max, String, Bool, Option, none, some, List, [], ◌∷◌, map, str_eq, leb, find, filter, any,
  or_option, unwrap_or, if◌then◌else◌,
}
use kube_hardware_autoscaler.Crd.Enums.{ManualPowerOnPolicy, PowerOnFailurePolicy, is_release}
use kube_hardware_autoscaler.Crd.Spec.{ScaleUpSpec}

abbrev pub caution : ManualPowerOnPolicy → ℕ
caution ManualPowerOnPolicy.leave_on = 2
caution ManualPowerOnPolicy.adopt = 1
caution ManualPowerOnPolicy.power_off = 0

-- `into_iter().flatten()`.
abbrev pub flatten_options {ℓ} : {A : Type ℓ} → List (Option A) → List A
flatten_options [] = []
flatten_options (none ∷ os) = flatten_options os
flatten_options (some a ∷ os) = a ∷ flatten_options os

-- `max_by_key`, from the best so far: of equal keys the last wins.
abbrev max_by_caution : ManualPowerOnPolicy → List ManualPowerOnPolicy → ManualPowerOnPolicy
max_by_caution best [] = best
max_by_caution best (p ∷ ps) =
    max_by_caution (if leb (caution best) (caution p) then p else best) ps

most_cautious : List ManualPowerOnPolicy → Option ManualPowerOnPolicy
most_cautious [] = none
most_cautious (p ∷ ps) = some (max_by_caution p ps)

unfoldable pub effective_manual_power_on_policy :
    Option ManualPowerOnPolicy → List (Option ManualPowerOnPolicy) → ManualPowerOnPolicy
unfolding most_cautious
effective_manual_power_on_policy machine pools =
    unwrap_or machine
      (unwrap_or (most_cautious (flatten_options pools)) ManualPowerOnPolicy.leave_on)

abbrev pub maximum : List ℕ → Option ℕ
maximum [] = none
maximum (n ∷ ns) = some (elim (maximum ns) [ none ↦ n | some m ↦ max n m ])

abbrev pub minimum : List ℕ → Option ℕ
minimum [] = none
minimum (n ∷ ns) = some (elim (minimum ns) [ none ↦ n | some m ↦ min n m ])

abbrev pub default_boot_timeout_seconds : ℕ
default_boot_timeout_seconds = 1200

unfoldable pub effective_boot_timeout : Option ℕ → List (Option ℕ) → ℕ
effective_boot_timeout machine pools =
    unwrap_or (or_option machine (maximum (flatten_options pools))) default_boot_timeout_seconds

unfoldable pub effective_manual_power_off_cooldown : Option ℕ → List (Option ℕ) → ℕ
effective_manual_power_off_cooldown machine pools =
    unwrap_or (or_option machine (maximum (flatten_options pools))) 0

abbrev pub timeout_of : ℕ → ScaleUpSpec → ℕ
timeout_of boot_timeout spec = unwrap_or spec.power_on_timeout_seconds boot_timeout

abbrev policy_eq : PowerOnFailurePolicy → PowerOnFailurePolicy → Bool
policy_eq PowerOnFailurePolicy.release p = is_release p
policy_eq PowerOnFailurePolicy.retry PowerOnFailurePolicy.retry = Bool.true
policy_eq PowerOnFailurePolicy.retry PowerOnFailurePolicy.release = Bool.false

-- The rule when no pool of the machine made the decision.
joint_power_on_failure : List (String × ScaleUpSpec) → ℕ → PowerOnFailurePolicy × ℕ
joint_power_on_failure [] boot_timeout = (PowerOnFailurePolicy.release, boot_timeout)
joint_power_on_failure (p ∷ ps) boot_timeout =
    let policy : PowerOnFailurePolicy =
      if any (λ q. is_release q.1.power_on_failure_policy) (p ∷ ps)
      then PowerOnFailurePolicy.release
      else PowerOnFailurePolicy.retry in
    (
      policy,
      unwrap_or
          (minimum (
            map (λ q. timeout_of boot_timeout q.1)
              (filter (λ q. policy_eq q.1.power_on_failure_policy policy) (p ∷ ps))))
          boot_timeout,
    )

deciding_pool : Option String → List (String × ScaleUpSpec) → Option (String × ScaleUpSpec)
deciding_pool none pools = none
deciding_pool (some name) pools = find (λ q. str_eq q.0 name) pools

unfoldable pub effective_power_on_failure :
    Option String → List (String × ScaleUpSpec) → ℕ → PowerOnFailurePolicy × ℕ
unfolding joint_power_on_failure deciding_pool
effective_power_on_failure decision_pool pools boot_timeout =
    elim (deciding_pool decision_pool pools) [
      | some q ↦ (q.1.power_on_failure_policy, timeout_of boot_timeout q.1)
      | none ↦ joint_power_on_failure pools boot_timeout
    ]
