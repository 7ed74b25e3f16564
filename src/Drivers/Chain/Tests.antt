-- ===== src/Drivers/Chain/Tests.antt =====
-- Runs of the interface chain (src/drivers/chain.rs).
use kube_hardware_autoscaler.Base.{String, ◌≡◌, ◌≢◌, refl, inl, [], ◌∷◌, filter, false}
use kube_hardware_autoscaler.Crd.Enums.{InterfaceAction, PowerState}
use kube_hardware_autoscaler.Crd.Texts.{
  ChainError, all_failed, failed, different_machine, io, timeout,
}
use kube_hardware_autoscaler.Drivers.Driver.{ok, err}
use kube_hardware_autoscaler.Identity.{mismatch}
use kube_hardware_autoscaler.Drivers.Chain.{
  Outcome, enabled_for, attempt, try_links, handles, power_state, disable_mismatched, disable_one,
}
use kube_hardware_autoscaler.Drivers.Chain.Fallback.{
  First, AllFailed, attempt-First, attempt-AllFailed,
}
use kube_hardware_autoscaler.Drivers.Chain.Disabled.{disabled_unused}
use kube_hardware_autoscaler.Samples.{chain, dead_chain}

abbrev second : Outcome Unit
second = record { value = tt; via = "redfish"; failures = failed "ipmi" (io "unreachable") ∷ [] }

-- The first interface fails, the second carries the operation out.
falls_back : attempt InterfaceAction.power_on (λ d. d.power_on) chain ≡ ok second
unfolding attempt try_links handles
falls_back = refl

attempt-First_example :
    First InterfaceAction.power_on
      (λ d. d.power_on)
      (filter (enabled_for InterfaceAction.power_on) chain.links)
      []
      second
attempt-First_example = attempt-First InterfaceAction.power_on (λ d. d.power_on) chain falls_back

abbrev nothing_left : ChainError
nothing_left = all_failed (failed "ipmi" (io "unreachable") ∷ [])

fails : attempt InterfaceAction.power_on (λ d. d.power_on) dead_chain ≡ err nothing_left
unfolding attempt try_links handles
fails = refl

attempt-AllFailed_example :
    AllFailed InterfaceAction.power_on
      (λ d. d.power_on)
      false
      []
      (filter (enabled_for InterfaceAction.power_on) dead_chain.links)
      nothing_left
attempt-AllFailed_example =
    attempt-AllFailed InterfaceAction.power_on (λ d. d.power_on) dead_chain fails

abbrev reading : Outcome PowerState
reading = record {
  value = PowerState.on;
  via = "redfish";
  failures = failed "ipmi" (timeout 20) ∷ [];
}

reads : power_state chain ≡ ok reading
unfolding power_state attempt try_links handles
reads = refl

still_works :
    attempt InterfaceAction.power_on
      (λ d. d.power_on)
      (disable_mismatched chain (("ipmi", mismatch [] [], false) ∷ []))
    ≡ ok (record { value = tt; via = "redfish"; failures = different_machine "ipmi" [] [] ∷ [] })
unfolding attempt try_links handles disable_mismatched disable_one
still_works = refl

disabled_unused_example : ◌≢◌ {A = String} "redfish" "ipmi"
disabled_unused_example =
    disabled_unused InterfaceAction.power_on (λ d. d.power_on) chain
      (("ipmi", mismatch [] [], false) ∷ []) "ipmi" (inl refl) still_works
