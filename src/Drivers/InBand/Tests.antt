-- ===== src/Drivers/InBand/Tests.antt =====
-- Runs of the host command pods (src/drivers/inband.rs).
use kube_hardware_autoscaler.Base.{
  ◌+◌, ◌≤◌, String, true, false, ◌≡◌, ◌≢◌, refl, ◌⊎◌, inl, none, some, List, [], ◌∷◌, arith, eq_iff,
  str_eq,
}
use kube_hardware_autoscaler.Base.Texts.{Chars, codes}
use kube_hardware_autoscaler.Drivers.Driver.{ok}
use kube_hardware_autoscaler.Drivers.InBand.{
  HostCommand, is_suspend, suspend_deadline_secs, pod_name, HostPod, acts, Api, host_pod, run,
  delete_pod, cancel, create_pod, offers_s3, parse_probe,
}
use kube_hardware_autoscaler.Drivers.InBand.Guarded.{run-Guarded}

abbrev api : Api
api = record { get_node = ok (some (some "b1")); deleting = none; creating = none }

abbrev node : Chars
node = codes "n1"

-- An older shutdown pod of the same node.
abbrev before : List HostPod
before = host_pod node "b0" HostCommand.power_off 5 ∷ []

abbrev started : HostPod
started = host_pod node "b1" HostCommand.suspend 1000

starts : run api node HostCommand.suspend 1000 before ≡ ok (started ∷ [])
unfolding run cancel delete_pod create_pod pod_name
starts = refl

in_time : acts started "b1" 1100 ≡ true
unfolding acts
in_time = refl

b1-known : ◌≢◌ {A = String} "b1" ""
b1-known = ground (arith, eq_iff "b1" "")

run-Guarded_example :
    (started.command ≡ HostCommand.suspend)
    × (str_eq "b1" "b1" ≡ true)
    × ((is_suspend HostCommand.suspend ≡ false) ⊎ (1100 ≤ 1000 + suspend_deadline_secs))
unfolding pod_name
run-Guarded_example =
    run-Guarded api node HostCommand.suspend 1000 before (started ∷ []) "b1" started "b1" 1100
      b1-known refl starts (inl refl) refl in_time

-- A restarted host, and a late suspend.
rebooted : acts started "b2" 1100 ≡ false
unfolding acts
rebooted = refl

late : acts started "b1" 1121 ≡ false
unfolding acts
late = refl

-- Two nodes whose names differ only in a dot and a dash have one pod name.
same_name : pod_name (codes "rack.n1") ≡ pod_name (codes "rack-n1")
unfolding pod_name
same_name = refl

deep : offers_s3 (codes "s2idle [deep]") ≡ true
unfolding offers_s3
deep = refl

probe_output :
    parse_probe (codes " b1 \n[s2idle] deep\n") ≡ some (codes "b1", codes "[s2idle] deep")
unfolding parse_probe
probe_output = refl
