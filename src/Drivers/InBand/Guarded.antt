-- ===== src/Drivers/InBand/Guarded.antt =====
-- What a host command may still do, and when (`run` and `SCRIPT`, src/drivers/inband.rs).
use kube_hardware_autoscaler.Base.{
  ℕ, ◌+◌, ◌≤◌, String, true, false, not, ◌≡◌, ◌≢◌, refl, ◌∙◌, ap, subst, inl, inr, some, List, ◌∷◌,
  arith, str_eq, eq_iff, filter, ◌⊎◌, Among, All-Among, All-filter,
}
use kube_hardware_autoscaler.Base.Texts.{Chars}
use kube_hardware_autoscaler.Crd.Texts.{DriverError}
use kube_hardware_autoscaler.Drivers.Driver.{Result, ok, err}
use kube_hardware_autoscaler.Drivers.InBand.{
  HostCommand, is_suspend, suspend_deadline_secs, pod_name, HostPod, acts, Api, called, delete_pod,
  cancel, create_pod, host_pod, and_then, run,
}

and_then-ok :
    {A B : Type 0} (m : Result A DriverError) (f : A → Result B DriverError) (b : B)
    → and_then m f ≡ ok b
    → (a : A) × (m ≡ ok a) × (f a ≡ ok b)
and_then-ok (ok a) f b h = (a, refl, h)
and_then-ok (err e) f b h = cc

cancel-ok :
    (api : Api) (node : Chars) (pods left : List HostPod)
    → cancel api node pods ≡ ok left
    → left ≡ filter (λ p. not (called (pod_name node) p)) pods
unfolding cancel delete_pod
cancel-ok api node pods left h = ground arith

create_pod-ok :
    (api : Api) (pod : HostPod) (pods after : List HostPod)
    → create_pod api pod pods ≡ ok after
    → after ≡ pod ∷ pods
unfolding create_pod
create_pod-ok api pod pods after h = ground arith

-- What is left after a successful `run`.
run-ok :
    (api : Api) (node : Chars) (command : HostCommand) (now : ℕ) (pods after : List HostPod)
    (boot : String)
    → api.get_node ≡ ok (some (some boot))
    → run api node command now pods ≡ ok after
    → after ≡ host_pod node boot command now ∷ filter (λ p. not (called (pod_name node) p)) pods
unfolding run
run-ok api node command now pods after boot known h =
    let h' : and_then (cancel api node pods)
          (λ left. create_pod api (host_pod node boot command now) left)
        ≡ ok after =
      rw known at h in
    let (left, gone, made) = and_then-ok (cancel api node pods) _ after h' in
    create_pod-ok api (host_pod node boot command now) left after made
    ∙ ap (λ l. host_pod node boot command now ∷ l) (cancel-ok api node pods left gone)

-- The pod acts only on the boot that it was started for, and suspends only in time.
acts-host_pod :
    (node : Chars) (boot : String) (command : HostCommand) (now : ℕ) (current : String) (later : ℕ)
    → boot ≢ ""
    → acts (host_pod node boot command now) current later ≡ true
    → (str_eq current boot ≡ true)
      × ((is_suspend command ≡ false) ⊎ (later ≤ now + suspend_deadline_secs))
unfolding acts
acts-host_pod node boot HostCommand.power_off now current later known h =
    (ground (arith, eq_iff boot ""), inl refl)
acts-host_pod node boot HostCommand.suspend now current later known h =
    (ground (arith, eq_iff boot ""), inr (ground (arith, eq_iff boot "")))
acts-host_pod node boot HostCommand.suspend_s3 now current later known h =
    (ground (arith, eq_iff boot ""), inr (ground (arith, eq_iff boot "")))

-- A pod with the node's name that is left is the one just started.
left_is_new :
    (name : Chars) (new p : HostPod) (pods : List HostPod)
    → Among p (new ∷ filter (λ x. not (called name x)) pods)
    → called name p ≡ true
    → p ≡ new
left_is_new name new p pods (inl e) h = e
left_is_new name new p pods (inr m) h =
    let kept = filter (λ x. not (called name x)) pods in
    let other =
      All-Among (λ x. not (called name x) ≡ true) kept p
        (All-filter (λ x. not (called name x)) pods) m in
    let absurdity : not true ≡ true = rw h at other in cc

-- After a successful `run` on a node whose boot id is known, whatever pods were there before: every
-- host command pod of the node is the new one with the new command. It acts only on the boot that
-- was current at the request, so it cannot shut a freshly booted host down, and where it suspends,
-- at most 120 seconds after the request.
pub run-Guarded :
    (api : Api) (node : Chars) (command : HostCommand) (now : ℕ) (pods after : List HostPod)
    (boot : String) (p : HostPod) (current : String) (later : ℕ)
    → boot ≢ ""
    → api.get_node ≡ ok (some (some boot))
    → run api node command now pods ≡ ok after
    → Among p after
    → called (pod_name node) p ≡ true
    → acts p current later ≡ true
    → (p.command ≡ command)
      × (str_eq current boot ≡ true)
      × ((is_suspend command ≡ false) ⊎ (later ≤ now + suspend_deadline_secs))
run-Guarded api node command now pods after boot p current later known found h m named h' =
    let new = host_pod node boot command now in
    let m' = subst (Among p) (run-ok api node command now pods after boot found h) m in
    let e = left_is_new (pod_name node) new p pods m' named in
    let acting = subst (λ (x : HostPod). acts x current later ≡ true) e h' in
    let (same, timely) = acts-host_pod node boot command now current later known acting in
    (ap (λ (x : HostPod). x.command) e, same, timely)
