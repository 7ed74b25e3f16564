-- ===== src/Drivers/InBand.antt =====
-- In-band host commands (src/drivers/inband.rs): pods that the operator runs on a node to shut it
-- down or suspend it, and the probe of its sleep modes. The pods of the operator's namespace are a
-- list; what the API server answers otherwise is given. Texts are lists of code points.
pub mod Guarded
pub mod Tests
use kube_hardware_autoscaler.Base.{
  ℕ, ◌+◌, String, Bool, true, false, ◌&&◌, ◌||◌, not, Option, none, some, List, [], ◌∷◌, ◌++◌, ltb,
  ◌==◌, if◌then◌else◌, any, filter, take, unwrap_or, is_some_and, is_empty, str_eq,
}
use kube_hardware_autoscaler.Base.Texts.{
  Chars, codes, chars_eq, replace, trim, trim_end, trim_matches, split_on, is_whitespace,
}
use kube_hardware_autoscaler.Crd.Texts.{DriverError, interface}
use kube_hardware_autoscaler.Drivers.Driver.{Result, ok, err}

pub data HostCommand : Type 0 where
  power_off suspend suspend_s3 : HostCommand

-- What the pod's command does, named.
abbrev pub is_suspend : HostCommand → Bool
is_suspend HostCommand.power_off = false
is_suspend _ = true

-- `SUSPEND_DEADLINE_SECS`.
abbrev pub suspend_deadline_secs : ℕ
suspend_deadline_secs = 120

abbrev is_dash : ℕ → Bool
is_dash c = c == b'-'

-- A pod's name: the prefix and the node's name, dots as dashes, at most 63 characters of it, no
-- dash at the end. Node names are ASCII, so `truncate` cuts between characters.
abbrev pub named : Chars → Chars → Chars
named prefix node_name = trim_end is_dash (take 63 (prefix ++ replace b'.' b'-' node_name))

unfoldable pub pod_name : Chars → Chars
pod_name node_name = named (codes "kha-shutdown-") node_name

unfoldable pub probe_pod_name : Chars → Chars
probe_pod_name node_name = named (codes "kha-probe-") node_name

-- A pod that runs `SCRIPT`, with what its environment carries: the host command, the node's boot id
-- (empty if unknown), and the second after which it must not act.
pub record HostPod : Type 0 where
  pub name : Chars
  pub node : Chars
  pub expected_boot_id : String
  pub not_after : Option ℕ
  pub command : HostCommand

-- `SCRIPT`: whether the pod acts when it runs, at a host with this boot id and clock.
unfoldable pub acts : HostPod → String → ℕ → Bool
acts pod current now =
    if not (str_eq pod.expected_boot_id "") && not (str_eq current pod.expected_boot_id)
    then false
    else if is_some_and pod.not_after (λ t. ltb t now)
    then false
    else true

-- What the API server answers. `deleting` is an error other than 404.
pub record Api : Type 0 where
  pub get_node : Result (Option (Option String)) DriverError
  pub deleting : Option DriverError
  pub creating : Option DriverError

abbrev pub called : Chars → HostPod → Bool
called name p = chars_eq p.name name

unfoldable pub delete_pod : Api → Chars → List HostPod → Result (List HostPod) DriverError
delete_pod api name pods = elim api.deleting [
  | some e ↦ err e
  | none ↦ ok (filter (λ p. not (called name p)) pods)
]

unfoldable pub cancel : Api → Chars → List HostPod → Result (List HostPod) DriverError
cancel api node_name pods = delete_pod api (pod_name node_name) pods

-- A pod of that name makes the creation fail.
abbrev already_exists : DriverError
already_exists = DriverError.kube "AlreadyExists"

unfoldable pub create_pod : Api → HostPod → List HostPod → Result (List HostPod) DriverError
create_pod api pod pods = elim api.creating [
  | some e ↦ err e
  | none ↦ if any (called pod.name) pods then err already_exists else ok (pod ∷ pods)
]

abbrev pub deadline : HostCommand → ℕ → Option ℕ
deadline HostCommand.power_off now = none
deadline _ now = some (now + suspend_deadline_secs)

abbrev pub host_pod : Chars → String → HostCommand → ℕ → HostPod
host_pod node_name boot_id command now = record {
  name = pod_name node_name;
  node = node_name;
  expected_boot_id = boot_id;
  not_after = deadline command now;
  command = command;
}

-- What `?` passes on.
abbrev pub and_then :
    {A B : Type 0} → Result A DriverError → (A → Result B DriverError) → Result B DriverError
and_then (ok a) f = f a
and_then (err e) f = err e

abbrev node_not_found : DriverError
node_not_found = interface "node not found"

-- The pods after `run`, with the node's boot id as `status.nodeInfo` has it.
unfoldable pub run :
    Api → Chars → HostCommand → ℕ → List HostPod → Result (List HostPod) DriverError
run api node_name command now pods = and_then api.get_node (λ node. elim node [
  | none ↦ err node_not_found
  | some boot ↦
      and_then (cancel api node_name pods)
        (λ left. create_pod api (host_pod node_name (unwrap_or boot "") command now) left)
])

pub data Probe : Type 0 where
  pending : Probe
  done : (boot_id mem_sleep : Chars) → Probe
  failed : String → Probe

abbrev is_bracket : ℕ → Bool
is_bracket c = c == b'[' || c == b']'

-- The empty parts that `split` leaves and `split_whitespace` does not are no mode either.
unfoldable pub offers_s3 : Chars → Bool
offers_s3 mem_sleep =
    any (λ m. chars_eq (trim_matches is_bracket m) (codes "deep"))
      (split_on is_whitespace mem_sleep)

abbrev is_newline : ℕ → Bool
is_newline c = c == 10

abbrev second_line : List Chars → Chars
second_line [] = []
second_line (l ∷ ls) = trim l

abbrev probe_of : List Chars → Option (Chars × Chars)
probe_of [] = none
probe_of (l ∷ ls) =
    let boot_id = trim l in if is_empty boot_id then none else some (boot_id, second_line ls)

-- `lines` splits at line feeds. A carriage return at a line's end is trimmed as white space, and the
-- empty text has no line, but no boot id either.
unfoldable pub parse_probe : Chars → Option (Chars × Chars)
parse_probe output = probe_of (split_on is_newline output)

-- The status of a probe pod: the exit code and message of its container, once terminated, and the
-- phase and message of the pod.
pub record ProbeStatus : Type 0 where
  pub terminated : Option (ℕ × Option Chars)
  pub phase : Option String
  pub message : Option String

abbrev read_output : Option (Chars × Chars) → Probe
read_output (some (boot_id, mem_sleep)) = done boot_id mem_sleep
read_output none = failed "sleep probe reported nothing"

abbrev exit_of : ℕ → Option Chars → Probe
exit_of code message =
    if code == 0
    then read_output (parse_probe (unwrap_or message []))
    else failed "sleep probe exited with an error"

unfoldable pub probe_result : ProbeStatus → Probe
probe_result s = elim s.terminated [
  | some (code, message) ↦ exit_of code message
  | none ↦
      if is_some_and s.phase (λ p. str_eq p "Failed")
      then failed (unwrap_or s.message "sleep probe pod failed")
      else pending
]

abbrev is_pending : Probe → Bool
is_pending pending = true
is_pending _ = false

-- What one call does to the probe pod: it is created, left alone or removed.
pub data ProbeStep : Type 0 where
  create keep remove : ProbeStep

-- `pod` is the answer to `get_opt`; the writes may fail.
unfoldable pub probe_sleep :
    Result (Option ProbeStatus) DriverError
    → (ProbeStep → Option DriverError)
    → Result (Probe × ProbeStep) DriverError
probe_sleep (err e) write = err e
probe_sleep (ok none) write = elim (write ProbeStep.create) [
  | some e ↦ err e
  | none ↦ ok (pending, ProbeStep.create)
]
probe_sleep (ok (some status)) write =
    let result = probe_result status in
    if is_pending result
    then ok (pending, ProbeStep.keep)
    else elim (write ProbeStep.remove) [ some e ↦ err e | none ↦ ok (result, ProbeStep.remove) ]
