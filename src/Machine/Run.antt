-- ===== src/Machine/Run.antt =====
-- One run of the machine's reconciler: its inputs, its state, its effects on the outside, and the
-- methods that every part uses (`Reconciler`, src/controller/node_power_management_config.rs; the
-- Node helpers of src/controller/mod.rs).
use kube_hardware_autoscaler.Base.{
  ℕ, String, Bool, true, false, Option, none, some, List, [], ◌∷◌, if◌then◌else◌,
}
use kube_hardware_autoscaler.Base.Int.{ℤ, max_i64}
use kube_hardware_autoscaler.Base.Time.{Time, num_seconds}
use kube_hardware_autoscaler.Crd.Enums.{
  Phase, PowerAction, PowerOffMode, ManualPowerOnPolicy, PowerOnFailurePolicy, phase_eq, action_eq,
}
use kube_hardware_autoscaler.Crd.Texts.{DriverError, ChainError, in_band, Message, action_failed}
use kube_hardware_autoscaler.Crd.Spec.{NodePowerManagementConfigSpec}
use kube_hardware_autoscaler.Crd.Status.{NodePowerManagementConfigStatus}
use kube_hardware_autoscaler.Cluster.{
  Node, Pod, is_cordoned, has_annotation, cordoned_by_annotation, powered_off_annotation,
}
use kube_hardware_autoscaler.Identity.{IdentityCheck}
use kube_hardware_autoscaler.Drivers.Driver.{Result, ok, err}
use kube_hardware_autoscaler.Drivers.Chain
use kube_hardware_autoscaler.Drivers.Chain.{PowerChain, Outcome}

abbrev Status : Type 0
Status = NodePowerManagementConfigStatus

-- The host commands and the sleep probe run in pods (src/drivers/inband.rs): their answers are
-- given, an error of the probe by its text. A probe's `mem_sleep` has been read for S3.
pub data HostCommand : Type 0 where
  suspend suspend_s3 : HostCommand

pub data Probe : Type 0 where
  pending : Probe
  done : (boot_id : String) (s3 : Bool) (mem_sleep : String) → Probe
  failed : (why : String) → Probe

pub data ApiError : Type 0 where
  api_error : String → ApiError

-- Writes to the Node that `?` passes the failure of on.
pub data NodeWrite : Type 0 where
  cordon uncordon clear_powered_off : NodeWrite

-- What one run reads. The fields from `boot_timeout` on are those of `Reconciler`.
pub record Env : Type 0 where
  pub now : Time
  pub dry_run : Bool
  pub spec : NodePowerManagementConfigSpec
  pub node : Option Node
  pub pods : List Pod
  pub run_in_band : HostCommand → Result (Unit {0}) DriverError
  pub probe : Result Probe String
  pub write : NodeWrite → Result (Unit {0}) ApiError
  pub chain : PowerChain
  pub boot_timeout : ℕ
  pub manual_policy : ManualPowerOnPolicy
  pub power_on_failure_policy : PowerOnFailurePolicy
  pub power_on_timeout : ℕ

-- What a run does to the outside. `command` is a power command that is really issued: a dry run
-- issues none. Events carry their reason.
pub data Effect : Type 0 where
  command : PowerAction → Effect
  event : String → Effect
  patch_node : NodeWrite → Effect
  mark_powered_off : Effect
  evict : (namespace name : String) → Effect
  cancel_suspend : Effect
  cache_identity : List (String × IdentityCheck) → Effect

-- The status being built, and the effects so far, the latest first.
pub record Machine : Type 0 where
  pub st : Status
  pub log : List Effect

abbrev pub M : Type 0 → Type 0
M A = Machine → Result A ApiError × Machine

-- `?`: what follows a call runs only if the call succeeded.
abbrev pub continue :
    {A B : Type 0} → Result A ApiError × Machine → (A → M B) → Result B ApiError × Machine
continue (ok a, s) f = f a s
continue (err e, s) f = (err e, s)

infixl 5 ◌>>=◌ ◌>>◌
abbrev pub ◌>>=◌ : {A B : Type 0} → M A → (A → M B) → M B
◌>>=◌ m f s = continue (m s) f

abbrev pub ◌>>◌ : {A B : Type 0} → M A → M B → M B
m >> k = m >>= λ _. k

abbrev pub pure : {A : Type 0} → A → M A
pure a s = (ok a, s)

-- A step that cannot fail, with and without a result.
abbrev pub lift : {A : Type 0} → (Machine → A × Machine) → M A
lift f s = let (a, s') = f s in (ok a, s')

abbrev pub step : (Machine → Machine) → M (Unit {0})
step f s = (ok tt, f s)

abbrev pub emit : Effect → Machine → Machine
emit e s = record s { log = e ∷ s.log }

abbrev pub update : (Status → Status) → Machine → Machine
update f s = record s { st = f s.st }

abbrev pub say : Message → Status → Status
say m st = record st { message = some m }

abbrev pub event_name : PowerAction → String
event_name PowerAction.power_on = "PowerOn"
event_name PowerAction.power_off = "PowerOff"
event_name PowerAction.force_off = "ForceOff"
event_name PowerAction.standby = "Standby"

abbrev pub failed_event_name : PowerAction → String
failed_event_name PowerAction.power_on = "PowerOnFailed"
failed_event_name PowerAction.power_off = "PowerOffFailed"
failed_event_name PowerAction.force_off = "ForceOffFailed"
failed_event_name PowerAction.standby = "StandbyFailed"

module _ (env : Env) where
  unfoldable pub set_phase : Phase → Status → Status
  set_phase phase st =
      if phase_eq st.phase phase
      then st
      else record st { phase = phase; phase_since = some env.now }

  abbrev pub in_phase_for : Status → ℤ
  in_phase_for st = elim st.phase_since [ none ↦ max_i64 | some t ↦ num_seconds env.now t ]

  abbrev pub since_last_action : PowerAction → Status → ℤ
  since_last_action action st = elim st.last_power_action [
    | none ↦ max_i64
    | some a ↦ if action_eq a.action action then num_seconds env.now a.time else max_i64
  ]

  host_command : PowerOffMode → HostCommand
  host_command PowerOffMode.auto = suspend_s3
  host_command _ = suspend

  in_band_outcome : Result (Unit {0}) DriverError → Result (Outcome (Unit {0})) ChainError
  in_band_outcome (ok u) = ok (record { value = tt; via = "in-band"; failures = [] })
  in_band_outcome (err e) = err (in_band e)

  -- The call that carries out an action.
  issue : PowerAction → Result (Outcome (Unit {0})) ChainError
  unfolding in_band_outcome host_command
  issue PowerAction.power_on = Chain.power_on env.chain
  issue PowerAction.power_off = Chain.power_off env.chain false
  issue PowerAction.force_off = Chain.power_off env.chain true
  issue PowerAction.standby =
      in_band_outcome (env.run_in_band (host_command env.spec.lifecycle.power_off_mode))

  unfoldable pub action_result : PowerAction → Result (Outcome (Unit {0})) ChainError
  unfolding issue
  action_result action =
      if env.dry_run
      then ok (record { value = tt; via = "dry-run"; failures = [] })
      else issue action

  abbrev mark_standby : PowerAction → Status → Status
  mark_standby PowerAction.standby st = record st { standby_since = some env.now }
  mark_standby PowerAction.power_off st = record st { standby_since = none }
  mark_standby _ st = st

  abbrev record_action : PowerAction → Bool → Option String → Status → Status
  record_action action succeeded via st = record st {
    last_power_action =
        some (record { action = action; time = env.now; succeeded = succeeded; via = via });
  }

  -- How `act` ends, by its result.
  abbrev pub conclude :
      PowerAction → Result (Outcome (Unit {0})) ChainError → Machine → Bool × Machine
  conclude action (ok o) s = (
    true,
    emit (event (event_name action))
        (update (λ st. record_action action true (some o.via) (mark_standby action st)) s),
  )
  conclude action (err e) s = (
    false,
    emit (event (failed_event_name action)) (
        update
          (λ st.
            say (action_failed action e) (record_action action false none (mark_standby action st)))
          s),
  )

  -- `Reconciler::act`.
  unfoldable pub act : PowerAction → Machine → Bool × Machine
  act action s =
      conclude action (action_result action) (if env.dry_run then s else emit (command action) s)

  -- The Node helpers of controller/mod.rs: a Node in the wanted state is left alone.
  abbrev write_node : NodeWrite → M Bool
  write_node w s = elim (env.write w) [
    | ok u ↦ (ok true, emit (patch_node w) s)
    | err e ↦ (err e, s)
  ]

  unfoldable pub cordon_node : Node → M Bool
  cordon_node n = if is_cordoned n then pure false else write_node cordon

  unfoldable pub uncordon_if_ours : Option Node → M Bool
  uncordon_if_ours none = pure false
  uncordon_if_ours (some n) =
      if has_annotation n cordoned_by_annotation then write_node uncordon else pure false

  unfoldable pub clear_marker : Option Node → M Bool
  clear_marker none = pure false
  clear_marker (some n) =
      if has_annotation n powered_off_annotation then write_node clear_powered_off else pure false

  -- The deliberate power-off is announced on the Node; a failure is only logged.
  abbrev pub announce_off : Machine → Machine
  announce_off s = if env.dry_run then s else emit mark_powered_off s
