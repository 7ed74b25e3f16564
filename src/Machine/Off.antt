-- ===== src/Machine/Off.antt =====
-- Driving a machine off: cordon, drain, power off, and force where it does not go down
-- (`ensure_off`, `power_off` and `drain`, src/controller/node_power_management_config.rs).
pub mod Clock
pub mod Commands
pub mod Cordon
pub mod Drain
pub mod Force
pub mod Tests
use Prim.Native.String.{◌++◌ as append}
use kube_hardware_autoscaler.Base.{
  ℕ, suc, String, Bool, true, false, ◌&&◌, ◌||◌, ◌==◌, not, Option, none, some, List, [], ◌∷◌,
  is_some, is_none_or, is_some_and, is_empty, length, head?, or_option, unwrap_or, if◌then◌else◌,
}
use kube_hardware_autoscaler.Base.Int.{ℤ, pos, as_i64, ltb_ℤ, leb_ℤ, min_ℤ}
use kube_hardware_autoscaler.Base.Time.{num_seconds}
use kube_hardware_autoscaler.Crd.Enums.{
  Phase, PowerTarget, PowerAction, phase_eq, reads_off, is_auto, is_auto_mode,
}
use kube_hardware_autoscaler.Crd.Texts.{
  Message, forcing_power_off, refusing_power_off, checking_sleep, waiting_for_pods,
  drain_timed_out_forced, drain_timed_out,
}
use kube_hardware_autoscaler.Crd.Status.{NodePowerManagementConfigStatus, ScalingDecision}
use kube_hardware_autoscaler.Cluster.{Node, Pod}
use kube_hardware_autoscaler.Scaling.Pods.{DrainClass, ignore, evict, block, drain_class}
use kube_hardware_autoscaler.Drivers.Driver.{ok, err}
use kube_hardware_autoscaler.Machine.Rules.{
  retry_action_after, standby_settle_secs, probe_wait_secs, in_standby,
}
use kube_hardware_autoscaler.Machine.Run
use kube_hardware_autoscaler.Machine.Run.{
  Env, Machine, M, ◌>>=◌, ◌>>◌, pure, lift, step, emit, update, say, event, set_phase, in_phase_for,
  since_last_action, act, cordon_node, uncordon_if_ours, announce_off,
}
use kube_hardware_autoscaler.Machine.Sleep.{off_action, probe_sleep, standby_failed}
use kube_hardware_autoscaler.Machine.On.{fast, normal, slow}

abbrev Status : Type 0
Status = NodePowerManagementConfigStatus

-- What `drain` finds on the machine: pods still to leave, pods that block, evictions to ask for.
pub record Found : Type 0 where
  pub remaining : ℕ
  pub blocked : List String

abbrev nothing_found : Found
nothing_found = record { remaining = 0; blocked = [] }

-- `format!("{id} ({why})")`, where `id` is `namespace/name`.
pub block_text : Pod → String → String
block_text pod why =
    append pod.namespace (append "/" (append pod.name (append " (" (append why ")"))))

abbrev count_pod : DrainClass → Pod → Found → Found
unfolding block_text
count_pod ignore pod f = f
count_pod evict pod f = record f { remaining = suc f.remaining }
count_pod (block why) pod f = record f { blocked = block_text pod why ∷ f.blocked }

-- The pods of the drain loop by class.
unfoldable pub survey : List Pod → Found
unfolding block_text
survey [] = nothing_found
survey (p ∷ ps) = count_pod (drain_class p) p (survey ps)

abbrev evict_pod : DrainClass → Pod → Machine → Machine
evict_pod evict pod s = if pod.deleted then s else emit (Run.evict pod.namespace pod.name) s
evict_pod _ pod s = s

-- Asks for the eviction of every pod that is to leave and is not being deleted. The answers are
-- only logged.
unfoldable pub evict_pods : List Pod → Machine → Machine
evict_pods [] s = s
evict_pods (p ∷ ps) s = evict_pods ps (evict_pod (drain_class p) p s)

abbrev pub is_clear : Found → Bool
is_clear f = f.remaining == 0 && is_empty f.blocked

module _ (env : Env) where
  -- `Reconciler::power_off`: `PoweringOff` even if the request failed.
  unfoldable pub power_off : Machine → Machine
  power_off s =
      let s' = announce_off env s in
      let (done, s'') = act env (off_action env s'.st) s' in
      update (set_phase env Phase.powering_off) s''

  finish_drain : Machine → Machine
  finish_drain s = power_off (update (λ st. record st { message = none }) s)

  -- With `powerOffMode: Auto` a machine waits a while for its sleep probe.
  after_probe : Option Bool → M ℕ
  unfolding finish_drain
  after_probe known s =
      if not (is_some known) && leb_ℤ (in_phase_for env s.st) probe_wait_secs
      then (step (update (say checking_sleep)) >> pure 2) s
      else (step finish_drain >> pure fast) s

  drained : M ℕ
  unfolding after_probe finish_drain
  drained s =
      if is_auto_mode env.spec.lifecycle.power_off_mode
      then (lift (probe_sleep env) >>= after_probe) s
      else (step finish_drain >> pure fast) s

  abbrev aborted_by : Status → String
  aborted_by st =
      unwrap_or
        (or_option (elim st.scaling_decision [ none ↦ none | some d ↦ some d.pool ])
          (head? st.pools))
        ""

  -- A failed drain of an `Auto` machine: the scale-down is called off.
  call_off : Status → Status
  call_off st = record st {
    scaling_decision =
        some (record { pool = aborted_by st; target = PowerTarget.on; time = env.now });
  }

  pub abort_scale_down : M ℕ
  unfolding call_off
  abort_scale_down = do
    step (update call_off)
    uncordon_if_ours env env.node
    step (update (set_phase env Phase.on))
    pure normal

  drain_failed : Found → Machine → Machine
  drain_failed f s =
      update
        (λ st. record st {
          message =
              some (drain_timed_out env.spec.lifecycle.drain_timeout_seconds f.remaining f.blocked);
          drain_failed_at = some env.now;
        })
        (emit (event "DrainFailed") s)

  restart_drain_timer : Status → Status
  restart_drain_timer st = record st { phase_since = some env.now }

  force_drain : Found → Machine → Machine
  force_drain f s =
      power_off (
        emit (event "DrainTimeout") (update (say (drain_timed_out_forced f.remaining f.blocked)) s))

  -- The drain timeout has passed with pods left.
  drain_timeout : Found → M ℕ
  unfolding drain_failed abort_scale_down force_drain restart_drain_timer
  drain_timeout f s =
      if env.spec.lifecycle.force_after_drain_timeout
      then (step (force_drain f) >> pure fast) s
      else if is_auto env.spec.power_policy
      then abort_scale_down (drain_failed f s)
      else (step (update restart_drain_timer) >> pure normal) (drain_failed f s)

  after_evictions : Found → M ℕ
  unfolding drained drain_timeout
  after_evictions f s =
      if is_clear f
      then drained s
      else if leb_ℤ (in_phase_for env s.st) (as_i64 env.spec.lifecycle.drain_timeout_seconds)
      then (step (update (say (waiting_for_pods f.remaining f.blocked))) >> pure 5) s
      else drain_timeout f s

  -- `Reconciler::drain`.
  unfoldable pub drain : M ℕ
  unfolding after_evictions
  drain s = after_evictions (survey env.pods) (evict_pods env.pods s)

  abbrev shutdown_timeout : ℤ
  shutdown_timeout = as_i64 env.spec.lifecycle.shutdown_timeout_seconds

  abbrev settle : ℤ
  settle = min_ℤ shutdown_timeout standby_settle_secs

  abbrev pub forced_recently : Status → Bool
  forced_recently st =
      not (is_none_or st.forced_off_at (λ t. ltb_ℤ retry_action_after (num_seconds env.now t)))

  -- The suspend did not hold: the running machine is shut down.
  shut_down_instead : Machine → Machine
  shut_down_instead s =
      let (done, s') = act env PowerAction.power_off (standby_failed env s) in
      update (λ st. record st { phase_since = some env.now }) s'

  force_off : Machine → Machine
  force_off s =
      let (done, s') =
        act env PowerAction.force_off
          (update (say (forcing_power_off env.spec.lifecycle.shutdown_timeout_seconds)) s) in
      update (λ st. record st { forced_off_at = some env.now; standby_since = none }) s'

  abbrev last_failed : Status → Bool
  last_failed st = is_some_and st.last_power_action (λ a. not a.succeeded)

  -- The machine is in `PoweringOff` and still up.
  unfoldable pub while_powering_off : Machine → Machine
  unfolding shut_down_instead force_off
  while_powering_off s =
      if is_some s.st.standby_since && ltb_ℤ settle (in_phase_for env s.st)
      then shut_down_instead s
      else if ltb_ℤ shutdown_timeout (in_phase_for env s.st)
      then (if forced_recently s.st then s else force_off s)
      else if last_failed s.st && ltb_ℤ (pos 30) (since_last_action env (off_action env s.st) s.st)
      then (act env (off_action env s.st) s).1
      else s

  pub start_drain : Option Node → M ℕ
  start_drain none = step (update (say (refusing_power_off env.spec.node_name))) >> pure normal
  start_drain (some n) = do
    cordon_node env n
    step (λ s. update (set_phase env Phase.draining) (emit (event "Draining") s))
    pure 2

  off_by_phase : Phase → M ℕ
  unfolding start_drain
  off_by_phase Phase.powering_off = step while_powering_off >> pure fast
  off_by_phase Phase.draining = drain
  off_by_phase _ = start_drain env.node

  -- Nobody asked a suspended machine to wake up: it is to be shut down instead.
  abbrev woke_by_itself : Status → Bool
  woke_by_itself st =
      phase_eq st.phase Phase.standby
      && (is_some st.standby_since && (st.node_ready && not (reads_off st.power_state)))

  pub notice_wake : Machine → Machine
  notice_wake s =
      if woke_by_itself s.st
      then update (λ st. record st { standby_since = none }) (standby_failed env s)
      else s

  abbrev pub is_down : Status → Bool
  is_down st =
      reads_off st.power_state || in_standby st.phase (is_some st.standby_since) st.node_ready

  abbrev down_phase : Status → Phase
  down_phase st = if is_some st.standby_since then Phase.standby else Phase.off

  abbrev down_event : Status → String
  down_event st = if is_some st.standby_since then "Standby" else "PoweredOff"

  -- The machine is off or asleep.
  pub arrive_off : Machine → Machine
  arrive_off s =
      let phase = down_phase s.st in
      let s' = if phase_eq s.st.phase phase then s else emit (event (down_event s.st)) s in
      update (λ st. record (set_phase env phase st) { forced_off_at = none; message = none }) s'

  off_after_notice : M ℕ
  unfolding arrive_off off_by_phase
  off_after_notice s =
      if is_down s.st then (step arrive_off >> pure slow) s else off_by_phase s.st.phase s

  -- `Reconciler::ensure_off`.
  unfoldable pub ensure_off : M ℕ
  unfolding off_after_notice notice_wake
  ensure_off s = off_after_notice (notice_wake s)
