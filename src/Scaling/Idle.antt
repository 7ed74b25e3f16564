-- ===== src/Scaling/Idle.antt =====
-- The machines that may go: the order of the candidates, why a machine stays on, and why none is
-- powered off now (src/scaling.rs). Whether a machine's utilization is at or above the threshold is a
-- parameter: the source computes it in floating point. Settings in seconds are in the range where
-- `Duration::seconds` does not panic.
use kube_hardware_autoscaler.Base.{
  ℕ, ◌+◌, ◌-◌, ◌*◌, String, Bool, ◌&&◌, ◌||◌, not, Option, none, some, List, [], ◌∷◌, map, ltb, leb,
  ◌==◌, any, filter, length, is_empty, lookup, insert, is_some_and, filter_option, unwrap_or,
  if◌then◌else◌,
}
use kube_hardware_autoscaler.Base.Int.{leb_ℤ}
use kube_hardware_autoscaler.Base.Time.{Time, nanos}
use kube_hardware_autoscaler.Crd.Amounts.{ResourceAmounts, minus, fits}
use kube_hardware_autoscaler.Crd.Spec.{hold_after_power_on}
use kube_hardware_autoscaler.Crd.Effective.{flatten_options, maximum}
use kube_hardware_autoscaler.Scaling.Fit.{PodView, pod_matches_node}
use kube_hardware_autoscaler.Scaling.Members.{
  MemberState, Member, PoolSnapshot, state_eq, may_power_off,
}
use kube_hardware_autoscaler.Scaling.Order.{power_on_order, sort_by}
use kube_hardware_autoscaler.Scaling.Up.{max_online, online_now, selected, relevant, power_on}

-- Why an online machine is not, or since when it is, a candidate to power off.
pub data DownNote : Type 0 where
  registering : (pods : ℕ) → DownNote
  blocked_by : List String → DownNote
  drain_failed : (retry_after : Time) → DownNote
  busy : DownNote
  unneeded : (since : Time) → DownNote

-- Why no machine of the pool is powered off now.
pub data Held : Type 0 where
  scaling_up disabled booting : Held
  pending : (pods : ℕ) → Held
  holding : (until : Time) → Held

module _ (at_threshold : ResourceAmounts → ResourceAmounts → ℕ → Bool) (s : PoolSnapshot) where
  -- The exact reverse of the power-on order.
  abbrev pub candidates : List Member
  candidates = sort_by (λ a b. power_on_order s.spec b a) (filter may_power_off s.members)

  abbrev waits_for : Member → PodView → Bool
  waits_for m p =
      any (λ r. is_some_and (lookup r.0 m.registering) (λ have. leb_ℤ r.1 have)) p.extended_requests
      && (fits (minus m.allocatable m.requested) p.requests && pod_matches_node p m.labels m.taints)

  -- `waiting_for_registration`: the number of pods that wait for the machine's devices.
  unfoldable pub waiting_for_registration : Member → ℕ
  waiting_for_registration m =
      if is_empty m.registering then 0 else length (filter (waits_for m) (selected s))

  abbrev backoff : ℕ
  backoff = s.spec.scale_down.drain_failure_backoff_seconds * nanos

  abbrev pub unneeded_for : ℕ
  unneeded_for = s.spec.scale_down.unneeded_seconds * nanos

  abbrev recent_drain_failure : Member → Option Time
  recent_drain_failure m = filter_option m.drain_failed_at (λ t. ltb s.now (t + backoff))

  idle_note : Member → DownNote
  idle_note m = elim (recent_drain_failure m) [
    | some t ↦ drain_failed (t + backoff)
    | none ↦
        if at_threshold m.allocatable m.counted s.spec.scale_down.utilization_threshold_percent
        then busy
        else unneeded (unwrap_or (lookup m.name s.unneeded_since) s.now)
  ]

  unfoldable pub down_note : Member → DownNote
  unfolding idle_note
  down_note m =
      if not (waiting_for_registration m == 0)
      then registering (waiting_for_registration m)
      else if not (is_empty m.blocking_pods)
      then blocked_by m.blocking_pods
      else idle_note m

  abbrev note_unneeded : DownNote → String → List (String × Time) → List (String × Time)
  note_unneeded (unneeded since) name known = insert name since known
  note_unneeded _ name known = known

  abbrev unneeded_from : List Member → List (String × Time) → List (String × Time)
  unneeded_from [] known = known
  unneeded_from (m ∷ ms) known = unneeded_from ms (note_unneeded (down_note m) m.name known)

  -- `plan.unneeded_since`.
  abbrev pub unneeded_since : List (String × Time)
  unneeded_since = unneeded_from candidates []

  abbrev pub over_max : ℕ
  over_max = online_now s - max_online s.spec

  abbrev pub leaving : ℕ
  leaving = length (filter (λ m. state_eq m.state MemberState.leaving) s.members)

  abbrev last_power_on : Option Time
  last_power_on = maximum (flatten_options (s.last_scale_up ∷ map (λ m. m.adopted_at) s.members))

  abbrev hold_until : Option Time
  hold_until = elim last_power_on [
    | none ↦ none
    | some t ↦
        filter_option (some (t + hold_after_power_on s.spec.scale_down * nanos))
          (λ until. ltb s.now until)
  ]

  abbrev hold_note : Option Time → Option Held
  hold_note none = none
  hold_note (some until) = some (holding until)

  unfoldable pub blocked_reason : Option Held
  blocked_reason =
      if not (is_empty (power_on s))
      then some scaling_up
      else if ltb 0 over_max
      then none
      else if not s.spec.scale_down.enabled
      then some disabled
      else if ltb 0 (length (relevant s))
      then some (pending (length (relevant s)))
      else if any (λ m. state_eq m.state MemberState.booting) s.members
      then some booting
      else hold_note hold_until

  -- `manualPowerOnPolicy: PowerOff` past its grace.
  abbrev pub released : Member → Bool
  released m = is_some_and m.release_after (λ t. leb t s.now) && is_empty m.blocking_pods

  abbrev pub expired : Member → Bool
  expired m = is_some_and (lookup m.name unneeded_since) (λ t. leb (t + unneeded_for) s.now)

  abbrev pub is_eligible : Member → Bool
  is_eligible m = (ltb 0 over_max && is_empty m.blocking_pods) || (expired m || released m)

  abbrev pub eligible : List Member
  eligible = filter is_eligible candidates
