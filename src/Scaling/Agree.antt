-- ===== src/Scaling/Agree.antt =====
-- What a pool tells the other pools that select its machines (the end of `plan`, src/scaling.rs).
-- Machines of a snapshot have different names, so `down_notes[&m.name]` is the machine's own note.
pub mod Offered
use kube_hardware_autoscaler.Base.{
  ℕ, String, Bool, ◌&&◌, not, Option, none, some, List, [], ◌∷◌, map, filter, leb, insert, is_some,
  if◌then◌else◌,
}
use kube_hardware_autoscaler.Crd.Amounts.{ResourceAmounts}
use kube_hardware_autoscaler.Membership.{sort_names}
use kube_hardware_autoscaler.Scaling.Members.{MemberState, Member, PoolSnapshot, state_eq}
use kube_hardware_autoscaler.Scaling.Up.{online_now}
use kube_hardware_autoscaler.Scaling.Idle.{
  DownNote, Held, candidates, down_note, blocked_reason, expired, released,
}

-- Why the pool needs a machine on: the text of `status.needed`.
pub data Needed : Type 0 where
  noted : DownNote → Needed
  held : Held → Needed
  min_online powering_on : Needed

module _ (at_threshold : ResourceAmounts → ResourceAmounts → ℕ → Bool) (s : PoolSnapshot) where
  unless_blocked : Option Held → Option Needed
  unless_blocked (some r) = some (held r)
  unless_blocked none = if leb (online_now s) s.spec.min_online then some min_online else none

  -- Why the pool does not let the machine go now.
  unfoldable pub needs : Member → Option Needed
  unfolding unless_blocked
  needs m =
      if not (expired at_threshold s m) && not (released at_threshold s m)
      then some (noted (down_note at_threshold s m))
      else unless_blocked (blocked_reason at_threshold s)

  abbrev note_needed : Option Needed → String → List (String × Needed) → List (String × Needed)
  note_needed none name known = known
  note_needed (some why) name known = insert name why known

  abbrev needed_from : List Member → List (String × Needed) → List (String × Needed)
  needed_from [] known = known
  needed_from (m ∷ ms) known = needed_from ms (note_needed (needs m) m.name known)

  abbrev booting_from : List Member → List (String × Needed) → List (String × Needed)
  booting_from [] known = known
  booting_from (m ∷ ms) known =
      booting_from ms
        (if state_eq m.state MemberState.booting then insert m.name powering_on known else known)

  -- `plan.needed` and `plan.releasable`.
  unfoldable pub needed : List (String × Needed)
  needed = booting_from s.members (needed_from (candidates at_threshold s) [])

  unfoldable pub releasable : List String
  releasable =
      sort_names
        (map (λ m. m.name) (filter (λ m. not (is_some (needs m))) (candidates at_threshold s)))
