-- ===== src/Machine/Rules/Manual.antt =====
-- When a power change counts as a person's, and when a machine may be suspended
-- (`detect_manual_change` and `off_action`, src/controller/node_power_management_config.rs).
use kube_hardware_autoscaler.Base.{
  ℕ, Bool, true, false, ◌&&◌, ◌||◌, not, ◌≡◌, ◌≢◌, refl, ap, ◌⊎◌, inl, inr, Option, none, some,
  arith, is_some_and, is_none_or,
}
use kube_hardware_autoscaler.Base.Int.{ℤ, pos, as_i64, ltb_ℤ, leb_ℤ, ◌+ℤ◌}
use kube_hardware_autoscaler.Base.Time.{Time, num_seconds}
use kube_hardware_autoscaler.Crd.Enums.{
  Phase, PowerState, PowerAction, PowerOffMode, reads_on, reads_off,
}
use kube_hardware_autoscaler.Crd.Status.{NodePowerManagementConfigStatus, PowerActionRecord}
use kube_hardware_autoscaler.Machine.Rules.{
  ManualChange, no_change, powered_on, powered_off, change_from, is_power_on, takes_off, our_on,
  our_off, detect_manual_change, standby_broken, off_action,
}

abbrev Status : Type 0
Status = NodePowerManagementConfigStatus

-- The last power action is none of these that is recent.
abbrev pub NotOurs : (PowerAction → Type 0) → ℤ → Status → Time → Type 0
NotOurs Other limit st now =
    (st.last_power_action ≡ none)
    ⊎ ((a : PowerActionRecord) × (st.last_power_action ≡ some a)
        × (Other a.action ⊎ (leb_ℤ (num_seconds now a.time) limit ≡ false)))

-- What a change proves about the status before, the status now, and the last power action.
abbrev pub Justified : Status → Status → Time → ℕ → ℕ → ManualChange → Type 0
Justified old st now boot_timeout shutdown_timeout no_change = Unit
Justified old st now boot_timeout shutdown_timeout powered_on =
    (((old.phase ≡ Phase.off) × ((st.power_state ≡ PowerState.on) ⊎ (st.node_ready ≡ true)))
      ⊎ ((old.phase ≡ Phase.standby)
          × (st.node_ready ≡ true)
          × (is_none_or old.standby_since (λ t. ltb_ℤ (pos 300) (num_seconds now t)) ≡ true)))
    × NotOurs (λ a. a ≢ PowerAction.power_on) (as_i64 boot_timeout) st now
Justified old st now boot_timeout shutdown_timeout powered_off =
    ((old.phase ≡ Phase.on) ⊎ (old.phase ≡ Phase.powering_on) ⊎ (old.phase ≡ Phase.boot_failed))
    × (old.power_state ≡ PowerState.on)
    × (st.power_state ≡ PowerState.off)
    × (st.node_ready ≡ false)
    × NotOurs (λ a. a ≡ PowerAction.power_on) (as_i64 shutdown_timeout +ℤ pos 300) st now

both : (a b : Bool) → (a && b) ≡ true → (a ≡ true) × (b ≡ true)
both a b h = ground arith

either : (a b : Bool) → (a || b) ≡ true → (a ≡ true) ⊎ (b ≡ true)
either a b h = ground arith

no : (a : Bool) → not a ≡ true → a ≡ false
no a h = ground arith

reads_on_lem : (p : PowerState) → reads_on p ≡ true → p ≡ PowerState.on
reads_on_lem PowerState.on h = refl
reads_on_lem PowerState.off h = cc
reads_on_lem PowerState.unknown h = cc

reads_off_lem : (p : PowerState) → reads_off p ≡ true → p ≡ PowerState.off
reads_off_lem PowerState.off h = refl
reads_off_lem PowerState.on h = cc
reads_off_lem PowerState.unknown h = cc

not_on : (a : PowerAction) → is_power_on a ≡ false → a ≢ PowerAction.power_on
not_on a h e = let k = ap is_power_on e in cc

no_off : (a : PowerAction) → takes_off a ≡ false → a ≡ PowerAction.power_on
no_off PowerAction.power_on h = refl
no_off PowerAction.power_off h = cc
no_off PowerAction.force_off h = cc
no_off PowerAction.standby h = cc

neither : (a b : Bool) → (a && b) ≡ false → (a ≡ false) ⊎ (b ≡ false)
neither a b h = ground arith

-- No action of a kind is within the limit.
acted_within-NotOurs :
    (Other : PowerAction → Type 0) (kind : PowerAction → Bool) (limit : ℤ) (st : Status)
    (now : Time) (last : Option PowerActionRecord)
    → ((a : PowerAction) → kind a ≡ false → Other a)
    → st.last_power_action ≡ last
    → is_some_and last (λ a. kind a.action && leb_ℤ (num_seconds now a.time) limit) ≡ false
    → NotOurs Other limit st now
acted_within-NotOurs Other kind limit st now none other e h = inl e
acted_within-NotOurs Other kind limit st now (some a) other e h =
    elim (neither (kind a.action) (leb_ℤ (num_seconds now a.time) limit) h) [
      | inl k ↦ inr (a, e, inl (other a.action k))
      | inr k ↦ inr (a, e, inr k)
    ]

-- Which test a change comes from.
abbrev From : Phase → Bool → Bool → Bool → ManualChange → Type 0
From p on_change woke off_change no_change = Unit
From p on_change woke off_change powered_on =
    ((p ≡ Phase.off) × (on_change ≡ true)) ⊎ ((p ≡ Phase.standby) × (woke ≡ true))
From p on_change woke off_change powered_off =
    ((p ≡ Phase.on) ⊎ (p ≡ Phase.powering_on) ⊎ (p ≡ Phase.boot_failed)) × (off_change ≡ true)

change_from-From :
    (p : Phase) (on_change woke off_change : Bool)
    → From p on_change woke off_change (change_from p on_change woke off_change)
change_from-From Phase.off false b c = tt
change_from-From Phase.off true b c = inl (refl, refl)
change_from-From Phase.standby a false c = tt
change_from-From Phase.standby a true c = inr (refl, refl)
change_from-From Phase.on a b false = tt
change_from-From Phase.on a b true = (inl refl, refl)
change_from-From Phase.powering_on a b false = tt
change_from-From Phase.powering_on a b true = (inr (inl refl), refl)
change_from-From Phase.boot_failed a b false = tt
change_from-From Phase.boot_failed a b true = (inr (inr refl), refl)
change_from-From _ a b c = tt

module _ (old st : Status) (now : Time) (boot_timeout shutdown_timeout : ℕ) where
  our_on-NotOurs :
      not (our_on st now boot_timeout) ≡ true
      → NotOurs (λ a. a ≢ PowerAction.power_on) (as_i64 boot_timeout) st now
  our_on-NotOurs h =
      acted_within-NotOurs (λ a. a ≢ PowerAction.power_on) is_power_on (as_i64 boot_timeout) st now
        st.last_power_action not_on refl (no (our_on st now boot_timeout) h)

  our_off-NotOurs :
      not (our_off st now shutdown_timeout) ≡ true
      → NotOurs (λ a. a ≡ PowerAction.power_on) (as_i64 shutdown_timeout +ℤ pos 300) st now
  our_off-NotOurs h =
      acted_within-NotOurs (λ a. a ≡ PowerAction.power_on) takes_off
        (as_i64 shutdown_timeout +ℤ pos 300) st now st.last_power_action no_off refl
        (no (our_off st now shutdown_timeout) h)

  From-Justified :
      (c : ManualChange)
      → From old.phase
          ((reads_on st.power_state || st.node_ready) && not (our_on st now boot_timeout))
          (st.node_ready
            && (not (our_on st now boot_timeout)
                && is_none_or old.standby_since (λ t. ltb_ℤ (pos 300) (num_seconds now t))))
          (reads_on old.power_state
            && ((reads_off st.power_state && not st.node_ready)
                && not (our_off st now shutdown_timeout)))
          c
      → Justified old st now boot_timeout shutdown_timeout c
  From-Justified no_change h = tt
  From-Justified powered_on (inl (p, h)) =
      let (seen, ours) = both _ _ h in
      elim (either (reads_on st.power_state) st.node_ready seen) [
        | inl k ↦ (inl (p, inl (reads_on_lem st.power_state k)), our_on-NotOurs ours)
        | inr k ↦ (inl (p, inr k), our_on-NotOurs ours)
      ]
  From-Justified powered_on (inr (p, h)) =
      let (ready, rest) = both _ _ h in
      let (ours, long) = both _ _ rest in (inr (p, ready, long), our_on-NotOurs ours)
  From-Justified powered_off (p, h) =
      let (was_on, rest) = both _ _ h in
      let (is_off, ours) = both _ _ rest in
      let (reads, unready) = both _ _ is_off in
      (
        p,
        reads_on_lem old.power_state was_on,
        reads_off_lem st.power_state reads,
        no st.node_ready unready,
        our_off-NotOurs ours,
      )

  -- What a change that counts as a person's proves. Turned on: the machine was in Off and now reads On
  -- or is Ready, or it was in Standby, is Ready, and its suspend is unknown or more than 300 seconds
  -- old; and the last power action, if any, is no PowerOn or is older than the boot timeout. Turned off:
  -- it was in On, PoweringOn or BootFailed and read On, and now it reads Off and is not Ready; and the
  -- last power action, if any, is a PowerOn or is older than the shutdown timeout and 300 seconds. The
  -- timeouts are taken as `i64`, which wraps around from 2^63 on.
  pub detect_manual_change-Justified :
      Justified old st now boot_timeout shutdown_timeout
        (detect_manual_change old st now boot_timeout shutdown_timeout)
  unfolding detect_manual_change
  detect_manual_change-Justified = From-Justified _ (change_from-From old.phase _ _ _)

-- Why a machine may be suspended.
abbrev pub Sleepable : PowerOffMode → Option Bool → Type 0
Sleepable PowerOffMode.shutdown s3 = ⊥
Sleepable PowerOffMode.standby s3 = Unit
Sleepable PowerOffMode.auto s3 = s3 ≡ some true

-- A machine is suspended only where its mode allows it (`Standby`, or `Auto` with S3 sleep known to
-- work), and not within a day of a failed standby.
pub off_action-Sleepable :
    (mode : PowerOffMode) (failed : Option ℕ) (s3 : Option Bool) (now : ℕ)
    → off_action mode failed s3 now ≡ PowerAction.standby
    → Sleepable mode s3 × (standby_broken failed now ≡ false)
unfolding off_action
off_action-Sleepable PowerOffMode.shutdown failed s3 now h = cc
off_action-Sleepable PowerOffMode.standby failed s3 now h = ground arith
off_action-Sleepable PowerOffMode.auto failed s3 now h = ground arith
