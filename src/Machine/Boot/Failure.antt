-- ===== src/Machine/Boot/Failure.antt =====
-- When `track_boot` (src/controller/node_power_management_config.rs) reports a failed boot.
use kube_hardware_autoscaler.Base.{
  ℕ, ◌<◌, ◌≤◌, ltb, true, false, ◌≡◌, ◌≢◌, refl, ◌∙◌, sym, subst, ap, Option, none, some, arith,
  is_none_or,
}
use kube_hardware_autoscaler.Base.Int.{as_i64, ltb_ℤ, half_i64, as_i64_small}
use kube_hardware_autoscaler.Base.Time.{num_seconds, num_seconds-lt}
use kube_hardware_autoscaler.Crd.Status.{NodePowerManagementConfigStatus, BootFailure}
use kube_hardware_autoscaler.Machine.Boot.{
  failed, track_booting, track_boot, is_booting, boot_since,
}

abbrev Status : Type 0
Status = NodePowerManagementConfigStatus

-- No failure of this boot is noted, and it has taken longer than its timeout.
abbrev Due : Status → ℕ → ℕ → Type 0
Due st now timeout =
    (is_none_or st.boot_failure (λ f. ltb f.time (boot_since st now)) ≡ true)
    × (ltb_ℤ (as_i64 timeout) (num_seconds now (boot_since st now)) ≡ true)

pub track_boot-Due :
    (st : Status) (now timeout : ℕ)
    → st.node_ready ≡ false
    → is_booting st ≡ true
    → Due st now timeout
    → track_boot st now timeout ≡ (
      failed,
      record st {
        powered_on_not_ready_since = some (boot_since st now);
        boot_failure = some (record { time = now; left_on = false });
      },
    )
unfolding track_boot track_booting
track_boot-Due st now timeout r b (f, d) = simp (r, b, f, d) refl

-- A failure is reported only where the boot has taken longer than the timeout.
track_booting_failed :
    (st : Status) (now timeout since : ℕ)
    → (track_booting st now timeout since).0 ≡ failed
    → ((track_booting st now timeout since).1.powered_on_not_ready_since ≡ some since)
      × ((track_booting st now timeout since).1.boot_failure
          ≡ some (record { time = now; left_on = false }))
      × (ltb_ℤ (as_i64 timeout) (num_seconds now since) ≡ true)
unfolding track_booting
track_booting_failed st now timeout since h = ground arith

track_boot_failed :
    (st : Status) (now timeout : ℕ)
    → (track_boot st now timeout).0 ≡ failed
    → ((track_boot st now timeout).1.powered_on_not_ready_since ≡ some (boot_since st now))
      × ((track_boot st now timeout).1.boot_failure ≡ some (record { time = now; left_on = false }))
      × (ltb_ℤ (as_i64 timeout) (num_seconds now (boot_since st now)) ≡ true)
unfolding track_boot
track_boot_failed st now timeout h =
    ground (arith, track_booting_failed st now timeout (boot_since st now))

-- Where a failure since the start of the boot is noted, none is reported.
track_boot_noted :
    (st : Status) (now timeout since : ℕ) (f : BootFailure)
    → st.powered_on_not_ready_since ≡ some since
    → st.boot_failure ≡ some f
    → since ≤ f.time
    → (track_boot st now timeout).0 ≢ failed
unfolding track_boot track_booting
track_boot_noted st now timeout since f s b le = rw (s, b) (ground arith)

since_before :
    (now timeout since : ℕ)
    → timeout < half_i64
    → ltb_ℤ (as_i64 timeout) (num_seconds now since) ≡ true
    → since ≤ now
since_before now timeout since small h =
    let e = num_seconds-lt now since timeout in
    let le =
      sym e ∙ subst (λ x. ltb_ℤ x (num_seconds now since) ≡ true) (as_i64_small timeout small) h in
    ground arith

-- When a failure was noted.
abbrev pub failure_time : Option BootFailure → Option ℕ
failure_time none = none
failure_time (some f) = some f.time

failure_at :
    (b : Option BootFailure) (now : ℕ)
    → failure_time b ≡ some now
    → (f : BootFailure) × (b ≡ some f) × (f.time ≡ now)
failure_at none now h = cc
failure_at (some f) now h = (f, refl, cc)

-- A boot's failure is reported once: after `track_boot` reports it, no call on a later status reports
-- one while that status has the start of the boot and the time of the failure that the reporting call
-- left, however the rest of the status, the time and the timeout have changed. The first timeout is
-- below 2^63.
pub boot_failure_reported_once :
    (st later : Status) (now now' timeout timeout' : ℕ)
    → timeout < half_i64
    → (track_boot st now timeout).0 ≡ failed
    → later.powered_on_not_ready_since ≡ (track_boot st now timeout).1.powered_on_not_ready_since
    → failure_time later.boot_failure ≡ failure_time (track_boot st now timeout).1.boot_failure
    → (track_boot later now' timeout').0 ≢ failed
boot_failure_reported_once st later now now' timeout timeout' small h same noted =
    let (since, recorded, late) = track_boot_failed st now timeout h in
    let (f, there, at_now) = failure_at later.boot_failure now (noted ∙ ap failure_time recorded) in
    track_boot_noted later now' timeout' (boot_since st now) f (same ∙ since) there (
      subst (λ x. boot_since st now ≤ x) (sym at_now)
        (since_before now timeout (boot_since st now) small late))
