-- ===== src/Scaling/Agree/Offered.antt =====
-- A pool's power-offs and what it offers to other pools (`plan`, src/scaling.rs).
use kube_hardware_autoscaler.Base.{
  ℕ, ◌+◌, ◌≤◌, String, Bool, true, false, ◌&&◌, ◌||◌, not, ◌≡◌, ◌≢◌, sym, ◌∙◌, ap, subst, ◌⊎◌, inl,
  inr, Option, none, some, List, [], ◌∷◌, map, filter, arith, ltb, leb, length, contains, is_some,
  if◌then◌else◌, Among, All-Among, eq_refl,
}
use kube_hardware_autoscaler.Crd.Amounts.{ResourceAmounts}
use kube_hardware_autoscaler.Membership.Resolve.{contains-sort_names}
use kube_hardware_autoscaler.Scaling.Members.{Member, PoolSnapshot}
use kube_hardware_autoscaler.Scaling.Up.{online_now}
use kube_hardware_autoscaler.Scaling.Idle.{
  Held, candidates, is_eligible, expired, released, over_max, blocked_reason,
}
use kube_hardware_autoscaler.Scaling.Down.{Off, scale_down}
use kube_hardware_autoscaler.Scaling.Down.Guards.{Justified, scale_down-Justified, acting_unblocked}
use kube_hardware_autoscaler.Scaling.Down.Limits.{scale_down_limits}
use kube_hardware_autoscaler.Scaling.Agree.{Needed, unless_blocked, needs, releasable}

contains_listed :
    (p : Member → Bool) (ms : List Member) (m : Member)
    → Among m ms
    → p m ≡ true
    → contains (map (λ x. x.name) (filter p ms)) m.name ≡ true
contains_listed p [] m h e = absurd h
contains_listed p (x ∷ xs) m (inl same) e =
    subst (λ y. contains (map (λ z. z.name) (filter p (y ∷ xs))) m.name ≡ true) same
      (simp (e, eq_refl))
contains_listed p (x ∷ xs) m (inr h) e = ground (arith, contains_listed p xs m h e)

contained_nonempty : (k : String) (names : List String) → contains names k ≡ true → 1 ≤ length names
contained_nonempty k [] h = cc
contained_nonempty k (n ∷ ns) h = omega arith

not_kept :
    (above clear ex rel : Bool)
    → ((above && clear) || (ex || rel)) ≡ true
    → above ≡ false
    → (not ex && not rel) ≡ false
not_kept above clear ex rel h a = ground arith

zero_not_above : (n : ℕ) → n ≡ 0 → ltb 0 n ≡ false
zero_not_above n h = ground arith

if_false :
    (c : Bool) (x y : Option Needed)
    → c ≡ false
    → is_some y ≡ false
    → is_some (if c then x else y) ≡ false
if_false c x y h k = ground arith

nonempty : (os : List Off) (o : Off) → Among o os → os ≢ []
nonempty [] o m e = absurd m
nonempty (x ∷ xs) o m e = cc

enough_left :
    (online min_online gone : ℕ)
    → 1 ≤ gone
    → (gone ≡ 0) ⊎ (min_online + gone ≤ online)
    → leb online min_online ≡ false
enough_left online min_online gone h k = ground arith

module _ (at_threshold : ResourceAmounts → ResourceAmounts → ℕ → Bool) (s : PoolSnapshot) where
  unless_blocked_none :
      (o : Option Held)
      → is_some o ≡ false
      → leb (online_now s) s.spec.min_online ≡ false
      → is_some (unless_blocked at_threshold s o) ≡ false
  unfolding unless_blocked
  unless_blocked_none none h e = simp e
  unless_blocked_none (some r) h e = cc

  needs_nothing :
      (m : Member)
      → is_eligible at_threshold s m ≡ true
      → over_max at_threshold s ≡ 0
      → is_some (blocked_reason at_threshold s) ≡ false
      → leb (online_now s) s.spec.min_online ≡ false
      → is_some (needs at_threshold s m) ≡ false
  unfolding needs
  needs_nothing m e z b l =
      if_false (not (expired at_threshold s m) && not (released at_threshold s m)) _ _
        (not_kept (ltb 0 (over_max at_threshold s)) _ (expired at_threshold s m)
          (released at_threshold s m) e (zero_not_above (over_max at_threshold s) z))
        (unless_blocked_none (blocked_reason at_threshold s) b l)

  -- A pool that is not above `maxOnline` only powers off machines that it offers to the other pools:
  -- a machine powered off is listed in `status.releasable` of the same cycle.
  pub power_off_releasable :
      (o : Off)
      → over_max at_threshold s ≡ 0
      → Among o (scale_down at_threshold s).power_off
      → contains (releasable at_threshold s) o.member ≡ true
  unfolding releasable
  power_off_releasable o z off =
      let r = scale_down at_threshold s in
      let (m, j) =
        All-Among (Justified at_threshold s) r.power_off o (scale_down-Justified at_threshold s)
          off in
      let (within, recorded) = scale_down_limits at_threshold s in
      let gone = All-Among (λ x. contains r.removed x.member ≡ true) r.power_off o recorded off in
      let some_gone = contained_nonempty o.member r.removed gone in
      let names =
        map (λ x. x.name)
          (filter (λ x. not (is_some (needs at_threshold s x))) (candidates at_threshold s)) in
      let free =
        needs_nothing m j.1.0.1 z (acting_unblocked at_threshold s (nonempty r.power_off o off))
          (enough_left (online_now s) s.spec.min_online (length r.removed) some_gone within.1) in
      contains-sort_names o.member names
      ∙ subst (λ k. contains names k ≡ true) (sym j.0)
          (contains_listed (λ x. not (is_some (needs at_threshold s x))) (candidates at_threshold s)
            m j.1.0.0.0 (ap not free))
