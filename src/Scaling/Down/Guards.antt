-- ===== src/Scaling/Down/Guards.antt =====
-- Which machines may be powered off, and when (`plan`, src/scaling.rs).
use kube_hardware_autoscaler.Base.{
  Among, All-both, All-Among_self, ℕ, ◌-◌, Bool, true, false, not, ◌≡◌, ◌≢◌, refl, inl, inr, Option,
  none, some, List, [], ◌∷◌, arith, ltb, leb, length, any, filter, is_empty, is_some, if◌then◌else◌,
  Bool-cases, All, All-append, All-filter,
}
use kube_hardware_autoscaler.Crd.Amounts.{ResourceAmounts}
use kube_hardware_autoscaler.Scaling.Members.{
  MemberState, Member, PoolSnapshot, state_eq, may_power_off,
}
use kube_hardware_autoscaler.Scaling.Order.{insert_sorted, sort_by, power_on_order, is_gt}
use kube_hardware_autoscaler.Scaling.Up.{online_now, relevant, power_on}
use kube_hardware_autoscaler.Scaling.Moves.{Free}
use kube_hardware_autoscaler.Scaling.Idle.{
  candidates, eligible, is_eligible, blocked_reason, over_max, Held, scaling_up, disabled, pending,
  booting,
}
use kube_hardware_autoscaler.Scaling.Down.{
  Off, Removing, move_pods, release, within_limits, unless_held, holds_of, budget, remove_one,
  remove_all, nothing_removed, may_remove, scale_down,
}

insert_sorted-All :
    (P : Member → Type 0) (cmp : Member → Member → _) (m : Member) (ms : List Member)
    → P m
    → All P ms
    → All P (insert_sorted cmp m ms)
insert_sorted-All P cmp m [] h hs = (h, tt)
insert_sorted-All P cmp m (n ∷ ns) h hs = elim (Bool-cases (is_gt (cmp m n))) [
  | inl e ↦ rw e (hs.0, insert_sorted-All P cmp m ns h hs.1)
  | inr e ↦ rw e (h, hs)
]

sort_by-All :
    (P : Member → Type 0) (cmp : Member → Member → _) (ms : List Member)
    → All P ms
    → All P (sort_by cmp ms)
sort_by-All P cmp [] hs = tt
sort_by-All P cmp (m ∷ ms) hs =
    insert_sorted-All P cmp m (sort_by cmp ms) hs.0 (sort_by-All P cmp ms hs.1)

filter-All :
    (P : Member → Type 0) (p : Member → Bool) (ms : List Member)
    → All P ms
    → All (λ m. P m × (p m ≡ true)) (filter p ms)
filter-All P p [] hs = tt
filter-All P p (m ∷ ms) hs = elim (Bool-cases (p m)) [
  | inl e ↦ rw e ((hs.0, e), filter-All P p ms hs.1)
  | inr e ↦ rw e (filter-All P p ms hs.1)
]

free_to_act :
    (none_on above on pods boots : Bool) (n : ℕ) (hold : Option Held)
    → is_some (
        if not none_on
        then some scaling_up
        else if above
        then none
        else if not on
        then some disabled
        else if pods
        then some (pending n)
        else if boots
        then some booting
        else hold)
      ≡ false
    → (none_on ≡ true) × (above ≡ false → (on ≡ true) × (pods ≡ false) × (boots ≡ false))
free_to_act true true on pods boots n hold h = (refl, λ e. cc)
free_to_act true false true false false n hold h = (refl, λ e. (refl, refl, refl))
free_to_act none_on above on pods boots n hold h = ground arith

zero_not_above : (n : ℕ) → n ≡ 0 → ltb 0 n ≡ false
zero_not_above n h = ground arith

none_pending : (n : ℕ) → ltb 0 n ≡ false → n ≡ 0
none_pending n h = ground arith

module _ (at_threshold : ResourceAmounts → ResourceAmounts → ℕ → Bool) (s : PoolSnapshot) where
  -- The machine is a candidate, online and managed automatically, and eligible.
  abbrev Willing : Member → Type 0
  Willing m =
      (Among m (candidates at_threshold s) × (may_power_off m ≡ true))
      × (is_eligible at_threshold s m ≡ true)

  -- A power-off of the plan: of a willing machine that no other pool holds.
  abbrev pub Justified : Off → Type 0
  Justified o =
      (m : Member) × ((o.member ≡ m.name) × (Willing m × (holds_of at_threshold s m ≡ none)))

  eligible-Willing : All Willing (eligible at_threshold s)
  eligible-Willing =
      let cands = candidates at_threshold s in
      filter-All (λ m. Among m cands × (may_power_off m ≡ true)) (is_eligible at_threshold s) cands
        (All-both _ _ cands (All-Among_self cands) (
          sort_by-All (λ m. may_power_off m ≡ true) (λ a b. power_on_order s.spec b a)
            (filter may_power_off s.members) (All-filter may_power_off s.members)))

  release-Justified :
      (m : Member) (rest : List Member) (trial : Option Free) (r : Removing)
      → Willing m
      → holds_of at_threshold s m ≡ none
      → All Justified r.power_off
      → All Justified (release at_threshold s m rest trial r).power_off
  unfolding release
  release-Justified m rest none r w free h = h
  release-Justified m rest (some trial) r w free h =
      All-append Justified r.power_off _ h ((m, (refl, (w, free))), tt)

  unless_held-Justified :
      (m : Member) (rest : List Member) (holds : Option _) (r : Removing)
      → Willing m
      → holds_of at_threshold s m ≡ holds
      → All Justified r.power_off
      → All Justified (unless_held at_threshold s m rest holds r).power_off
  unfolding unless_held within_limits
  unless_held-Justified m rest (some holds) r w e h = h
  unless_held-Justified m rest none r w e h =
      elim (Bool-cases (leb (budget at_threshold s) (length r.removed))) [
        | inl a ↦ simp a h
        | inr a ↦ elim (Bool-cases (leb (online_now s - length r.removed) s.spec.min_online)) [
          | inl b ↦ simp (a, b) h
          | inr b ↦ simp (a, b) (release-Justified m rest (move_pods at_threshold s m r) r w e h)
        ]
      ]

  remove_all-Justified :
      (ms : List Member) (r : Removing)
      → All Willing ms
      → All Justified r.power_off
      → All Justified (remove_all at_threshold s ms r).power_off
  unfolding remove_all remove_one
  remove_all-Justified [] r ws h = h
  remove_all-Justified (m ∷ ms) r ws h =
      remove_all-Justified ms (remove_one at_threshold s m ms r) ws.1
        (unless_held-Justified m ms (holds_of at_threshold s m) r ws.0 refl h)

  -- A machine is powered off only if it is a candidate, online, managed automatically and held by no other pool
  -- that selects it, and only for a reason: the pool is above `maxOnline` and nothing blocks the
  -- machine, it has been unneeded for long enough, or it was turned on by hand, its grace is over and
  -- nothing blocks it.
  pub scale_down-Justified : All Justified (scale_down at_threshold s).power_off
  unfolding scale_down
  scale_down-Justified = elim (Bool-cases (may_remove at_threshold s)) [
    | inl e ↦ simp e (
        remove_all-Justified (eligible at_threshold s) (nothing_removed at_threshold s)
          eligible-Willing tt)
    | inr e ↦ simp e tt
  ]

  -- What an absent reason to hold back means.
  abbrev Calm : Type 0
  Calm =
      (is_empty (power_on s) ≡ true)
      × (over_max at_threshold s ≡ 0
          → (s.spec.scale_down.enabled ≡ true)
            × ((length (relevant s) ≡ 0)
                × (any (λ m. state_eq m.state MemberState.booting) s.members ≡ false)))

  blocked_reason-Calm : is_some (blocked_reason at_threshold s) ≡ false → Calm
  unfolding blocked_reason
  blocked_reason-Calm h =
      let (none_on, rest) =
        free_to_act (is_empty (power_on s)) (ltb 0 (over_max at_threshold s))
          s.spec.scale_down.enabled (ltb 0 (length (relevant s)))
          (any (λ m. state_eq m.state MemberState.booting) s.members) _ _ h in
      (
        none_on,
        λ z.
            let (on, no_pods, no_boot) = rest (zero_not_above (over_max at_threshold s) z) in
            (on, (none_pending (length (relevant s)) no_pods, no_boot)),
      )

  pub acting_unblocked :
      (scale_down at_threshold s).power_off ≢ [] → is_some (blocked_reason at_threshold s) ≡ false
  unfolding scale_down
  acting_unblocked h = elim (Bool-cases (is_some (blocked_reason at_threshold s))) [
    | inl e ↦ absurd (h (simp e))
    | inr e ↦ e
  ]

  acting-Calm : (scale_down at_threshold s).power_off ≢ [] → Calm
  acting-Calm h = blocked_reason-Calm (acting_unblocked h)

  -- No machine is powered off in a cycle that powers one on.
  pub one_direction : (scale_down at_threshold s).power_off ≢ [] → is_empty (power_on s) ≡ true
  one_direction h = (acting-Calm h).0

  -- A pool that is not above `maxOnline` powers machines off only in calm: scaling down is enabled,
  -- no pending pod could run on a machine that is off or booting, and no machine is booting.
  pub scale_down_calm :
      (scale_down at_threshold s).power_off ≢ []
      → over_max at_threshold s ≡ 0
      → (s.spec.scale_down.enabled ≡ true)
        × ((length (relevant s) ≡ 0)
            × (any (λ m. state_eq m.state MemberState.booting) s.members ≡ false))
  scale_down_calm h z = (acting-Calm h).1 z
