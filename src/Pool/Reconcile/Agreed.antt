-- ===== src/Pool/Reconcile/Agreed.antt =====
-- What overlapping pools power off (`reconcile`, src/controller/node_scaling_pool.rs; `plan`,
-- src/scaling.rs).
use kube_hardware_autoscaler.Base.{
  ℕ, String, Bool, true, false, not, ◌≡◌, ◌≢◌, ◌∙◌, sym, ◌⊎◌, inl, inr, Option, none, List, [], ◌∷◌,
  arith, ap, str_eq, eq_iff, lookup, insert, is_empty, is_some_and, filter_option, All, Among,
  All-Among,
}
use kube_hardware_autoscaler.Base.Time.{Time}
use kube_hardware_autoscaler.Crd.Amounts.{ResourceAmounts}
use kube_hardware_autoscaler.Membership.{Pool}
use kube_hardware_autoscaler.Scaling.Down.{Off, scale_down}
use kube_hardware_autoscaler.Scaling.Down.Guards.{Justified, scale_down-Justified}
use kube_hardware_autoscaler.Pool.Agreement.{releases, no_holds_agreed}
use kube_hardware_autoscaler.Pool.Reconcile.{
  Config, View, Holds, member_of, is_managed, holds_for, note_holds, kept_from, snapshot,
}

-- Some pool holds the machine.
abbrev is_held : String → Holds → Bool
is_held k kept = is_some_and (lookup k kept) (λ h. not (is_empty h))

is_held-insert_other :
    (k j : String) (h : List (String × String)) (kept : Holds)
    → is_empty h ≡ false
    → is_held k kept ≡ true
    → is_held k (insert j h kept) ≡ true
is_held-insert_other k j h [] e held = ground arith
is_held-insert_other k j h ((i, g) ∷ kept) e held =
    ground (arith, eq_iff k j, eq_iff i k, eq_iff i j, is_held-insert_other k j h kept e)

is_held-insert :
    (k : String) (h : List (String × String)) (kept : Holds)
    → is_empty h ≡ false
    → is_held k (insert k h kept) ≡ true
is_held-insert k h [] e = ground (arith, eq_iff k k)
is_held-insert k h ((i, g) ∷ kept) e =
    ground (arith, eq_iff k k, eq_iff i k, is_held-insert k h kept e)

true_not_false : true ≢ false
true_not_false h = cc

module _ (w : View) (pool : Pool) where
  note_holds-held :
      (c : Config) (k : String) (kept : Holds)
      → is_held k kept ≡ true
      → is_held k (note_holds w pool c kept) ≡ true
  note_holds-held c k kept h =
      ground (arith, is_held-insert_other k c.name (holds_for w pool c) kept)

  kept_from-held :
      (cs : List Config) (k : String) (kept : Holds)
      → is_held k kept ≡ true
      → is_held k (kept_from w pool cs kept) ≡ true
  unfolding kept_from
  kept_from-held [] k kept h = h
  kept_from-held (c ∷ cs) k kept h =
      kept_from-held cs k (note_holds w pool c kept) (note_holds-held c k kept h)

  -- A managed machine that another pool holds is noted.
  abbrev Noted : Holds → Config → Type 0
  Noted kept c =
      is_managed w pool c ≡ true → (is_held c.name kept ≡ true) ⊎ (holds_for w pool c ≡ [])

  note_holds-Noted : (c : Config) (kept : Holds) → Noted (note_holds w pool c kept) c
  note_holds-Noted c kept m = ground (arith, is_held-insert c.name (holds_for w pool c) kept)

  kept_from-Noted : (cs : List Config) (kept : Holds) → All (Noted (kept_from w pool cs kept)) cs
  unfolding kept_from
  kept_from-Noted [] kept = tt
  kept_from-Noted (c ∷ cs) kept =
      let now = note_holds w pool c kept in
      (
        λ m. elim (note_holds-Noted c kept m) [
          | inl h ↦ inl (kept_from-held cs c.name now h)
          | inr e ↦ inr e
        ],
        kept_from-Noted cs now,
      )

  -- Every other pool that selects the machine lists it as releasable.
  abbrev pub Agreed : Config → Type 0
  Agreed c =
      All (λ p. (str_eq p pool.name ≡ true) ⊎ (releases c.name w.pools p ≡ true))
        (member_of w pool c)

  not_held :
      (k : String) (kept : Holds)
      → filter_option (lookup k kept) (λ h. not (is_empty h)) ≡ none
      → is_held k kept ≡ false
  not_held k kept h = ground arith

  Noted-Agreed :
      (kept : Holds) (k : String) (c : Config)
      → is_held k kept ≡ false
      → Noted kept c
      → c.name ≡ k
      → is_managed w pool c ≡ true
      → Agreed c
  Noted-Agreed kept k c free noted e m = elim (noted m) [
    | inl h ↦ absurd (true_not_false (sym h ∙ ap (λ x. is_held x kept) e ∙ free))
    | inr h ↦ no_holds_agreed c.name (member_of w pool c) pool.name w.pools h
  ]

  member_of-Agreed :
      (at_threshold : ResourceAmounts → ResourceAmounts → ℕ → Bool) (last_scale_up : Option Time)
      (unneeded_since : List (String × Time)) (o : Off) (c : Config)
      → Justified at_threshold (snapshot w pool last_scale_up unneeded_since) o
      → Noted (kept_from w pool w.configs []) c
      → c.name ≡ o.member
      → is_managed w pool c ≡ true
      → Agreed c
  unfolding snapshot
  member_of-Agreed at_threshold last_scale_up unneeded_since o c j noted e m =
      let kept = kept_from w pool w.configs [] in
      Noted-Agreed kept o.member c (ap (λ x. is_held x kept) j.1.0 ∙ not_held j.0.name kept j.1.1.1)
        noted e m

-- A machine that several pools select is powered off only together: where a cycle of a pool powers
-- off a machine that the pool selects, each other pool selecting it is known and lists it as
-- releasable. The utilization test, the last power-on and the times since when machines are unneeded
-- are arbitrary.
pub power_off-Agreed :
    (w : View) (pool : Pool) (at_threshold : ResourceAmounts → ResourceAmounts → ℕ → Bool)
    (last_scale_up : Option Time) (unneeded_since : List (String × Time)) (o : Off) (c : Config)
    → Among o (scale_down at_threshold (snapshot w pool last_scale_up unneeded_since)).power_off
    → Among c w.configs
    → c.name ≡ o.member
    → is_managed w pool c ≡ true
    → Agreed w pool c
power_off-Agreed w pool at_threshold last_scale_up unneeded_since o c off config e m =
    let s = snapshot w pool last_scale_up unneeded_since in
    member_of-Agreed w pool at_threshold last_scale_up unneeded_since o c
      (All-Among (Justified at_threshold s) (scale_down at_threshold s).power_off o
        (scale_down-Justified at_threshold s) off)
      (All-Among (Noted w pool (kept_from w pool w.configs [])) w.configs c
        (kept_from-Noted w pool w.configs []) config)
      e m
