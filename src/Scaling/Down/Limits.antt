-- ===== src/Scaling/Down/Limits.antt =====
-- How many machines one cycle powers off (`plan`, src/scaling.rs).
use kube_hardware_autoscaler.Base.{
  eq_refl, ℕ, ◌+◌, ◌-◌, ◌≤◌, String, Bool, true, false, ◌≡◌, refl, ◌⊎◌, inl, inr, Option, none,
  some, List, [], ◌∷◌, arith, leb, length, contains, Bool-cases, All, All-append, All-mono,
}
use kube_hardware_autoscaler.Crd.Amounts.{ResourceAmounts}
use kube_hardware_autoscaler.Scaling.Members.{Member, PoolSnapshot}
use kube_hardware_autoscaler.Scaling.Up.{online_now}
use kube_hardware_autoscaler.Scaling.Moves.{Free}
use kube_hardware_autoscaler.Scaling.Idle.{eligible}
use kube_hardware_autoscaler.Scaling.Down.{
  Removing, budget, move_pods, release, within_limits, unless_held, holds_of, remove_one,
  remove_all, nothing_removed, may_remove, scale_down,
}

module _ (at_threshold : ResourceAmounts → ResourceAmounts → ℕ → Bool) (s : PoolSnapshot) where
  -- The machines removed so far respect the budget and `minOnline`.
  abbrev pub Within : Removing → Type 0
  Within r =
      (length r.removed ≤ budget at_threshold s)
      × ((length r.removed ≡ 0) ⊎ (s.spec.min_online + length r.removed ≤ online_now s))

  release-Within :
      (m : Member) (rest : List Member) (trial : Option Free) (r : Removing)
      → leb (budget at_threshold s) (length r.removed) ≡ false
      → leb (online_now s - length r.removed) s.spec.min_online ≡ false
      → Within r
      → Within (release at_threshold s m rest trial r)
  unfolding release
  release-Within m rest none r b o h = h
  release-Within m rest (some trial) r b o h = ground arith

  within_limits-Within :
      (m : Member) (rest : List Member) (r : Removing)
      → Within r
      → Within (within_limits at_threshold s m rest r)
  unfolding within_limits
  within_limits-Within m rest r h =
      ground (arith, release-Within m rest (move_pods at_threshold s m r) r)

  unless_held-Within :
      (m : Member) (rest : List Member) (holds : Option _) (r : Removing)
      → Within r
      → Within (unless_held at_threshold s m rest holds r)
  unfolding unless_held
  unless_held-Within m rest (some holds) r h = h
  unless_held-Within m rest none r h = within_limits-Within m rest r h

  remove_all-Within :
      (ms : List Member) (r : Removing) → Within r → Within (remove_all at_threshold s ms r)
  unfolding remove_all remove_one
  remove_all-Within [] r h = h
  remove_all-Within (m ∷ ms) r h =
      remove_all-Within ms (remove_one at_threshold s m ms r)
        (unless_held-Within m ms (holds_of at_threshold s m) r h)

  contains_self : (k : String) (names : List String) → contains (k ∷ names) k ≡ true
  contains_self k names = simp eq_refl

  contains-more :
      (k x : String) (names : List String) → contains names x ≡ true → contains (k ∷ names) x ≡ true
  contains-more k x names h = ground arith

  -- Every machine powered off is a removed one.
  abbrev pub Recorded : Removing → Type 0
  Recorded r = All (λ o. contains r.removed o.member ≡ true) r.power_off

  release-Recorded :
      (m : Member) (rest : List Member) (trial : Option Free) (r : Removing)
      → Recorded r
      → Recorded (release at_threshold s m rest trial r)
  unfolding release
  release-Recorded m rest none r h = h
  release-Recorded m rest (some trial) r h = elim (Bool-cases (contains r.removed m.name)) [
    | inl e ↦ rw e (All-append _ r.power_off _ h (e, tt))
    | inr e ↦ rw e (
        All-append _ r.power_off _
          (All-mono _ _ (λ o c. contains-more m.name o.member r.removed c) r.power_off h)
          (contains_self m.name r.removed, tt))
  ]

  unless_held-Recorded :
      (m : Member) (rest : List Member) (holds : Option _) (r : Removing)
      → Recorded r
      → Recorded (unless_held at_threshold s m rest holds r)
  unfolding unless_held within_limits
  unless_held-Recorded m rest (some holds) r h = h
  unless_held-Recorded m rest none r h =
      elim (Bool-cases (leb (budget at_threshold s) (length r.removed))) [
        | inl e ↦ simp e h
        | inr e ↦ elim (Bool-cases (leb (online_now s - length r.removed) s.spec.min_online)) [
          | inl f ↦ simp (e, f) h
          | inr f ↦ simp (e, f) (release-Recorded m rest (move_pods at_threshold s m r) r h)
        ]
      ]

  remove_all-Recorded :
      (ms : List Member) (r : Removing) → Recorded r → Recorded (remove_all at_threshold s ms r)
  unfolding remove_all remove_one
  remove_all-Recorded [] r h = h
  remove_all-Recorded (m ∷ ms) r h =
      remove_all-Recorded ms (remove_one at_threshold s m ms r)
        (unless_held-Recorded m ms (holds_of at_threshold s m) r h)

  pub scale_down_limits : Within (scale_down at_threshold s) × Recorded (scale_down at_threshold s)
  unfolding scale_down
  scale_down_limits = elim (Bool-cases (may_remove at_threshold s)) [
    | inl e ↦ simp e (
      remove_all-Within (eligible at_threshold s) (nothing_removed at_threshold s)
          (ground arith, inl refl),
      remove_all-Recorded (eligible at_threshold s) (nothing_removed at_threshold s) tt,
    )
    | inr e ↦ simp e ((ground arith, inl refl), tt)
  ]
