-- ===== src/Scaling/Up/Limits.antt =====
-- How many machines one cycle powers on (`plan`, src/scaling.rs).
use kube_hardware_autoscaler.Base.{
  ℕ, ◌+◌, ◌-◌, ◌<◌, ◌≤◌, max, true, ◌≡◌, refl, ◌⊎◌, inl, inr, Option, none, some, List, [], ◌∷◌,
  ◌++◌, arith, length, length-append, Bool-cases,
}
use kube_hardware_autoscaler.Scaling.Fit.{PodView}
use kube_hardware_autoscaler.Scaling.Members.{Member, PoolSnapshot}
use kube_hardware_autoscaler.Scaling.Order.{largest_first}
use kube_hardware_autoscaler.Scaling.Up.{
  Opened, Opening, max_online, up_step, online_now, relevant, place, can_open, take_first, Unplaced,
  open_found, open_unless, place_in, place_pod, place_pods, wants_more, filled, fill_with, fill_min,
  start, power_on,
}

module _ (s : PoolSnapshot) where
  -- The limits of the pool hold for what has been opened so far.
  abbrev Within : ℕ → List Opened → Type 0
  Within limit opened =
      (length opened ≤ limit)
      × ((length opened ≡ 0) ⊎ (online_now s + length opened ≤ max_online s.spec))

  can_open-Within :
      (opened : List Opened) (o : Opened)
      → up_step s.spec < 4294967296
      → Within (up_step s.spec) opened
      → can_open s opened ≡ none
      → Within (up_step s.spec) (opened ++ (o ∷ []))
  can_open-Within opened o small h free = ground (arith, length-append opened (o ∷ []))

  open_found-Within :
      (pod : PodView) (found : Option (Member × List Member × List Member)) (o : Opening)
      → up_step s.spec < 4294967296
      → Within (up_step s.spec) o.opened
      → can_open s o.opened ≡ none
      → Within (up_step s.spec) (open_found s pod found o).opened
  unfolding open_found
  open_found-Within pod none o small h free = h
  open_found-Within pod (some found) o small h free = can_open-Within o.opened _ small h free

  open_unless-Within :
      (pod : PodView) (why : Option Unplaced) (o : Opening)
      → up_step s.spec < 4294967296
      → Within (up_step s.spec) o.opened
      → can_open s o.opened ≡ why
      → Within (up_step s.spec) (open_unless s pod why o).opened
  unfolding open_unless
  open_unless-Within pod (some why) o small h e = h
  open_unless-Within pod none o small h e =
      open_found-Within pod (take_first s pod o.offline) o small h e

  place_in-Within :
      (pod : PodView) (bins : Option _) (o : Opening)
      → up_step s.spec < 4294967296
      → Within (up_step s.spec) o.opened
      → Within (up_step s.spec) (place_in s pod bins o).opened
  unfolding place_in
  place_in-Within pod (some bins) o small h = h
  place_in-Within pod none o small h = open_unless-Within pod (can_open s o.opened) o small h refl

  place_pod-Within :
      (pod : PodView) (o : Opening)
      → up_step s.spec < 4294967296
      → Within (up_step s.spec) o.opened
      → Within (up_step s.spec) (place_pod s pod o).opened
  unfolding place_pod
  place_pod-Within pod o small h = elim (Bool-cases s.spec.scale_up.enabled) [
    | inr e ↦ simp e h
    | inl e ↦ simp e (place_in-Within pod (place s pod o.bins) o small h)
  ]

  place_pods-Within :
      (pods : List PodView) (o : Opening)
      → up_step s.spec < 4294967296
      → Within (up_step s.spec) o.opened
      → Within (up_step s.spec) (place_pods s pods o).opened
  unfolding place_pods
  place_pods-Within [] o small h = h
  place_pods-Within (p ∷ ps) o small h =
      place_pods-Within ps (place_pod s p o) small (place_pod-Within p o small h)

  -- Opening for `minOnline` stops at it.
  abbrev fill_limit : ℕ
  fill_limit = max (up_step s.spec) (s.spec.min_online - online_now s)

  fill_with-Within :
      (m : Member) (rest : List Member) (opened : List Opened)
      → Within fill_limit opened
      → wants_more s opened ≡ true
      → Within fill_limit (fill_with s m rest opened)
  fill_with-Within m rest opened h more =
      let n = length-append opened (filled s m rest ∷ []) in ground arith

  fill_min-Within :
      (offline : List Member) (opened : List Opened)
      → Within fill_limit opened
      → Within fill_limit (fill_min s offline opened)
  unfolding fill_min
  fill_min-Within [] opened h = h
  fill_min-Within (m ∷ rest) opened h = elim (Bool-cases (wants_more s opened)) [
    | inr e ↦ rw e h
    | inl e ↦
        rw e (fill_min-Within rest (fill_with s m rest opened) (fill_with-Within m rest opened h e))
  ]

-- One cycle powers on at most `maxNodesPerStep` machines (but at least one), or as many as the pool
-- lacks of `minOnline` where those are more; and if it powers on any, the machines online or booting
-- and those powered on are together at most `maxOnline`. `maxNodesPerStep` is a `u32`.
pub power_on_limits :
    (s : PoolSnapshot)
    → s.spec.scale_up.max_nodes_per_step < 4294967296
    → (length (power_on s) ≤ max (up_step s.spec) (s.spec.min_online - online_now s))
      × ((length (power_on s) ≡ 0) ⊎ (online_now s + length (power_on s) ≤ max_online s.spec))
unfolding power_on
power_on_limits s small =
    let o = place_pods s (largest_first (relevant s)) (start s) in
    let h =
      place_pods-Within s (largest_first (relevant s)) (start s) (ground arith) (ground arith) in
    fill_min-Within s o.offline o.opened (ground arith)
