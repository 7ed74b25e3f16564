-- ===== src/Scaling/Up/Choice.antt =====
-- Which machines one cycle powers on (`plan`, src/scaling.rs).
use kube_hardware_autoscaler.Base.{
  ℕ, suc, ◌+◌, ◌≤◌, String, Bool, true, false, ◌≡◌, refl, ◌∙◌, Option, none, some, List, [], ◌∷◌,
  ◌++◌, arith, str_eq, filter, map, if◌then◌else◌,
}
use kube_hardware_autoscaler.Scaling.Fit.{PodView}
use kube_hardware_autoscaler.Scaling.Members.{Member, PoolSnapshot, may_power_on, pod_fits}
use kube_hardware_autoscaler.Scaling.Order.{largest_first, insert_sorted, sort_by, power_on_order}
use kube_hardware_autoscaler.Scaling.Up.{
  Opened, Opening, Unplaced, relevant, place, can_open, take_first, open_found, open_unless,
  opened_for, place_in, place_pod, place_pods, filled, fill_with, fill_min, start, power_on,
}

-- How often a name occurs.
abbrev pub occurrences : String → List String → ℕ
occurrences k [] = 0
occurrences k (x ∷ xs) = if str_eq x k then suc (occurrences k xs) else occurrences k xs

abbrev pub names : List Member → List String
names ms = map (λ m. m.name) ms

abbrev pub opened_names : List Opened → List String
opened_names os = map (λ o. o.member) os

names-append :
    (k : String) (xs ys : List Member)
    → occurrences k (names (xs ++ ys)) ≡ occurrences k (names xs) + occurrences k (names ys)
names-append k [] ys = omega arith
names-append k (x ∷ xs) ys = ground (arith, names-append k xs ys)

opened_names-append :
    (k : String) (xs ys : List Opened)
    → occurrences k (opened_names (xs ++ ys))
      ≡ occurrences k (opened_names xs) + occurrences k (opened_names ys)
opened_names-append k [] ys = omega arith
opened_names-append k (x ∷ xs) ys = ground (arith, opened_names-append k xs ys)

insert_sorted-names :
    (k : String) (cmp : Member → Member → _) (m : Member) (ms : List Member)
    → occurrences k (names (insert_sorted cmp m ms)) ≡ occurrences k (names (m ∷ ms))
insert_sorted-names k cmp m [] = refl
insert_sorted-names k cmp m (n ∷ ns) = ground (arith, insert_sorted-names k cmp m ns)

sort_by-names :
    (k : String) (cmp : Member → Member → _) (ms : List Member)
    → occurrences k (names (sort_by cmp ms)) ≡ occurrences k (names ms)
sort_by-names k cmp [] = refl
sort_by-names k cmp (m ∷ ms) =
    ground (arith, insert_sorted-names k cmp m (sort_by cmp ms), sort_by-names k cmp ms)

module _ (s : PoolSnapshot) (k : String) where
  abbrev Found : Type 0
  Found = Member × List Member × List Member

  -- What is taken for a pod comes from the list.
  abbrev Splits : List Member → Option Found → Type 0
  Splits ms none = Unit
  Splits ms (some f) = occurrences k (names ms) ≡ occurrences k (f.0.name ∷ names (f.1 ++ f.2))

  take_first_step :
      (m : Member) (ms : List Member) (fits : Bool) (rest : Option Found)
      → Splits ms rest
      → Splits (m ∷ ms) (
          if fits
          then some (m, [], ms)
          else elim rest [ none ↦ none | some f ↦ some (f.0, m ∷ f.1, f.2) ])
  take_first_step m ms true rest h = refl
  take_first_step m ms false none h = tt
  take_first_step m ms false (some f) h = ground arith

  take_first-Splits : (pod : PodView) (ms : List Member) → Splits ms (take_first s pod ms)
  take_first-Splits pod [] = tt
  take_first-Splits pod (m ∷ ms) =
      take_first_step m ms (pod_fits pod m m.allocatable) (take_first s pod ms)
        (take_first-Splits pod ms)

  -- Opened and still off, together.
  abbrev total : Opening → ℕ
  total o = occurrences k (opened_names o.opened) + occurrences k (names o.offline)

  total-open_found :
      (pod : PodView) (found : Option Found) (o : Opening)
      → Splits o.offline found
      → total (open_found s pod found o) ≡ total o
  unfolding open_found
  total-open_found pod none o h = refl
  total-open_found pod (some f) o h =
      let n = opened_names-append k o.opened (opened_for s pod f.0 f.2 ∷ []) in ground arith

  total-open_unless :
      (pod : PodView) (why : Option Unplaced) (o : Opening)
      → total (open_unless s pod why o) ≡ total o
  unfolding open_unless
  total-open_unless pod (some why) o = refl
  total-open_unless pod none o =
      total-open_found pod (take_first s pod o.offline) o (take_first-Splits pod o.offline)

  total-place_in :
      (pod : PodView) (bins : Option _) (o : Opening) → total (place_in s pod bins o) ≡ total o
  unfolding place_in
  total-place_in pod (some bins) o = refl
  total-place_in pod none o = total-open_unless pod (can_open s o.opened) o

  total-place_pod : (pod : PodView) (o : Opening) → total (place_pod s pod o) ≡ total o
  unfolding place_pod
  total-place_pod pod o = ground (arith, total-place_in pod (place s pod o.bins) o)

  total-place_pods : (pods : List PodView) (o : Opening) → total (place_pods s pods o) ≡ total o
  unfolding place_pods
  total-place_pods [] o = refl
  total-place_pods (p ∷ ps) o = total-place_pods ps (place_pod s p o) ∙ total-place_pod p o

  fill_min_total :
      (offline : List Member) (opened : List Opened)
      → occurrences k (opened_names (fill_min s offline opened))
        ≤ occurrences k (opened_names opened) + occurrences k (names offline)
  unfolding fill_min
  fill_min_total [] opened = omega arith
  fill_min_total (m ∷ rest) opened =
      let n = opened_names-append k opened (filled s m rest ∷ []) in
      ground (arith, fill_min_total rest (fill_with s m rest opened))

-- Only machines that are off and managed automatically are powered on, each at most as often as the
-- pool has it: a name occurs no more often in the plan's power-ons than among those machines.
pub power_on_chosen :
    (s : PoolSnapshot) (k : String)
    → occurrences k (opened_names (power_on s))
      ≤ occurrences k (names (filter may_power_on s.members))
unfolding power_on
power_on_chosen s k =
    let o = place_pods s (largest_first (relevant s)) (start s) in
    let kept = total-place_pods s k (largest_first (relevant s)) (start s) in
    let sorted = sort_by-names k (power_on_order s.spec) (filter may_power_on s.members) in
    let filled = fill_min_total s k o.offline o.opened in omega arith
