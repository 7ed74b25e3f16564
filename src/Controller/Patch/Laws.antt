-- ===== src/Controller/Patch/Laws.antt =====
-- What a status patch does to each field (`merge_diff`, src/controller/mod.rs).
use kube_hardware_autoscaler.Base.{
  String, ◌≡◌, refl, ◌∙◌, ap, inl, inr, Option, none, some, arith, str_eq, eq_iff, if◌then◌else◌,
  is_some, Bool-cases,
}
use kube_hardware_autoscaler.Controller.Patch.{
  Json, null, Fields, end, field, get, put, is_value, changed, removed, as_object, merge_diff,
}

-- A map has each key once.
abbrev pub Distinct : Fields → Type 0
Distinct end = Unit
Distinct (field k v m) = (get k m ≡ none) × Distinct m

pub get-put :
    (j k : String) (v : Json) (m : Fields)
    → get j (put k v m) ≡ (if str_eq k j then some v else get j m)
get-put j k v end = refl
get-put j k v (field i w m) = ground (arith, eq_iff k j, eq_iff i k, eq_iff i j, get-put j k v m)

-- What the first loop puts for a field, and the second.
abbrev pub change : Option Json → Option Json → Option Json → Option Json
change was none patch = patch
change was (some v) patch = if is_value was v then patch else some v

abbrev pub removal : Option Json → Option Json → Option Json → Option Json
removal now none patch = patch
removal now (some w) patch = if is_some now then patch else some null

get-changed :
    (j : String) (old new patch : Fields)
    → Distinct new
    → get j (changed old new patch) ≡ change (get j old) (get j new) (get j patch)
unfolding changed
get-changed j old end patch d = refl
get-changed j old (field k v new) patch d = ground (
  arith,
  eq_iff k j,
  get-put j k v patch,
  d.0,
  get-changed j old new (if is_value (get k old) v then patch else put k v patch) d.1,
)

get-removed :
    (j : String) (new old patch : Fields)
    → get j (removed new old patch) ≡ removal (get j new) (get j old) (get j patch)
unfolding removed
get-removed j new end patch = refl
get-removed j new (field k v old) patch = ground (
  arith,
  eq_iff k j,
  get-put j k null patch,
  get-removed j new old (if is_some (get k new) then patch else put k null patch),
)

put-Distinct : (k : String) (v : Json) (m : Fields) → Distinct m → Distinct (put k v m)
put-Distinct k v end d = (refl, tt)
put-Distinct k v (field j w m) d =
    ground (arith, eq_iff j k, eq_iff k j, get-put j k v m, put-Distinct k v m d.1)

changed-Distinct : (old new patch : Fields) → Distinct patch → Distinct (changed old new patch)
unfolding changed
changed-Distinct old end patch d = d
changed-Distinct old (field k v new) patch d = elim (Bool-cases (is_value (get k old) v)) [
  | inl e ↦ rw e (changed-Distinct old new patch d)
  | inr e ↦ rw e (changed-Distinct old new (put k v patch) (put-Distinct k v patch d))
]

removed-Distinct : (new old patch : Fields) → Distinct patch → Distinct (removed new old patch)
unfolding removed
removed-Distinct new end patch d = d
removed-Distinct new (field k v old) patch d = elim (Bool-cases (is_some (get k new))) [
  | inl e ↦ rw e (removed-Distinct new old patch d)
  | inr e ↦ rw e (removed-Distinct new old (put k null patch) (put-Distinct k null patch d))
]

pub merge_diff-Distinct : (old new : Json) → Distinct (merge_diff old new)
unfolding merge_diff
merge_diff-Distinct old new =
    removed-Distinct (as_object new) (as_object old) _
      (changed-Distinct (as_object old) (as_object new) end tt)

-- The fields of the patch.
pub get-merge_diff :
    (k : String) (old new : Json)
    → Distinct (as_object new)
    → get k (merge_diff old new)
      ≡ removal
          (get k (as_object new))
          (get k (as_object old))
          (change (get k (as_object old)) (get k (as_object new)) none)
unfolding merge_diff
get-merge_diff k old new d =
    get-removed k (as_object new) (as_object old) (changed (as_object old) (as_object new) end)
    ∙ ap (removal (get k (as_object new)) (get k (as_object old)))
        (get-changed k (as_object old) (as_object new) end d)
