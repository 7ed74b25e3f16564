-- ===== src/Controller/Patch/Nested.antt =====
-- What the API server makes of a status patch (src/controller/mod.rs): the fields that are no
-- object, and the entries of a map.
use kube_hardware_autoscaler.Base.{
  String, Bool, true, false, ◌≡◌, refl, ◌∙◌, ap, inl, inr, Bool-cases, Option, none, some,
  if◌then◌else◌, unwrap_or,
}
use kube_hardware_autoscaler.Controller.Patch.{
  Json, null, atom, obj, Fields, get, is_value, json_eq, as_object, merge_diff,
}
use kube_hardware_autoscaler.Controller.Patch.Laws.{
  Distinct, change, removal, get-merge_diff, merge_diff-Distinct,
}

-- What a JSON merge patch (RFC 7396) makes of one field, from the patch's field and the target's.
abbrev pub merged : (Json → Json → Json) → Option Json → Option Json → Option Json
merged patch none cur = cur
merged patch (some null) cur = none
merged patch (some v) cur = some (patch (unwrap_or cur null) v)

-- The API server, which applies a merge patch to what it has stored.
pub record Server : Type 0 where
  pub patch : Json → Json → Json
  pub replaces : (t : Json) (s : String) → patch t (atom s) ≡ atom s
  pub merges :
      (t : Json) (p : Fields) (k : String)
      → Distinct p
      → get k (as_object (patch t (obj p))) ≡ merged patch (get k p) (get k (as_object t))

-- A value that is no object, or none.
abbrev pub IsFlat : Option Json → Type 0
IsFlat none = Unit
IsFlat (some (atom s)) = Unit
IsFlat (some null) = ⊥
IsFlat (some (obj m)) = ⊥

abbrev pub same : Option Json → Option Json → Bool
same none none = true
same (some w) (some v) = json_eq w v
same _ _ = false

flat_field :
    (server : Server) (was now cur : Option Json)
    → IsFlat now
    → merged server.patch (removal now was (change was now none)) cur
      ≡ (if same was now then cur else now)
flat_field server none none cur f = refl
flat_field server (some w) none cur f = refl
flat_field server none (some (atom s)) cur f = ap some (server.replaces (unwrap_or cur null) s)
flat_field server (some w) (some (atom s)) cur f = elim (Bool-cases (json_eq w (atom s))) [
  | inl e ↦ rw e refl
  | inr e ↦ rw e (ap some (server.replaces (unwrap_or cur null) s))
]
flat_field server was (some null) cur f = absurd f
flat_field server was (some (obj m)) cur f = absurd f

-- A status patch does for each field what it is meant to do, where the new status has no value there
-- or one that is no object: a field that the reconcile left alone keeps whatever another controller
-- has written meanwhile, and each other field comes out as in the new status (removed fields
-- included).
pub get-patched :
    (server : Server) (old new cur : Json) (k : String)
    → Distinct (as_object new)
    → IsFlat (get k (as_object new))
    → get k (as_object (server.patch cur (obj (merge_diff old new)))) ≡ (
        if same (get k (as_object old)) (get k (as_object new))
        then get k (as_object cur)
        else get k (as_object new))
get-patched server old new cur k d f =
    server.merges cur (merge_diff old new) k (merge_diff-Distinct old new)
    ∙ ap (λ p. merged server.patch p (get k (as_object cur))) (get-merge_diff k old new d)
    ∙ flat_field server (get k (as_object old)) (get k (as_object new)) (get k (as_object cur)) f

-- The fields of what is stored under a key.
abbrev pub map_at : String → Json → Fields
map_at k j = as_object (unwrap_or (get k (as_object j)) null)

map_field :
    (was : Option Json) (now : Fields)
    → is_value was (obj now) ≡ false
    → removal (some (obj now)) was (change was (some (obj now)) none) ≡ some (obj now)
map_field none now h = refl
map_field (some w) now h = rw h refl

-- The entries of a map are never removed one by one: where the new status has a map at a key, and it
-- is not the old one, an entry that the new map lacks stays on the server as it was.
pub stale_entry_stays :
    (server : Server) (old new cur : Json) (k j : String) (now : Fields)
    → Distinct (as_object new)
    → Distinct now
    → get k (as_object new) ≡ some (obj now)
    → is_value (get k (as_object old)) (obj now) ≡ false
    → get j now ≡ none
    → get j (map_at k (server.patch cur (obj (merge_diff old new)))) ≡ get j (map_at k cur)
stale_entry_stays server old new cur k j now d dn e c gone =
    let sent : get k (merge_diff old new) ≡ some (obj now) =
      get-merge_diff k old new d
      ∙ ap (λ n. removal n (get k (as_object old)) (change (get k (as_object old)) n none)) e
      ∙ map_field (get k (as_object old)) now c in
    let stored =
      server.merges cur (merge_diff old new) k (merge_diff-Distinct old new)
      ∙ ap (λ p. merged server.patch p (get k (as_object cur))) sent in
    ap (λ o. get j (as_object (unwrap_or o null))) stored
    ∙ server.merges (unwrap_or (get k (as_object cur)) null) now j dn
    ∙ ap (λ p. merged server.patch p (get j (map_at k cur))) gone
