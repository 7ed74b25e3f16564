-- ===== src/Controller/Tests.antt =====
-- A server that applies merge patches (RFC 7396), and patches of a pool's status through it
-- (src/controller/mod.rs).
use kube_hardware_autoscaler.Base.{
  String, ◌≡◌, refl, none, arith, str_eq, eq_iff, if◌then◌else◌, unwrap_or,
}
use kube_hardware_autoscaler.Controller.Patch.{
  Json, null, atom, obj, Fields, end, field, get, put, json_eq, as_object, merge_diff,
}
use kube_hardware_autoscaler.Controller.Patch.Laws.{Distinct, get-put}
use kube_hardware_autoscaler.Controller.Patch.Nested.{
  Server, merged, same, map_at, get-patched, stale_entry_stays,
}

abbrev delete : String → Fields → Fields
delete k end = end
delete k (field j v m) = let rest = delete k m in if str_eq j k then rest else field j v rest

mutual
  merge : Json → Json → Json
  merge t null = null
  merge t (atom s) = atom s
  merge t (obj p) = obj (merge_fields (as_object t) p)

  merge_fields : Fields → Fields → Fields
  merge_fields t end = t
  merge_fields t (field k null p) = merge_fields (delete k t) p
  merge_fields t (field k (atom s) p) = merge_fields (put k (atom s) t) p
  merge_fields t (field k (obj q) p) =
      merge_fields (put k (merge (unwrap_or (get k t) null) (obj q)) t) p

get-delete :
    (j k : String) (m : Fields) → get j (delete k m) ≡ (if str_eq k j then none else get j m)
get-delete j k end = ground arith
get-delete j k (field i w m) = ground (arith, eq_iff k j, eq_iff i k, eq_iff i j, get-delete j k m)

merge_fields-merges :
    (t p : Fields) (k : String)
    → Distinct p
    → get k (merge_fields t p) ≡ merged merge (get k p) (get k t)
unfolding merge_fields
merge_fields-merges t end k d = refl
merge_fields-merges t (field j null p) k d =
    ground (arith, eq_iff j k, get-delete k j t, d.0, merge_fields-merges (delete j t) p k d.1)
merge_fields-merges t (field j (atom s) p) k d =
    unfold merge in
    ground (
      arith,
      eq_iff j k,
      get-put k j (atom s) t,
      d.0,
      merge_fields-merges (put j (atom s) t) p k d.1,
    )
merge_fields-merges t (field j (obj q) p) k d =
    let v = merge (unwrap_or (get j t) null) (obj q) in
    ground (arith, eq_iff j k, get-put k j v t, d.0, merge_fields-merges (put j v t) p k d.1)

merges :
    (t : Json) (p : Fields) (k : String)
    → Distinct p
    → get k (as_object (merge t (obj p))) ≡ merged merge (get k p) (get k (as_object t))
unfolding merge
merges t p k d = merge_fields-merges (as_object t) p k d

merge-atom : (t : Json) (s : String) → merge t (atom s) ≡ atom s
unfolding merge
merge-atom t s = refl

abbrev server : Server
server = record { patch = merge; replaces = merge-atom; merges = merges }

-- Of two machines that were unneeded, `a` is needed again. The count of pending pods changes too.
abbrev time : Json
time = atom "10:00"

abbrev still : Fields
still = field "b" time end

abbrev old : Json
old = obj (field "pendingPods" (atom "0") (field "unneededSince" (obj (field "a" time still)) end))

abbrev new : Json
new = obj (field "pendingPods" (atom "1") (field "unneededSince" (obj still) end))

get-patched_example :
    get "pendingPods" (as_object (server.patch old (obj (merge_diff old new)))) ≡ (
      if same (get "pendingPods" (as_object old)) (get "pendingPods" (as_object new))
      then get "pendingPods" (as_object old)
      else get "pendingPods" (as_object new))
get-patched_example = get-patched server old new old "pendingPods" (refl, (refl, tt)) tt

stale_entry_stays_example :
    get "a" (map_at "unneededSince" (server.patch old (obj (merge_diff old new))))
    ≡ get "a" (map_at "unneededSince" old)
unfolding json_eq
stale_entry_stays_example =
    stale_entry_stays server old new old "unneededSince" "a" still (refl, (refl, tt)) (refl, tt)
      refl refl refl
