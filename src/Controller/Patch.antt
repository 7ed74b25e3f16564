-- ===== src/Controller/Patch.antt =====
-- Status patches (`merge_diff`, `patch_status_diff`, src/controller/mod.rs). A JSON value that is no
-- object (a text, a number, a Boolean or a list) is compared and replaced as a whole: it is the
-- text that it is written as.
pub mod Laws
pub mod Nested
use kube_hardware_autoscaler.Base.{
  String, Bool, true, false, ◌&&◌, Option, none, some, str_eq, if◌then◌else◌, is_some,
}

mutual
  pub data Json : Type 0 where
    null : Json
    atom : String → Json
    obj : Fields → Json

  pub data Fields : Type 0 where
    end : Fields
    field : String → Json → Fields → Fields

-- `Map::get`.
abbrev pub get : String → Fields → Option Json
get k end = none
get k (field j v m) = if str_eq j k then some v else get k m

-- `Map::insert`.
abbrev pub put : String → Json → Fields → Fields
put k v end = field k v end
put k v (field j w m) = let rest = put k v m in if str_eq j k then field k v m else field j w rest

-- `Value::eq`, for objects whose keys stand in one order.
unfoldable mutual
  pub json_eq : Json → Json → Bool
  json_eq null null = true
  json_eq (atom s) (atom t) = str_eq s t
  json_eq (obj a) (obj b) = fields_eq a b
  json_eq _ _ = false

  pub fields_eq : Fields → Fields → Bool
  fields_eq end end = true
  fields_eq (field j v m) (field k w n) = str_eq j k && json_eq v w && fields_eq m n
  fields_eq _ _ = false

abbrev pub is_value : Option Json → Json → Bool
is_value none v = false
is_value (some w) v = json_eq w v

-- The first loop: what is new or has changed is set.
changed : Fields → Fields → Fields → Fields
changed old end patch = patch
changed old (field k v new) patch =
    changed old new (if is_value (get k old) v then patch else put k v patch)

-- The second loop: what is gone is set to null.
removed : Fields → Fields → Fields → Fields
removed new end patch = patch
removed new (field k v old) patch =
    removed new old (if is_some (get k new) then patch else put k null patch)

abbrev pub as_object : Json → Fields
as_object (obj m) = m
as_object _ = end

unfoldable pub merge_diff : Json → Json → Fields
unfolding changed removed
merge_diff old new =
    removed (as_object new) (as_object old) (changed (as_object old) (as_object new) end)

abbrev is_end : Fields → Bool
is_end end = true
is_end (field k v m) = false

-- `patch_status_diff`: the status patch that is sent, if any.
unfoldable pub patch_status_diff : Json → Json → Option Fields
unfolding merge_diff
patch_status_diff old new = let diff = merge_diff old new in if is_end diff then none else some diff
