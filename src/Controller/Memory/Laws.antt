-- ===== src/Controller/Memory/Laws.antt =====
-- What is remembered, and for how long (src/controller/mod.rs).
use kube_hardware_autoscaler.Base.{
  ℕ, ◌-◌, String, ◌&&◌, ◌≡◌, refl, Option, none, some, [], ◌∷◌, arith, str_eq, eq_iff, ltb, ◌==◌,
  if◌then◌else◌, lookup, insert,
}
use kube_hardware_autoscaler.Controller.Memory.{
  Warned, forget, first_time, IdentityKey, Results, IdentityCache, identity_ttl, find_entry, get,
  without, put,
}

lookup-insert :
    (j k m : String) (w : Warned)
    → lookup j (insert k m w) ≡ (if str_eq k j then some m else lookup j w)
lookup-insert j k m [] = refl
lookup-insert j k m ((i, n) ∷ w) =
    ground (arith, eq_iff k j, eq_iff i k, eq_iff i j, lookup-insert j k m w)

lookup-forget :
    (j k : String) (w : Warned) → lookup j (forget k w) ≡ (if str_eq k j then none else lookup j w)
lookup-forget j k [] = ground arith
lookup-forget j k ((i, n) ∷ w) =
    ground (arith, eq_iff k j, eq_iff i k, eq_iff i j, lookup-forget j k w)

-- One call, as its effect on what is remembered for each key.
pub lookup-first_time :
    (j key : String) (m : Option String) (w : Warned)
    → lookup j (first_time key m w).1 ≡ (if str_eq key j then m else lookup j w)
unfolding first_time
lookup-first_time j key none w = lookup-forget j key w
lookup-first_time j key (some m) w = lookup-insert j key m w

find_entry-without :
    (key : IdentityKey) (name : String) (c : IdentityCache)
    → find_entry key (without name c) ≡ (if str_eq name key.name then none else find_entry key c)
find_entry-without key name [] = ground arith
find_entry-without key name (e ∷ es) = ground (
  arith,
  eq_iff name key.name,
  eq_iff e.key.name key.name,
  eq_iff e.key.name name,
  find_entry-without key name es,
)

-- What the identity cache answers after a check was stored: the stored results, for 600 seconds and
-- for the same generation of the same machine; nothing for another generation of it, so a changed
-- configuration is always checked again; and for other machines what it answered before.
pub get-put :
    (later now : ℕ) (key stored : IdentityKey) (results : Results) (c : IdentityCache)
    → get later key (put now stored results c) ≡ (
        if str_eq stored.name key.name
        then (if stored.generation == key.generation && ltb (later - now) identity_ttl
            then some results
            else none)
        else get later key c)
unfolding get put
get-put later now key stored results c = ground (arith, find_entry-without key stored.name c)
