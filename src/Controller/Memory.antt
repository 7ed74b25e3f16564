-- ===== src/Controller/Memory.antt =====
-- What the controllers remember between reconciles (`Context::first_time`, `IdentityCache`,
-- src/controller/mod.rs).
pub mod Laws
pub mod Tests
use kube_hardware_autoscaler.Base.{
  ℕ, ◌-◌, ◌*◌, String, Bool, true, false, ◌&&◌, not, Option, none, some, List, [], ◌∷◌, str_eq, ltb,
  ◌==◌, if◌then◌else◌, lookup, insert, is_some_and,
}
use kube_hardware_autoscaler.Base.Time.{nanos}
use kube_hardware_autoscaler.Identity.{IdentityCheck}

-- The last warning for each key.
abbrev pub Warned : Type 0
Warned = List (String × String)

-- `HashMap::remove`.
abbrev pub forget : String → Warned → Warned
forget k [] = []
forget k ((j, m) ∷ w) = let rest = forget k w in if str_eq j k then rest else (j, m) ∷ rest

-- `Context::first_time`: whether the message is new for the key, and what is remembered then. A
-- poisoned lock, which the source answers with true, would need a panic while it is held.
unfoldable pub first_time : String → Option String → Warned → Bool × Warned
first_time key (some m) warned =
    (not (is_some_and (lookup key warned) (λ old. str_eq old m)), insert key m warned)
first_time key none warned = (false, forget key warned)

-- A machine's name and the generation of its configuration.
pub record IdentityKey : Type 0 where
  pub name : String
  pub generation : ℕ

abbrev pub Results : Type 0
Results = List (String × IdentityCheck)

-- An entry: its key, when the check was made (nanoseconds of the monotonic clock), and what it found.
pub record IdentityEntry : Type 0 where
  pub key : IdentityKey
  pub at : ℕ
  pub results : Results

abbrev pub IdentityCache : Type 0
IdentityCache = List IdentityEntry

-- `IDENTITY_TTL`, 600 seconds.
abbrev pub identity_ttl : ℕ
identity_ttl = 600 * nanos

abbrev pub key_eq : IdentityKey → IdentityKey → Bool
key_eq a b = str_eq a.name b.name && a.generation == b.generation

abbrev find_entry : IdentityKey → IdentityCache → Option IdentityEntry
find_entry key [] = none
find_entry key (e ∷ es) = if key_eq e.key key then some e else find_entry key es

abbrev fresh : ℕ → Option IdentityEntry → Option Results
fresh now none = none
fresh now (some e) = if ltb (now - e.at) identity_ttl then some e.results else none

-- `IdentityCache::get`. The clock is monotonic: a difference below zero is zero.
unfoldable pub get : ℕ → IdentityKey → IdentityCache → Option Results
get now key cache = fresh now (find_entry key cache)

abbrev without : String → IdentityCache → IdentityCache
without name [] = []
without name (e ∷ es) =
    let rest = without name es in if str_eq e.key.name name then rest else e ∷ rest

-- `IdentityCache::put`: the entries of older generations of the same object are dropped.
unfoldable pub put : ℕ → IdentityKey → Results → IdentityCache → IdentityCache
put now key results cache =
    record { key = key; at = now; results = results } ∷ without key.name cache
