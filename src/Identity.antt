-- ===== src/Identity.antt =====
-- Machine identity (src/identity.rs): a text is the list of its code points, a GUID its 16 bytes.
pub mod Encodings
pub mod Tests
use kube_hardware_autoscaler.Base.{
  ℕ, ◌+◌, ◌-◌, ◌/◌, ◌%◌, Bool, true, false, ◌&&◌, ◌||◌, Option, none, some, List, [], ◌∷◌, ◌++◌,
  reverse, ltb, leb, ◌==◌, if◌then◌else◌, length, all, any, filter, take, drop,
}
use kube_hardware_autoscaler.Base.Texts.{Chars, chars_eq}

pub data SystemId : Type 0 where
  uuid : Chars → SystemId
  raw_guid : List ℕ → SystemId

pub data IdentityCheck : Type 0 where
  match : IdentityCheck
  mismatch : (reported expected : Chars) → IdentityCheck
  unverifiable : IdentityCheck

abbrev hex_digit : ℕ → ℕ
hex_digit n = if ltb n 10 then b'0' + n else b'a' + n - 10

-- `format!("{x:02x}")` of each byte.
abbrev pub hex : List ℕ → Chars
hex [] = []
hex (x ∷ xs) = hex_digit (x / 16) ∷ hex_digit (x % 16) ∷ hex xs

abbrev is_ascii_hexdigit : ℕ → Bool
is_ascii_hexdigit c =
    (leb b'0' c && leb c b'9') || (leb b'a' c && leb c b'f') || (leb b'A' c && leb c b'F')

abbrev to_ascii_lowercase : ℕ → ℕ
to_ascii_lowercase c = if leb b'A' c && leb c b'Z' then c + 32 else c

abbrev lower_digits : Chars → Chars
lower_digits [] = []
lower_digits (c ∷ cs) =
    let rest = lower_digits cs in if is_ascii_hexdigit c then to_ascii_lowercase c ∷ rest else rest

unfoldable pub normalize : Chars → Option Chars
normalize s = let h = lower_digits s in if length h == 32 then some h else none

-- The first three fields of a UUID turned round: bytes 0 to 3, 4 and 5, 6 and 7.
abbrev pub swap_fields : List ℕ → List ℕ
swap_fields b =
    reverse (take 4 b) ++ (reverse (take 2 (drop 4 b)) ++ (reverse (take 2 (drop 6 b)) ++ drop 8 b))

unfoldable pub is_placeholder : Chars → Bool
is_placeholder h = all (λ c. c == b'0') h || all (λ c. c == b'f') h

-- The canonical texts that a raw GUID may stand for, one for each byte order in use.
unfoldable pub encodings : List ℕ → List Chars
encodings b =
    hex b
    ∷ hex (reverse b)
    ∷ hex (swap_fields b)
    ∷ hex (swap_fields (reverse b))
    ∷ hex (reverse (swap_fields b))
    ∷ []

-- `None` where the interface's UUID is not a 128-bit value.
candidates : SystemId → Option (List Chars)
candidates (uuid s) = elim (normalize s) [ none ↦ none | some h ↦ some (h ∷ []) ]
candidates (raw_guid b) = some (encodings b)

-- `SystemId::to_string`.
abbrev pub display : SystemId → Chars
display (uuid s) = s
display (raw_guid b) = hex b

-- The end of `check`, once both sides have a usable identity.
compare_ids : SystemId → Chars → List Chars → IdentityCheck
compare_ids reported expected found =
    if all is_placeholder found
    then unverifiable
    else if any (λ c. chars_eq c expected) found
    then match
    else mismatch (display reported) expected

abbrev pub normalize_uuid : Option Chars → Option Chars
normalize_uuid none = none
normalize_uuid (some s) = normalize s

check_expected : SystemId → Chars → IdentityCheck
unfolding candidates compare_ids
check_expected reported expected =
    if is_placeholder expected then unverifiable else elim (candidates reported) [
      | none ↦ unverifiable
      | some found ↦ compare_ids reported expected found
    ]

unfoldable pub check : Option SystemId → Option Chars → IdentityCheck
unfolding check_expected
check none node_uuid = unverifiable
check (some reported) node_uuid = elim (normalize_uuid node_uuid) [
  | none ↦ unverifiable
  | some expected ↦ check_expected reported expected
]
