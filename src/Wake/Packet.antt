-- ===== src/Wake/Packet.antt =====
-- MAC addresses and packets (src/wake.rs): the texts that `parse_mac` reads, and what a woken
-- network card finds in the packet.
use kube_hardware_autoscaler.Base.{
  ℕ, zero, suc, ◌+◌, ◌*◌, ◌<◌, true, inl, inr, subst, ◌==◌, ==_iff, Bool-cases, ◌≡◌, refl, ◌∙◌, ap,
  Option, none, some, List, [], ◌∷◌, ◌++◌, arith, length, map, length-append, take, drop, All,
}
use native.Mathlib.Nat.{zero-add, suc-add, zero-mul}
use kube_hardware_autoscaler.Identity.{hex}
use kube_hardware_autoscaler.Wake.{
  bytes_of, from_str_radix, is_separator, split, parse_parts, parse_mac, repeated, magic_packet,
}

-- A MAC address is six bytes.
abbrev pub IsMac : List ℕ → Type 0
IsMac m = (length m ≡ 6) × All (λ b. b < 256) m

-- The usual way to write one: two lower-case digits for each byte, and a separator in between.
abbrev pub mac_text : ℕ → List ℕ → List ℕ
mac_text sep [] = []
mac_text sep (b ∷ []) = hex (b ∷ [])
mac_text sep (b ∷ (c ∷ bs)) = hex (b ∷ []) ++ (sep ∷ mac_text sep (c ∷ bs))

-- A byte's two digits.
abbrev two : ℕ → List ℕ
two b = hex (b ∷ [])

from_str_radix-hex : (b : ℕ) → b < 256 → from_str_radix (two b) ≡ some b
from_str_radix-hex b h = ground arith

split-last : (b : ℕ) → b < 256 → split (two b) ≡ two b ∷ []
split-last b h = ground arith

split-part :
    (b sep : ℕ) (rest : List ℕ)
    → b < 256
    → is_separator sep ≡ true
    → split (two b ++ (sep ∷ rest)) ≡ two b ∷ split rest
split-part b sep rest h k = ground arith

-- The parts of a MAC address's text are its bytes' digits.
split-mac_text :
    (sep b : ℕ) (bs : List ℕ)
    → is_separator sep ≡ true
    → All (λ b. b < 256) (b ∷ bs)
    → split (mac_text sep (b ∷ bs)) ≡ map two (b ∷ bs)
split-mac_text sep b [] k h = split-last b h.0
split-mac_text sep b (c ∷ bs) k h =
    split-part b sep (mac_text sep (c ∷ bs)) h.0 k
    ∙ ap (λ r. two b ∷ r) (split-mac_text sep c bs k h.1)

parse_parts-map : (bs : List ℕ) → All (λ b. b < 256) bs → parse_parts (map two bs) ≡ some bs
unfolding parse_parts
parse_parts-map [] h = refl
parse_parts-map (b ∷ bs) h = rw (from_str_radix-hex b h.0, parse_parts-map bs h.1)

length-map : (bs : List ℕ) → length (map two bs) ≡ length bs
length-map [] = refl
length-map (b ∷ bs) = ap suc (length-map bs)

-- Reading what was written: the text of six bytes, two lower-case digits each, separated by colons
-- or by dashes, is read as these bytes.
pub parse_mac-mac_text :
    (sep : ℕ) (mac : List ℕ)
    → is_separator sep ≡ true
    → IsMac mac
    → parse_mac (mac_text sep mac) ≡ some mac
unfolding parse_mac
parse_mac-mac_text sep [] k m = absurd (omega (arith, m.0))
parse_mac-mac_text sep (b ∷ bs) k m =
    rw (split-mac_text sep b bs k m.1, length-map (b ∷ bs), m.0) (parse_parts-map (b ∷ bs) m.1)

-- What a parser may return: nothing, a byte, or so many bytes.
abbrev Byte : Option ℕ → Type 0
Byte none = Unit
Byte (some b) = b < 256

abbrev Bytes : ℕ → Option (List ℕ) → Type 0
Bytes n none = Unit
Bytes n (some m) = (length m ≡ n) × All (λ b. b < 256) m

from_str_radix-Byte : (p : List ℕ) → Byte (from_str_radix p)
from_str_radix-Byte [] = tt
from_str_radix-Byte (c ∷ []) = tt
from_str_radix-Byte (c ∷ (d ∷ [])) = ground arith
from_str_radix-Byte (c ∷ (d ∷ (e ∷ r))) = tt

bytes_of-Bytes :
    (n : ℕ) (x : Option ℕ) (r : Option (List ℕ)) → Byte x → Bytes n r → Bytes (suc n) (bytes_of x r)
bytes_of-Bytes n none r h k = tt
bytes_of-Bytes n (some b) none h k = tt
bytes_of-Bytes n (some b) (some bs) h k = (ap suc k.0, (h, k.1))

parse_parts-Bytes : (ps : List (List ℕ)) → Bytes (length ps) (parse_parts ps)
unfolding parse_parts
parse_parts-Bytes [] = (refl, tt)
parse_parts-Bytes (p ∷ ps) =
    bytes_of-Bytes (length ps) (from_str_radix p) (parse_parts ps) (from_str_radix-Byte p)
      (parse_parts-Bytes ps)

-- An accepted text gives six bytes.
pub parse_mac-IsMac : (s mac : List ℕ) → parse_mac s ≡ some mac → IsMac mac
unfolding parse_mac
parse_mac-IsMac s mac h = elim (Bool-cases (length (split s) == 6)) [
  | inl six ↦
      let found : parse_parts (split s) ≡ some mac = rw six at h in
      subst (λ n. Bytes n (some mac)) ((==_iff (length (split s)) 6).0 six)
        (subst (Bytes (length (split s))) found (parse_parts-Bytes (split s)))
  | inr other ↦ let found : none ≡ some mac = rw other at h in cc
]

drop-append : (k : ℕ) (xs ys : List ℕ) → drop (length xs + k) (xs ++ ys) ≡ drop k ys
drop-append k [] ys = rw zero-add
drop-append k (x ∷ xs) ys = rw (suc-add (length xs) k) (drop-append k xs ys)

take-append : (xs ys : List ℕ) → take (length xs) (xs ++ ys) ≡ xs
take-append [] ys = refl
take-append (x ∷ xs) ys = ap (λ r. x ∷ r) (take-append xs ys)

length-repeated : (n : ℕ) (mac : List ℕ) → length (repeated n mac) ≡ n * length mac
unfolding repeated
length-repeated zero mac = omega arith
length-repeated (suc n) mac =
    length-append mac (repeated n mac) ∙ grind (arith, length-repeated n mac)

-- The copies of the address stand one after another.
copy :
    (mac : List ℕ) (n i : ℕ)
    → i < n
    → take (length mac) (drop (i * length mac) (repeated n mac)) ≡ mac
unfolding repeated
copy mac zero i h = absurd (omega arith)
copy mac (suc n) zero h = rw (zero-mul (length mac)) (take-append mac (repeated n mac))
copy mac (suc n) (suc i) h =
    let e : suc i * length mac ≡ length mac + i * length mac = grind arith in
    rw (e, drop-append (i * length mac) mac (repeated n mac)) (copy mac n i (omega arith))

abbrev pub header : List ℕ
header = 255 ∷ (255 ∷ (255 ∷ (255 ∷ (255 ∷ (255 ∷ [])))))

-- The packet is 102 bytes long: six bytes 0xFF, and sixteen times the address.
pub magic_packet-copies :
    (mac : List ℕ) (i : ℕ)
    → IsMac mac
    → i < 16
    → (length (magic_packet mac) ≡ 102)
      × (take 6 (magic_packet mac) ≡ header)
      × (take 6 (drop (6 + i * 6) (magic_packet mac)) ≡ mac)
unfolding magic_packet
magic_packet-copies mac i m h = (
  omega (arith, length-repeated 16 mac, m.0),
  refl,
  ap (take 6) (drop-append (i * 6) header (repeated 16 mac))
      ∙ subst (λ n. take n (drop (i * n) (repeated 16 mac)) ≡ mac) m.0 (copy mac 16 i h),
)
