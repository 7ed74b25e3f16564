-- ===== src/Identity/Encodings.antt =====
-- The encodings of a raw GUID (`SystemId::candidates` and `check`, src/identity.rs).
use kube_hardware_autoscaler.Base.{
  ℕ, zero, suc, ◌+◌, ◌-◌, ltb, ◌==◌, if◌then◌else◌, map, sym, subst, ◌∙◌, ◌*◌, ◌/◌, ◌%◌, ◌<◌, Bool,
  true, false, ◌||◌, ◌&&◌, ◌≡◌, refl, some, List, [], ◌∷◌, reverse, arith, length, any, all, All,
}
use mathlib.Core.List.{reverse_aux}
use kube_hardware_autoscaler.Base.Texts.{Chars, chars_eq, chars_eq_refl}
use kube_hardware_autoscaler.Identity.{
  raw_guid, match, hex_digit, hex, is_ascii_hexdigit, to_ascii_lowercase, lower_digits, normalize,
  swap_fields, is_placeholder, encodings, candidates, compare_ids, check_expected, check,
}

-- The 16 bytes of a GUID.
abbrev pub Guid : List ℕ → Type 0
Guid b = (length b ≡ 16) × All (λ x. x < 256) b

reverse_aux-Guid :
    (xs r : List ℕ)
    → All (λ x. x < 256) xs
    → All (λ x. x < 256) r
    → (length (reverse_aux xs r) ≡ length xs + length r) × All (λ x. x < 256) (reverse_aux xs r)
reverse_aux-Guid [] r hx hr = (omega arith, hr)
reverse_aux-Guid (x ∷ xs) r hx hr =
    let (n, h) = reverse_aux-Guid xs (x ∷ r) hx.1 (hx.0, hr) in (omega arith, h)

reverse-Guid : (b : List ℕ) → Guid b → Guid (reverse b)
reverse-Guid b (n, h) = let (m, k) = reverse_aux-Guid b [] h tt in (omega arith, k)

swap_fields-Guid : (b : List ℕ) → Guid b → Guid (swap_fields b)
swap_fields-Guid (b0 ∷ b1 ∷ b2 ∷ b3 ∷ b4 ∷ b5 ∷ b6 ∷ b7 ∷ rest)
      (n, (h0, (h1, (h2, (h3, (h4, (h5, (h6, (h7, h))))))))) =
    (n, (h3, (h2, (h1, (h0, (h5, (h4, (h7, (h6, h)))))))))
swap_fields-Guid _ (n, h) = ground arith

length-hex : (b : List ℕ) → length (hex b) ≡ 2 * length b
length-hex [] = refl
length-hex (x ∷ xs) = omega (arith, length-hex xs)

-- The byte orders in use: as printed, all turned round, the first three fields turned round, and
-- the two combinations.
pub data ByteOrder : Type 0 where
  network reversed fields reversed_fields fields_reversed : ByteOrder

-- Which of the interface's bytes stands at each place of the Node's UUID.
abbrev places : ByteOrder → List ℕ
places network = 0 ∷ 1 ∷ 2 ∷ 3 ∷ 4 ∷ 5 ∷ 6 ∷ 7 ∷ 8 ∷ 9 ∷ 10 ∷ 11 ∷ 12 ∷ 13 ∷ 14 ∷ 15 ∷ []
places reversed = 15 ∷ 14 ∷ 13 ∷ 12 ∷ 11 ∷ 10 ∷ 9 ∷ 8 ∷ 7 ∷ 6 ∷ 5 ∷ 4 ∷ 3 ∷ 2 ∷ 1 ∷ 0 ∷ []
places fields = 3 ∷ 2 ∷ 1 ∷ 0 ∷ 5 ∷ 4 ∷ 7 ∷ 6 ∷ 8 ∷ 9 ∷ 10 ∷ 11 ∷ 12 ∷ 13 ∷ 14 ∷ 15 ∷ []
places reversed_fields = 12 ∷ 13 ∷ 14 ∷ 15 ∷ 10 ∷ 11 ∷ 8 ∷ 9 ∷ 7 ∷ 6 ∷ 5 ∷ 4 ∷ 3 ∷ 2 ∷ 1 ∷ 0 ∷ []
places fields_reversed = 15 ∷ 14 ∷ 13 ∷ 12 ∷ 11 ∷ 10 ∷ 9 ∷ 8 ∷ 6 ∷ 7 ∷ 4 ∷ 5 ∷ 0 ∷ 1 ∷ 2 ∷ 3 ∷ []

abbrev byte_at : List ℕ → ℕ → ℕ
byte_at [] i = 0
byte_at (x ∷ xs) zero = x
byte_at (x ∷ xs) (suc i) = byte_at xs i

abbrev pub reorder : ByteOrder → List ℕ → List ℕ
reorder o b = map (byte_at b) (places o)

-- How `encodings` turns the bytes round.
abbrev turn : ByteOrder → List ℕ → List ℕ
turn network b = b
turn reversed b = reverse b
turn fields b = swap_fields b
turn reversed_fields b = swap_fields (reverse b)
turn fields_reversed b = reverse (swap_fields b)

reorder-turn : (o : ByteOrder) (b : List ℕ) → length b ≡ 16 → reorder o b ≡ turn o b
reorder-turn o
      (b0 ∷ b1 ∷ b2 ∷ b3 ∷ b4 ∷ b5 ∷ b6 ∷ b7 ∷ b8 ∷ b9 ∷ b10 ∷ b11 ∷ b12 ∷ b13 ∷ b14 ∷ b15 ∷ []) n =
    same o
  where
    b : List ℕ
    b = b0 ∷ b1 ∷ b2 ∷ b3 ∷ b4 ∷ b5 ∷ b6 ∷ b7 ∷ b8 ∷ b9 ∷ b10 ∷ b11 ∷ b12 ∷ b13 ∷ b14 ∷ b15 ∷ []

    same : (o : ByteOrder) → reorder o b ≡ turn o b
    same network = refl
    same reversed = refl
    same fields = refl
    same reversed_fields = refl
    same fields_reversed = refl
reorder-turn o _ n = absurd (ground arith)

turn-Guid : (o : ByteOrder) (b : List ℕ) → Guid b → Guid (turn o b)
turn-Guid network b g = g
turn-Guid reversed b g = reverse-Guid b g
turn-Guid fields b g = swap_fields-Guid b g
turn-Guid reversed_fields b g = swap_fields-Guid (reverse b) (reverse-Guid b g)
turn-Guid fields_reversed b g = reverse-Guid (swap_fields b) (swap_fields-Guid b g)

-- The text of a UUID: 8, 4, 4, 4 and 12 hexadecimal digits, in upper or lower case, with dashes.
abbrev digit_text : (upper : Bool) → ℕ → ℕ
digit_text upper n = if ltb n 10 then 48 + n else if upper then 65 + (n - 10) else 97 + (n - 10)

abbrev dash_before : ℕ → Chars → Chars
dash_before i rest = if i == 4 || (i == 6 || (i == 8 || i == 10)) then 45 ∷ rest else rest

abbrev text_from : (upper : Bool) → ℕ → List ℕ → Chars
text_from upper i [] = []
text_from upper i (x ∷ xs) =
    dash_before i
      (digit_text upper (x / 16) ∷ digit_text upper (x % 16) ∷ text_from upper (i + 1) xs)

abbrev pub uuid_text : (upper : Bool) → List ℕ → Chars
uuid_text upper b = text_from upper 0 b

lower_digit_text :
    (upper : Bool) (n : ℕ)
    → n < 16
    → (is_ascii_hexdigit (digit_text upper n) ≡ true)
      × (to_ascii_lowercase (digit_text upper n) ≡ hex_digit n)
lower_digit_text upper n h = ground arith

lower_digits-dash_before :
    (i : ℕ) (rest : Chars) → lower_digits (dash_before i rest) ≡ lower_digits rest
lower_digits-dash_before i rest = ground arith

lower_digits-text_from :
    (upper : Bool) (i : ℕ) (b : List ℕ)
    → All (λ x. x < 256) b
    → lower_digits (text_from upper i b) ≡ hex b
lower_digits-text_from upper i [] h = refl
lower_digits-text_from upper i (x ∷ xs) h =
    let (d, e) = lower_digit_text upper (x / 16) (omega arith) in
    let (f, g) = lower_digit_text upper (x % 16) (omega arith) in
    let rest = digit_text upper (x / 16) ∷ digit_text upper (x % 16) ∷ text_from upper (i + 1) xs in
    lower_digits-dash_before i rest ∙ simp (lower_digits-text_from upper (i + 1) xs h.1, d, e, f, g)

normalize-uuid_text :
    (upper : Bool) (b : List ℕ) → Guid b → normalize (uuid_text upper b) ≡ some (hex b)
unfolding normalize
normalize-uuid_text upper b (n, h) =
    rw (lower_digits-text_from upper 0 b h) (ground (arith, length-hex b))

or_true : (b : Bool) → (b || true) ≡ true
or_true true = refl
or_true false = refl

encodings_complete :
    (o : ByteOrder) (b : List ℕ) → any (λ c. chars_eq c (hex (turn o b))) (encodings b) ≡ true
unfolding encodings
encodings_complete network b = simp (chars_eq_refl (hex b))
encodings_complete reversed b = simp (chars_eq_refl (hex (reverse b)), or_true)
encodings_complete fields b = simp (chars_eq_refl (hex (swap_fields b)), or_true)
encodings_complete reversed_fields b = simp (chars_eq_refl (hex (swap_fields (reverse b))), or_true)
encodings_complete fields_reversed b = simp (chars_eq_refl (hex (reverse (swap_fields b))), or_true)

and_false : (b : Bool) → (b && false) ≡ false
and_false true = refl
and_false false = refl

-- The bytes of a GUID with a real encoding are no placeholder.
some_real :
    (o : ByteOrder) (b : List ℕ)
    → is_placeholder (hex (turn o b)) ≡ false
    → all is_placeholder (encodings b) ≡ false
unfolding encodings
some_real network b h = simp h
some_real reversed b h = simp (h, and_false)
some_real fields b h = simp (h, and_false)
some_real reversed_fields b h = simp (h, and_false)
some_real fields_reversed b h = simp (h, and_false)

check-turn :
    (upper : Bool) (o : ByteOrder) (b : List ℕ)
    → Guid b
    → is_placeholder (hex (turn o b)) ≡ false
    → check (some (raw_guid b)) (some (uuid_text upper (turn o b))) ≡ match
unfolding check check_expected candidates compare_ids
check-turn upper o b g real = simp (
  normalize-uuid_text upper (turn o b) (turn-Guid o b g),
  real,
  some_real o b real,
  encodings_complete o b,
  check,
  check_expected,
  candidates,
  compare_ids,
)

-- A machine is recognised whatever byte order its interface uses: where the Node's UUID is the text,
-- with dashes and in upper or lower case, of the interface's 16 bytes in one of five orders, and no
-- placeholder, the identities match. The orders are given by the places of the bytes.
pub check-reorder :
    (upper : Bool) (o : ByteOrder) (b : List ℕ)
    → Guid b
    → is_placeholder (hex (reorder o b)) ≡ false
    → check (some (raw_guid b)) (some (uuid_text upper (reorder o b))) ≡ match
check-reorder upper o b g real =
    let e = reorder-turn o b g.0 in
    subst (λ c. check (some (raw_guid b)) (some (uuid_text upper c)) ≡ match) (sym e)
      (check-turn upper o b g (subst (λ c. is_placeholder (hex c) ≡ false) e real))
