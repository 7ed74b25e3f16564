-- ===== src/Drivers/NanoKvm/Encoding.antt =====
-- URL encoding and decoding (`url_encode`, src/drivers/nanokvm.rs).
use kube_hardware_autoscaler.Base.{
  ℕ, ◌+◌, ◌*◌, ◌/◌, ◌%◌, ◌<◌, true, ◌≡◌, refl, ◌∙◌, ap, inl, inr, Option, some, List, [], ◌∷◌, ◌++◌,
  arith, ◌==◌, if◌then◌else◌, All, Bool-cases,
}
use kube_hardware_autoscaler.Base.Texts.{Chars}
use kube_hardware_autoscaler.Wake.{hex_digit}
use kube_hardware_autoscaler.Drivers.NanoKvm.{is_unreserved, upper_digit, encode_byte, url_encode}

abbrev byte_of : Option ℕ → Option ℕ → ℕ
byte_of (some a) (some b) = 16 * a + b
byte_of _ _ = 0

-- What a server reads: a percent sign and two hexadecimal digits are a byte, all else is itself.
pub url_decode : Chars → List ℕ
url_decode [] = []
url_decode (c ∷ []) = c ∷ []
url_decode (c ∷ (d ∷ [])) = c ∷ (d ∷ [])
url_decode (c ∷ (d ∷ (e ∷ rest))) =
    let plain = url_decode (d ∷ (e ∷ rest)) in
    let byte = byte_of (hex_digit d) (hex_digit e) ∷ url_decode rest in
    if c == b'%' then byte else c ∷ plain

plain_byte :
    (c : ℕ) (rest : Chars) → is_unreserved c ≡ true → url_decode (c ∷ rest) ≡ c ∷ url_decode rest
unfolding url_decode
plain_byte c [] h = refl
plain_byte c (d ∷ []) h = refl
plain_byte c (d ∷ (e ∷ rest)) h = ground arith

digits_of :
    (b : ℕ)
    → b < 256
    → byte_of (hex_digit (upper_digit (b / 16))) (hex_digit (upper_digit (b % 16))) ≡ b
digits_of b h = ground arith

escaped_byte :
    (b : ℕ) (rest : Chars)
    → b < 256
    → url_decode (b'%' ∷ (upper_digit (b / 16) ∷ (upper_digit (b % 16) ∷ rest)))
      ≡ b ∷ url_decode rest
unfolding url_decode
escaped_byte b rest h = ap (λ x. x ∷ url_decode rest) (digits_of b h)

encoded_byte :
    (b : ℕ) (rest : Chars) → b < 256 → url_decode (encode_byte b ++ rest) ≡ b ∷ url_decode rest
encoded_byte b rest h = elim (Bool-cases (is_unreserved b)) [
  | inl e ↦ rw e (plain_byte b rest e)
  | inr e ↦ rw e (escaped_byte b rest h)
]

-- Decoding the encoded text gives the bytes back, whatever they are.
pub url_decode-url_encode : (bs : List ℕ) → All (λ b. b < 256) bs → url_decode (url_encode bs) ≡ bs
unfolding url_encode url_decode
url_decode-url_encode [] h = refl
url_decode-url_encode (b ∷ bs) h =
    encoded_byte b (url_encode bs) h.0 ∙ ap (λ r. b ∷ r) (url_decode-url_encode bs h.1)
