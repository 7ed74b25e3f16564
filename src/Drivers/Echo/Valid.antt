-- ===== src/Drivers/Echo/Valid.antt =====
-- The checksum of the echo request (src/drivers/ping.rs).
use kube_hardware_autoscaler.Base.{
  ℕ, ◌+◌, ◌-◌, ◌*◌, ◌/◌, ◌%◌, ◌<◌, ◌≤◌, ◌^◌, ◌≡◌, arith, refl, ◌∙◌, List, [], ◌∷◌,
}
use native.Mathlib.Nat.{add-zero}
use kube_hardware_autoscaler.Drivers.Echo.{
  sum_words, fold_carries, checksum, echo_request, payload, with_checksum,
}

-- One round: the low half and the carries.
abbrev round : ℕ → ℕ
round s = s % 2 ^ 16 + s / 2 ^ 16

abbrev carried : ℕ → ℕ
carried s = s / 2 ^ 16 + round s / 2 ^ 16 + round (round s) / 2 ^ 16

-- Folding the carries keeps the remainder by 65535, ends below 2^16, and is 0 only at 0.
fold_carries-residue :
    (s : ℕ)
    → s < 2 ^ 32
    → (fold_carries 3 s + 65535 * carried s ≡ s)
      × (fold_carries 3 s < 65536)
      × (s ≤ 65535 * fold_carries 3 s * 65538)
unfolding fold_carries
fold_carries-residue s h = ground arith

-- A packet whose words sum up to `s` without its checksum sums up to 65535 with it.
fold_carries-complement :
    (s : ℕ) → s < 2 ^ 31 → fold_carries 3 (s + (65535 - fold_carries 3 s)) ≡ 65535
fold_carries-complement s h = omega (
  arith,
  fold_carries-residue s (omega arith),
  fold_carries-residue (s + (65535 - fold_carries 3 s)) (omega arith),
)

sum_words-with_checksum :
    (c id seq : ℕ)
    → c < 2 ^ 16
    → id < 2 ^ 16
    → seq < 2 ^ 16
    → sum_words (with_checksum c id seq) ≡ (2048 + id + seq + sum_words payload) + c
unfolding sum_words
sum_words-with_checksum c id seq hc hi hs = omega arith

checksum_lem : (bytes : List ℕ) → checksum bytes ≡ 65535 - fold_carries 3 (sum_words bytes) % 2 ^ 16
unfolding checksum
checksum_lem bytes = refl

-- The plain sum of a packet's 16-bit big-endian words, without a bound.
abbrev pub total_words : List ℕ → ℕ
total_words [] = 0
total_words (a ∷ []) = 256 * a
total_words (a ∷ (b ∷ rest)) = 256 * a + b + total_words rest

total_words-with_checksum :
    (c id seq : ℕ)
    → total_words (with_checksum c id seq) ≡ (2048 + id + seq + sum_words payload) + c
unfolding sum_words
total_words-with_checksum c id seq = omega arith

-- The checksum of the echo request is the one of RFC 1071, for every identifier and sequence number:
-- the plain sum of the packet's 16-bit words is a positive multiple of 65535, which says that their
-- ones' complement sum has all bits set. So the receiver, who computes the checksum of the whole
-- packet, gets 0.
pub checksum-echo_request :
    (id seq : ℕ)
    → id < 2 ^ 16
    → seq < 2 ^ 16
    → (0 < total_words (echo_request id seq))
      × (total_words (echo_request id seq) % 65535 ≡ 0)
      × (checksum (echo_request id seq) ≡ 0)
unfolding echo_request
checksum-echo_request id seq h k =
    let s = 2048 + id + seq + sum_words payload in
    let c = checksum (with_checksum 0 id seq) in
    let small : sum_words payload < 2 ^ 20 = unfold sum_words in omega arith in
    let e0 = sum_words-with_checksum 0 id seq (omega arith) h k ∙ add-zero s in
    let ec : c ≡ 65535 - fold_carries 3 s =
      checksum_lem (with_checksum 0 id seq)
      ∙ rw e0 (omega (arith, fold_carries-residue s (omega arith))) in
    let e1 = sum_words-with_checksum c id seq (omega arith) h k in
    let et = total_words-with_checksum c id seq in
    (
      omega (arith, et),
      rw (et, ec) (omega (arith, fold_carries-residue s (omega arith))),
      checksum_lem (with_checksum c id seq)
          ∙ rw (e1, ec, fold_carries-complement s (omega arith)) refl,
    )
