-- ===== src/Drivers/Echo.antt =====
-- ICMP echo packets (`checksum`, `echo_request`, `is_reply`, `icmp_echo`, src/drivers/ping.rs).
-- Bytes are numbers below 256.
pub mod Valid
use kube_hardware_autoscaler.Base.{
  ℕ, zero, suc, ◌+◌, ◌-◌, ◌*◌, ◌/◌, ◌%◌, ◌^◌, String, Bool, true, false, ◌&&◌, Option, List, [],
  ◌∷◌, ◌++◌, leb, ◌==◌, if◌then◌else◌, is_some_and, drop, length,
}
use kube_hardware_autoscaler.Drivers.Driver.{Result, ok, err}

-- `u16::from_be_bytes`.
abbrev pub word : ℕ → ℕ → ℕ
word hi lo = 256 * hi + lo

-- The sum of the two-byte words, in a `u32`. A last single byte is the high byte of a word.
sum_words : List ℕ → ℕ
sum_words [] = 0
sum_words (a ∷ []) = word a 0
sum_words (a ∷ (b ∷ rest)) = (word a b + sum_words rest) % 2 ^ 32

-- `while sum >> 16 != 0`, with fuel: three rounds are enough for a `u32`.
fold_carries : ℕ → ℕ → ℕ
fold_carries zero sum = sum
fold_carries (suc fuel) sum =
    let rest = fold_carries fuel (sum % 2 ^ 16 + sum / 2 ^ 16) in
    if sum / 2 ^ 16 == 0 then sum else rest

-- `!(sum as u16)`.
unfoldable pub checksum : List ℕ → ℕ
unfolding sum_words fold_carries
checksum bytes = 65535 - fold_carries 3 (sum_words bytes) % 2 ^ 16

-- `to_be_bytes` of a `u16`.
abbrev pub be_bytes : ℕ → List ℕ
be_bytes n = n / 256 ∷ (n % 256 ∷ [])

-- `b"kube-hardware-autoscaler"`.
abbrev pub payload : List ℕ
payload =
    b'k'
    ∷ (b'u'
        ∷ (b'b'
            ∷ (b'e'
                ∷ (b'-'
                    ∷ (b'h'
                        ∷ (b'a'
                            ∷ (b'r'
                                ∷ (b'd'
                                    ∷ (b'w'
                                        ∷ (b'a'
                                            ∷ (b'r'
                                                ∷ (b'e'
                                                    ∷ (b'-'
                                                        ∷ (b'a'
                                                            ∷ (b'u'
                                                            ∷ (b't'
                                                            ∷ (b'o'
                                                            ∷ (b's'
                                                            ∷ (b'c'
                                                            ∷ (b'a'
                                                            ∷ (b'l'
                                                            ∷ (b'e'
                                                            ∷ (b'r' ∷ [])))))))))))))))))))))))

-- The packet with a given checksum field.
abbrev pub with_checksum : ℕ → ℕ → ℕ → List ℕ
with_checksum c id seq =
    (8 ∷ (0 ∷ [])) ++ (be_bytes c ++ (be_bytes id ++ (be_bytes seq ++ payload)))

unfoldable pub echo_request : ℕ → ℕ → List ℕ
echo_request id seq = with_checksum (checksum (with_checksum 0 id seq)) id seq

-- Type 0 is an echo reply; the bytes 6 and 7 are the sequence number.
unfoldable pub is_reply : List ℕ → ℕ → Bool
is_reply (t ∷ (b1 ∷ (b2 ∷ (b3 ∷ (b4 ∷ (b5 ∷ (b6 ∷ (b7 ∷ rest)))))))) seq =
    t == 0 && word b6 b7 == seq
is_reply _ seq = false

-- What one `recv_from` gives before the deadline: a packet and its IPv4 sender, the read timeout, or
-- another error.
pub data Received : Type 0 where
  packet : (bytes : List ℕ) (from : Option ℕ) → Received
  would_block : Received
  failed : String → Received

-- `data.get(ihl..).unwrap_or(&[])`: a raw socket's packet starts with the IP header.
abbrev strip_header : List ℕ → List ℕ
strip_header [] = []
strip_header (b ∷ rest) =
    let ihl = b % 16 * 4 in if leb ihl (length (b ∷ rest)) then drop ihl (b ∷ rest) else []

abbrev icmp_part : Bool → List ℕ → List ℕ
icmp_part raw bytes = if raw then strip_header bytes else bytes

-- The loop, over what arrives until the deadline.
unfoldable pub await_reply : Bool → ℕ → ℕ → List Received → Result Bool String
await_reply raw target seq [] = ok false
await_reply raw target seq (would_block ∷ rest) = ok false
await_reply raw target seq (failed e ∷ rest) = err e
await_reply raw target seq (packet bytes from ∷ rest) =
    let later = await_reply raw target seq rest in
    if is_some_and from (λ a. a == target) && is_reply (icmp_part raw bytes) seq
    then ok true
    else later

-- The sockets that can be opened: an unprivileged one, else a raw one, whose error is returned.
pub record Sockets : Type 0 where
  pub datagram : Bool
  pub raw : Result (Unit {0}) String
  pub send : List ℕ → Result (Unit {0}) String

abbrev open_socket : Sockets → Result Bool String
open_socket s = if s.datagram then ok false else elim s.raw [ ok u ↦ ok true | err e ↦ err e ]

unfoldable pub icmp_echo : Sockets → ℕ → ℕ → ℕ → List Received → Result Bool String
icmp_echo sockets pid target seq arrivals = elim (open_socket sockets) [
  | err e ↦ err e
  | ok raw ↦ elim (sockets.send (echo_request (pid % 2 ^ 16) seq)) [
    | err e ↦ err e
    | ok u ↦ await_reply raw target seq arrivals
  ]
]
