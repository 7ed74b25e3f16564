-- ===== src/Wake/Sending.antt =====
-- Sending packets (`targets`, `send`, src/wake.rs): who is addressed, and when a wake counts as sent.
use kube_hardware_autoscaler.Base.{
  ℕ, zero, suc, ◌+◌, ◌≤◌, max, String, ◌≡◌, ◌∙◌, subst, none, List, [], ◌∷◌, arith, ◌==◌, ◌↔◌,
  if◌then◌else◌,
}
use native.Mathlib.Nat.{zero-add}
use kube_hardware_autoscaler.Drivers.Driver.{Result, ok, err}
use kube_hardware_autoscaler.Wake.{
  SocketAddr, Sent, SendError, send_error, note, send_round, send_rounds, send,
}

-- How many of the answers to one pass are successes.
abbrev pub successes : (SocketAddr → Result (Unit {0}) String) → List SocketAddr → ℕ
successes answer [] = 0
successes answer (t ∷ ts) = (elim (answer t) [ ok u ↦ 1 | err e ↦ 0 ]) + successes answer ts

-- And of those to so many passes.
abbrev pub all_successes : (ℕ → SocketAddr → Result (Unit {0}) String) → List SocketAddr → ℕ → ℕ
all_successes answer ts zero = 0
all_successes answer ts (suc n) = successes (answer n) ts + all_successes answer ts n

count-send_round :
    (answer : SocketAddr → Result (Unit {0}) String) (ts : List SocketAddr) (s : Sent)
    → (send_round answer ts s).count ≡ s.count + successes answer ts
unfolding send_round
count-send_round answer [] s = omega arith
count-send_round answer (t ∷ ts) s = ground (arith, count-send_round answer ts (note (answer t) s))

count-send_rounds :
    (answer : ℕ → SocketAddr → Result (Unit {0}) String) (ts : List SocketAddr) (n : ℕ) (s : Sent)
    → (send_rounds answer ts n s).count ≡ s.count + all_successes answer ts n
unfolding send_rounds
count-send_rounds answer ts zero s = omega arith
count-send_rounds answer ts (suc n) s = omega (
  arith,
  count-send_rounds answer ts n (send_round (answer n) ts s),
  count-send_round (answer n) ts s,
)

abbrev result : Sent → Result ℕ SendError
result s = if s.count == 0 then err (send_error s.last_err) else ok s.count

result-ok : (s : Sent) (n : ℕ) → (result s ≡ ok n) ↔ ((s.count ≡ n) × (1 ≤ n))
result-ok s n = ground arith

-- With a usable socket a wake counts as sent exactly if some packet was, in any of the passes (at
-- least one is made), and it reports how many were.
pub send-count :
    (answer : ℕ → SocketAddr → Result (Unit {0}) String) (ts : List SocketAddr) (repeats n : ℕ)
    → (send (ok tt) answer ts repeats ≡ ok n)
      ↔ ((all_successes answer ts (max repeats 1) ≡ n) × (1 ≤ n))
unfolding send
send-count answer ts repeats n =
    let start : Sent = record { count = 0; last_err = none } in
    let e = count-send_rounds answer ts (max repeats 1) start in
    subst (λ k. (result (send_rounds answer ts (max repeats 1) start) ≡ ok n) ↔ ((k ≡ n) × (1 ≤ n)))
      (e ∙ zero-add (all_successes answer ts (max repeats 1)))
      (result-ok (send_rounds answer ts (max repeats 1) start) n)
