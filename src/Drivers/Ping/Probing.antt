-- ===== src/Drivers/Ping/Probing.antt =====
-- What the reading of the ping driver tells of its attempts (`power_state`, src/drivers/ping.rs).
use kube_hardware_autoscaler.Base.{
  ℕ, zero, suc, ◌+◌, ◌≤◌, Bool, true, false, ◌≡◌, refl, sym, ◌⊎◌, inl, inr, Option, none, some,
  arith, ◌==◌, ==_iff, Bool-cases, subst,
}
use native.Mathlib.Nat.{add-zero}
use kube_hardware_autoscaler.Crd.Enums.{PowerState}
use kube_hardware_autoscaler.Crd.Texts.{DriverError}
use kube_hardware_autoscaler.Drivers.Driver.{Result, ok, err, ok-injective}
use kube_hardware_autoscaler.Drivers.Ping.{
  PingConfig, IpAddr, Network, probe, Loop, returned, ended, next_attempt, attempts_from, conclude,
  power_state,
}

abbrev Answer : Type 0
Answer = Result (Option Bool) DriverError

abbrev pub Quiet : Answer → Type 0
Quiet (ok (some true)) = ⊥
Quiet (ok _) = Unit
Quiet (err e) = ⊥

-- Of so many attempts from one on: one finds the host up, after quiet ones; all are quiet; none is
-- conclusive.
abbrev pub Reached : (ℕ → Answer) → ℕ → ℕ → Type 0
Reached p zero next = ⊥
Reached p (suc left) next = (p next ≡ ok (some true)) ⊎ (Quiet (p next) × Reached p left (next + 1))

abbrev pub AllQuiet : (ℕ → Answer) → ℕ → ℕ → Type 0
AllQuiet p zero next = Unit
AllQuiet p (suc left) next = Quiet (p next) × AllQuiet p left (next + 1)

abbrev pub Silent : (ℕ → Answer) → ℕ → ℕ → Type 0
Silent p zero next = Unit
Silent p (suc left) next = (p next ≡ ok none) × Silent p left (next + 1)

-- How many of them are inconclusive.
abbrev is_none : Answer → ℕ
is_none (ok none) = 1
is_none _ = 0

abbrev nones : (ℕ → Answer) → ℕ → ℕ → ℕ
nones p zero next = 0
nones p (suc left) next = is_none (p next) + nones p left (next + 1)

nones-le : (p : ℕ → Answer) (left next : ℕ) → nones p left next ≤ left
nones-le p zero next = omega arith
nones-le p (suc left) next = ground (arith, nones-le p left (next + 1))

none_of : (r : Answer) → is_none r ≡ 1 → r ≡ ok none
none_of (ok none) h = refl
none_of (ok (some b)) h = absurd (omega arith)
none_of (err e) h = absurd (omega arith)

is_none-le : (r : Answer) → is_none r ≤ 1
is_none-le (ok none) = omega arith
is_none-le (ok (some b)) = omega arith
is_none-le (err e) = omega arith

Silent-nones : (p : ℕ → Answer) (left next : ℕ) → nones p left next ≡ left → Silent p left next
Silent-nones p zero next h = tt
Silent-nones p (suc left) next h =
    let bound = nones-le p left (next + 1) in
    let one = is_none-le (p next) in
    (none_of (p next) (omega arith), Silent-nones p left (next + 1) (omega arith))

nones-Silent : (p : ℕ → Answer) (left next : ℕ) → Silent p left next → nones p left next ≡ left
nones-Silent p zero next h = refl
nones-Silent p (suc left) next h =
    let e = nones-Silent p left (next + 1) h.1 in rw h.0 (omega arith)

-- What the loop's end tells of its attempts.
abbrev After : (ℕ → Answer) → ℕ → ℕ → ℕ → Loop → Type 0
After p left next inc (returned (ok PowerState.on)) = Reached p left next
After p left next inc (returned (ok _)) = ⊥
After p left next inc (returned (err e)) = Unit
After p left next inc (ended m) = AllQuiet p left next × (m ≡ inc + nones p left next)

-- One quiet attempt before the others.
After-Quiet :
    (p : ℕ → Answer) (left next inc : ℕ) (l : Loop)
    → Quiet (p next)
    → After p left (next + 1) (inc + is_none (p next)) l
    → After p (suc left) next inc l
After-Quiet p left next inc (returned (ok PowerState.on)) q h = inr (q, h)
After-Quiet p left next inc (returned (ok PowerState.off)) q h = h
After-Quiet p left next inc (returned (ok PowerState.unknown)) q h = h
After-Quiet p left next inc (returned (err e)) q h = tt
After-Quiet p left next inc (ended m) q h = ((q, h.0), omega (arith, h.1))

-- The attempt's answer chooses between the two ways on.
next_attempt-After :
    (p : ℕ → Answer) (left next inc : ℕ) (quiet unclear : Loop) (r : Answer)
    → p next ≡ r
    → After p left (next + 1) inc quiet
    → After p left (next + 1) (inc + 1) unclear
    → After p (suc left) next inc (next_attempt r quiet unclear)
unfolding next_attempt
next_attempt-After p left next inc quiet unclear (err f) e h k = tt
next_attempt-After p left next inc quiet unclear (ok (some true)) e h k = inl e
next_attempt-After p left next inc quiet unclear (ok (some false)) e h k =
    After-Quiet p left next inc quiet (subst Quiet (sym e) tt)
      (subst (λ n. After p left (next + 1) n quiet) (rw e (sym (add-zero inc))) h)
next_attempt-After p left next inc quiet unclear (ok none) e h k =
    After-Quiet p left next inc unclear (subst Quiet (sym e) tt)
      (subst (λ r. After p left (next + 1) (inc + is_none r) unclear) (sym e) k)

attempts_from-After :
    (p : ℕ → Answer) (left next inc : ℕ) → After p left next inc (attempts_from p left next inc)
unfolding attempts_from
attempts_from-After p zero next inc = (tt, omega arith)
attempts_from-After p (suc left) next inc =
    next_attempt-After p left next inc (attempts_from p left (next + 1) inc)
      (attempts_from p left (next + 1) (inc + 1)) (p next) refl
      (attempts_from-After p left (next + 1) inc) (attempts_from-After p left (next + 1) (inc + 1))

-- What each reading says of the attempts of one call.
abbrev pub Reading : (ℕ → Answer) → ℕ → PowerState → Type 0
Reading p n PowerState.on = Reached p n 0
Reading p n PowerState.unknown = Silent p n 0
Reading p n PowerState.off = AllQuiet p n 0 × ¬ Silent p n 0

conclude-Reading :
    (p : ℕ → Answer) (n : ℕ) (l : Loop) (r : PowerState)
    → After p n 0 0 l
    → conclude n l ≡ ok r
    → Reading p n r
unfolding conclude
conclude-Reading p n (returned (ok PowerState.on)) r a h = subst (Reading p n) (ok-injective h) a
conclude-Reading p n (returned (ok PowerState.off)) r a h = absurd a
conclude-Reading p n (returned (ok PowerState.unknown)) r a h = absurd a
conclude-Reading p n (returned (err e)) r a h = cc
conclude-Reading p n (ended m) r a h = elim (Bool-cases (m == n)) [
  | inl e ↦
      subst (Reading p n) (ok-injective (rw e at h))
        (Silent-nones p n 0 (omega (arith, a.1, (==_iff m n).0 e)))
  | inr e ↦ subst (Reading p n) (ok-injective (rw e at h)) (
    a.0,
    λ s.
        let k : m ≡ n = omega (arith, a.1, nones-Silent p n 0 s) in
        let y : (m == n) ≡ true = (==_iff m n).1 k in cc,
  )
]

-- A reading is justified by the attempts: `On` means that an attempt found the host up, after
-- attempts that did not; `Unknown` that every attempt was inconclusive; `Off` that none found it up
-- and some attempt was conclusive.
pub power_state-Reading :
    (c : PingConfig) (target : IpAddr) (net : Network) (r : PowerState)
    → power_state c (ok target) net ≡ ok r
    → Reading (probe c.method target net) c.attempts r
unfolding power_state
power_state-Reading c target net r h =
    let p = probe c.method target net in
    conclude-Reading p c.attempts (attempts_from p c.attempts 0 0) r
      (attempts_from-After p c.attempts 0 0) h
