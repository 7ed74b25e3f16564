-- ===== src/Drivers/NanoKvm/Session.antt =====
-- The session of a NanoKVM (`call`, src/drivers/nanokvm.rs).
use kube_hardware_autoscaler.Base.{
  ℕ, ◌+◌, ◌≤◌, true, false, ◌≡◌, refl, Option, none, some, arith, is_some, if◌then◌else◌,
}
use kube_hardware_autoscaler.Base.Texts.{Chars}
use kube_hardware_autoscaler.Crd.Texts.{DriverError}
use kube_hardware_autoscaler.Drivers.Driver.{Result, ok, err}
use kube_hardware_autoscaler.Drivers.NanoKvm.{
  Code, envelope, login, Response, failed, unauthorized, refused, success, Device, Called, finish,
  second_attempt, first_attempt, with_token, call,
}

-- A result that the answer gives: a successful one is the answer's data.
abbrev pub Given : {A : Type 0} → Result A DriverError → Response A → Type 0
Given (ok v) r = r ≡ success Code.zero_code v
Given (err e) r = Unit

-- Of a call that so many logins may precede: one more login and two requests at most; and its data came
-- with the token that is kept.
abbrev pub WellDone : {A : Type 0} → Device A → ℕ → Called A → Type 0
WellDone d n c = (c.login_count ≤ n + 1) × (c.request_count ≤ 2) × Given c.result (d.answer c.token)

envelope-Given :
    {A : Type 0} (code : Code) (value : A) (r : Response A)
    → r ≡ success code value
    → Given (envelope code value) r
unfolding envelope
envelope-Given Code.zero_code value r h = h
envelope-Given Code.missing value r h = tt
envelope-Given (Code.other_code why) value r h = tt

module _ {A : Type 0} (d : Device A) where
  finish-WellDone :
      (r : Response A) (t : Option Chars) (l n k : ℕ)
      → d.answer t ≡ r
      → l ≤ n + 1
      → k ≤ 2
      → WellDone d n (finish r t l k)
  finish-WellDone (failed e) t l n k a hl hk = (hl, hk, tt)
  finish-WellDone unauthorized t l n k a hl hk = (hl, hk, tt)
  finish-WellDone (refused why) t l n k a hl hk = (hl, hk, tt)
  finish-WellDone (success code value) t l n k a hl hk =
      (hl, hk, envelope-Given code value (d.answer t) a)

  second_attempt-WellDone :
      (r : Result (Option Chars) DriverError) (t : Option Chars) (n : ℕ)
      → WellDone d n (second_attempt d r t n)
  unfolding second_attempt
  second_attempt-WellDone (err e) t n = (omega arith, omega arith, tt)
  second_attempt-WellDone (ok u) t n =
      finish-WellDone (d.answer u) u (n + 1) n 2 refl (omega arith) (omega arith)

  first_attempt-WellDone :
      (r : Response A) (t : Option Chars) (n : ℕ)
      → d.answer t ≡ r
      → WellDone d n (first_attempt d r t n)
  unfolding first_attempt
  first_attempt-WellDone unauthorized t n e = second_attempt-WellDone (login (d.logins true)) t n
  first_attempt-WellDone (failed f) t n e =
      finish-WellDone (failed f) t n n 1 e (omega arith) (omega arith)
  first_attempt-WellDone (refused why) t n e =
      finish-WellDone (refused why) t n n 1 e (omega arith) (omega arith)
  first_attempt-WellDone (success c v) t n e =
      finish-WellDone (success c v) t n n 1 e (omega arith) (omega arith)

  with_token-WellDone : (r : Result (Option Chars) DriverError) → WellDone d 1 (with_token d r)
  unfolding with_token
  with_token-WellDone (err e) = (omega arith, omega arith, tt)
  with_token-WellDone (ok t) = first_attempt-WellDone (d.answer t) t 1 refl

-- A call sends its request at most twice and logs in at most once more than it has to, so a session
-- that the device keeps refusing does not loop; and where it succeeds, the token that stays cached
-- is the one with which the device gave the data.
pub call-WellDone :
    {A : Type 0} (d : Device A) (token : Option Chars)
    → WellDone d (if is_some token then 0 else 1) (call d token)
unfolding call
call-WellDone d none = with_token-WellDone d (login (d.logins false))
call-WellDone d (some t) = first_attempt-WellDone d (d.answer (some t)) (some t) 0 refl
