-- ===== src/Drivers/NanoKvm.antt =====
-- The NanoKVM driver (src/drivers/nanokvm.rs): the session with its cached token, and the power
-- button. What the device answers is given; texts are lists of code points.
pub mod Session
pub mod Encoding
pub mod Tests
use kube_hardware_autoscaler.Base.{
  ℕ, ◌+◌, ◌-◌, ◌/◌, ◌%◌, String, Bool, true, false, ◌&&◌, ◌||◌, not, Option, none, some, List, [],
  ◌∷◌, ◌++◌, leb, ltb, ◌==◌, if◌then◌else◌, is_empty,
}
use kube_hardware_autoscaler.Base.Texts.{Chars, codes, chars_eq, split_once, split_on, trim}
use kube_hardware_autoscaler.Crd.Enums.{PowerState}
use kube_hardware_autoscaler.Crd.Texts.{DriverError, interface}
use kube_hardware_autoscaler.Drivers.Driver.{Result, ok, err}

-- RFC 3986 unreserved characters.
abbrev pub is_unreserved : ℕ → Bool
is_unreserved b =
    (leb b'A' b && leb b b'Z')
    || (leb b'a' b && leb b b'z')
    || (leb b'0' b && leb b b'9')
    || b == b'-'
    || b == b'_'
    || b == b'.'
    || b == b'~'

-- A hexadecimal digit in upper case.
abbrev pub upper_digit : ℕ → ℕ
upper_digit n = if ltb n 10 then b'0' + n else b'A' + n - 10

abbrev pub encode_byte : ℕ → Chars
encode_byte b =
    if is_unreserved b then b ∷ [] else b'%' ∷ (upper_digit (b / 16) ∷ (upper_digit (b % 16) ∷ []))

unfoldable pub url_encode : List ℕ → Chars
url_encode [] = []
url_encode (b ∷ bs) = encode_byte b ++ url_encode bs

abbrev is_semicolon : ℕ → Bool
is_semicolon c = c == b';'

abbrev first_part : List Chars → Chars
first_part [] = []
first_part (p ∷ ps) = trim p

abbrev named_token : Option (Chars × Chars) → Option Chars
named_token none = none
named_token (some (name, value)) =
    if chars_eq name (codes "nano-kvm-token") && not (is_empty value) then some value else none

-- The session token among the values of the `Set-Cookie` headers.
unfoldable pub token_from_set_cookie : List Chars → Option Chars
token_from_set_cookie [] = none
token_from_set_cookie (c ∷ cs) =
    let rest = token_from_set_cookie cs in
    elim (named_token (split_once b'=' (first_part (split_on is_semicolon c)))) [
      | some t ↦ some t
      | none ↦ rest
    ]

-- The `code` of a response's envelope: 0, another one, or none.
pub data Code : Type 0 where
  zero_code missing : Code
  other_code : String → Code

unfoldable pub envelope : {A : Type 0} → Code → A → Result A DriverError
envelope Code.zero_code value = ok value
envelope (Code.other_code why) value = err (interface why)
envelope Code.missing value = err (interface "unexpected response")

-- The answer to a login: the request's failure, or the token and the envelope's code.
pub data Login : Type 0 where
  unreachable : DriverError → Login
  answered : Option Chars → Code → Login

unfoldable pub login : Login → Result (Option Chars) DriverError
unfolding envelope
login (unreachable e) = err e
login (answered token code) = envelope code token

-- The answer to a request: its failure, 401, another status that is no success, or the envelope's
-- code with the data.
pub data Response (A : Type 0) : Type 0 where
  failed : DriverError → Response A
  unauthorized : Response A
  refused : String → Response A
  success : Code → A → Response A

-- The device: the answers to the first and the second login of a call, and to a request with a
-- token.
pub record Device (A : Type 0) : Type 0 where
  pub logins : Bool → Login
  pub answer : Option Chars → Response A

-- A call's result, the cached token after it, and how often it logged in and sent its request.
pub record Called (A : Type 0) : Type 0 where
  pub result : Result A DriverError
  pub token : Option Chars
  pub login_count : ℕ
  pub request_count : ℕ

abbrev finish : {A : Type 0} → Response A → Option Chars → ℕ → ℕ → Called A
finish (failed e) t l n = record { result = err e; token = t; login_count = l; request_count = n }
finish unauthorized t l n = record {
  result = err (interface "returned 401");
  token = t;
  login_count = l;
  request_count = n;
}
finish (refused why) t l n = record {
  result = err (interface why);
  token = t;
  login_count = l;
  request_count = n;
}
finish (success code value) t l n = record {
  result = envelope code value;
  token = t;
  login_count = l;
  request_count = n;
}

abbrev cannot_log_in : {A : Type 0} → DriverError → Option Chars → ℕ → ℕ → Called A
cannot_log_in e t l n = record { result = err e; token = t; login_count = l; request_count = n }

module _ {A : Type 0} (d : Device A) where
  -- The second attempt, by its login.
  second_attempt : Result (Option Chars) DriverError → Option Chars → ℕ → Called A
  unfolding envelope
  second_attempt (err e) token count = cannot_log_in e token (count + 1) 1
  second_attempt (ok t) token count = finish (d.answer t) t (count + 1) 2

  -- The first attempt, by its answer: only 401 leads to another login.
  first_attempt : Response A → Option Chars → ℕ → Called A
  unfolding envelope second_attempt login
  first_attempt unauthorized token count = second_attempt (login (d.logins true)) token count
  first_attempt (failed e) token count = finish (failed e) token count 1
  first_attempt (refused why) token count = finish (refused why) token count 1
  first_attempt (success code value) token count = finish (success code value) token count 1

  -- Without a cached token the first attempt logs in.
  with_token : Result (Option Chars) DriverError → Called A
  unfolding first_attempt
  with_token (err e) = cannot_log_in e none 1 0
  with_token (ok t) = first_attempt (d.answer t) t 1

  -- `NanoKvmDriver::call`, with the cached token.
  unfoldable pub call : Option Chars → Called A
  unfolding first_attempt with_token login
  call (some t) = first_attempt (d.answer (some t)) (some t) 0
  call none = with_token (login (d.logins false))

-- What a power operation did: its result, and the press of the button, in milliseconds.
pub record Powered : Type 0 where
  pub result : Result (Unit {0}) DriverError
  pub pressed : Option ℕ

abbrev unit_of : Result (Unit {0}) DriverError → ℕ → Powered
unit_of r ms = record { result = r; pressed = some ms }

abbrev led : Result (Option Bool) DriverError → Result Bool DriverError
led (err e) = err e
led (ok none) = err (interface "unexpected gpio state")
led (ok (some b)) = ok b

pub record NanoKvmConfig : Type 0 where
  pub short_press_ms : ℕ
  pub long_press_ms : ℕ

module _ (config : NanoKvmConfig) (gpio : Device (Option Bool))
    (press : ℕ → Device (Unit {0})) where
  -- The power LED, and the token after reading it.
  is_on : Option Chars → Result Bool DriverError × Option Chars
  is_on token = let c = call gpio token in (led c.result, c.token)

  press_button : Option Chars → ℕ → Powered
  press_button token ms = unit_of (call (press ms) token).result ms

  -- Nothing is pressed where the machine is in the wanted state.
  unless_in_state : Bool → ℕ → Result Bool DriverError × Option Chars → Powered
  unfolding press_button
  unless_in_state wanted ms (err e, token) = record { result = err e; pressed = none }
  unless_in_state true ms (ok true, token) = record { result = ok tt; pressed = none }
  unless_in_state true ms (ok false, token) = press_button token ms
  unless_in_state false ms (ok true, token) = press_button token ms
  unless_in_state false ms (ok false, token) = record { result = ok tt; pressed = none }

  unfoldable pub power_on : Option Chars → Powered
  unfolding unless_in_state is_on
  power_on token = unless_in_state true config.short_press_ms (is_on token)

  unfoldable pub power_off : Option Chars → Bool → Powered
  unfolding unless_in_state is_on
  power_off token force =
      unless_in_state false (if force then config.long_press_ms else config.short_press_ms)
        (is_on token)

  abbrev reading : Result Bool DriverError → Result PowerState DriverError
  reading (ok b) = ok (if b then PowerState.on else PowerState.off)
  reading (err e) = err e

  unfoldable pub power_state : Option Chars → Result PowerState DriverError
  unfolding is_on
  power_state token = reading (is_on token).0
