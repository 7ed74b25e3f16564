-- ===== src/Drivers/NanoKvm/Tests.antt =====
-- Runs of the NanoKVM driver (src/drivers/nanokvm.rs).
use kube_hardware_autoscaler.Base.{
  Bool, true, ◌≡◌, refl, some, none, [], ◌∷◌, Option, if◌then◌else◌,
}
use kube_hardware_autoscaler.Base.Texts.{codes, chars_eq}
use kube_hardware_autoscaler.Drivers.Driver.{ok}
use kube_hardware_autoscaler.Drivers.NanoKvm.{
  Code, envelope, login, answered, unauthorized, success, Device, call, first_attempt,
  second_attempt, url_encode, token_from_set_cookie,
}
use kube_hardware_autoscaler.Drivers.NanoKvm.Session.{WellDone, call-WellDone}

-- The device knows one token, and gives it at a login.
abbrev device : Device (Option Bool)
device = record {
  logins = λ again. answered (some (codes "t2")) Code.zero_code;
  answer = λ token. elim token [
    | none ↦ unauthorized
    | some t ↦ if chars_eq t (codes "t2") then success Code.zero_code (some true) else unauthorized
  ];
}

expired : (call device (some (codes "t1"))).result ≡ ok (some true)
unfolding call first_attempt second_attempt login envelope
expired = refl

call-WellDone_example : WellDone device 0 (call device (some (codes "t1")))
call-WellDone_example = call-WellDone device (some (codes "t1"))

escapes : url_encode (43 ∷ 47 ∷ 65 ∷ []) ≡ codes "%2B%2FA"
unfolding url_encode
escapes = refl

cookie :
    token_from_set_cookie (codes "lang=en" ∷ codes "nano-kvm-token=abc; Path=/" ∷ [])
    ≡ some (codes "abc")
unfolding token_from_set_cookie
cookie = refl
