-- ===== src/Drivers/JetKvm/Tests.antt =====
-- Runs of the JetKVM exchange and of the broker's address (src/drivers/jetkvm.rs).
use kube_hardware_autoscaler.Base.{
  ℕ, Bool, true, false, not, ◌≡◌, refl, some, none, List, [], ◌∷◌, if◌then◌else◌, Option,
}
use kube_hardware_autoscaler.Base.Texts.{Chars, codes, chars_eq}
use kube_hardware_autoscaler.Drivers.Driver.{ok}
use kube_hardware_autoscaler.Drivers.JetKvm.{
  JetKvmExtension, Op, Command, command_for, Event, state, acknowledged, other, exchange, act,
  await_state, await_ack, parse_broker,
}
use kube_hardware_autoscaler.Drivers.JetKvm.Exchange.{
  Extension, Published, Told, exchange-Requested,
}

abbrev react : Command → Bool → Bool
react Command.short_press is_on = not is_on
react Command.long_press is_on = false
react Command.dc_on is_on = true
react Command.dc_off is_on = false

abbrev board : Extension
board = record {
  react = react;
  toggles = λ is_on. refl;
  cuts = refl;
  switches_on = refl;
  switches_off = refl;
}

abbrev first : List Event
first = other ∷ state (some true) ∷ []

abbrev later : List Event
later = acknowledged ∷ []

shuts_down : (exchange JetKvmExtension.atx (some (Op.off false)) none first later).outcome ≡ ok true
unfolding exchange act await_state await_ack command_for
shuts_down = refl

exchange-Requested_example :
    Told true first
    × Published react true
        (Op.off false)
        (exchange JetKvmExtension.atx (some (Op.off false)) none first later).published
exchange-Requested_example =
    exchange-Requested board JetKvmExtension.atx (Op.off false) none first later true shuts_down

-- `mqtts://[fd00::1]:8884/`, with a reader of that port.
abbrev ports : Chars → Option ℕ
ports p = if chars_eq p (codes "8884") then some 8884 else none

literal :
    parse_broker ports (codes "mqtts://[fd00::1]:8884/")
    ≡ ok (record { host = codes "fd00::1"; port = 8884; tls = true })
unfolding parse_broker
literal = refl

plain_host :
    parse_broker ports (codes "tcp://broker.lan")
    ≡ ok (record { host = codes "broker.lan"; port = 1883; tls = false })
unfolding parse_broker
plain_host = refl
