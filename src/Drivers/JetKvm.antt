-- ===== src/Drivers/JetKvm.antt =====
-- The JetKVM driver (src/drivers/jetkvm.rs): the broker's address, and the exchange over MQTT. The
-- messages that arrive are a list; texts are lists of code points.
pub mod Exchange
pub mod Tests
use kube_hardware_autoscaler.Base.{
  ℕ, String, Bool, true, false, ◌||◌, not, Option, none, some, List, [], ◌∷◌, ◌++◌, ◌==◌,
  if◌then◌else◌, any, is_empty, or_option,
}
use kube_hardware_autoscaler.Base.Texts.{
  Chars, codes, strip_prefix, trim_end, split_once, rsplit_once,
}
use kube_hardware_autoscaler.Crd.Enums.{PowerState}
use kube_hardware_autoscaler.Crd.Texts.{DriverError, config, interface}
use kube_hardware_autoscaler.Drivers.Driver.{Result, ok, err}
use kube_hardware_autoscaler.Drivers.InBand.{and_then}

pub data JetKvmExtension : Type 0 where
  atx dc : JetKvmExtension

pub record Broker : Type 0 where
  pub host : Chars
  pub port : ℕ
  pub tls : Bool

-- `str::parse::<u16>` is a parameter, as the ports are the standard library's to read.
abbrev Ports : Type 0
Ports = Chars → Option ℕ

abbrev is_slash : ℕ → Bool
is_slash c = c == b'/'

-- The scheme decides on TLS and the default port; what follows it is the rest.
abbrev pub Scheme : Type 0
Scheme = Bool × Chars × ℕ

abbrev as_scheme : Bool → ℕ → Option Chars → Option Scheme
as_scheme tls port none = none
as_scheme tls port (some rest) = some (tls, rest, port)

abbrev scheme_of : Chars → Option Scheme
scheme_of url =
    or_option
      (as_scheme true 8883
        (or_option (strip_prefix (codes "mqtts://") url) (strip_prefix (codes "ssl://") url)))
      (as_scheme false 1883
        (or_option (strip_prefix (codes "mqtt://") url) (strip_prefix (codes "tcp://") url)))

abbrev bad_port : DriverError
bad_port = config "invalid broker port"

abbrev with_port : Chars → Option ℕ → Result (Chars × ℕ) DriverError
with_port host none = err bad_port
with_port host (some p) = ok (host, p)

-- What follows the closing bracket of an IPv6 literal.
abbrev after_bracket : Ports → ℕ → Chars → Chars → Result (Chars × ℕ) DriverError
after_bracket ports default_port host after = elim (strip_prefix (codes ":") after) [
  | some p ↦ with_port host (ports p)
  | none ↦ if is_empty after then ok (host, default_port) else err bad_port
]

abbrev bracketed : Ports → ℕ → Chars → Result (Chars × ℕ) DriverError
bracketed ports default_port rest = elim (split_once b']' rest) [
  | none ↦ err bad_port
  | some (h, after) ↦ after_bracket ports default_port h after
]

abbrev plain : Ports → ℕ → Chars → Result (Chars × ℕ) DriverError
plain ports default_port rest = elim (rsplit_once b':' rest) [
  | some (h, p) ↦ with_port h (ports p)
  | none ↦ ok (rest, default_port)
]

abbrev host_and_port : Ports → ℕ → Chars → Result (Chars × ℕ) DriverError
host_and_port ports default_port rest = elim (strip_prefix (codes "[") rest) [
  | some inner ↦ bracketed ports default_port inner
  | none ↦ plain ports default_port rest
]

abbrev unless_no_host : Bool → Chars × ℕ → Result Broker DriverError
unless_no_host tls (host, port) =
    if is_empty host
    then err (config "broker URL has no host")
    else ok (record { host = host; port = port; tls = tls })

unfoldable pub parse_broker : Ports → Chars → Result Broker DriverError
parse_broker ports url = elim (scheme_of url) [
  | none ↦ err (config "broker must be an mqtt:// or mqtts:// URL")
  | some (tls, rest, port) ↦
      and_then (host_and_port ports port (trim_end is_slash rest)) (unless_no_host tls)
]

abbrev is_wildcard : ℕ → Bool
is_wildcard c = c == b'#' || c == b'+'

-- `JetKvmDriver::build`: the broker, and the base topic without slashes at its end.
unfoldable pub build : Ports → Chars → Chars → Result (Broker × Chars) DriverError
build ports url base_topic = and_then (parse_broker ports url) (λ broker.
    let base = trim_end is_slash base_topic in
    if is_empty base || any is_wildcard base
    then err (config "invalid baseTopic")
    else ok (broker, base))

pub data Op : Type 0 where
  on : Op
  off : (force : Bool) → Op

-- The commands, by their topic suffix and payload.
pub data Command : Type 0 where
  short_press long_press dc_on dc_off : Command

abbrev no_graceful : DriverError
no_graceful = interface "JetKVM DC extension cannot shut down gracefully"

unfoldable pub command_for : JetKvmExtension → Op → Bool → Result (Option Command) DriverError
command_for extension Op.on true = ok none
command_for extension (Op.off force) false = ok none
command_for JetKvmExtension.atx Op.on false = ok (some Command.short_press)
command_for JetKvmExtension.atx (Op.off false) true = ok (some Command.short_press)
command_for JetKvmExtension.atx (Op.off true) true = ok (some Command.long_press)
command_for JetKvmExtension.dc Op.on false = ok (some Command.dc_on)
command_for JetKvmExtension.dc (Op.off true) true = ok (some Command.dc_off)
command_for JetKvmExtension.dc (Op.off false) true = err no_graceful

-- What `eventloop.poll` gives: a message on the state topic, with what `parse_state` reads in it; one
-- on the status topic, with its `online` field; the broker's acknowledgement; something else; or a
-- lost connection. The end of the list is the deadline.
pub data Event : Type 0 where
  state : Option Bool → Event
  status : Option Bool → Event
  acknowledged other : Event
  lost : String → Event

-- The wait for the retained state, with the events after it.
await_state : List Event → Result (Bool × List Event) DriverError
await_state [] = err (interface "no retained state")
await_state (lost e ∷ rest) = err (interface e)
await_state (status (some false) ∷ rest) = err (interface "JetKVM reports itself offline")
await_state (state none ∷ rest) = err (interface "unexpected payload")
await_state (state (some is_on) ∷ rest) = ok (is_on, rest)
await_state (_ ∷ rest) = await_state rest

-- The wait for the acknowledgement, with a deadline of its own.
await_ack : List Event → Result (Unit {0}) DriverError
await_ack [] = err (interface "broker did not acknowledge publish")
await_ack (lost e ∷ rest) = err (interface e)
await_ack (acknowledged ∷ rest) = ok tt
await_ack (_ ∷ rest) = await_ack rest

-- What an exchange published, and its outcome: the power state that was observed before acting.
pub record Exchanged : Type 0 where
  pub published : List Command
  pub outcome : Result Bool DriverError

abbrev silent : Result Bool DriverError → Exchanged
silent r = record { published = []; outcome = r }

abbrev acked : Bool → Result (Unit {0}) DriverError → Result Bool DriverError
acked is_on (ok u) = ok is_on
acked is_on (err e) = err e

-- `publishing` is the client's refusal to publish.
abbrev publish : Option DriverError → Command → Bool → List Event → Exchanged
publish (some e) command is_on later = silent (err e)
publish none command is_on later = record {
  published = command ∷ [];
  outcome = acked is_on (await_ack later);
}

act : JetKvmExtension → Option Op → Option DriverError → Bool → List Event → Exchanged
unfolding await_ack
act extension none publishing is_on later = silent (ok is_on)
act extension (some op) publishing is_on later = elim (command_for extension op is_on) [
  | err e ↦ silent (err e)
  | ok none ↦ silent (ok is_on)
  | ok (some command) ↦ publish publishing command is_on later
]

-- `JetKvmDriver::exchange`, once the subscriptions stand. `later` are the events after a command.
unfoldable pub exchange :
    JetKvmExtension → Option Op → Option DriverError → List Event → List Event → Exchanged
unfolding await_state act
exchange extension op publishing first later = elim (await_state first) [
  | err e ↦ silent (err e)
  | ok (is_on, rest) ↦ act extension op publishing is_on (rest ++ later)
]

abbrev reading : Result Bool DriverError → Result PowerState DriverError
reading (ok is_on) = ok (if is_on then PowerState.on else PowerState.off)
reading (err e) = err e

unfoldable pub power_state : JetKvmExtension → List Event → Result PowerState DriverError
power_state extension events = reading (exchange extension none none events []).outcome
