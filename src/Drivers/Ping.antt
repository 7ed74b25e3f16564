-- ===== src/Drivers/Ping.antt =====
-- The reachability probe (src/drivers/ping.rs): a driver that only reads the power state. What the
-- network answers is given. Bytes are numbers below 256.
pub mod Probing
pub mod Tests
use kube_hardware_autoscaler.Base.{
  ℕ, zero, suc, ◌+◌, ◌*◌, ◌%◌, ◌^◌, String, Bool, true, false, ◌&&◌, not, Option, none, some, List,
  [], ◌∷◌, ◌++◌, str_eq, ltb, leb, ◌==◌, if◌then◌else◌, find, filter, head?, or_option, is_some_and,
  drop, unwrap_or, length,
}
use kube_hardware_autoscaler.Crd.Enums.{InterfaceAction, PowerState}
use kube_hardware_autoscaler.Crd.Texts.{DriverError, config, interface}
use kube_hardware_autoscaler.Drivers.Driver.{Result, ok, err}

pub data PingMethod : Type 0 where
  tcp icmp : PingMethod

pub record PingConfig : Type 0 where
  pub address : Option String
  pub method : PingMethod
  pub port : ℕ
  pub timeout_ms : ℕ
  pub attempts : ℕ

-- `PingDriver::build`.
unfoldable pub build : PingConfig → Result PingConfig DriverError
build c =
    if is_some_and c.address (λ a. str_eq a "")
    then err (config "ping address must not be empty (omit it to use the Node's IP)")
    else if c.attempts == 0
    then err (config "ping attempts and timeoutMs must be positive")
    else if c.timeout_ms == 0
    then err (config "ping attempts and timeoutMs must be positive")
    else ok c

pub data IpAddr : Type 0 where
  v4 v6 : ℕ → IpAddr

abbrev pub is_ipv4 : IpAddr → Bool
is_ipv4 (v4 a) = true
is_ipv4 (v6 a) = false

-- The addresses of a kind that parse. `parse` is `str::parse::<IpAddr>`; an address is its kind and
-- its text.
abbrev ips : (String → Option IpAddr) → String → List (String × String) → List IpAddr
ips parse kind [] = []
ips parse kind ((k, a) ∷ rest) =
    let found = ips parse kind rest in
    if str_eq k kind then elim (parse a) [ none ↦ found | some ip ↦ ip ∷ found ] else found

unfoldable pub node_address : (String → Option IpAddr) → List (String × String) → Option IpAddr
node_address parse addrs =
    let candidates = ips parse "InternalIP" addrs ++ ips parse "ExternalIP" addrs in
    or_option (find is_ipv4 candidates) (head? candidates)

-- The kinds of `io::Error` that are told apart.
pub data ErrorKind : Type 0 where
  connection_refused timed_out host_unreachable network_unreachable other : ErrorKind

abbrev pub tcp_verdict : Result (Unit {0}) ErrorKind → Option Bool
tcp_verdict (ok u) = some true
tcp_verdict (err ErrorKind.connection_refused) = some true
tcp_verdict (err ErrorKind.timed_out) = some false
tcp_verdict (err ErrorKind.host_unreachable) = some false
tcp_verdict (err ErrorKind.network_unreachable) = some false
tcp_verdict (err ErrorKind.other) = none

-- What the probes of one `power_state` find, by the number of the attempt: a connection attempt,
-- `none` where it runs into the timeout, and an ICMP echo, which may fail for want of a socket.
pub record Network : Type 0 where
  pub connect : ℕ → Option (Result (Unit {0}) ErrorKind)
  pub echo : ℕ → Result Bool DriverError

tcp_probe : Network → ℕ → Option Bool
tcp_probe net attempt = tcp_verdict (unwrap_or (net.connect attempt) (err ErrorKind.timed_out))

-- One attempt. The sequence number of an echo is the attempt as a `u16`.
unfoldable pub probe : PingMethod → IpAddr → Network → ℕ → Result (Option Bool) DriverError
unfolding tcp_probe
probe PingMethod.tcp target net attempt = ok (tcp_probe net attempt)
probe PingMethod.icmp (v4 a) net attempt = elim (net.echo (attempt % 2 ^ 16)) [
  | ok up ↦ ok (some up)
  | err e ↦ err e
]
probe PingMethod.icmp (v6 a) net attempt =
    err (config "icmp probing supports IPv4 only; use method: tcp")

-- The loop `for attempt in 0..attempts`: the attempts that are left, the next one, and how many were
-- inconclusive. `returned` is an early return.
pub data Loop : Type 0 where
  returned : Result PowerState DriverError → Loop
  ended : (inconclusive : ℕ) → Loop

next_attempt : Result (Option Bool) DriverError → Loop → Loop → Loop
next_attempt (err e) quiet unclear = returned (err e)
next_attempt (ok (some true)) quiet unclear = returned (ok PowerState.on)
next_attempt (ok (some false)) quiet unclear = quiet
next_attempt (ok none) quiet unclear = unclear

attempts_from : (ℕ → Result (Option Bool) DriverError) → ℕ → ℕ → ℕ → Loop
unfolding next_attempt
attempts_from probe_at zero next inconclusive = ended inconclusive
attempts_from probe_at (suc left) next inconclusive =
    let quiet = attempts_from probe_at left (next + 1) inconclusive in
    let unclear = attempts_from probe_at left (next + 1) (inconclusive + 1) in
    next_attempt (probe_at next) quiet unclear

conclude : ℕ → Loop → Result PowerState DriverError
conclude attempts (returned r) = r
conclude attempts (ended n) = ok (if n == attempts then PowerState.unknown else PowerState.off)

unfoldable pub power_state :
    PingConfig → Result IpAddr DriverError → Network → Result PowerState DriverError
unfolding attempts_from conclude
power_state c (err e) net = err e
power_state c (ok target) net =
    conclude c.attempts (attempts_from (probe c.method target net) c.attempts 0 0)

abbrev pub supports : InterfaceAction → Bool
supports InterfaceAction.status = true
supports _ = false

pub power_on : Result (Unit {0}) DriverError
power_on = err (interface "the ping driver only reports power state")

pub power_off : Bool → Result (Unit {0}) DriverError
power_off force = err (interface "the ping driver only reports power state")
