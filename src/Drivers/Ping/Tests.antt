-- ===== src/Drivers/Ping/Tests.antt =====
-- Runs of the ping driver (src/drivers/ping.rs).
use kube_hardware_autoscaler.Base.{
  ℕ, zero, suc, false, ◌<◌, ◌%◌, ◌≡◌, refl, Option, none, some, arith,
}
use kube_hardware_autoscaler.Crd.Enums.{PowerState}
use kube_hardware_autoscaler.Drivers.Driver.{Result, ok, err}
use kube_hardware_autoscaler.Drivers.Ping.{
  PingConfig, PingMethod, IpAddr, ErrorKind, Network, probe, tcp_probe, power_state, attempts_from,
  conclude,
}
use kube_hardware_autoscaler.Drivers.Ping.Probing.{Reading, power_state-Reading}
use kube_hardware_autoscaler.Drivers.Echo.{checksum, echo_request}
use kube_hardware_autoscaler.Drivers.Echo.Valid.{total_words, checksum-echo_request}

abbrev tcp_config : PingConfig
tcp_config = record {
  address = none;
  method = PingMethod.tcp;
  port = 22;
  timeout_ms = 1000;
  attempts = 3;
}

-- The first attempt times out, the second one is refused.
abbrev refused_later : ℕ → Option (Result Unit ErrorKind)
refused_later zero = none
refused_later (suc n) = some (err ErrorKind.connection_refused)

abbrev network : Network
network = record { connect = refused_later; echo = λ n. ok false }

refused_is_on : power_state tcp_config (ok (IpAddr.v4 1)) network ≡ ok PowerState.on
unfolding power_state attempts_from probe tcp_probe conclude
refused_is_on = refl

power_state-Reading_example : Reading (probe PingMethod.tcp (IpAddr.v4 1) network) 3 PowerState.on
power_state-Reading_example =
    power_state-Reading tcp_config (IpAddr.v4 1) network PowerState.on refused_is_on

checksum-echo_request_example :
    (0 < total_words (echo_request 4711 2))
    × (total_words (echo_request 4711 2) % 65535 ≡ 0)
    × (checksum (echo_request 4711 2) ≡ 0)
checksum-echo_request_example = checksum-echo_request 4711 2 (omega arith) (omega arith)
