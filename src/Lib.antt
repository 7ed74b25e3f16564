-- ===== src/Lib.antt =====
-- Kube Hardware Autoscaler: a Kubernetes operator that powers physical machines on and off.
--
-- Two controllers share two custom resources. A NodeScalingPool selects machines by the labels of
-- their Nodes; its controller (src/controller/node_scaling_pool.rs) takes a snapshot of the pool,
-- calls the pure planner (src/scaling.rs) and records its decisions on the machines. The controller
-- of a NodePowerManagementConfig (src/controller/node_power_management_config.rs) carries a decision
-- out through the machine's power interfaces (src/drivers/chain.rs), behind four safety gates: the
-- Node exists, it is in a pool, each interface controls this machine (src/identity.rs), and the power
-- reading does not contradict a live Node.
--
-- Which file models what:
--   * Base: Boolean tests, lists and options, `i64` as integers that wrap around, times; Base.Texts
--     texts as lists of code points, with the functions of `str` that the drivers use.
--   * Crd (src/crd.rs, src/resources.rs): enumerations, specifications and status records, the
--     messages and warnings of a status as data, resource amounts, label selectors, the settings
--     that a machine and its pools share, conditions.
--   * Identity (src/identity.rs): `check` on texts as lists of code points and GUIDs as bytes.
--   * Drivers.Driver, Drivers.Chain (src/drivers/mod.rs, src/drivers/chain.rs): a driver is the
--     record of its answers within one reconcile; `PowerChain::build`, `check_identity`,
--     `disable_mismatched` and `attempt` with its callers.
--   * Drivers.Catalog (src/drivers/mod.rs): `lookup`, `load_credentials` and `build_driver`.
--   * Drivers.Ping and Drivers.Echo (src/drivers/ping.rs): the attempts of the reachability probe, and
--     the ICMP packets. Drivers.WakeOnLan (src/drivers/wol.rs): the relays and `power_on`.
--     Drivers.InBand (src/drivers/inband.rs): the pods that run a command on the host, as the list
--     of the pods there are, and the sleep probe. Drivers.JetKvm, Drivers.NanoKvm, Drivers.Redfish,
--     Drivers.PiKvm and Drivers.Ipmi (the files of these names under src/drivers): what each driver
--     asks of its device and makes of the answers.
--   * Wake (src/wake.rs): MAC addresses, the magic packet, and sending it.
--   * Controller (src/controller/mod.rs): Patch the status patches, Memory what is remembered between
--     reconciles.
--   * Cluster: what is read of Nodes and Pods. Membership (src/membership.rs): `resolve`.
--   * Machine (src/controller/node_power_management_config.rs): Rules and Boot hold the pure
--     decisions; Run the state of a `Reconciler` (the status and the effects so far), the monad of
--     its methods and `act`; Sleep, On, Off and Events the methods; Gates and Reconcile the function
--     `reconcile`, whose inputs are the record `World`; Clock and the modules of this name
--     below On, Off and Events follow `phaseSince`, and Reconcile.Reach has the statuses that a
--     machine can come to over several reconciles.
--   * Scaling (src/scaling.rs): Pods the drain classes, Views what is read of a pod and its request
--     (src/resources.rs), Fit the matching of pods and Nodes, Members
--     the snapshot, Order the ranking, Ranking the orders `plan` uses, Up the first half of
--     `plan`, Idle, Moves and Down the second one (the machines that may go, where their pods go, and
--     the removal), Agree what the pool tells other pools.
--   * Pool (src/controller/node_scaling_pool.rs): States has `member_state` and `classify`, Agreement
--     `other_pools_holding`, Decisions the decision log, Reconcile the members and the snapshot, Nodes
--     what a cycle reads of the Nodes, Cycle what it writes.
--   * Webhook (src/webhook.rs): the review of a pool, and `ensure_tls`.
--   * Samples and the modules named Tests: concrete data and runs.
--
-- Conventions. A `chrono` time is its number of nanoseconds, a difference in seconds an integer, an
-- unsigned field a number; `as i64` wraps around as in the source. The loops of the source are
-- structural recursion on a list, on the attempts or passes that are left, or on the events that a
-- device still sends. Two have a bound of their own: a certificate is looked for in 3 rounds, as in
-- the source; and the carries of a checksum are folded 3 times, which is enough, since a sum of 32
-- bits has a carry of 16 bits, then of one, then none. A method that writes to a Node and passes the
-- failure on by `?` returns a result, and what follows it runs only if it succeeded; a failure that
-- is only logged is not a result. The answers of drivers, devices, sockets and the API server are
-- parameters, arbitrary in the theorems except where a record names what is documented of them (the
-- merge patches of the API server, the buttons of a JetKVM). So is the planner's comparison of a
-- utilization with its threshold, which the source makes in floating point.
--
-- Not modelled: the clients of HTTP, MQTT, IPMI and DNS, the issuing of certificates and the TLS
-- server, the encryption of the NanoKVM password, reading configurations by serde, metrics, events'
-- texts and log lines, the planner's explanations for people, the parsing of resource quantities,
-- and process setup: they are input and output, calls of libraries, or texts.
pub mod Base
pub mod Crd
pub mod Identity
pub mod Drivers
pub mod Cluster
pub mod Scaling
pub mod Machine
pub mod Membership
pub mod Wake
pub mod Controller
pub mod Pool
pub mod Webhook
pub mod Samples
