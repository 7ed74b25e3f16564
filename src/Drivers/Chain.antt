-- ===== src/Drivers/Chain.antt =====
-- Ordered fallback across a machine's power interfaces (src/drivers/chain.rs).
pub mod Fallback
pub mod Disabled
pub mod Tests
use kube_hardware_autoscaler.Base.{
  ℕ, ◌*◌, String, Bool, true, false, ◌&&◌, not, Option, none, some, List, [], ◌∷◌, ◌++◌, str_eq,
  any, filter, is_empty, is_none_or, unwrap_or, if◌then◌else◌,
}
use kube_hardware_autoscaler.Base.Time.{nanos}
use kube_hardware_autoscaler.Crd.Enums.{InterfaceAction, PowerState, interface_action_eq}
use kube_hardware_autoscaler.Crd.Texts.{
  DriverError, interface, timeout, Warning, failed, different_machine, not_enabled, ChainError,
  all_failed, no_interfaces, none_built,
}
use kube_hardware_autoscaler.Crd.Spec.{PowerInterface}
use kube_hardware_autoscaler.Identity
use kube_hardware_autoscaler.Base.Texts.{Chars}
use kube_hardware_autoscaler.Identity.{IdentityCheck, mismatch, unverifiable}
use kube_hardware_autoscaler.Drivers.Driver.{Result, ok, err, Answer, done, fail, late, PowerDriver}

pub record Link : Type 0 where
  pub label : String
  pub interface : PowerInterface
  pub driver : PowerDriver
  pub timeout : ℕ

pub record PowerChain : Type 0 where
  pub links : List Link
  pub unavailable : List Warning

pub record Outcome (T : Type 0) : Type 0 where
  pub value : T
  pub via : String
  pub failures : List Warning

-- `PowerInterface::label`.
unfoldable pub label_of : PowerInterface → String
label_of pi = unwrap_or pi.name pi.driver

-- `PowerInterface::handles`.
unfoldable pub handles : PowerInterface → InterfaceAction → Bool
handles pi action = is_none_or pi.actions (any (λ a. interface_action_eq a action))

-- The timeout's error replaces a missing answer.
abbrev pub within {ℓ} : {A : Type ℓ} → ℕ → Answer A → Answer A
within t late = fail (timeout t)
within t answer = answer

-- `build_driver` reads Secrets and is given; `op_timeout` is the operator's, in nanoseconds.
module _ (build_driver : PowerInterface → Result PowerDriver DriverError) (op_timeout : ℕ) where
  link_timeout : PowerInterface → ℕ
  link_timeout pi = elim pi.timeout_seconds [ none ↦ op_timeout | some s ↦ s * nanos ]

  build_link : PowerInterface → Result PowerDriver DriverError → PowerChain → PowerChain
  unfolding link_timeout label_of
  build_link pi (ok driver) rest = record rest {
    links =
        record { label = label_of pi; interface = pi; driver = driver; timeout = link_timeout pi }
        ∷ rest.links;
  }
  build_link pi (err e) rest = record rest {
    unavailable = failed (label_of pi) e ∷ rest.unavailable;
  }

  -- The loop of `PowerChain::build`.
  build_links : List PowerInterface → PowerChain
  unfolding build_link
  build_links [] = record { links = []; unavailable = [] }
  build_links (pi ∷ pis) = build_link pi (build_driver pi) (build_links pis)

  unfoldable pub build : List PowerInterface → Result PowerChain ChainError
  unfolding build_links
  build [] = err no_interfaces
  build (pi ∷ pis) =
      let chain = build_links (pi ∷ pis) in
      if is_empty chain.links then err (none_built chain.unavailable) else ok chain

-- One result of `check_identity`: the interface's label, the check, whether it may be cached.
abbrev pub Checked : Type 0
Checked = String × IdentityCheck × Bool

abbrev check_answer : Option Chars → Link → Answer (Option Identity.SystemId) → Checked
check_answer node_uuid link (done id) = (link.label, Identity.check id node_uuid, true)
check_answer node_uuid link _ = (link.label, unverifiable, false)

check_links : Option Chars → List Link → List Checked
check_links node_uuid [] = []
check_links node_uuid (l ∷ ls) =
    check_answer node_uuid l (within l.timeout l.driver.system_id) ∷ check_links node_uuid ls

unfoldable pub check_identity : PowerChain → Option Chars → List Checked
unfolding check_links
check_identity chain node_uuid = check_links node_uuid chain.links

abbrev disable : String → Warning → PowerChain → PowerChain
disable label why chain = record {
  links = filter (λ l. not (str_eq l.label label)) chain.links;
  unavailable = chain.unavailable ++ (why ∷ []);
}

-- Drops the interfaces of one result, if it is a mismatch.
unfoldable pub disable_one : Checked → PowerChain → PowerChain
disable_one (label, mismatch reported expected, cacheable) chain =
    disable label (different_machine label reported expected) chain
disable_one (label, _, cacheable) chain = chain

unfoldable pub disable_mismatched : PowerChain → List Checked → PowerChain
disable_mismatched chain [] = chain
disable_mismatched chain (r ∷ rs) = disable_mismatched (disable_one r chain) rs

abbrev pub enabled_for : InterfaceAction → Link → Bool
enabled_for action l = handles l.interface action && l.driver.supports action

module _ {T : Type 0} (action : InterfaceAction) (op : PowerDriver → Answer T) where
  -- What one link answers, the timeout included.
  abbrev pub answer_of : Link → Answer T
  answer_of l = within l.timeout (op l.driver)

  -- The loop of `attempt`, over the links that serve the action.
  unfoldable pub try_links : Bool → List Warning → List Link → Result (Outcome T) ChainError
  try_links tried failures [] =
      err (all_failed (if tried then failures else failures ++ (not_enabled action ∷ [])))
  try_links tried failures (l ∷ ls) = elim (answer_of l) [
    | done v ↦ ok (record { value = v; via = l.label; failures = failures })
    | fail e ↦ try_links true (failures ++ (failed l.label e ∷ [])) ls
    | late ↦ try_links true (failures ++ (failed l.label (timeout l.timeout) ∷ [])) ls
  ]

  unfoldable pub attempt : PowerChain → Result (Outcome T) ChainError
  unfolding try_links
  attempt chain = try_links false chain.unavailable (filter (enabled_for action) chain.links)

abbrev known_state : Answer PowerState → Answer PowerState
known_state (done PowerState.unknown) = fail (interface "power state unknown")
known_state answer = answer

unfoldable pub power_state : PowerChain → Result (Outcome PowerState) ChainError
power_state = attempt InterfaceAction.status (λ d. known_state d.power_state)

unfoldable pub power_on : PowerChain → Result (Outcome Unit) ChainError
power_on = attempt InterfaceAction.power_on (λ d. d.power_on)

unfoldable pub power_off : PowerChain → Bool → Result (Outcome Unit) ChainError
power_off chain force = attempt InterfaceAction.power_off (λ d. d.power_off force) chain
