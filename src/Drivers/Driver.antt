-- ===== src/Drivers/Driver.antt =====
-- `PowerDriver` (src/drivers/mod.rs): what a driver answers within one reconcile.
use kube_hardware_autoscaler.Base.{Bool, Option, ◌≡◌}
use kube_hardware_autoscaler.Crd.Enums.{InterfaceAction, PowerState}
use kube_hardware_autoscaler.Crd.Texts.{DriverError}
use kube_hardware_autoscaler.Identity.{SystemId}

-- `Result<T, E>`.
pub data Result {ℓ} (A E : Type ℓ) : Type ℓ where
  ok : A → Result A E
  err : E → Result A E

pub ok-injective {ℓ} : {A E : Type ℓ} {a b : A} → ◌≡◌ {A = Result A E} (ok a) (ok b) → a ≡ b
ok-injective h = cc

pub ok≢err {ℓ} : {A E : Type ℓ} {a : A} {e : E} → ◌≡◌ {A = Result A E} (ok a) (err e) → ⊥
ok≢err h = cc

-- The outcome of a call under `tokio::time::timeout`; `late` when the time runs out first.
pub data Answer {ℓ} (A : Type ℓ) : Type ℓ where
  done : A → Answer A
  fail : DriverError → Answer A
  late : Answer A

-- The drivers speak to machines over the network: their answers are given.
pub record PowerDriver : Type 0 where
  pub supports : InterfaceAction → Bool
  pub power_state : Answer PowerState
  pub power_on : Answer (Unit {0})
  pub power_off : (force : Bool) → Answer (Unit {0})
  pub system_id : Answer (Option SystemId)
