-- ===== src/Machine/Reconcile/Left.antt =====
-- Machines that are left alone (`manage`, src/controller/node_power_management_config.rs).
use kube_hardware_autoscaler.Base.{Bool, true, ◌≡◌, arith, is_some}
use kube_hardware_autoscaler.Crd.Enums.{PowerPolicy, ManualPowerOnPolicy}
use kube_hardware_autoscaler.Machine.Rules.{managed_target}
use kube_hardware_autoscaler.Machine.Run.{Env, Machine}
use kube_hardware_autoscaler.Machine.Commands.{issued}
use kube_hardware_autoscaler.Machine.Events.Commands.{issued-observe}
use kube_hardware_autoscaler.Machine.Reconcile.{drive, manage, refuse_acting}

-- A machine that a person turned on is left to them: under the power policy `Auto` and the manual
-- policy `LeaveOn` the state machine issues no power command for it, whatever its pools decide.
pub left_on_untouched :
    (env : Env) (found agrees : Bool) (s : Machine)
    → env.spec.power_policy ≡ PowerPolicy.auto
    → env.manual_policy ≡ ManualPowerOnPolicy.leave_on
    → is_some s.st.manual_power_on ≡ true
    → issued (manage env found agrees s).1 ≡ issued s
unfolding manage drive managed_target
left_on_untouched env found agrees s p m h =
    ground (arith, p, m, h, issued-observe env s, issued-observe env (refuse_acting env found s))
