-- ===== src/Pool/States/Wakeable.antt =====
-- Which machines the autoscaler may turn on or off, by their status (`member_state` and `classify`,
-- src/controller/node_scaling_pool.rs).
use kube_hardware_autoscaler.Base.{ℕ, false, ◌≡◌}
use kube_hardware_autoscaler.Crd.Spec.{NodeScalingPoolSpec}
use kube_hardware_autoscaler.Crd.Status.{NodePowerManagementConfigStatus}
use kube_hardware_autoscaler.Scaling.Members.{MemberState}
use kube_hardware_autoscaler.Pool.States.{backing_off, cooling_down}

abbrev Status : Type 0
Status = NodePowerManagementConfigStatus

-- What a member that counts as offline has been checked for.
abbrev Rested : Status → MemberState → NodeScalingPoolSpec → ℕ → ℕ → Type 0
Rested st base spec cooldown now =
    (base ≡ MemberState.offline)
    × ((backing_off st.boot_failure spec now ≡ false)
        × (cooling_down st.manual_power_off cooldown now ≡ false))
