-- ===== src/Scaling.antt =====
-- The autoscaling logic (src/scaling.rs).
pub mod Pods
pub mod Fit
pub mod Views
pub mod Members
pub mod Order
pub mod Up
pub mod Moves
pub mod Idle
pub mod Down
pub mod Agree
pub mod Ranking
pub mod Tests
