-- ===== src/Pool.antt =====
-- The pool controller (src/controller/node_scaling_pool.rs).
pub mod States
pub mod Agreement
pub mod Decisions
pub mod Reconcile
pub mod Nodes
pub mod Cycle
pub mod Tests
