-- ===== src/Hooks.antt =====
-- r402/src/hooks.rs: lifecycle hooks round the operations of a facilitator.
pub mod Lifecycle
pub mod Runs
pub mod Cases
pub mod Laws
pub mod Decorator
pub mod Decorated
