-- ===== src/Tests.antt =====
-- Test data and the theorems at concrete inputs.
pub mod Chains
pub mod Messages
pub mod Routing
pub mod Lifecycle
pub mod Gate
pub mod Payments
pub mod Sending
pub mod Paying
pub mod Settling
pub mod Asking
pub mod Transferring
pub mod Trees
pub mod Tooling
pub mod Reading
