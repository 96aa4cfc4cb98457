-- ===== src/Evm.antt =====
-- r402-evm: the scheme `exact` on EVM chains, by EIP-3009 and by Permit2, and the nonces of the
-- facilitator's own transactions.
pub mod Types
pub mod Time
pub mod Checks
pub mod Signature
pub mod Nonces
pub mod Calls
pub mod Settlement
pub mod Simulation
pub mod Facilitator
pub mod Provider
