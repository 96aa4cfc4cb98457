-- ===== src/Chain.antt =====
-- r402/src/chain.rs: chain identifiers, patterns of chains, and the registry of chain providers.
pub mod Id
pub mod Pattern
pub mod Registry
