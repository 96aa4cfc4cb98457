-- ===== src/Solana.antt =====
-- r402-svm: payments on Solana.
pub mod Types
pub mod Checks
pub mod Facilitator
