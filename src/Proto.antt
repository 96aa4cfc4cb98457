-- ===== src/Proto.antt =====
-- r402/src/proto: the messages between buyers, sellers and facilitators, and their errors.
pub mod Error
pub mod Verify
pub mod Settle
pub mod V2
pub mod Request
