-- ===== src/Scheme.antt =====
-- r402/src/scheme: identities of payment schemes, the registry of handlers, and client selection.
pub mod Slug
pub mod Registry
