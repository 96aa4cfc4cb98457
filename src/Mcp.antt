-- ===== src/Mcp.antt =====
-- r402-mcp: payments for the calls of tools.
pub mod Types
pub mod Server
pub mod Extract
