-- ===== src/Http.antt =====
-- r402-http: the payment gate of a server, and the payments of a client.
pub mod Platform
pub mod Paygate
pub mod Remote
