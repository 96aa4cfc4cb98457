-- ===== src/Client.antt =====
-- The client: the choice of a payment, and the middleware that pays.
pub mod Selection
pub mod Payment
