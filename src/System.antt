-- ===== src/System.antt =====
-- The client and the proxy together.
pub mod Registered
pub mod Invited
