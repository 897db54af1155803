-- ===== src/Sip.antt =====
-- The message type that the proxy and the client share: common/.
pub mod Message
