-- ===== src/Proxy.antt =====
-- The proxy: proxy/include/proxy and proxy/src.
pub mod Parser
pub mod Metrics
pub mod Registration
pub mod Call
pub mod Router
pub mod Address
pub mod Server
