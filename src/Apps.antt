-- ===== src/Apps.antt =====
-- apps/: the two programs.
pub mod ProxyMain
pub mod ClientMain
