-- ===== src/Networking.antt =====
-- networking/ and the queue of common/: how packets reach the workers.
pub mod Queue
pub mod Tcp
pub mod Udp
pub mod Pipeline
pub mod Sockets
