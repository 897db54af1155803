-- ===== src/Tests.antt =====
-- Tests on concrete messages, calls and packets, and the theorems at concrete inputs.
pub mod Data
mod Messages
mod Calls
mod WholeCalls
mod Packets
mod Workers
mod Clients
mod Dialogs
mod Streams
mod Sessions
mod Systems
mod Programs
mod Windows
