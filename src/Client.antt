-- ===== src/Client.antt =====
-- client/: the parts of the SIP client.
pub mod State
pub mod Register
pub mod Factory
pub mod Session
pub mod Invite
pub mod App
pub mod Console
