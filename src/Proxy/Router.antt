-- ===== src/Proxy/Router.antt =====
-- proxy/include/proxy/sip_router.hpp and proxy/src/sip_router.cpp. The state and the static
-- helpers are in `Helpers`, the handlers in `Context`, `Response` and `Route`; the other children
-- are proofs.
pub mod Helpers
pub mod Context
pub mod Response
pub mod Route
pub mod Cases
pub mod Headers
pub mod Frame
pub mod SyncSteps
pub mod Sync
pub mod Invite
pub mod Placing
pub mod Older
pub mod Sound
pub mod Calls
pub mod Direction
pub mod Agreement
pub mod InviteAgreement
pub mod Settings
pub mod Interleaving
pub mod Conversation
pub mod InCall
pub mod WholeCall
