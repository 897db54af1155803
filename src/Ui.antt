-- ===== src/Ui.antt =====
-- The window of the client: ui/src/main_window.cpp, header_injection_widget.cpp and sip_qt_app.cpp.
-- Qt is given. A slot is a function of the window and the client; the queued connections are the
-- list of notices of the client, which `App` hands to the slots in order.
pub mod Qt
pub mod Headers
pub mod Window
pub mod App
pub mod Buttons
pub mod Controls
pub mod Events
pub mod Consistent
pub mod Clicks
