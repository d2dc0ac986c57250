-- ===== src/Events.antt =====
-- src/events.rs: what the compositor's events on windows, outputs, layer outputs and seats do.
pub mod OnWindow
pub mod OnOutput
pub mod OnSeat
pub mod Safety
pub mod Requests
