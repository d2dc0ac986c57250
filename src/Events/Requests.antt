-- ===== src/Events/Requests.antt =====
-- The requests of the events of outputs, windows and seats (src/events.rs): none of them needs a
-- manage or a render sequence.
pub mod Outputs
pub mod Windows
pub mod Seats
