-- ===== src/Bindings.antt =====
-- src/bindings.rs: what a key or pointer binding does to the data.
pub mod Action
pub mod Pointer
pub mod Keys
pub mod Safety
pub mod Requests
