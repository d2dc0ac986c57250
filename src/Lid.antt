-- ===== src/Lid.antt =====
-- src/lid.rs: the profiles of the outputs when the lid of a laptop opens or closes. Topology reads
-- which outputs are connected, Profiles runs the commands, Ticks is the loop, and Listener the
-- thread that sends the events.
pub mod Topology
pub mod Profiles
pub mod Ticks
pub mod Listener
pub mod Clamshell
pub mod Retries
