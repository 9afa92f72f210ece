-- ===== src/Core.antt =====
-- crates/core/src/lib.rs: the pure state machines of a session.
pub mod History
pub mod Controller
pub mod Presence
