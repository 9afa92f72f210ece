-- ===== src/Authority.antt =====
-- crates/authority/src/lib.rs: grants, the tip anchors and the journal of spent uses.
pub mod Types
pub mod Table
pub mod Verify
pub mod Anchor
pub mod Journal
