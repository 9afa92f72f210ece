-- ===== src/Desktop.antt =====
-- crates/desktop: the gateway between the browser's view of a terminal and the machine.
pub mod Table
pub mod Vault
pub mod Devices
pub mod AgentLog
pub mod SessionSummary
pub mod Gateway
