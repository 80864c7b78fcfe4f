-- ===== src/Agent.antt =====
-- internal/agent: the daemon on each node.
pub mod SvcCmd
pub mod Exit
pub mod Registry
pub mod ToolConf
pub mod SvcAction
pub mod Sealed
pub mod Wireguard
pub mod Session
mod Tests
