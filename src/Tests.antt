-- ===== src/Tests.antt =====
-- Concrete runs of the code that the theorems are applied to.
pub mod Daemon
pub mod Server
pub mod Tmuxctl
pub mod Sidebar
pub mod Sock
pub mod Cmd
pub mod Commands
pub mod Harnesses
pub mod View
pub mod Emit
pub mod Crowded
pub mod Lifecycle
