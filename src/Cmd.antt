-- ===== src/Cmd.antt =====
-- cmd/mure: the commands.
pub mod Client
pub mod Doctor
pub mod Down
pub mod Emit
pub mod Focus
pub mod Integration
pub mod Spawn
pub mod Target
pub mod Up
pub mod Verbs
