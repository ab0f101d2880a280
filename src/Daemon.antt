-- ===== src/Daemon.antt =====
-- internal/daemon: the roster, the socket server, the tmux bridge and the log.
pub mod Roster
pub mod Server
pub mod Bridge
pub mod Connections
pub mod Lifecycle
pub mod Log
