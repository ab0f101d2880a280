-- ===== src/Tmuxctl.antt =====
-- internal/tmuxctl: the control-mode client of tmux.
pub mod Parse
pub mod Client
