-- ===== src/Sidebar.antt =====
-- internal/sidebar: the roster that a pane shows.
pub mod Themes
pub mod Agents
pub mod Model
pub mod Logo
pub mod Mirror
pub mod Layout
pub mod Client
pub mod Rows
pub mod View
