-- ===== src/Harnesses.antt =====
-- internal/harnesses: what an integration installs, and how it is taken back.
pub mod Markers
pub mod Install
pub mod Manifest
pub mod Plan
pub mod Registry
pub mod State
