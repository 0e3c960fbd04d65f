-- ===== src/Settings.antt =====
-- Namespaces and settings: internal/settings.
pub mod Patterns
pub mod Service
pub mod Segments
pub mod Keys
pub mod Stored
mod Examples
