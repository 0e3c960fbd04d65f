-- ===== src/Log.antt =====
-- The log service: internal/runlog.
pub mod Types
pub mod Tables
mod Check
mod Append
mod Service
mod Scope
mod Sequence
mod Total
mod Retry
pub use Types.*
mod Examples
