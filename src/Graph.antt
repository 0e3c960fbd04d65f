-- ===== src/Graph.antt =====
-- internal/graphexec: the graph of one run and its scheduler.
pub mod Types
pub mod Commit
pub mod Close
pub mod Dispatch
pub mod Execute
pub mod Calls
pub mod Validate
pub mod Run
pub mod Evolve
pub mod Sections
pub mod Safety
pub mod System
pub mod Slots
mod Examples
