-- ===== src/Tail.antt =====
-- Log subscriptions: internal/runlog/tail.go.
mod Prefix
pub mod Cursors
mod Range
pub mod Exact
mod Examples
