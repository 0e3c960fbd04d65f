-- ===== src/Log/Retry.antt =====
-- The retry of a batch by `AppendTx` of internal/runlog/service.go.
pub mod Kept
pub mod Answer
pub mod Repeat
