-- ===== src/Log/Sequence.antt =====
-- The sequence numbers that `AppendTx` of internal/runlog/service.go gives out.
pub mod Rows
pub mod Streams
pub mod Insert
pub mod Batch
pub mod Numbered
