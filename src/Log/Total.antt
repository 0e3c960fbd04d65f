-- ===== src/Log/Total.antt =====
-- `AppendTx` of internal/runlog/service.go succeeds where it should.
pub mod Insert
pub mod Batch
pub mod Append
