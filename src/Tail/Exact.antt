-- ===== src/Tail/Exact.antt =====
-- What a subscription sends: internal/runlog/tail.go.
pub mod Order
pub mod Walk
pub mod Visit
pub mod Wait
pub mod Rounds
