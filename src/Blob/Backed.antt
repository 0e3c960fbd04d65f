-- ===== src/Blob/Backed.antt =====
-- Every blob that is recorded has its object in the bucket.
pub mod Invariant
pub mod Create
pub mod Check
pub mod Worlds
pub mod Complete
pub mod Abort
pub mod Put
