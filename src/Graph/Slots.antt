-- ===== src/Graph/Slots.antt =====
-- The slots of the pool, accounted for: which sections take and give which slot, and what holds of
-- every interleaving.
pub mod Frame
pub mod Moves
pub mod Attempts
pub mod Waits
pub mod Invariant
pub mod Steps
pub mod Bits
pub mod Ends
pub mod Idle
pub mod Account
pub mod Safety
