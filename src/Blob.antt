-- ===== src/Blob.antt =====
-- Blobs: internal/blob.
pub mod Text
pub mod Uri
pub mod RoundTrip
pub mod Types
pub mod Create
pub mod Complete
pub mod Transfer
pub mod Rules
pub mod Backed
pub mod Lasting
pub mod Bounds
mod Examples
