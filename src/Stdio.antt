-- ===== src/Stdio.antt =====
-- Remote calls over a pair of pipes: internal/taskstdio.
pub mod Envelope
pub mod Request
pub mod Streams
pub mod Receive
pub mod Answers
pub mod Delivery
pub mod Incoming
pub mod Calls
pub mod Woken
pub mod Sound
pub mod Held
mod Examples
