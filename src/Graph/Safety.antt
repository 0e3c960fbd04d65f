-- ===== src/Graph/Safety.antt =====
-- What holds of the graph under every schedule of critical sections.
pub mod Final
pub mod Durable
