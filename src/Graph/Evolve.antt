-- ===== src/Graph/Evolve.antt =====
-- Every critical section of the executor is a sequence of commits of allowed changes, of nodes that
-- join the graph, and of changes to the other fields.
pub mod Defs
pub mod Close
pub mod Dispatch
pub mod Execute
pub mod Calls
pub mod Sections
