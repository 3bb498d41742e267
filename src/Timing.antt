-- ===== src/Timing.antt =====
-- The unified time of the cluster and the procedures that are to run once.
pub mod Clock
pub mod UniqueProcedures
