-- ===== src/Testing.antt =====
-- The linearizability tester (src/testing).
pub mod TimeStamped
pub mod Automaton
pub mod History
pub mod Solver
pub mod ThreadLog
pub mod Tester
