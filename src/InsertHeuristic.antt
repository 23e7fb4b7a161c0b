-- ===== src/InsertHeuristic.antt =====
-- src/insert_heuristic.cpp: when a cache layer inserts the keys that it missed.
pub mod Defs
pub mod Fsm
pub mod Statistical
pub mod Phases
pub mod Nan
