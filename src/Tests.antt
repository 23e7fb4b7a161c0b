-- ===== src/Tests.antt =====
-- The theorems at concrete inputs.
mod Sorting
mod StlRuns
mod FindRuns
mod PoolRuns
mod HeuristicRuns
mod CacheRuns
mod SequenceRuns
mod LinearRuns
mod HandlerRuns
mod LayerRuns
