-- ===== src/StlTable/Table.antt =====
-- The table of include/stl_map_backed_table_detail.hpp over its partitions: a batch of keys is walked
-- by one task per partition, and each task handles the keys of its own partition.
pub mod Defs
pub mod Batch
pub mod Insert
pub mod Modify
pub mod Find
pub mod Scan
pub mod Lookup
pub mod Reads
pub mod Words
pub mod Walk
pub mod Past
pub mod Answers
pub mod Counter
pub mod Change
pub mod Calls
pub mod Refine
pub mod Hits
