-- ===== src/StlTable/Part.antt =====
-- The partitions of include/stl_map_backed_table_detail.hpp: the state that a partition keeps under
-- its lock, and the body that each operation runs for one key of its partition.
-- A slot is numbered by its buffer and its place in it. Its bytes are the value (`max_value_size`
-- bytes) and the metadata word behind it; the padding up to the stride is never read. `none` stands
-- for undefined behaviour: `back()` of an empty vector.
pub mod Defs
pub mod Invariant
pub mod Evict
pub mod Overflow
pub mod View
pub mod Stale
pub mod Insert
