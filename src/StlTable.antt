-- ===== src/StlTable.antt =====
-- include/stl_map_backed_table.hpp and include/stl_map_backed_table_detail.hpp: the host table that
-- keeps its rows in slots of large buffers and finds them through one unordered map per partition.
pub mod Dict
pub mod Part
pub mod Table
