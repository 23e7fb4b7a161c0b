-- ===== src/LinearTable.antt =====
-- `LinearHostTable` (include/linear_host_table.hpp): a table in host memory whose rows stand at the
-- index of their key.
pub mod Defs
pub mod Copy
pub mod Cover
pub mod Gather
pub mod Update
