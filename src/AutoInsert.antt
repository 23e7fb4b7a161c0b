-- ===== src/AutoInsert.antt =====
-- `AutoInsertHandler` of src/layer_utils.cpp: it collects what lookups found and inserts it into a table.
pub mod Defs
pub mod Collect
pub mod Protocol
pub mod Lock
