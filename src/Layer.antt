-- ===== src/Layer.antt =====
-- The layers over the tables: src/hierarchical_embedding_layer.cu and src/host_embedding_layer.cpp.
pub mod Construct
pub mod Thresholds
pub mod Lookup
pub mod HostLookup
pub mod Fill
pub mod Chain
pub mod Hits
pub mod Bits
pub mod MapTable
pub mod Linear
pub mod Modify
pub mod Host
