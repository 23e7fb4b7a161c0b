-- ===== src/EcCache.antt =====
-- include/ecache/ec_set_associative_host_modify.h: the set-associative cache of device memory whose tags
-- and counters are managed on the host.
pub mod State
pub mod Defs
pub mod Hash
pub mod Kernels
pub mod Insert
pub mod Coherence
pub mod Sweep
pub mod Invalidate
