-- ===== src/ThreadPool.antt =====
-- include/thread_pool_base.hpp and src/thread_pool.cpp: queues of tasks, workers that empty them, and
-- the shutdown of a pool.
pub mod Defs
pub mod Submit
pub mod Shutdown
