-- ===== src/Tests/PoolRuns.antt =====
-- The theorems of the thread pools at small pools.
use nv_embedding_cache.Common.{
  ℕ, ◌+◌, ◌<◌, ◌≡◌, refl, List, [], ◌∷◌, some, arith, replicate, count, range_from,
}
use nv_embedding_cache.ThreadPool.Defs.{
  run, stop, Group, num_workers, enqueue, turns, shutdown_simple, shutdown_share, submit_range,
}
use nv_embedding_cache.ThreadPool.Submit.{queued, submit_range-once}
use nv_embedding_cache.ThreadPool.Shutdown.{drained, shutdown_simple_joins, shutdown_numa_hangs}

-- A workgroup with three tasks, and one without.
abbrev busy : ℕ → Group
busy n = record { tasks = run 4 ∷ run 5 ∷ run 6 ∷ []; workers = n; executed = [] }

abbrev idle : ℕ → Group
idle n = record { tasks = []; workers = n; executed = [] }

submit_range-once_example :
    (gs : List Group) × ((submit_range 10 7 2 (1 ∷ 0 ∷ []) (idle 2 ∷ idle 1 ∷ [])
        ≡ some (10 + 7, gs))
      × ((q : ℕ) → queued q gs ≡ queued q (idle 2 ∷ idle 1 ∷ []) + count q (range_from 10 7)))
submit_range-once_example =
    submit_range-once 10 7 2 (1 ∷ 0 ∷ []) (idle 2 ∷ idle 1 ∷ []) (λ e. cc)
      (unfold num_workers in omega arith)

shutdown_simple_joins_example :
    drained (shutdown_simple (busy 2))
    ≡ record { tasks = []; workers = 0; executed = 4 ∷ 5 ∷ 6 ∷ [] }
shutdown_simple_joins_example = shutdown_simple_joins (busy 2) (4 ∷ 5 ∷ 6 ∷ []) refl (omega arith)

-- Three workers and one worker: each workgroup is sent two termination tasks.
shutdown_numa_hangs_example :
    0
    < (turns 100
        (enqueue (replicate (shutdown_share (busy 3 ∷ idle 1 ∷ [])) stop) (busy 3))).workers
shutdown_numa_hangs_example =
    shutdown_numa_hangs (busy 3 ∷ idle 1 ∷ []) (busy 3) (4 ∷ 5 ∷ 6 ∷ []) 100 refl
      (unfold shutdown_share num_workers in omega arith)
