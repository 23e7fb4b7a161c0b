-- ===== src/ThreadPool/Defs.antt =====
-- The pools of src/thread_pool.cpp and the submission loops of include/thread_pool_base.hpp. A pool is
-- the list of its workgroups; `SimpleThreadPool` has one. A task is the index that its function is
-- bound to. Futures, which only await, and log lines are left out. `none` is an exception.
use nv_embedding_cache.Common.{
  ℕ, zero, suc, ◌+◌, ◌-◌, ◌/◌, ◌%◌, min, max, List, [], ◌∷◌, ◌++◌, map, Option, none, some, ◌==◌,
  ltb, if◌then◌else◌, length, replicate, set, get_elem?,
}

-- A packaged task; an invalid one tells a worker to exit.
pub data Task : Type 0 where
  run : ℕ → Task
  stop : Task

-- A workgroup: its queue, front first, the workers that have not exited, and the tasks that they have
-- taken up, in order.
pub record Group : Type 0 where
  pub tasks : List Task
  pub workers : ℕ
  pub executed : List ℕ

-- `workers_.size()`
unfoldable pub num_workers : List Group → ℕ
num_workers [] = 0
num_workers (g ∷ gs) = g.workers + num_workers gs

-- The constructor of `SimpleThreadPool`; `hardware` is `std::thread::hardware_concurrency()`.
unfoldable pub construct_simple : ℕ → ℕ → Option (List Group)
construct_simple hardware requested =
    let n = if requested == 0 then hardware else requested in
    if ltb 0 n then some (record { tasks = []; workers = n; executed = [] } ∷ []) else none

-- The constructor of `NumaThreadPool`, for the workgroups of the configuration (worker count and NUMA
-- node of each). `sockets` are the first NUMA nodes of the CPU sockets, and `cores` is
-- `numa_node_logical_cores`.
unfoldable pub workgroups_of : List ℕ → List (ℕ × ℕ) → List (ℕ × ℕ)
workgroups_of sockets [] = map (λ node. (0, node)) sockets
workgroups_of sockets (w ∷ ws) = w ∷ ws

unfoldable pub start_groups : (ℕ → ℕ) → List (ℕ × ℕ) → List Group
start_groups cores [] = []
start_groups cores ((n, node) ∷ ws) =
    record { tasks = []; workers = if n == 0 then cores node else n; executed = [] }
    ∷ start_groups cores ws

unfoldable pub construct_numa : (ℕ → ℕ) → List ℕ → List (ℕ × ℕ) → List Group
construct_numa cores sockets config = start_groups cores (workgroups_of sockets config)

-- `tasks.emplace`
abbrev pub enqueue : List Task → Group → Group
enqueue ts g = record g { tasks = g.tasks ++ ts }

-- `std::bind(task, task_idx++)`, `n` times
unfoldable pub burst : ℕ → ℕ → List Task
burst idx zero = []
burst idx (suc n) = run idx ∷ burst (suc idx) n

unfoldable pub push_to : ℕ → List Task → List Group → Option (List Group)
push_to wg ts gs = elim (get_elem? gs wg) [
  | none ↦ none
  | some g ↦ if ltb 0 (num_workers gs) then some (set gs wg (enqueue ts g)) else none
]

-- `submit`: the workgroup is in range and the pool is not shutting down, or the call throws.
unfoldable pub submit : ℕ → ℕ → List Group → Option (List Group)
submit idx wg gs = push_to wg (run idx ∷ []) gs

-- `submit_n` to one workgroup: the next task index, and the pool.
unfoldable pub submit_n : ℕ → ℕ → ℕ → List Group → Option (ℕ × List Group)
submit_n idx zero wg gs = some (idx, gs)
submit_n idx (suc n) wg gs = elim (push_to wg (burst idx (suc n)) gs) [
  | none ↦ none
  | some gs' ↦ some (idx + suc n, gs')
]

-- The loop of `submit_n` over a range of workgroups, `per` tasks to each in turn. `rest` are the
-- workgroups from the iterator to the end, and `all` the range. Every round submits a task, so the
-- fuel, which starts at the number of tasks, suffices.
unfoldable pub submit_rounds :
    ℕ → ℕ → ℕ → ℕ → List ℕ → List ℕ → List Group → Option (ℕ × List Group)
submit_rounds fuel idx zero per all rest gs = some (idx, gs)
submit_rounds zero idx (suc n) per all rest gs = none
submit_rounds (suc fuel) idx (suc n) per all [] gs = none
submit_rounds (suc fuel) idx (suc n) per all (w ∷ rest) gs =
    elim (submit_n idx (min (suc n) per) (w % length gs) gs) [
      | none ↦ none
      | some (idx', gs') ↦
          submit_rounds fuel idx' (suc n - per) per all (elim rest [ [] ↦ all | r ∷ rs ↦ r ∷ rs ])
            gs'
    ]

-- `submit_n` over the workgroups `all`
unfoldable pub submit_range : ℕ → ℕ → ℕ → List ℕ → List Group → Option (ℕ × List Group)
submit_range idx n per [] gs = none
submit_range idx n per (w ∷ ws) gs = submit_rounds n idx n (max per 1) (w ∷ ws) (w ∷ ws) gs

-- One turn of the loop of `worker_main_`: some worker of the group takes the front task, and exits if
-- it is invalid. With no task the workers wait, and with no worker the tasks do.
unfoldable pub work_on : List Task → ℕ → Group → Group
work_on [] w g = g
work_on (t ∷ ts) zero g = g
work_on (run i ∷ ts) (suc w) g = record {
  tasks = ts;
  workers = suc w;
  executed = g.executed ++ i ∷ [];
}
work_on (stop ∷ ts) (suc w) g = record { tasks = ts; workers = w; executed = g.executed }

unfoldable pub turn : Group → Group
turn g = work_on g.tasks g.workers g

-- Turns of the workers of a group.
unfoldable pub turns : ℕ → Group → Group
turns zero g = g
turns (suc n) g = turns n (turn g)

-- The destructor of `SimpleThreadPool`: one termination task per worker.
unfoldable pub shutdown_simple : Group → Group
shutdown_simple g = enqueue (replicate g.workers stop) g

-- The destructor of `NumaThreadPool`: `workers_.size() / tasks_.size()` termination tasks for each
-- workgroup.
unfoldable pub shutdown_share : List Group → ℕ
shutdown_share gs = num_workers gs / length gs

unfoldable pub shutdown_numa : List Group → List Group
shutdown_numa gs = map (enqueue (replicate (shutdown_share gs) stop)) gs
