-- ===== src/ThreadPool/Shutdown.antt =====
-- The destructors of src/thread_pool.cpp: which workers exit, so that `await(workers_...)` returns.
use nv_embedding_cache.Common.{
  ℕ, zero, suc, ◌-◌, ◌*◌, ◌<◌, ◌≡◌, refl, ap, ◌∙◌, List, [], ◌∷◌, ◌++◌, map, arith, length,
  replicate, length-replicate, ◌≢◌, All,
}
use mathlib.Core.List.{append_assoc, append-nil}
use native.Mathlib.Nat.{mul-div_cancel_left}
use nv_embedding_cache.ThreadPool.Defs.{
  Task, run, stop, Group, num_workers, enqueue, work_on, turn, turns, shutdown_simple,
  shutdown_share,
}

-- A group without workers does nothing more.
turns_idle :
    (k : ℕ) (ts : List Task) (done : List ℕ)
    → turns k (record { tasks = ts; workers = 0; executed = done })
      ≡ record { tasks = ts; workers = 0; executed = done }
unfolding turns turn work_on
turns_idle zero ts done = refl
turns_idle (suc k) [] done = turns_idle k [] done
turns_idle (suc k) (run i ∷ ts) done = turns_idle k (run i ∷ ts) done
turns_idle (suc k) (stop ∷ ts) done = turns_idle k (stop ∷ ts) done

-- Workers with termination tasks only: each takes one.
turns_stops :
    (k w : ℕ) (done : List ℕ)
    → turns k (record { tasks = replicate k stop; workers = w; executed = done })
      ≡ record { tasks = replicate (k - w) stop; workers = w - k; executed = done }
unfolding turns turn work_on
turns_stops zero w done = ground arith
turns_stops (suc k) zero done = turns_idle k (replicate (suc k) stop) done ∙ ground arith
turns_stops (suc k) (suc w) done = turns_stops k w done ∙ ground arith

-- The tasks in front of the termination tasks are all taken up first.
turns_runs :
    (rs : List ℕ) (k w : ℕ) (done : List ℕ)
    → turns
        (length (map run rs ++ replicate k stop))
        (record { tasks = map run rs ++ replicate k stop; workers = suc w; executed = done })
      ≡ record { tasks = replicate (k - suc w) stop; workers = suc w - k; executed = done ++ rs }
unfolding turns turn work_on
turns_runs [] k w done = rw (append-nil, length-replicate) (turns_stops k (suc w) done)
turns_runs (r ∷ rs) k w done =
    turns_runs rs k w (done ++ r ∷ [])
    ∙ ap (λ d. record { tasks = replicate (k - suc w) stop; workers = suc w - k; executed = d })
        (append_assoc done (r ∷ []) rs)

-- All turns that a group can take.
pub drained : Group → Group
drained g = turns (length g.tasks) g

drained_lem :
    (g : Group) (rs : List ℕ) (k : ℕ)
    → g.tasks ≡ map run rs
    → 0 < g.workers
    → drained (enqueue (replicate k stop) g) ≡ record {
      tasks = replicate (k - g.workers) stop;
      workers = g.workers - k;
      executed = g.executed ++ rs;
    }
unfolding drained
drained_lem g rs k e h =
    let w = g.workers - 1 in
    let some_worker : g.workers ≡ suc w = omega arith in
    rw (e, some_worker) (turns_runs rs k w g.executed)

-- `SimpleThreadPool`, with a worker and a queue of submitted tasks only: after the destructor's
-- termination tasks and as many turns as there are tasks, all workers have exited, no task is left, and
-- every submitted task was taken up, in order.
pub shutdown_simple_joins :
    (g : Group) (rs : List ℕ)
    → g.tasks ≡ map run rs
    → 0 < g.workers
    → drained (shutdown_simple g) ≡ record { tasks = []; workers = 0; executed = g.executed ++ rs }
unfolding shutdown_simple
shutdown_simple_joins g rs e h = drained_lem g rs g.workers e h ∙ ground arith

num_workers_of_equal :
    (gs : List Group) (w : ℕ) → All (λ h. h.workers ≡ w) gs → num_workers gs ≡ length gs * w
unfolding num_workers
num_workers_of_equal [] w a = omega arith
num_workers_of_equal (g ∷ gs) w a = grind (arith, a.0, num_workers_of_equal gs w a.1)

share_of_equal :
    (gs : List Group) (w : ℕ)
    → All (λ h. h.workers ≡ suc w) gs
    → gs ≢ []
    → shutdown_share gs ≡ suc w
unfolding shutdown_share
share_of_equal [] w a n = absurd (n refl)
share_of_equal (g ∷ gs) w a n =
    rw (num_workers_of_equal (g ∷ gs) (suc w) a) (mul-div_cancel_left (suc w) (omega arith))

-- `NumaThreadPool`, where all workgroups have the same number of workers, which is not 0: a workgroup of
-- that size with a queue of submitted tasks only, with the termination tasks of its share and as many
-- turns as there are tasks, takes up every submitted task in order, and all its workers exit.
pub shutdown_numa_joins :
    (gs : List Group) (w : ℕ) (g : Group) (rs : List ℕ)
    → All (λ h. h.workers ≡ suc w) gs
    → gs ≢ []
    → g.workers ≡ suc w
    → g.tasks ≡ map run rs
    → drained (enqueue (replicate (shutdown_share gs) stop) g)
      ≡ record { tasks = []; workers = 0; executed = g.executed ++ rs }
shutdown_numa_joins gs w g rs a n e t =
    drained_lem g rs (shutdown_share gs) t (omega arith)
    ∙ rw (share_of_equal gs w a n, e) (ground arith)

count_stops : List Task → ℕ
count_stops [] = 0
count_stops (run i ∷ ts) = count_stops ts
count_stops (stop ∷ ts) = suc (count_stops ts)

turn_leaves :
    (ts : List Task) (w : ℕ) (done : List ℕ)
    → count_stops ts < w
    → count_stops (turn (record { tasks = ts; workers = w; executed = done })).tasks
      < (turn (record { tasks = ts; workers = w; executed = done })).workers
unfolding turn work_on count_stops
turn_leaves [] w done h = omega arith
turn_leaves (run i ∷ ts) zero done h = omega arith
turn_leaves (run i ∷ ts) (suc w) done h = omega arith
turn_leaves (stop ∷ ts) zero done h = omega arith
turn_leaves (stop ∷ ts) (suc w) done h = omega arith

turns_leave : (n : ℕ) (g : Group) → count_stops g.tasks < g.workers → 0 < (turns n g).workers
unfolding turns
turns_leave zero g h = omega arith
turns_leave (suc n) g h = turns_leave n (turn g) (turn_leaves g.tasks g.workers g.executed h)

count_stops-append : (rs : List ℕ) (k : ℕ) → count_stops (map run rs ++ replicate k stop) ≡ k
unfolding count_stops
count_stops-append [] zero = refl
count_stops-append [] (suc k) = ap suc (count_stops-append [] k)
count_stops-append (r ∷ rs) k = count_stops-append rs k

-- `NumaThreadPool`, where a workgroup with a queue of submitted tasks only has more workers than the
-- integer average: after any number of turns a worker of that workgroup has not exited.
pub shutdown_numa_hangs :
    (gs : List Group) (g : Group) (rs : List ℕ) (n : ℕ)
    → g.tasks ≡ map run rs
    → shutdown_share gs < g.workers
    → 0 < (turns n (enqueue (replicate (shutdown_share gs) stop) g)).workers
shutdown_numa_hangs gs g rs n e h =
    turns_leave n (enqueue (replicate (shutdown_share gs) stop) g) (rw (e, count_stops-append) h)
