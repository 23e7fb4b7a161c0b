-- ===== src/Tests/LinearRuns.antt =====
-- The theorems of the linear table, at a batch of three keys and two tasks in the other order.
use nv_embedding_cache.Common.{
  ℕ, ◌+◌, ◌*◌, ◌<◌, ◌≡◌, refl, arith, List, [], ◌∷◌, none, some, true, Perm, range_from, Bool, ◌==◌,
}
use mathlib.Core.List.Perm
use nv_embedding_cache.StlTable.Table.Defs.{ok}
use nv_embedding_cache.LinearTable.Defs.{
  LinearConfig, LinearTable, Gathered, find, update, update_accumulate, num_threads, kernel_gather,
  run_tasks, run_task, task_loop, gather_key, is_hit, memcpy, aligned_keys_per_task, keys_per_task,
  fill_mask,
}
use nv_embedding_cache.LinearTable.Gather.{Found, find-Found}
use nv_embedding_cache.LinearTable.Update.{
  Combined, update_accumulate-Combined, find-update, Distinct,
}

abbrev config : LinearConfig
config = record { max_value_size = 8; max_threads = 2; value_is_float32 = true }

abbrev table : LinearTable ℕ
table = record { emb_table = λ x. x; key_counter = 5 }

abbrev batch : ℕ → ℕ
batch i = i + 1

abbrev rows : ℕ → ℕ
rows x = 100 + x

abbrev swapped : List ℕ
swapped = 1 ∷ 0 ∷ []

abbrev mask : ℕ → ℕ → Bool
mask w b = b == 1

swapped-Perm : Perm swapped (range_from 0 (num_threads config 3))
unfolding num_threads
swapped-Perm = Perm.swap 0 1 []

some_thread : 0 < num_threads config 3
unfolding num_threads
some_thread = omega arith

batch-Distinct : Distinct batch 3
batch-Distinct a b h g e = omega arith

-- The second key is a hit, and its row stays.
gathers : (kernel_gather batch 8 8 swapped 2 3 (some mask) (λ x. x) rows).0 (2 * 8 + 3) ≡ 3 * 8 + 3
unfolding kernel_gather run_tasks run_task task_loop gather_key is_hit memcpy aligned_keys_per_task
    keys_per_task fill_mask
gathers = refl

find-Found_example :
    (g : Gathered ℕ) × (find config 3 swapped 3 (some batch) (some mask) 8 (some rows) table
      ≡ ok (g, record { emb_table = λ x. x; key_counter = 5 + 3 }))
    × Found config batch 3 8 (some mask) table rows g
find-Found_example =
    find-Found config 3 swapped batch 3 8 (some mask) rows table (omega arith) some_thread
      (omega arith) swapped-Perm

update_accumulate-Combined_example :
    (t' : LinearTable ℕ) × (update_accumulate config 3 swapped ◌+◌ 3
        (some batch)
        8
        8
        (some rows)
        true
        table
      ≡ ok t')
    × Combined ◌+◌ batch 3 2 2 rows (λ x. x) t'.emb_table
update_accumulate-Combined_example =
    update_accumulate-Combined config 3 swapped batch 3 8 rows table (omega arith) some_thread
      swapped-Perm batch-Distinct ◌+◌ refl

find-update_example :
    (t' t'' : LinearTable ℕ) × (g : Gathered ℕ) × (update config 3 swapped 3
        (some batch)
        8
        8
        (some rows)
        table
      ≡ ok t')
    × (find config 3 swapped 3 (some batch) none 8 (some rows) t' ≡ ok (g, t''))
    × ((k j : ℕ) → k < 3 → j < 8 → g.values (k * 8 + j) ≡ rows (k * 8 + j))
find-update_example =
    find-update config 3 swapped batch 3 8 rows table (omega arith) some_thread swapped-Perm
      batch-Distinct swapped rows (omega arith) swapped-Perm
