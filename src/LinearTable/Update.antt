-- ===== src/LinearTable/Update.antt =====
-- `LinearHostTable::update` and `update_accumulate` (include/linear_host_table.hpp) with the kernels of
-- cpu_ops/cpu_update.h, for batches without repeated keys: tasks that write one row race.
use nv_embedding_cache.Common.{
  ℕ, ◌+◌, ◌*◌, ◌/◌, ◌≤◌, ◌<◌, ◌≡◌, ◌≢◌, refl, ◌∙◌, List, none, some, arith, ◌==◌, ltb,
  if◌then◌else◌, ◌&&◌, true, false, Bool-cases, inl, inr, range_from, Perm,
}
use nv_embedding_cache.StlTable.Table.Defs.{ok}
use nv_embedding_cache.LinearTable.Defs.{
  update_key, accumulate_key, kernel_update, kernel_update_accumulate, keys_per_task, run_tasks,
  LinearConfig, LinearTable, Gathered, guarded, update, update_accumulate, find, num_threads,
}
use nv_embedding_cache.LinearTable.Copy.{memcpy-row, add_row-row}
use nv_embedding_cache.LinearTable.Cover.{run_tasks-once, run_tasks-kept, keys_per_task-covers}
use nv_embedding_cache.LinearTable.Gather.{hit_bit, find-Found}

-- No key of the batch is repeated.
abbrev pub Distinct : (ℕ → ℕ) → ℕ → Type 0
Distinct keys n = (a b : ℕ) → a < n → b < n → keys a ≡ keys b → a ≡ b

-- Rows of `size` of the batch are combined into the table: what is there with what comes.
pub record Combined {ℓ} {A : Type ℓ} (f : A → A → A) (keys : ℕ → ℕ) (n stride size : ℕ)
    (values table table' : ℕ → A) : Type ℓ where
  pub listed :
      (k j : ℕ)
      → k < n
      → j < size
      → table' (keys k * size + j) ≡ f (table (keys k * size + j)) (values (k * stride + j))
  pub others :
      (r j : ℕ)
      → ((k : ℕ) → k < n → keys k ≢ r)
      → j < size
      → table' (r * size + j) ≡ table (r * size + j)

module _ {ℓ} {A : Type ℓ} (f : A → A → A) (keys : ℕ → ℕ) (n stride size : ℕ) (values : ℕ → A)
    (body : ℕ → ℕ → (ℕ → A) → ℕ → A)
    (one : (base i r j : ℕ) (m : ℕ → A)
      → j < size
      → body base i m (r * size + j) ≡ (
          if keys (base + i) == r && ltb j size
          then f (m (r * size + j)) (values ((base + i) * stride + j))
          else m (r * size + j))) where
  -- Tasks that combine a row each, in any order.
  tasks-Combined :
      (t : ℕ) (order : List ℕ) (table : ℕ → A)
      → 0 < t
      → Distinct keys n
      → Perm order (range_from 0 t)
      → Combined f keys n stride size values table
          (run_tasks n body (keys_per_task n t) order table)
  tasks-Combined t order table some_thread apart r =
      let per = keys_per_task n t in
      record {
        listed = λ k j h g.
            run_tasks-once n per k (keys k * size + j) body (λ v. f v (values (k * stride + j)))
              (λ idx i m inside.
                one (idx * per) i (keys k) j m g ∙ elim (Bool-cases (idx * per + i == k)) [
                  | inl e ↦
                      let same : idx * per + i ≡ k = ground arith in
                      let in_row : ltb j size ≡ true = ground arith in
                      let itself : keys k == keys k ≡ true = ground arith in
                      rw (e, same, itself, in_row)
                  | inr e ↦
                      let other : keys (idx * per + i) == keys k ≡ false =
                        ground (arith, apart (idx * per + i) k inside h) in
                      rw (e, other)
                ])
              h t order table (keys_per_task-covers n t some_thread) r;
        others = λ r j absent g.
            run_tasks-kept n per (r * size + j) body
              (λ idx i m inside.
                let other : keys (idx * per + i) == r ≡ false =
                  ground (arith, absent (idx * per + i) inside) in
                one (idx * per) i r j m g ∙ rw other refl)
              order table;
      }

abbrev pub overwritten {ℓ} : {A : Type ℓ} → A → A → A
overwritten old new = new

module _ {ℓ} {A : Type ℓ} (c : LinearConfig) (num_workers : ℕ) (order : List ℕ) (keys : ℕ → ℕ)
    (n stride : ℕ) (values : ℕ → A) (t : LinearTable A) (some_keys : 0 < n)
    (some_thread : 0 < num_threads c num_workers)
    (r : Perm order (range_from 0 (num_threads c num_workers))) (apart : Distinct keys n) where
  -- `update` of some keys without repetitions, of full rows, with a thread, in any order of its tasks:
  -- it returns, puts the row of every key in its place and leaves all other rows.
  pub update-Combined :
      (t' : LinearTable A) × (update c num_workers order n
          (some keys)
          stride
          c.max_value_size
          (some values)
          t
        ≡ ok t')
      × Combined overwritten keys n stride c.max_value_size values t.emb_table t'.emb_table
  unfolding update guarded kernel_update
  update-Combined =
      let threads = num_threads c num_workers in
      let size = c.max_value_size in
      let checked : size == size && ltb 0 n ≡ true = ground arith in
      let has_thread : threads == 0 ≡ false = ground arith in
      (
        record {
          emb_table = kernel_update keys stride size order threads n values t.emb_table;
          key_counter = t.key_counter;
        },
        rw (checked, has_thread) refl,
        tasks-Combined overwritten keys n stride size values (update_key keys stride size values)
            (λ base i k j m g.
              unfold update_key in
              memcpy-row m values (keys (base + i)) k size j ((base + i) * stride) size
                (omega arith) g)
            threads order t.emb_table some_thread apart r,
      )

  -- `update_accumulate` of some keys without repetitions, of full rows of single-precision numbers, with
  -- a thread, in any order of its tasks: it returns, adds to every element of a listed row its element
  -- of the batch once, and leaves all other rows. Rows are counted in elements of 4 bytes.
  pub update_accumulate-Combined :
      (add : A → A → A)
      → c.value_is_float32 ≡ true
      → (t' : LinearTable A) × (update_accumulate c num_workers order add n
            (some keys)
            stride
            c.max_value_size
            (some values)
            true
            t
          ≡ ok t')
        × Combined add keys n (stride / 4) (c.max_value_size / 4) values t.emb_table t'.emb_table
  unfolding update_accumulate guarded kernel_update_accumulate
  update_accumulate-Combined add floats =
      let threads = num_threads c num_workers in
      let size = c.max_value_size / 4 in
      let checked : c.max_value_size == c.max_value_size
            && (ltb 0 n && (c.value_is_float32 && true))
          ≡ true =
        ground arith in
      let has_thread : threads == 0 ≡ false = ground arith in
      (
        record {
          emb_table =
              kernel_update_accumulate keys (stride / 4) size add order threads n values
                t.emb_table;
          key_counter = t.key_counter;
        },
        rw (checked, has_thread) refl,
        tasks-Combined add keys n (stride / 4) size values
            (accumulate_key keys (stride / 4) size add values)
            (λ base i k j m g.
              unfold accumulate_key in
              add_row-row m values (keys (base + i)) k size j ((base + i) * (stride / 4)) size
                (omega arith) g add)
            threads order t.emb_table some_thread apart r,
      )

  -- A lookup of the same keys without a hit mask, after such an `update`, with a stride that rows fit,
  -- puts every row back where it came from, whatever the output was.
  pub find-update :
      (order' : List ℕ) (output : ℕ → A)
      → c.max_value_size ≤ stride
      → Perm order' (range_from 0 (num_threads c num_workers))
      → (t' t'' : LinearTable A) × (g : Gathered A) × (update c num_workers order n
            (some keys)
            stride
            c.max_value_size
            (some values)
            t
          ≡ ok t')
        × (find c num_workers order' n (some keys) none stride (some output) t' ≡ ok (g, t''))
        × ((k j : ℕ)
            → k < n
            → j < c.max_value_size
            → g.values (k * stride + j) ≡ values (k * stride + j))
  unfolding hit_bit
  find-update order' output fits r' =
      let (t', run, done) = update-Combined in
      let (g, run', found) =
        find-Found c num_workers order' keys n stride none output t' some_keys some_thread fits
          r' in
      (
        t',
        _,
        g,
        run,
        run',
        λ k j h in_row.
            let inside : ltb j c.max_value_size ≡ true = ground arith in
            found.rows k j h (omega arith) ∙ rw inside (done.listed k j h in_row),
      )
