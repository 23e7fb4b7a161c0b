-- ===== src/LinearTable/Defs.antt =====
-- `LinearHostTable` (include/linear_host_table.hpp, src/linear_host_table.cpp) and its kernels
-- (cpu_ops/cpu_gather.h, cpu_ops/cpu_update.h). Memory is a function of the offset, in bytes;
-- for the kernel that adds, in elements. A buffer that the caller may leave out is an option. A hit mask
-- is a function of the word and of the bit in it. Keys are row numbers. `order` is the order in which
-- the tasks of an `execute_n` run; a call takes it from the thread pool.
use nv_embedding_cache.Common.{
  ℕ, zero, suc, ◌+◌, ◌-◌, ◌*◌, ◌/◌, ◌%◌, min, List, [], ◌∷◌, Option, none, some, ◌==◌, leb, ltb,
  if◌then◌else◌, Bool, true, false, ◌&&◌, not,
}
use nv_embedding_cache.StlTable.Table.Defs.{Outcome, ok, throws, undefined}

-- `memcpy(dst + d, src + s, n)`
unfoldable pub memcpy {ℓ} : {A : Type ℓ} → (ℕ → A) → ℕ → (ℕ → A) → ℕ → ℕ → ℕ → A
memcpy dst d src s n x = if leb d x && ltb x (d + n) then src (s + (x - d)) else dst x

-- The loop of `cpu_kernel_update_accumulate` over the elements of a row.
unfoldable pub add_row {ℓ} : {A : Type ℓ} → (A → A → A) → (ℕ → A) → ℕ → (ℕ → A) → ℕ → ℕ → ℕ → A
add_row add dst d src s zero x = dst x
add_row add dst d src s (suc n) x =
    let before = add_row add dst d src s n in
    if x == d + n then add (before x) (src (s + n)) else before x

-- `keys_per_task`, and in `cpu_kernel_gather` rounded up to the 64 bits of a mask word.
unfoldable pub keys_per_task : ℕ → ℕ → ℕ
keys_per_task n num_threads = (n + num_threads - 1) / num_threads

unfoldable pub aligned_keys_per_task : ℕ → ℕ → ℕ
aligned_keys_per_task n num_threads = (keys_per_task n num_threads + 64 - 1) / 64 * 64

-- The bit that `gather_task` tests for its key `i`, if the caller has a mask.
unfoldable pub is_hit : Option (ℕ → ℕ → Bool) → ℕ → ℕ → Bool
is_hit none base i = false
is_hit (some mask) base i = mask (base / 64 + i / 64) (i % 64)

-- "we resolve all misses so set everything to 1"
unfoldable pub fill_mask : ℕ → (ℕ → ℕ → Bool) → ℕ → ℕ → Bool
fill_mask n mask w b =
    let full_words = n / 64 in
    let rem = n - full_words * 64 in
    if ltb w full_words
    then true
    else (if w == full_words && not (rem == 0) then ltb b rem else mask w b)

-- The loop of a task, by its body at index `base + i`, with the break at the end of the batch.
module _ {ℓ} {A : Type ℓ} (n : ℕ) (body : ℕ → ℕ → (ℕ → A) → ℕ → A) where
  unfoldable pub task_loop : ℕ → ℕ → ℕ → (ℕ → A) → ℕ → A
  task_loop base i zero m = m
  task_loop base i (suc left) m =
      if leb n (base + i) then m else task_loop base (suc i) left (body base i m)

  -- The task `idx`, and the tasks in some order.
  unfoldable pub run_task : ℕ → ℕ → (ℕ → A) → ℕ → A
  run_task per_task idx m = task_loop (idx * per_task) 0 per_task m

  unfoldable pub run_tasks : ℕ → List ℕ → (ℕ → A) → ℕ → A
  run_tasks per_task [] m = m
  run_tasks per_task (idx ∷ order) m = run_tasks per_task order (run_task per_task idx m)

module _ {ℓ} {A : Type ℓ} (keys : ℕ → ℕ) (stride : ℕ) (row_size : ℕ) where
  -- The body of `gather_task`
  unfoldable pub gather_key : Option (ℕ → ℕ → Bool) → (ℕ → A) → ℕ → ℕ → (ℕ → A) → ℕ → A
  gather_key hit_mask table base i values =
      if is_hit hit_mask base i
      then values
      else memcpy values ((base + i) * stride) table (keys (base + i) * row_size) row_size

  -- The body of `update_task` of `cpu_kernel_update`
  unfoldable pub update_key : (ℕ → A) → ℕ → ℕ → (ℕ → A) → ℕ → A
  update_key values base i table =
      memcpy table (keys (base + i) * row_size) values ((base + i) * stride) row_size

  -- The body of `update_task` of `cpu_kernel_update_accumulate`; a row has `row_size` elements.
  unfoldable pub accumulate_key : (A → A → A) → (ℕ → A) → ℕ → ℕ → (ℕ → A) → ℕ → A
  accumulate_key add updates base i table =
      add_row add table (keys (base + i) * row_size) updates ((base + i) * stride) row_size

  -- `cpu_kernel_gather`, `cpu_kernel_update` and `cpu_kernel_update_accumulate`
  unfoldable pub kernel_gather :
      List ℕ → ℕ → ℕ → Option (ℕ → ℕ → Bool) → (ℕ → A) → (ℕ → A) → (ℕ → A) × Option (ℕ → ℕ → Bool)
  kernel_gather order num_threads n hit_mask table values = (
    run_tasks n (gather_key hit_mask table) (aligned_keys_per_task n num_threads) order values,
    elim hit_mask [ none ↦ none | some mask ↦ some (fill_mask n mask) ],
  )

  unfoldable pub kernel_update : List ℕ → ℕ → ℕ → (ℕ → A) → (ℕ → A) → ℕ → A
  kernel_update order num_threads n values table =
      run_tasks n (update_key values) (keys_per_task n num_threads) order table

  unfoldable pub kernel_update_accumulate : (A → A → A) → List ℕ → ℕ → ℕ → (ℕ → A) → (ℕ → A) → ℕ → A
  kernel_update_accumulate add order num_threads n updates table =
      run_tasks n (accumulate_key add updates) (keys_per_task n num_threads) order table

-- `LinearHostTableConfig`, and the workers of the context's thread pool. `value_is_float32` is
-- `value_dtype == DataType_t::Float32`.
pub record LinearConfig : Type 0 where
  pub max_value_size : ℕ
  pub max_threads : ℕ
  pub value_is_float32 : Bool

-- The embedding table and the counter of keys, in the context, that `find` counts up.
pub record LinearTable {ℓ} (A : Type ℓ) : Type ℓ where
  pub emb_table : ℕ → A
  pub key_counter : ℕ

-- The output of a lookup.
pub record Gathered {ℓ} (A : Type ℓ) : Type ℓ where
  pub values : ℕ → A
  pub hit_mask : Option (ℕ → ℕ → Bool)

-- `LinearHostTableConfig::check`, after that of its base.
unfoldable pub check_linear : Bool → Bool → LinearConfig → Bool
check_linear base_ok has_emb_table c = base_ok && (has_emb_table && ltb 0 c.max_threads)

-- The threads that a call uses: as many as the pool has workers, up to `max_threads`.
unfoldable pub num_threads : LinearConfig → ℕ → ℕ
num_threads c num_workers = min num_workers c.max_threads

-- The tasks 0 to `num_threads` - 1 run in `order`; with no thread the kernels divide by zero.
module _ {ℓ} {A : Type ℓ} (c : LinearConfig) (num_workers : ℕ) (order : List ℕ) where
  unfoldable pub guarded {κ} :
      {B : Type κ} → Option (ℕ → ℕ) → Option (ℕ → A) → Bool → ((ℕ → ℕ) → (ℕ → A) → B) → Outcome B
  guarded none values checks run = throws
  guarded (some keys) none checks run = throws
  guarded (some keys) (some values) checks run =
      if checks
      then (if num_threads c num_workers == 0 then undefined else ok (run keys values))
      else throws

  -- `LinearHostTable::find`
  unfoldable pub find :
      ℕ
      → Option (ℕ → ℕ)
      → Option (ℕ → ℕ → Bool)
      → ℕ
      → Option (ℕ → A)
      → LinearTable A
      → Outcome (Gathered A × LinearTable A)
  find num_keys keys hit_mask stride values t = guarded keys values (ltb 0 num_keys) (λ ks vs.
      let (vs', mask') =
        kernel_gather ks stride c.max_value_size order (num_threads c num_workers) num_keys hit_mask
          t.emb_table vs in
      (
        record { values = vs'; hit_mask = mask' },
        record { emb_table = t.emb_table; key_counter = t.key_counter + num_keys },
      ))

  -- `LinearHostTable::update`
  unfoldable pub update :
      ℕ → Option (ℕ → ℕ) → ℕ → ℕ → Option (ℕ → A) → LinearTable A → Outcome (LinearTable A)
  update num_keys keys stride value_size values t =
      guarded keys values (value_size == c.max_value_size && ltb 0 num_keys) (λ ks vs. record {
        emb_table =
            kernel_update ks stride c.max_value_size order (num_threads c num_workers) num_keys vs
              t.emb_table;
        key_counter = t.key_counter;
      })

  -- `LinearHostTable::update_accumulate`, on the table's elements, which have 4 bytes: sizes and strides
  -- are multiples of that. `update_is_float32` is `update_dtype == DataType_t::Float32`.
  unfoldable pub update_accumulate :
      (A → A → A)
      → ℕ
      → Option (ℕ → ℕ)
      → ℕ
      → ℕ
      → Option (ℕ → A)
      → Bool
      → LinearTable A
      → Outcome (LinearTable A)
  update_accumulate add num_keys keys stride update_size updates update_is_float32 t =
      guarded keys updates
        (update_size == c.max_value_size
          && (ltb 0 num_keys && (c.value_is_float32 && update_is_float32)))
        (λ ks us. record {
          emb_table =
              kernel_update_accumulate ks (stride / 4) (c.max_value_size / 4) add order
                (num_threads c num_workers) num_keys us t.emb_table;
          key_counter = t.key_counter;
        })

-- `LinearHostTable::insert`, `erase` and `clear` have no effect, and `size` is unknown (-1).
unfoldable pub insert {ℓ} : {A : Type ℓ} → LinearTable A → LinearTable A
insert t = t

unfoldable pub erase {ℓ} : {A : Type ℓ} → LinearTable A → LinearTable A
erase t = t

unfoldable pub clear {ℓ} : {A : Type ℓ} → LinearTable A → LinearTable A
clear t = t
