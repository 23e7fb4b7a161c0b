-- ===== src/AutoInsert/Defs.antt =====
-- `AutoInsertHandler` of include/layer_utils.hpp and src/layer_utils.cpp, with the scratch buffers of
-- include/resizeable_buffer.hpp. A buffer of keys is counted in keys, one of rows in bytes. A new
-- allocation has arbitrary contents, which are parameters. A call of the heuristic answers `needed`. The
-- counter of calls is a natural number: -1 becomes 0 before it is read again.
use nv_embedding_cache.Common.{
  ℕ, zero, suc, ◌+◌, ◌-◌, ◌*◌, min, max, Option, none, some, ◌==◌, leb, ltb, if◌then◌else◌, Bool,
  true, false, ◌&&◌, ◌||◌, not,
}
use nv_embedding_cache.LinearTable.Defs.{memcpy}
use nv_embedding_cache.LinearTable.Gather.{hit_bit}

-- `ResizeableBuffer`
pub record Buffer {ℓ} (A : Type ℓ) : Type ℓ where
  pub size : ℕ
  pub contents : ℕ → A

-- "If requested size is larger than existing size, a new buffer will be allocated (old data is lost)"
unfoldable pub get_ptr {ℓ} : {A : Type ℓ} → (ℕ → A) → ℕ → Buffer A → Buffer A
get_ptr fresh buffer_size b =
    if ltb b.size buffer_size then record { size = buffer_size; contents = fresh } else b

-- What the constructor is given; `has_heuristic` is `heuristic_ != nullptr`.
pub record HandlerConfig : Type 0 where
  pub has_heuristic : Bool
  pub min_insert_wait : ℕ
  pub min_insert_size : ℕ
  pub invalid_key : ℕ

-- The members, and the task that is in the thread pool: the output stride it was launched with.
pub record Handler {ℓ} (A : Type ℓ) : Type ℓ where
  pub locked : Bool
  pub insert_freq_cnt : ℕ
  pub collected_keys : ℕ
  pub collected_output_stride : ℕ
  pub insert_keys : Buffer ℕ
  pub insert_data : Buffer A
  pub launched : Option ℕ

-- What a lookup hands over.
pub record Batch {ℓ} (A : Type ℓ) : Type ℓ where
  pub num_keys : ℕ
  pub keys : ℕ → ℕ
  pub output : ℕ → A
  pub output_stride : ℕ
  pub hitmask : Option (ℕ → ℕ → Bool)

-- The constructor; nothing is allocated yet.
unfoldable pub construct {ℓ} : {A : Type ℓ} → (ℕ → ℕ) → (ℕ → A) → Handler A
construct fresh_keys fresh_data = record {
  locked = false;
  insert_freq_cnt = 0;
  collected_keys = 0;
  collected_output_stride = 0;
  insert_keys = record { size = 0; contents = fresh_keys };
  insert_data = record { size = 0; contents = fresh_data };
  launched = none;
}

-- "Rewrite missed keys (hitmask bit == 0) to the configured sentinel": the loop over `n` keys, which are
-- in the buffer from `dst` on.
unfoldable pub rewrite_missed : (ℕ → ℕ → Bool) → ℕ → ℕ → ℕ → (ℕ → ℕ) → ℕ → ℕ
rewrite_missed mask invalid dst zero keys x = keys x
rewrite_missed mask invalid dst (suc j) keys x =
    let rest = rewrite_missed mask invalid dst j keys x in
    if not (hit_bit (some mask) j) && (x == dst + j) then invalid else rest

unfoldable pub rewrite : Option (ℕ → ℕ → Bool) → ℕ → ℕ → ℕ → (ℕ → ℕ) → ℕ → ℕ
rewrite none invalid dst n keys = keys
rewrite (some mask) invalid dst n keys = rewrite_missed mask invalid dst n keys

-- An exception leaves the handler as it is at that point.
pub data Result {ℓ} (A : Type ℓ) : Type ℓ where
  returned : Handler A → Result A
  thrown : Handler A → Result A

-- The sizes of `collect_keys_and_data`.
unfoldable pub collection_total_size : HandlerConfig → ℕ → ℕ → ℕ
collection_total_size c collected num_keys =
    if collected == 0 then max num_keys c.min_insert_size else c.min_insert_size

unfoldable pub collection_part_size : HandlerConfig → ℕ → ℕ → ℕ
collection_part_size c collected num_keys =
    min num_keys (collection_total_size c collected num_keys - collected)

module _ {ℓ} {A : Type ℓ} (c : HandlerConfig) where
  -- "Check if insert can be launched", and otherwise the lock is released.
  unfoldable pub settle : ℕ → Handler A → Result A
  settle output_stride h = returned (
      if ltb 0 h.collected_keys && leb c.min_insert_size h.collected_keys
      then record h { launched = some output_stride }
      else record h { locked = false })

  -- The task of `launch_insert`, where the table's `insert` returns or throws.
  unfoldable pub run_launched : Bool → Handler A → Handler A
  run_launched insert_returns h = elim h.launched [
    | none ↦ h
    | some stride ↦
        if insert_returns
        then record h {
          launched = none;
          insert_freq_cnt = c.min_insert_wait;
          collected_keys = 0;
          locked = false;
        }
        else record h { launched = none }
  ]

  -- `lock_modify`: `none` is a caller that waits.
  unfoldable pub lock_modify : Handler A → Option (Handler A)
  lock_modify h =
      if c.has_heuristic
      then (if h.locked then none else some (record h { locked = true }))
      else some h

  -- `unlock_modify`
  unfoldable pub unlock_modify : Handler A → Handler A
  unlock_modify h = if c.has_heuristic then record h { collected_keys = 0; locked = false } else h

module _ {ℓ} {A : Type ℓ} (c : HandlerConfig) (fresh_keys : ℕ → ℕ) (fresh_data : ℕ → A) where
  -- `collect_keys_and_data`
  unfoldable pub collect_keys_and_data : Batch A → Handler A → Handler A
  collect_keys_and_data b h =
      let at = h.collected_keys in
      let stride = h.collected_output_stride in
      let total = collection_total_size c at b.num_keys in
      let part = collection_part_size c at b.num_keys in
      let dst_keys = get_ptr fresh_keys total h.insert_keys in
      let dst_data = get_ptr fresh_data (total * stride) h.insert_data in
      record h {
        insert_keys = record {
          size = dst_keys.size;
          contents =
              rewrite b.hitmask c.invalid_key at part (memcpy dst_keys.contents at b.keys 0 part);
        };
        insert_data = record {
          size = dst_data.size;
          contents = memcpy dst_data.contents (at * stride) b.output 0 (part * stride);
        };
        collected_keys = at + part;
      }

  -- `auto_insert` with the lock taken
  unfoldable pub auto_insert_locked : Bool → Batch A → Handler A → Result A
  auto_insert_locked needed b h =
      if ltb 0 h.collected_keys
      then (if b.output_stride == h.collected_output_stride
          then settle c b.output_stride (collect_keys_and_data b h)
          else thrown h)
      else (if h.insert_freq_cnt == 0 && needed
          then settle c b.output_stride (
              collect_keys_and_data b
                (record h { collected_output_stride = b.output_stride; collected_keys = 0 }))
          else settle c b.output_stride (record h { insert_freq_cnt = h.insert_freq_cnt - 1 }))

  -- `auto_insert`
  unfoldable pub auto_insert : Bool → Batch A → Handler A → Result A
  auto_insert needed b h =
      if not c.has_heuristic || h.locked
      then returned h
      else auto_insert_locked needed b (record h { locked = true })
