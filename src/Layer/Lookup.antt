-- ===== src/Layer/Lookup.antt =====
-- `lookup` of `HierarchicalEmbeddingLayer` (src/hierarchical_embedding_layer.cu). A table is what it does to the
-- output and the hit mask. Output memory is a function of the byte, a hit mask one of the word and the
-- bit; buffers have one copy. Signed 64-bit numbers are taken modulo 2^64, and `order` is the order in
-- which the thread pool runs the tasks of the default embedding.
use nv_embedding_cache.Common.{
  ℕ, zero, suc, ◌+◌, ◌-◌, ◌*◌, ◌/◌, ◌%◌, ◌^◌, min, max, List, [], ◌∷◌, Option, none, some, ltb,
  if◌then◌else◌, Bool, false, ◌&&◌, map,
}
use nv_embedding_cache.StlTable.Table.Defs.{Outcome, ok, throws, undefined}
use nv_embedding_cache.LinearTable.Defs.{memcpy}
use nv_embedding_cache.LinearTable.Gather.{hit_bit}

-- What a lookup works on.
pub record Progress {ℓ} (A : Type ℓ) : Type ℓ where
  pub output : ℕ → A
  pub hit_mask : Option (ℕ → ℕ → Bool)

-- `Table`, as a lookup calls it: `find` of so many keys with the stride of the output, after
-- `reset_lookup_counter`, gives the counter too; `lookup_counter_hits` tells what is counted.
pub record Resolver {ℓ} (A : Type ℓ) : Type ℓ where
  pub find : ℕ → (ℕ → ℕ) → ℕ → Progress A → Outcome (Progress A × ℕ)
  pub lookup_counter_hits : Bool

-- What the layer makes of the counters: hits with the hit rate of each table.
pub record Floats {ℓ} (F : Type ℓ) : Type ℓ where
  pub of_int64 : ℕ → F
  pub div : F → F → F

unfoldable pub sub64 : ℕ → ℕ → ℕ
sub64 a b = (a + 2 ^ 64 - b) % 2 ^ 64

unfoldable pub positive64 : ℕ → Bool
positive64 a = ltb 0 a && ltb a (2 ^ 63)

-- The loop over the tables' counters: the hits and `table_hitrates` of each, and `left_keys`.
unfoldable pub count_hits {ℓ} : {F : Type ℓ} → Floats F → List (Bool × ℕ) → ℕ → List (ℕ × F) × ℕ
count_hits f [] left_keys = ([], left_keys)
count_hits f ((counts_hits, counter) ∷ rest) left_keys =
    let hits = if counts_hits then counter else sub64 left_keys counter in
    let (counted, left) = count_hits f rest (sub64 left_keys hits) in
    ((hits, f.div (f.of_int64 hits) (f.of_int64 left_keys)) ∷ counted, left)

-- The tasks of the default embedding.
unfoldable pub fill_keys_per_task : ℕ → ℕ → ℕ
fill_keys_per_task num_keys num_workers = max 1 ((num_keys + num_workers - 1) / num_workers)

unfoldable pub fill_num_tasks : ℕ → ℕ → ℕ
fill_num_tasks num_keys num_workers =
    let per = fill_keys_per_task num_keys num_workers in (num_keys + per - 1) / per

module _ {ℓ} {A : Type ℓ} (hit_mask : Option (ℕ → ℕ → Bool)) (default_embedding : ℕ → A)
    (row_size stride : ℕ) where
  -- The body of the loop of `fill_default_task`
  unfoldable pub fill_key : ℕ → (ℕ → A) → ℕ → A
  fill_key k output =
      if hit_bit hit_mask k then output else memcpy output (k * stride) default_embedding 0 row_size

  unfoldable pub fill_keys : ℕ → ℕ → (ℕ → A) → ℕ → A
  fill_keys k zero output = output
  fill_keys k (suc n) output = fill_keys (suc k) n (fill_key k output)

  -- `fill_default_task`
  unfoldable pub fill_task : ℕ → ℕ → ℕ → (ℕ → A) → ℕ → A
  fill_task num_keys per idx output =
      let start_key = idx * per in
      let end_key = min (start_key + per) num_keys in
      fill_keys start_key (end_key - start_key) output

  unfoldable pub fill_tasks : ℕ → ℕ → List ℕ → (ℕ → A) → ℕ → A
  fill_tasks num_keys per [] output = output
  fill_tasks num_keys per (idx ∷ order) output =
      fill_tasks num_keys per order (fill_task num_keys per idx output)

-- A lookup's results; `insert_mask` is the hit mask that the automatic inserts get.
pub record Looked {ℓ κ} (A : Type ℓ) (F : Type κ) : Type (ℓ ⊔ κ) where
  pub output : ℕ → A
  pub hit_mask : Option (ℕ → ℕ → Bool)
  pub table_hits : List (ℕ × F)
  pub hitrates : List F
  pub left_keys : ℕ
  pub insert_mask : Option (ℕ → ℕ → Bool)

-- The loop that looks the tables up in turn.
module _ {ℓ} {A : Type ℓ} (num_keys : ℕ) (keys : ℕ → ℕ) (stride : ℕ) where
  unfoldable pub find_all : List (Resolver A) → Progress A → Outcome (Progress A × List (Bool × ℕ))
  find_all [] p = ok (p, [])
  find_all (r ∷ rs) p = elim (r.find num_keys keys stride p) [
    | ok (p', counter) ↦ elim (find_all rs p') [
      | ok (p'', counters) ↦ ok (p'', (r.lookup_counter_hits, counter) ∷ counters)
      | throws ↦ throws
      | undefined ↦ undefined
    ]
    | throws ↦ throws
    | undefined ↦ undefined
  ]

-- "Fill default embedding rows for keys missing from all tables". A default embedding has the size of
-- a row; `none` is an empty one.
module _ {ℓ} {A : Type ℓ} (default_embedding : Option (ℕ → A)) (row_size num_workers : ℕ)
    (order : List ℕ) (num_keys stride : ℕ) where
  unfoldable pub fill_default : Bool → Progress A → ℕ → A
  fill_default keys_left p = elim default_embedding [
    | none ↦ p.output
    | some row ↦
        if keys_left
        then fill_tasks p.hit_mask row row_size stride num_keys
            (fill_keys_per_task num_keys num_workers) order p.output
        else p.output
  ]

module _ {ℓ κ} {A : Type ℓ} {F : Type κ} (f : Floats F) (default_embedding : Option (ℕ → A))
    (row_size num_workers : ℕ) (order : List ℕ) (num_keys : ℕ) (keys : ℕ → ℕ) (stride : ℕ) where
  -- What `HierarchicalEmbeddingLayer::lookup` makes of the tables' answers.
  unfoldable pub results : Progress A → List (Bool × ℕ) → Looked A F
  results p counters =
      let (counted, left) = count_hits f counters num_keys in
      record {
        output =
            fill_default default_embedding row_size num_workers order num_keys stride
              (positive64 left) p;
        hit_mask = p.hit_mask;
        table_hits = counted;
        hitrates = map (λ h. f.div (f.of_int64 h.0) (f.of_int64 num_keys)) counted;
        left_keys = left;
        insert_mask = if positive64 left then p.hit_mask else none;
      }

  -- `HierarchicalEmbeddingLayer::lookup`, up to the automatic inserts; with pooling it throws.
  unfoldable pub hierarchical_lookup : Bool → List (Resolver A) → (ℕ → A) → Outcome (Looked A F)
  hierarchical_lookup pooling tables output =
      if pooling
      then throws
      else (elim (find_all num_keys keys stride tables
          (record { output = output; hit_mask = some (λ w b. false) })) [
            | ok (p, counters) ↦ ok (results p counters)
            | throws ↦ throws
            | undefined ↦ undefined
          ])
