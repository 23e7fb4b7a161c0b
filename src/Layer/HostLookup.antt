-- ===== src/Layer/HostLookup.antt =====
-- `lookup` of `HostEmbeddingLayer` without pooling (src/host_embedding_layer.cpp), with what Layer.Lookup
-- says of tables, buffers and numbers. A null pointer is none.
use nv_embedding_cache.Common.{
  ℕ, zero, suc, ◌+◌, ◌-◌, ◌*◌, ◌/◌, min, max, List, [], ◌∷◌, Option, none, some, ◌==◌,
  if◌then◌else◌, Bool, true, false, ◌||◌, not,
}
use nv_embedding_cache.StlTable.Table.Defs.{Outcome, ok, throws, undefined}
use nv_embedding_cache.LinearTable.Defs.{memcpy}
use nv_embedding_cache.LinearTable.Gather.{hit_bit}
use nv_embedding_cache.Layer.Lookup.{Progress, Resolver, Floats, Looked, sub64, positive64}

module _ {ℓ} {A : Type ℓ} (hit_mask : Option (ℕ → ℕ → Bool)) (default_emb : ℕ → A)
    (row_size gather_stride num_keys : ℕ) where
  -- The loop of `fill_default_task`, over `n` keys from `k` on
  unfoldable pub host_fill_keys : ℕ → ℕ → (ℕ → A) → ℕ → A
  host_fill_keys k zero gather = gather
  host_fill_keys k (suc n) gather = host_fill_keys (suc k) n (
      if not (hit_bit hit_mask k)
      then memcpy gather (k * gather_stride) default_emb 0 row_size
      else gather)

  -- `fill_default_task`
  unfoldable pub host_fill_task : ℕ → ℕ → (ℕ → A) → ℕ → A
  host_fill_task keys_per_task idx gather =
      let start_key = idx * keys_per_task in
      let end_key = min (start_key + keys_per_task) num_keys in
      host_fill_keys start_key (end_key - start_key) gather

  unfoldable pub host_fill_tasks : ℕ → List ℕ → (ℕ → A) → ℕ → A
  host_fill_tasks keys_per_task [] gather = gather
  host_fill_tasks keys_per_task (idx ∷ order) gather =
      host_fill_tasks keys_per_task order (host_fill_task keys_per_task idx gather)

-- The size of a task; `num_tasks` follows from it as in Layer.Lookup.
unfoldable pub host_keys_per_task : ℕ → ℕ → ℕ
host_keys_per_task num_keys num_workers = max 1 ((num_keys + num_workers - 1) / num_workers)

unfoldable pub need_hitmask {ℓ} : {A : Type ℓ} → Option (ℕ → A) → Bool → Bool
need_hitmask default_embedding wants_mask =
    wants_mask || (elim default_embedding [ none ↦ false | some r ↦ true ])

module _ {ℓ} {A : Type ℓ} (default_embedding : Option (ℕ → A)) (row_size num_workers : ℕ)
    (order : List ℕ) (num_keys : ℕ) where
  -- "Default-embedding fill for keys that missed the table."
  unfoldable pub host_fill_default : ℕ → Bool → Progress A → ℕ → A
  host_fill_default stride some_missed p = elim default_embedding [
    | none ↦ p.output
    | some row ↦
        if some_missed
        then host_fill_tasks p.hit_mask row row_size stride num_keys
            (host_keys_per_task num_keys num_workers) order p.output
        else p.output
  ]

module _ {ℓ κ} {A : Type ℓ} {F : Type κ} (f : Floats F) (default_embedding : Option (ℕ → A))
    (row_size num_workers : ℕ) (order : List ℕ) (num_keys : ℕ) where
  -- What is made of the table's answer.
  unfoldable pub host_results : ℕ → Bool → Progress A → ℕ → Looked A F
  host_results stride counts_hits p counter =
      let hits = if counts_hits then counter else sub64 num_keys counter in
      let misses = sub64 num_keys hits in
      let rate = f.div (f.of_int64 hits) (f.of_int64 num_keys) in
      record {
        output =
            host_fill_default default_embedding row_size num_workers order num_keys stride
              (positive64 misses) p;
        hit_mask = p.hit_mask;
        table_hits = (hits, rate) ∷ [];
        hitrates = rate ∷ [];
        left_keys = misses;
        insert_mask = none;
      }

  -- `HostEmbeddingLayer::lookup` without pooling. A mask is used if the caller wants it or there is a
  -- default embedding.
  unfoldable pub host_lookup :
      Bool → Option (ℕ → ℕ) → Option (ℕ → A) → ℕ → Bool → Resolver A → Outcome (Looked A F)
  host_lookup has_context none output stride wants_mask table = throws
  host_lookup has_context (some keys) none stride wants_mask table = throws
  host_lookup has_context (some keys) (some output) stride wants_mask table =
      if not has_context || num_keys == 0
      then throws
      else (elim (table.find num_keys keys stride (record {
        output = output;
        hit_mask = if need_hitmask default_embedding wants_mask then some (λ w b. false) else none;
      })) [
        | ok (p, counter) ↦ ok (host_results stride table.lookup_counter_hits p counter)
        | throws ↦ throws
        | undefined ↦ undefined
      ])
