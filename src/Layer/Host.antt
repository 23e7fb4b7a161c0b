-- ===== src/Layer/Host.antt =====
-- `HostEmbeddingLayer::lookup` (src/host_embedding_layer.cpp) over a table that keeps the contract of
-- `Table::find` (include/table.hpp).
use nv_embedding_cache.Common.{
  ℕ, zero, suc, ◌+◌, ◌-◌, ◌*◌, ◌≤◌, ◌<◌, ◌≡◌, ◌^◌, refl, ap, ◌∙◌, List, [], ◌∷◌, Option, none, some,
  arith, ◌==◌, Bool, true, false, inl, inr, ◌⊎◌, min, Bool-cases, Perm, range_from, if◌then◌else◌,
}
use nv_embedding_cache.StlTable.Table.Defs.{Outcome, ok, throws, undefined}
use nv_embedding_cache.LinearTable.Gather.{hit_bit}
use nv_embedding_cache.Layer.Lookup.{
  Progress, Resolver, Floats, Looked, count_hits, find_all, results, hierarchical_lookup, fill_key,
  fill_keys, fill_task, fill_tasks, fill_default, fill_keys_per_task, fill_num_tasks, sub64,
  positive64,
}
use nv_embedding_cache.Layer.HostLookup.{
  host_fill_keys, host_fill_task, host_fill_tasks, host_keys_per_task, need_hitmask,
  host_fill_default, host_results, host_lookup,
}
use nv_embedding_cache.Layer.Chain.{KnownTable}
use nv_embedding_cache.Layer.Hits.{Answer, hierarchical_lookup-Answer}

-- The results without the mask for automatic inserts, which the host layer has none of.
abbrev without_inserts {ℓ κ} :
    {A : Type ℓ} → {F : Type κ} → Outcome (Looked A F) → Outcome (Looked A F)
without_inserts (ok l) = ok (record l { insert_mask = none })
without_inserts throws = throws
without_inserts undefined = undefined

Outcome-cases {ℓ} :
    {A : Type ℓ} (o : Outcome A) → ((a : A) × (o ≡ ok a)) ⊎ ((o ≡ throws) ⊎ (o ≡ undefined))
Outcome-cases (ok a) = inl (a, refl)
Outcome-cases throws = inr (inl refl)
Outcome-cases undefined = inr (inr refl)

-- The two layers write their own loops for the default embedding; the rows they write are the same.
module _ {ℓ} {A : Type ℓ} (hit_mask : Option (ℕ → ℕ → Bool)) (row : ℕ → A)
    (row_size stride n : ℕ) where
  host_fill_keys-fill_keys :
      (k count : ℕ) (output : ℕ → A)
      → host_fill_keys hit_mask row row_size stride n k count output
        ≡ fill_keys hit_mask row row_size stride k count output
  unfolding host_fill_keys fill_keys fill_key
  host_fill_keys-fill_keys k zero output = refl
  host_fill_keys-fill_keys k (suc count) output = elim (Bool-cases (hit_bit hit_mask k)) [
    | inl e ↦ rw e (host_fill_keys-fill_keys (suc k) count output)
    | inr e ↦ rw e (host_fill_keys-fill_keys (suc k) count _)
  ]

  host_fill_tasks-fill_tasks :
      (per : ℕ) (order : List ℕ) (output : ℕ → A)
      → host_fill_tasks hit_mask row row_size stride n per order output
        ≡ fill_tasks hit_mask row row_size stride n per order output
  unfolding host_fill_tasks fill_tasks host_fill_task fill_task
  host_fill_tasks-fill_tasks per [] output = refl
  host_fill_tasks-fill_tasks per (idx ∷ order) output =
      ap (host_fill_tasks hit_mask row row_size stride n per order)
        (host_fill_keys-fill_keys (idx * per) (min (idx * per + per) n - idx * per) output)
      ∙ host_fill_tasks-fill_tasks per order _

host_fill_default-fill_default {ℓ} :
    {A : Type ℓ} (default_embedding : Option (ℕ → A)) (row_size w : ℕ) (order : List ℕ)
    (n stride : ℕ) (missed : Bool) (p : Progress A)
    → host_fill_default default_embedding row_size w order n stride missed p
      ≡ fill_default default_embedding row_size w order n stride missed p
unfolding host_fill_default fill_default host_keys_per_task fill_keys_per_task
host_fill_default-fill_default none row_size w order n stride missed p = refl
host_fill_default-fill_default (some row) row_size w order n stride false p = refl
host_fill_default-fill_default (some row) row_size w order n stride true p =
    host_fill_tasks-fill_tasks p.hit_mask row row_size stride n (fill_keys_per_task n w) order
      p.output

host_results-results {ℓ κ} :
    {A : Type ℓ} {F : Type κ} (f : Floats F) (default_embedding : Option (ℕ → A)) (row_size w : ℕ)
    (order : List ℕ) (n : ℕ) (keys : ℕ → ℕ) (stride : ℕ) (counts_hits : Bool) (p : Progress A)
    (counter : ℕ)
    → host_results f default_embedding row_size w order n stride counts_hits p counter
      ≡ record (results f default_embedding row_size w order n keys stride p
          ((counts_hits, counter) ∷ [])) { insert_mask = none }
unfolding host_results results count_hits
host_results-results f default_ row_size w order n keys stride counts_hits p counter =
    rw
      (host_fill_default-fill_default default_ row_size w order n stride
        (positive64 (sub64 n (if counts_hits then counter else sub64 n counter))) p)
      refl

lookup-of_table {ℓ κ} :
    {A : Type ℓ} {F : Type κ} (f : Floats F) (default_embedding : Option (ℕ → A)) (row_size w : ℕ)
    (order : List ℕ) (n : ℕ) (keys : ℕ → ℕ) (stride : ℕ) (wants_mask : Bool) (table : Resolver A)
    (output : ℕ → A)
    → 0 < n
    → need_hitmask default_embedding wants_mask ≡ true
    → host_lookup f default_embedding row_size w order n true
        (some keys)
        (some output)
        stride
        wants_mask
        table
      ≡ without_inserts (
          hierarchical_lookup f default_embedding row_size w order n keys stride false
            (table ∷ [])
            output)
unfolding host_lookup hierarchical_lookup find_all
lookup-of_table {A = A} f default_ row_size w order n keys stride wants table output some_keys
      uses =
    let has_keys : n == 0 ≡ false = ground (arith, some_keys) in
    let start : Progress A = record { output = output; hit_mask = some (λ a b. false) } in
    elim (Outcome-cases (table.find n keys stride start)) [
      | inl ((p, counter), e) ↦
          rw (has_keys, uses, find_all, e)
            (ap ok (
              host_results-results f default_ row_size w order n keys stride
                table.lookup_counter_hits p counter))
      | inr (inl e) ↦ rw (has_keys, uses, find_all, e) refl
      | inr (inr e) ↦ rw (has_keys, uses, find_all, e) refl
    ]

-- A lookup of the host layer with a context, of some keys, fewer than 2^63, with a stride that rows fit,
-- over a table that keeps the contract of `find`, where the caller wants a hit mask or there is a default
-- embedding, in any order of the tasks, returns what a lookup over this one table has to give: for each
-- key its row, or else the default row, or else what was there, the bits of the keys that the table has,
-- and counts of hits and misses that add up; but no mask for automatic inserts.
pub host_lookup-Answer {ℓ κ} :
    {A : Type ℓ} {F : Type κ} {row_size : ℕ} (f : Floats F) (default_embedding : Option (ℕ → A))
    (num_workers : ℕ) (order : List ℕ) (n : ℕ) (keys : ℕ → ℕ) (stride : ℕ) (wants_mask : Bool)
    (t : KnownTable A row_size) (output : ℕ → A)
    → 0 < n
    → n < 2 ^ 63
    → row_size ≤ stride
    → Perm order (range_from 0 (fill_num_tasks n num_workers))
    → need_hitmask default_embedding wants_mask ≡ true
    → (l : Looked A F) × (host_lookup f default_embedding row_size num_workers order n true
          (some keys)
          (some output)
          stride
          wants_mask
          t.resolver
        ≡ ok (record l { insert_mask = none }))
      × Answer (t ∷ []) default_embedding n keys stride output l
host_lookup-Answer {row_size = row_size} f default_ w order n keys stride wants t output some_keys
      small fits r uses =
    let (l, ran, answer) =
      hierarchical_lookup-Answer f default_ w order n keys stride (t ∷ []) output some_keys small
        fits r in
    (
      l,
      lookup-of_table f default_ row_size w order n keys stride wants t.resolver output some_keys
            uses
          ∙ ap without_inserts ran,
      answer,
    )
