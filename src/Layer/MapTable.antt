-- ===== src/Layer/MapTable.antt =====
-- The map table (include/stl_map_backed_table_detail.hpp) as a table of a layer: the lookups of
-- Layer.Lookup through `find` of StlTable.Table.Find, with mask words of 64 bits. The metadata that a
-- lookup changes is left out: no row depends on it.
pub mod Keeps
use native.Mathlib.Nat.{div-eq_of_lt, mod-eq_of_lt, mul-add-div_right, mul-add-mod_self_right}
use nv_embedding_cache.Common.{
  ℕ, zero, suc, ◌+◌, ◌-◌, ◌*◌, ◌/◌, ◌%◌, ◌≤◌, ◌<◌, ◌≡◌, refl, ap, ◌∙◌, sym, subst, arith, List, [],
  ◌∷◌, map, Option, none, some, some_injective, none-some, Option-cases, inl, inr, Bool, true,
  false, ◌&&◌, ◌||◌, ◌==◌, leb, ltb, if◌then◌else◌, length, get_or, get_elem?, range_from, All,
}
use nv_embedding_cache.StlTable.Part.Defs.{Config, Partition, empty}
use nv_embedding_cache.StlTable.Part.Invariant.{IsValid}
use nv_embedding_cache.StlTable.Part.View.{view-length}
use nv_embedding_cache.StlTable.Table.Defs.{ok, throws, undefined}
use nv_embedding_cache.StlTable.Table.Find.{Word, Finding, find, find_parts}
use nv_embedding_cache.StlTable.Table.Batch.{view_at, All-at}
use nv_embedding_cache.StlTable.Table.Hits.{effect}
use nv_embedding_cache.StlTable.Table.Words.{touch}
use nv_embedding_cache.StlTable.Table.Walk.{HasShape}
use nv_embedding_cache.StlTable.Table.Past.{find_parts-past, find_parts-HasShape}
use nv_embedding_cache.StlTable.Table.Answers.{answer, find-hits}
use nv_embedding_cache.StlTable.Table.Counter.{set_bits, find-counts}
use nv_embedding_cache.LinearTable.Gather.{hit_bit}
use nv_embedding_cache.Layer.Lookup.{Progress, Resolver}
use nv_embedding_cache.Layer.Chain.{KnownTable, Resolved, is_some, byte_or, count_set}
use nv_embedding_cache.Layer.Bits.{
  get_or-map-range, length-map-range, count_set-same, count_set-add, bit_at, set_bits-count_set,
}

-- The words of a mask of `n` bits.
unfoldable pub words_of : ℕ → (ℕ → ℕ → Bool) → List Word
words_of n mask = map (λ w. map (mask w) (range_from 0 64)) (range_from 0 ((n + 64 - 1) / 64))

-- The buffers of a lookup, as `find` takes them: the bytes of a row are those of the output.
unfoldable pub query_of : Config → ℕ → ℕ → (ℕ → ℕ → Bool) → (ℕ → ℕ) → Finding
query_of c n stride mask output = record {
  hit_mask = words_of n mask;
  values = λ k. map (λ j. output (k * stride + j)) (range_from 0 c.max_value_size);
  value_sizes = λ k. 0;
  part = empty c;
  num_hits = 0;
}

-- The output and the mask that `find` leaves.
unfoldable pub progress_of : Config → ℕ → ℕ → (ℕ → ℕ) → Finding → Progress ℕ
progress_of c n stride output s = record {
  output = λ y.
      if ltb (y / stride) n && ltb (y % stride) c.max_value_size
      then get_or (s.values (y / stride)) (y % stride) (output y)
      else output y;
  hit_mask = some (λ w b. get_or (get_or s.hit_mask w []) b false);
}

-- `reset_lookup_counter`, `find` and `get_lookup_counter` of a table with these partitions. Without a mask
-- `find_` reads through a null pointer.
unfoldable pub map_resolver : (ℕ → ℕ) → Config → ℕ → ℕ → List Partition → Resolver ℕ
map_resolver part_of c now task_size parts = record {
  find = λ n keys stride p. elim p.hit_mask [
    | none ↦ undefined
    | some mask ↦
        elim (find part_of c now true false (map keys (range_from 0 n)) 64 task_size stride parts
          (query_of c n stride mask p.output)) [
            | none ↦ throws
            | some (parts', s) ↦ ok (progress_of c n stride p.output s, s.num_hits)
          ]
  ];
  lookup_counter_hits = true;
}

abbrev pub bytes_of : Option (List ℕ) → Option (ℕ → ℕ)
bytes_of none = none
bytes_of (some row) = some (λ j. get_or row j 0)

-- The row of a key in the table.
abbrev pub map_row : (ℕ → ℕ) → List Partition → ℕ → Option (ℕ → ℕ)
map_row part_of parts key = bytes_of (view_at part_of key parts)
