-- ===== src/Tests/SequenceRuns.antt =====
-- The theorems of sequences of calls of the map table, at a small table.
use nv_embedding_cache.Common.{
  ℕ, ◌≡◌, refl, List, [], ◌∷◌, none, some, arith, ◌⊎◌, true, All, get_or,
}
use nv_embedding_cache.StlTable.Part.Defs.{Partition, empty}
use nv_embedding_cache.StlTable.Part.Invariant.{IsValid}
use nv_embedding_cache.StlTable.Table.Defs.{TableConfig, ok}
use nv_embedding_cache.StlTable.Table.Find.{Finding, find}
use nv_embedding_cache.StlTable.Table.Batch.{view_at}
use nv_embedding_cache.StlTable.Table.Reads.{find-reads}
use nv_embedding_cache.StlTable.Table.Calls.{
  Call, insert_rows, update_rows, accumulate_rows, erase_keys, find_rows, Query, Fits, replay, run,
}
use nv_embedding_cache.StlTable.Table.Refine.{Refines, construct-Refines, find-fresh}
use nv_embedding_cache.Tests.Sorting.{algorithms}
use nv_embedding_cache.Tests.StlRuns.{lru, halves, keys, bytes, big, tables, tables-IsValid}

abbrev small : TableConfig
small = record {
  slots = lru;
  mask_size = 8;
  key_size = 8;
  value_dtype_size = 1;
  num_partitions = 2;
  num_workgroups = 1;
  max_find_task_size = 128;
}

abbrev blank_output : Finding
blank_output = record {
  hit_mask = [];
  values = λ x. [];
  value_sizes = λ x. 0;
  part = empty lru;
  num_hits = 0;
}

abbrev query : Query
query = record {
  keys = keys;
  now = 4;
  with_values = true;
  with_sizes = true;
  num_bits = 8;
  task_size = 1;
  value_stride = 2;
  output = blank_output;
}

abbrev keep_row : List ℕ → List ℕ → List ℕ
keep_row w u = w

abbrev calls : List Call
calls =
    insert_rows keys 2 2 bytes (λ i. 7)
    ∷ update_rows keys 2 1 bytes
    ∷ accumulate_rows keep_row keys 2 2 bytes
    ∷ find_rows query
    ∷ erase_keys (2 ∷ [])
    ∷ []

calls-Fits : All (Fits lru) calls
calls-Fits = (
  (refl, omega arith, omega arith),
  (omega arith, (((λ w u. refl), omega arith), (omega arith, (tt, tt)))),
)

construct-Refines_example :
    Refines halves lru 1 (replay lru 1 calls none) (run halves algorithms 8 small calls)
construct-Refines_example = construct-Refines halves algorithms 8 small calls 1 refl big calls-Fits

find-fresh_example :
    (parts : List Partition) × (parts' : List Partition) × (s' : Finding) × (run halves algorithms 8
        small calls
      ≡ ok parts)
    × (find halves lru 4 true true keys 8 1 2 parts blank_output ≡ some (parts', s'))
    × ((s'.values 2 ≡ []) ⊎ (replay lru (get_or keys 2 0) calls none ≡ some (s'.values 2)))
find-fresh_example =
    find-fresh halves algorithms 8 small calls query 2 refl big calls-Fits (omega arith)

find-reads_example :
    (parts' : List Partition) × (s' : Finding) × (find halves lru 4 true true keys 8 1 2 tables
        blank_output
      ≡ some (parts', s'))
    × All (IsValid lru) parts'
    × ((k : ℕ) → view_at halves k parts' ≡ view_at halves k tables)
    × ((x : ℕ)
        → (s'.values x ≡ []) ⊎ (view_at halves (get_or keys x 0) tables ≡ some (s'.values x)))
find-reads_example =
    find-reads halves lru 4 true true keys 8 1 2 tables blank_output (omega arith) tables-IsValid
