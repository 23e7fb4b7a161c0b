-- ===== src/Tests/FindRuns.antt =====
-- The theorems of lookups at a table of one partition with two keys.
use nv_embedding_cache.Common.{
  ◌+◌, ℕ, zero, suc, ◌<◌, ◌≡◌, arith, List, [], ◌∷◌, some, true, false, get_or, length, refl,
}
use nv_embedding_cache.StlTable.Part.Defs.{Partition}
use nv_embedding_cache.StlTable.Table.Find.{Finding, Word, find}
use nv_embedding_cache.StlTable.Table.Batch.{view_at}
use nv_embedding_cache.StlTable.Table.Words.{touch}
use nv_embedding_cache.StlTable.Table.Answers.{answer, find-hits}
use nv_embedding_cache.StlTable.Table.Counter.{set_bits, find-counts}
use nv_embedding_cache.Tests.StlRuns.{full, one, full-IsValid}

abbrev looked_up : List ℕ
looked_up = 6 ∷ 7 ∷ 5 ∷ []

abbrev no_hits : List Word
no_hits = (false ∷ false ∷ false ∷ false ∷ []) ∷ []

abbrev output : Finding
output = record {
  hit_mask = no_hits;
  values = λ x. [];
  value_sizes = λ x. 0;
  part = full;
  num_hits = 0;
}

abbrev to_first : ℕ → ℕ
to_first key = 0

no_hits-bits : (w : ℕ) → w < 1 → length (get_or no_hits w []) ≡ 4
no_hits-bits zero h = refl
no_hits-bits (suc w) h = absurd (omega arith)

find-hits_example :
    (parts' : List Partition) × (s' : Finding) × (find to_first one 9 true true looked_up 4 1 8
        (full ∷ [])
        output
      ≡ some (parts', s'))
    × (answer 4 2 s' ≡ touch true (view_at to_first 5 (full ∷ [])) (answer 4 2 output))
find-hits_example =
    find-hits to_first one 9 true true looked_up 4 1 8 2 (full ∷ []) output (omega arith)
      (omega arith) (omega arith) (full-IsValid, tt) (record { words = refl; bits = no_hits-bits })
      (omega arith)

find-counts_example :
    (parts' : List Partition) × (s' : Finding) × (find to_first one 9 true true looked_up 4 1 8
        (full ∷ [])
        output
      ≡ some (parts', s'))
    × (s'.num_hits + set_bits no_hits ≡ 0 + set_bits s'.hit_mask)
find-counts_example =
    find-counts to_first one 9 true true looked_up 4 1 8 (full ∷ []) output (omega arith)
