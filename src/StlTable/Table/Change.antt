-- ===== src/StlTable/Table/Change.antt =====
-- `update_accumulate`, `clear` and the constructor of `STLContainerTable`
-- (include/stl_map_backed_table_detail.hpp) on a whole table.
use mathlib.Core.Option
use nv_embedding_cache.Common.{
  ==_self, ℕ, zero, suc, ◌≤◌, ◌≡◌, refl, ap, sym, ◌∙◌, List, [], ◌∷◌, Option, none, some, arith,
  ◌==◌, ==_iff, if◌then◌else◌, leb, length, replicate, All, get_elem?, Option-cases, Bool-cases,
  true, false, inl, inr,
}
use nv_embedding_cache.StlTable.Dict.{lookup}
use nv_embedding_cache.StlTable.Part.Defs.{Config, Partition, accumulate_one, clear_part, empty}
use nv_embedding_cache.StlTable.Part.Invariant.{IsValid, clear_part-IsValid, empty-IsValid}
use nv_embedding_cache.StlTable.Part.View.{view, view-accumulate_one}
use nv_embedding_cache.StlTable.Table.Defs.{
  TableConfig, ok, accumulate_task, update_accumulate, clear, construct, rows_from,
}
use nv_embedding_cache.StlTable.Table.Batch.{
  view_at, Each-none, Each-All, Each-at, execute_each-Each,
}

-- A kernel, which works in place, keeps the length of a row.
abbrev pub KeepsLength : (List ℕ → List ℕ → List ℕ) → Type 0
KeepsLength kernel = (w u : List ℕ) → length (kernel w u) ≡ length w

-- The value of a key after the kernel has run with each row of the batch that is the key's.
unfoldable pub accumulated :
    (List ℕ → List ℕ → List ℕ) → ℕ → List (ℕ × List ℕ) → Option (List ℕ) → Option (List ℕ)
accumulated kernel j [] v = v
accumulated kernel j ((k, row) ∷ rest) v =
    accumulated kernel j rest (if j == k then Option.map (λ w. kernel w row) v else v)

pub accumulated-none :
    (kernel : List ℕ → List ℕ → List ℕ) (j : ℕ) (rows : List (ℕ × List ℕ))
    → accumulated kernel j rows none ≡ none
unfolding accumulated
accumulated-none kernel j [] = refl
accumulated-none kernel j ((k, row) ∷ rest) = elim (Bool-cases (j == k)) [
  | inl e ↦ rw e (accumulated-none kernel j rest)
  | inr e ↦ rw e (accumulated-none kernel j rest)
]

module _ (part_of : ℕ → ℕ) (c : Config) (kernel : List ℕ → List ℕ → List ℕ)
    (keeps : KeepsLength kernel) where
  accumulate_one-IsValid :
      (k : ℕ) (row : List ℕ) (p : Partition)
      → IsValid c p
      → IsValid c (accumulate_one kernel k row p)
  unfolding accumulate_one
  accumulate_one-IsValid k row p v = elim (Option-cases (lookup k p.slot_map)) [
    | inl e ↦ rw (e, accumulate_one) v
    | inr (s, e) ↦
        rw (e, accumulate_one)
          (record {
            keys = v.keys;
            slots = v.slots;
            width = λ q. ground (arith, v.width q, v.width s, keeps (p.mem s).value row);
          })
  ]

  record Accumulated (rows : List (ℕ × List ℕ)) (i : ℕ) (p q : Partition) : Type 0 where
    valid : IsValid c q
    reads : (j : ℕ) → part_of j ≡ i → view j q ≡ accumulated kernel j rows (view j p)

  one_row :
      (j k : ℕ) (row : List ℕ) (p : Partition)
      → IsValid c p
      → view j (accumulate_one kernel k row p)
        ≡ (if j == k then Option.map (λ w. kernel w row) (view j p) else view j p)
  one_row j k row p v = elim (Bool-cases (j == k)) [
    | inl same ↦
        rw (same, view-accumulate_one c p v kernel k j row)
          (rw same
            (ap (λ n. Option.map (λ w. kernel w row) (view n p)) (sym ((==_iff j k).0 same))))
    | inr other ↦ rw (other, view-accumulate_one c p v kernel k j row) (rw other)
  ]

  accumulate_task-Accumulated :
      (rows : List (ℕ × List ℕ)) (i : ℕ) (p : Partition)
      → IsValid c p
      → Accumulated rows i p (accumulate_task part_of kernel rows i p)
  unfolding accumulate_task accumulated
  accumulate_task-Accumulated [] i p v = record { valid = v; reads = λ j e. refl }
  accumulate_task-Accumulated ((k, row) ∷ rest) i p v = elim (Bool-cases (part_of k == i)) [
    | inl mine ↦
        let r =
          accumulate_task-Accumulated rest i (accumulate_one kernel k row p)
            (accumulate_one-IsValid k row p v) in
        rw mine (record {
          valid = r.valid;
          reads = λ j e. r.reads j e ∙ ap (accumulated kernel j rest) (one_row j k row p v);
        })
    | inr other ↦
        let r = accumulate_task-Accumulated rest i p v in
        let skip : (j : ℕ) → part_of j ≡ i → j == k ≡ false =
          λ j e. ground (arith, ap part_of {x = j} {y = k}) in
        rw other (record { valid = r.valid; reads = λ j e. rw (skip j e) (r.reads j e) })
  ]

  -- `update_accumulate` of rows that fit, in well-formed partitions, with a kernel that keeps the length
  -- of a row, succeeds, keeps the invariant of every partition, runs the kernel with the rows of each key
  -- in their order on the keys that are there, and adds no key.
  pub update_accumulate-view_at :
      (parts : List Partition) (j k : ℕ) (ks : List ℕ) (stride size : ℕ) (updates : List ℕ)
      → All (IsValid c) parts
      → size ≤ c.max_value_size
      → (parts' : List Partition) × (update_accumulate part_of c
            (some kernel)
            (k ∷ ks)
            stride
            size
            updates
            parts
          ≡ ok parts')
        × All (IsValid c) parts'
        × (view_at part_of j parts'
            ≡ accumulated kernel j
                (rows_from stride size updates 0 (k ∷ ks))
                (view_at part_of j parts))
  unfolding update_accumulate view_at
  update_accumulate-view_at parts j k ks stride size updates v h =
      let rows = rows_from stride size updates 0 (k ∷ ks) in
      let (qs, run, e) =
        execute_each-Each (IsValid c) (Accumulated rows)
          (λ i p. some (accumulate_task part_of kernel rows i p))
          (λ i p w.
            (accumulate_task part_of kernel rows i p, refl, accumulate_task-Accumulated rows i p w))
          0 parts v in
      let fits : leb size c.max_value_size ≡ true = ground arith in
      (
        qs,
        rw (fits, run),
        Each-All (IsValid c) (Accumulated rows) (λ i p q r. r.valid) 0 parts qs e,
        elim (Option-cases (get_elem? parts (part_of j))) [
          | inl f ↦
              rw (f, Each-none (Accumulated rows) 0 parts qs (part_of j) e f, view_at)
                (sym (accumulated-none kernel j rows))
          | inr (p, f) ↦
              let (q, f', r) = Each-at (Accumulated rows) 0 parts qs (part_of j) p e f in
              rw (f, f', view_at) (r.reads j (omega arith))
        ],
      )

module _ (part_of : ℕ → ℕ) (c : Config) where
  record Cleared (i : ℕ) (p q : Partition) : Type 0 where
    valid : IsValid c q
    gone : (j : ℕ) → view j q ≡ none

  -- `clear`, in well-formed partitions, succeeds, keeps the invariant of every partition and removes
  -- every key.
  pub clear-view_at :
      (parts : List Partition) (j : ℕ)
      → All (IsValid c) parts
      → (parts' : List Partition) × (clear parts ≡ ok parts')
        × All (IsValid c) parts'
        × (view_at part_of j parts' ≡ none)
  unfolding clear view_at
  clear-view_at parts j v =
      let (qs, run, e) =
        execute_each-Each (IsValid c) Cleared (λ i p. some (clear_part p))
          (λ i p w. (
            clear_part p,
            refl,
            record {
              valid = clear_part-IsValid c p w;
              gone = λ j. unfold view in unfold clear_part in unfold lookup in refl;
            },
          ))
          0 parts v in
      (
        qs,
        rw run,
        Each-All (IsValid c) Cleared (λ i p q r. r.valid) 0 parts qs e,
        elim (Option-cases (get_elem? parts (part_of j))) [
          | inl f ↦ rw (Each-none Cleared 0 parts qs (part_of j) e f, view_at)
          | inr (p, f) ↦
              let (q, f', r) = Each-at Cleared 0 parts qs (part_of j) p e f in
              rw (f', view_at) (r.gone j)
        ],
      )

empties : (c : Config) (n : ℕ) → All (IsValid c) (replicate n (empty c))
empties c zero = tt
empties c (suc n) = (empty-IsValid c, empties c n)

get_elem?-replicate {ℓ} :
    {A : Type ℓ} (n i : ℕ) (a b : A) → get_elem? (replicate n a) i ≡ some b → b ≡ a
get_elem?-replicate zero i a b e = cc
get_elem?-replicate (suc n) zero a b e = cc
get_elem?-replicate (suc n) (suc i) a b e = get_elem?-replicate n i a b e

-- A new table, for keys of the configured size, is well formed and has no key.
pub construct-empty :
    (part_of : ℕ → ℕ) (key_bytes : ℕ) (t : TableConfig) (j : ℕ)
    → t.key_size ≡ key_bytes
    → (parts : List Partition) × (construct key_bytes t ≡ ok parts)
      × All (IsValid t.slots) parts
      × (view_at part_of j parts ≡ none)
unfolding construct view_at view empty lookup
construct-empty part_of key_bytes t j same = (
  replicate t.num_partitions (empty t.slots),
  rw (same, ==_self key_bytes) refl,
  empties t.slots t.num_partitions,
  elim (Option-cases (get_elem? (replicate t.num_partitions (empty t.slots)) (part_of j))) [
    | inl f ↦ rw (f, view_at)
    | inr (p, f) ↦
        let fresh = get_elem?-replicate t.num_partitions (part_of j) (empty t.slots) p f in
        rw (f, view_at) (ap (view j) fresh)
  ],
)
