-- ===== src/StlTable/Table/Modify.antt =====
-- `erase`, `update`, `update_accumulate`, `clear` and `size` of `STLContainerTable`
-- (include/stl_map_backed_table_detail.hpp) on a whole batch, and the undefined `insert`.
use mathlib.Core.Option
use nv_embedding_cache.Common.{
  ℕ, ◌≤◌, ◌<◌, ◌≡◌, refl, ap, sym, ◌∙◌, Bool, true, false, List, [], ◌∷◌, Option, none, some, arith,
  ◌==◌, ==_iff, if◌then◌else◌, leb, length, All, All-imp, get_elem?, Option-cases, Bool-cases, inl,
  inr,
}
use nv_embedding_cache.StlTable.Dict.{lookup}
use nv_embedding_cache.StlTable.Part.Defs.{
  Config, Partition, Algorithms, insert_one, slots_per_buffer, slot_stride, empty, relieve,
  ensure_slot, allocate, carve, place, erase_one, update_one, copy_n,
}
use nv_embedding_cache.StlTable.Part.Invariant.{IsValid, erase_one-IsValid, overwrite-IsValid}
use nv_embedding_cache.StlTable.Part.View.{view, view-erase_one, view-update_one}
use nv_embedding_cache.StlTable.Table.Defs.{
  ok, erase_task, erase, update_task, update, size, rows_from,
}
use nv_embedding_cache.StlTable.Table.Batch.{
  view_at, Each-none, Each-All, Each-at, execute_each-Each, length-rows_from-le,
}

-- Whether a key stands in a batch.
pub listed : ℕ → List ℕ → Bool
listed j [] = false
listed j (k ∷ ks) = if j == k then true else listed j ks

-- The value of a key after an update by the rows of a batch, applied one after the other to a value
-- that is there.
unfoldable pub updated : ℕ → List (ℕ × List ℕ) → Option (List ℕ) → Option (List ℕ)
updated j [] v = v
updated j ((k, row) ∷ rest) v = updated j rest (if j == k then Option.map (copy_n row) v else v)

pub updated-none : (j : ℕ) (rows : List (ℕ × List ℕ)) → updated j rows none ≡ none
unfolding updated
updated-none j [] = refl
updated-none j ((k, row) ∷ rest) = elim (Bool-cases (j == k)) [
  | inl e ↦ rw e (updated-none j rest)
  | inr e ↦ rw e (updated-none j rest)
]

module _ (part_of : ℕ → ℕ) (c : Config) where
  pub record Erased (keys : List ℕ) (i : ℕ) (p q : Partition) : Type 0 where
    pub valid : IsValid c q
    pub reads : (j : ℕ) → part_of j ≡ i → view j q ≡ (if listed j keys then none else view j p)

  erase_task-Erased :
      (keys : List ℕ) (i : ℕ) (p : Partition)
      → IsValid c p
      → Erased keys i p (erase_task part_of keys i p)
  unfolding erase_task listed
  erase_task-Erased [] i p v = record { valid = v; reads = λ j e. refl }
  erase_task-Erased (k ∷ ks) i p v = elim (Bool-cases (part_of k == i)) [
    | inl mine ↦
        let r = erase_task-Erased ks i (erase_one k p) (erase_one-IsValid c k p v) in
        rw mine (record {
          valid = r.valid;
          reads = λ j e. ground (arith, r.reads j e, view-erase_one c p v k j);
        })
    | inr other ↦
        let r = erase_task-Erased ks i p v in
        rw other (record {
          valid = r.valid;
          reads = λ j e. ground (arith, r.reads j e, ap part_of {x = j} {y = k});
        })
  ]

  pub record Updated (rows : List (ℕ × List ℕ)) (i : ℕ) (p q : Partition) : Type 0 where
    pub valid : IsValid c q
    pub reads : (j : ℕ) → part_of j ≡ i → view j q ≡ updated j rows (view j p)

  update_one-IsValid :
      (k : ℕ) (row : List ℕ) (p : Partition)
      → length row ≤ c.max_value_size
      → IsValid c p
      → IsValid c (update_one k row p)
  unfolding update_one
  update_one-IsValid k row p h v = elim (Option-cases (lookup k p.slot_map)) [
    | inl e ↦ rw (e, update_one) v
    | inr (s, e) ↦ rw (e, update_one) (overwrite-IsValid c s row p h v)
  ]

  update_task-Updated :
      (rows : List (ℕ × List ℕ)) (i : ℕ) (p : Partition)
      → All (λ r. length r.1 ≤ c.max_value_size) rows
      → IsValid c p
      → Updated rows i p (update_task part_of rows i p)
  unfolding update_task updated
  update_task-Updated [] i p a v = record { valid = v; reads = λ j e. refl }
  update_task-Updated ((k, row) ∷ rest) i p a v = elim (Bool-cases (part_of k == i)) [
    | inl mine ↦
        let r =
          update_task-Updated rest i (update_one k row p) a.1 (update_one-IsValid k row p a.0 v) in
        rw mine (record {
          valid = r.valid;
          reads = λ j e. r.reads j e ∙ ap (updated j rest) (one j k row p v);
        })
    | inr other ↦
        let r = update_task-Updated rest i p a.1 v in
        let skip : (j : ℕ) → part_of j ≡ i → j == k ≡ false =
          λ j e. ground (arith, ap part_of {x = j} {y = k}) in
        rw other (record { valid = r.valid; reads = λ j e. rw (skip j e) (r.reads j e) })
  ]
    where
      one :
          (j k : ℕ) (row : List ℕ) (p : Partition)
          → IsValid c p
          → view j (update_one k row p)
            ≡ (if j == k then Option.map (copy_n row) (view j p) else view j p)
      one j k row p v = elim (Bool-cases (j == k)) [
        | inl same ↦
            rw (same, view-update_one c p v k j row)
              (rw same (ap (λ n. Option.map (copy_n row) (view n p)) (sym ((==_iff j k).0 same))))
        | inr other ↦ rw (other, view-update_one c p v k j row) (rw other)
      ]

  module _ (parts : List Partition) (v : All (IsValid c) parts) (j : ℕ) where
    -- `erase`, in well-formed partitions, succeeds, keeps the invariant of every partition and removes
    -- exactly the keys of the batch.
    pub erase-view_at :
        (keys : List ℕ)
        → (parts' : List Partition) × (erase part_of keys parts ≡ ok parts')
          × All (IsValid c) parts'
          × (view_at part_of j parts' ≡ (if listed j keys then none else view_at part_of j parts))
    unfolding erase view_at
    erase-view_at keys =
        let (qs, run, e) =
          execute_each-Each (IsValid c) (Erased keys) (λ i p. some (erase_task part_of keys i p))
            (λ i p w. (erase_task part_of keys i p, refl, erase_task-Erased keys i p w)) 0 parts
            v in
        (
          qs,
          rw run,
          Each-All (IsValid c) (Erased keys) (λ i p q r. r.valid) 0 parts qs e,
          elim (Option-cases (get_elem? parts (part_of j))) [
            | inl f ↦
                rw (f, Each-none (Erased keys) 0 parts qs (part_of j) e f, view_at) (ground arith)
            | inr (p, f) ↦
                let (q, f', r) = Each-at (Erased keys) 0 parts qs (part_of j) p e f in
                rw (f, f', view_at) (r.reads j (omega arith))
          ],
        )

    -- `update` of rows that fit, in well-formed partitions, succeeds, keeps the invariant of every
    -- partition, writes the rows of the batch over the keys that are there, and adds no key.
    pub update-view_at :
        (k : ℕ) (ks : List ℕ) (stride size : ℕ) (values : List ℕ)
        → size ≤ c.max_value_size
        → (parts' : List Partition) × (update part_of c (k ∷ ks) stride size values parts
            ≡ ok parts')
          × All (IsValid c) parts'
          × (view_at part_of j parts'
              ≡ updated j (rows_from stride size values 0 (k ∷ ks)) (view_at part_of j parts))
    unfolding update view_at
    update-view_at k ks stride size values h =
        let rows = rows_from stride size values 0 (k ∷ ks) in
        let short : All (λ r. length r.1 ≤ c.max_value_size) rows =
          All-imp (λ r. length r.1 ≤ size) (λ r. length r.1 ≤ c.max_value_size) rows
            (λ r g. omega arith) (length-rows_from-le stride size values 0 (k ∷ ks)) in
        let (qs, run, e) =
          execute_each-Each (IsValid c) (Updated rows) (λ i p. some (update_task part_of rows i p))
            (λ i p w. (update_task part_of rows i p, refl, update_task-Updated rows i p short w)) 0
            parts v in
        let fits : leb size c.max_value_size ≡ true = ground arith in
        (
          qs,
          rw (fits, run),
          Each-All (IsValid c) (Updated rows) (λ i p q r. r.valid) 0 parts qs e,
          elim (Option-cases (get_elem? parts (part_of j))) [
            | inl f ↦
                rw (f, Each-none (Updated rows) 0 parts qs (part_of j) e f, view_at)
                  (sym (updated-none j rows))
            | inr (p, f) ↦
                let (q, f', r) = Each-at (Updated rows) 0 parts qs (part_of j) p e f in
                rw (f, f', view_at) (r.reads j (omega arith))
          ],
        )

-- The loop that cuts a buffer of no slots, and the pop that follows.
slots_per_buffer-zero : (c : Config) → c.allocation_rate < slot_stride c → slots_per_buffer c ≡ 0
unfolding slots_per_buffer
slots_per_buffer-zero c h = grind arith

-- Where the allocation rate is less than the stride of a slot, the first insert of any key into a new
-- partition with a positive overflow margin pops an empty free list.
pub insert_one_undefined :
    (c : Config) (alg : Algorithms) (now key : ℕ) (row : List ℕ)
    → c.allocation_rate < slot_stride c
    → 0 < c.overflow_margin
    → insert_one alg c now key row (empty c) ≡ none
unfolding insert_one empty relieve ensure_slot allocate carve place lookup
insert_one_undefined c alg now key row small margin = ground (arith, slots_per_buffer-zero c small)
