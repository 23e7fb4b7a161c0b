-- ===== src/StlTable/Table/Reads.antt =====
-- `find` of `STLContainerTable` (include/stl_map_backed_table_detail.hpp) over all partitions.
use nv_embedding_cache.Common.{
  ℕ, suc, ◌+◌, ◌-◌, ◌≤◌, ◌≡◌, refl, ap, ◌∙◌, List, [], ◌∷◌, Option, none, some, arith, All,
  get_elem?, get_or, length, ◌⊎◌, inl, inr, Bool, ◌==◌, leb, true, Option-cases, Bool-cases, sym,
  ◌/◌,
}
use nv_embedding_cache.StlTable.Part.Defs.{Config, Partition}
use nv_embedding_cache.StlTable.Part.Invariant.{IsValid}
use nv_embedding_cache.StlTable.Part.View.{view}
use nv_embedding_cache.StlTable.Table.Find.{
  Finding, find_words, find_parts, find, words_from, num_tasks_per_part,
}
use nv_embedding_cache.StlTable.Table.Batch.{view_at, Each, Each-All, Each-at, Each-none}
use nv_embedding_cache.StlTable.Table.Lookup.{find_words-reads}

-- The value of a key in the partitions from number `i` on.
unfoldable pub view_from : (ℕ → ℕ) → ℕ → ℕ → List Partition → Option (List ℕ)
view_from part_of i k parts = elim (get_elem? parts (part_of k - i)) [
  | none ↦ none
  | some p ↦ view k p
]

-- A lookup changes no value.
record Read (c : Config) (i : ℕ) (p q : Partition) : Type 0 where
  valid : IsValid c q
  same_views : (k : ℕ) → view k q ≡ view k p

module _ (part_of : ℕ → ℕ) (c : Config) (now : ℕ) (with_values with_sizes : Bool) (keys : List ℕ)
    (num_bits : ℕ) where
  find_parts-Each :
      (task_size parts i : ℕ) (ps : List Partition) (s : Finding)
      → All (IsValid c) ps
      → Each
          (Read c)
          i
          ps
          (find_parts part_of c now with_values with_sizes keys num_bits task_size parts i ps s).0
  unfolding find_parts
  find_parts-Each task_size parts i [] s v = tt
  find_parts-Each task_size parts i (p ∷ ps) s v =
      let hm_size = (length keys + num_bits - 1) / num_bits in
      let words = words_from task_size hm_size parts i 0 (num_tasks_per_part task_size hm_size) in
      let s' =
        find_words part_of c now with_values with_sizes keys num_bits i words
          (record s { part = p }) in
      let (w, (same, _)) =
        find_words-reads part_of c now with_values with_sizes keys num_bits i words
          (record s { part = p }) v.0 in
      (record { valid = w; same_views = same }, find_parts-Each task_size parts (suc i) ps s' v.1)

  find_parts-rows :
      (task_size parts i : ℕ) (ps : List Partition) (s : Finding) (x : ℕ)
      → All (IsValid c) ps
      → ((find_parts part_of c now with_values with_sizes keys num_bits task_size parts i ps
              s).1.values
            x
          ≡ s.values x)
        ⊎ ((i ≤ part_of (get_or keys x 0))
            × (view_from part_of i (get_or keys x 0) ps
                ≡ some (
                    (find_parts part_of c now with_values with_sizes keys num_bits task_size parts i
                        ps s).1.values
                      x)))
  unfolding find_parts view_from
  find_parts-rows task_size parts i [] s x v = inl refl
  find_parts-rows task_size parts i (p ∷ ps) s x v =
      let key = get_or keys x 0 in
      let hm_size = (length keys + num_bits - 1) / num_bits in
      let words = words_from task_size hm_size parts i 0 (num_tasks_per_part task_size hm_size) in
      let s' =
        find_words part_of c now with_values with_sizes keys num_bits i words
          (record s { part = p }) in
      let (_, (_, rows)) =
        find_words-reads part_of c now with_values with_sizes keys num_bits i words
          (record s { part = p }) v.0 in
      elim (find_parts-rows task_size parts (suc i) ps s' x v.1) [
        | inl kept ↦ elim (rows x) [
          | inl old ↦ inl (kept ∙ old)
          | inr (own, row) ↦
              let here : part_of key - i ≡ 0 = omega (arith, own) in
              inr (omega (arith, own), rw (here, view_from) (row ∙ ap some (sym kept)))
        ]
        | inr (later, row) ↦
            let next : part_of key - i ≡ suc (part_of key - suc i) = omega arith in
            inr (omega arith, rw (next, view_from) row)
      ]

  -- `find` of a batch in well-formed partitions, with a stride that rows fit, succeeds whatever the hit
  -- mask is, keeps the partitions well formed, changes no key's value, and leaves in the output at each
  -- index the row that was there before or the value that the key at that index has in the table.
  pub find-reads :
      (task_size value_stride : ℕ) (parts : List Partition) (s : Finding)
      → c.max_value_size ≤ value_stride
      → All (IsValid c) parts
      → (parts' : List Partition) × (s' : Finding) × (find part_of c now with_values with_sizes keys
            num_bits task_size value_stride parts s
          ≡ some (parts', s'))
        × All (IsValid c) parts'
        × ((k : ℕ) → view_at part_of k parts' ≡ view_at part_of k parts)
        × ((x : ℕ)
            → (s'.values x ≡ s.values x)
              ⊎ (view_at part_of (get_or keys x 0) parts ≡ some (s'.values x)))
  unfolding find view_at view_from
  find-reads task_size value_stride parts s wide v = elim (Bool-cases (length keys == 0)) [
    | inl e ↦ (parts, s, rw e refl, v, λ k. refl, λ x. inl refl)
    | inr e ↦
        let fits : leb c.max_value_size value_stride ≡ true = ground arith in
        let out =
          find_parts part_of c now with_values with_sizes keys num_bits task_size (length parts) 0
            parts s in
        let each = find_parts-Each task_size (length parts) 0 parts s v in
        (
          out.0,
          out.1,
          rw (e, fits) refl,
          Each-All (IsValid c) (Read c) (λ i p q r. r.valid) 0 parts out.0 each,
          λ k. elim (Option-cases (get_elem? parts (part_of k))) [
            | inl f ↦ rw (f, Each-none (Read c) 0 parts out.0 (part_of k) each f, view_at)
            | inr (p, f) ↦
                let (q, f', r) = Each-at (Read c) 0 parts out.0 (part_of k) p each f in
                rw (f, f', view_at) (r.same_views k)
          ],
          λ x. elim (find_parts-rows task_size (length parts) 0 parts s x v) [
            | inl old ↦ inl old
            | inr (h, row) ↦ inr (whole (get_or keys x 0) ∙ row)
          ],
        )
  ]
    where
      whole : (k : ℕ) → view_at part_of k parts ≡ view_from part_of 0 k parts
      whole k =
          let none_less : part_of k ≡ part_of k - 0 = omega arith in
          ap (λ n. elim (get_elem? parts n) [ none ↦ none | some p ↦ view k p ]) none_less
