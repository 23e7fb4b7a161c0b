-- ===== src/StlTable/Table/Lookup.antt =====
-- What `STLContainerTable::find_` (include/stl_map_backed_table_detail.hpp) writes and what it leaves.
use nv_embedding_cache.Common.{
  ℕ, ◌+◌, ◌-◌, ◌*◌, ◌≡◌, refl, ap, ◌∙◌, sym, List, [], ◌∷◌, map, some, Option-cases, ◌⊎◌, inl, inr,
  Bool, true, false, not, ◌&&◌, ◌==◌, ==_iff, Bool-cases, if◌then◌else◌, length, get_or,
}
use nv_embedding_cache.StlTable.Part.Defs.{Config, Partition, find_one}
use nv_embedding_cache.StlTable.Part.Invariant.{IsValid, find_one-IsValid}
use nv_embedding_cache.StlTable.Part.View.{view, find_one-view, view-find_one}
use nv_embedding_cache.StlTable.Table.Find.{
  Word, Finding, visits, clip, probe, probe_all, find_word, find_words,
}

second_holds : (a b : Bool) → a && b ≡ true → b ≡ true
second_holds true b e = e
second_holds false b e = cc

module _ (part_of : ℕ → ℕ) (c : Config) (now : ℕ) (with_values with_sizes : Bool)
    (keys : List ℕ) where
  -- A state of the lookup, compared with the partition and the rows at its start.
  pub record Looked (part_idx : ℕ) (p : Partition) (rows : ℕ → List ℕ) (s : Finding) : Type 0 where
    pub valid : IsValid c s.part
    pub same_views : (k : ℕ) → view k s.part ≡ view k p
    pub rows_found :
        (x : ℕ)
        → (s.values x ≡ rows x)
          ⊎ ((part_of (get_or keys x 0) ≡ part_idx)
              × (view (get_or keys x 0) p ≡ some (s.values x)))

  hit-Looked :
      (part_idx : ℕ) (p : Partition) (rows : ℕ → List ℕ) (x : ℕ) (row : List ℕ) (s : Finding)
      (sizes : ℕ → ℕ)
      → part_of (get_or keys x 0) ≡ part_idx
      → Looked part_idx p rows s
      → (find_one c now (get_or keys x 0) s.part).0 ≡ some row
      → Looked part_idx p rows (record s {
        part = (find_one c now (get_or keys x 0) s.part).1;
        values = λ y. if with_values && (y == x) then row else s.values y;
        value_sizes = sizes;
      })
  hit-Looked part_idx p rows x row s sizes own l e =
      let key = get_or keys x 0 in
      record {
        valid = find_one-IsValid c now key s.part l.valid;
        same_views = λ k. view-find_one c s.part l.valid now key k ∙ l.same_views k;
        rows_found = λ y. elim (Bool-cases (with_values && (y == x))) [
          | inl q ↦
              let same : y ≡ x = (==_iff y x).0 (second_holds with_values (y == x) q) in
              rw q (
                inr (
                  ap (λ k. part_of (get_or keys k 0)) same ∙ own,
                  ap (λ k. view (get_or keys k 0) p) same
                      ∙ sym (l.same_views key)
                      ∙ sym (find_one-view c s.part l.valid now key)
                      ∙ e,
                ))
          | inr q ↦ rw q (l.rows_found y)
        ];
      }

  pub probe-Looked :
      (p : Partition) (rows : ℕ → List ℕ) (part_idx i j : ℕ) (mask : Word) (s : Finding)
      → Looked part_idx p rows s
      → Looked part_idx p rows
          (probe part_of c now with_values with_sizes keys part_idx i j (mask, s)).1
  unfolding probe
  probe-Looked p rows part_idx i j mask s l =
      let key = get_or keys (i + j) 0 in
      elim (Bool-cases (part_of key == part_idx)) [
        | inl e ↦ elim (Option-cases (find_one c now key s.part).0) [
          | inl n ↦ rw (e, n) l
          | inr (row, n) ↦
              rw (e, n)
                (hit-Looked part_idx p rows (i + j) row s _ ((==_iff (part_of key) part_idx).0 e) l
                  n)
        ]
        | inr e ↦ rw e l
      ]

  pub probe_all-Looked :
      (p : Partition) (rows : ℕ → List ℕ) (part_idx i : ℕ) (js : List ℕ) (mask : Word) (s : Finding)
      → Looked part_idx p rows s
      → Looked part_idx p rows
          (probe_all part_of c now with_values with_sizes keys part_idx i js (mask, s)).1
  unfolding probe_all
  probe_all-Looked p rows part_idx i [] mask s l = l
  probe_all-Looked p rows part_idx i (j ∷ js) mask s l =
      let after = probe part_of c now with_values with_sizes keys part_idx i j (mask, s) in
      probe_all-Looked p rows part_idx i js after.0 after.1
        (probe-Looked p rows part_idx i j mask s l)

  pub find_words-Looked :
      (p : Partition) (rows : ℕ → List ℕ) (num_bits part_idx : ℕ) (words : List ℕ) (s : Finding)
      → Looked part_idx p rows s
      → Looked part_idx p rows
          (find_words part_of c now with_values with_sizes keys num_bits part_idx words s)
  unfolding find_words find_word
  find_words-Looked p rows num_bits part_idx [] s l = l
  find_words-Looked p rows num_bits part_idx (w ∷ words) s l =
      let mask = get_or s.hit_mask w [] in
      let i = w * num_bits in
      let one =
        probe_all-Looked p rows part_idx i (visits num_bits (clip (map not mask) (length keys - i)))
          mask s l in
      find_words-Looked p rows num_bits part_idx words
        (find_word part_of c now with_values with_sizes keys num_bits part_idx w s)
        (record { valid = one.valid; same_views = one.same_views; rows_found = one.rows_found })

-- The words that a lookup walks in one well-formed partition, whatever the hit mask is: the partition
-- stays well formed, no key's value changes, and every row of the output is the one that was there
-- before or the value that the key at its index, a key of this partition, has in it.
pub find_words-reads :
    (part_of : ℕ → ℕ) (c : Config) (now : ℕ) (with_values with_sizes : Bool) (keys : List ℕ)
    (num_bits part_idx : ℕ) (words : List ℕ) (s : Finding)
    → IsValid c s.part
    → IsValid c
        (find_words part_of c now with_values with_sizes keys num_bits part_idx words s).part
      × (((k : ℕ)
            → view k
                (find_words part_of c now with_values with_sizes keys num_bits part_idx words
                  s).part
              ≡ view k s.part)
          × ((x : ℕ)
              → ((find_words part_of c now with_values with_sizes keys num_bits part_idx words
                      s).values
                    x
                  ≡ s.values x)
                ⊎ ((part_of (get_or keys x 0) ≡ part_idx)
                    × (view (get_or keys x 0) s.part
                        ≡ some (
                            (find_words part_of c now with_values with_sizes keys num_bits part_idx
                                words s).values
                              x)))))
find_words-reads part_of c now wv ws keys num_bits part_idx words s v =
    let l =
      find_words-Looked part_of c now wv ws keys s.part s.values num_bits part_idx words s
        (record { valid = v; same_views = λ k. refl; rows_found = λ x. inl refl }) in
    (l.valid, (l.same_views, l.rows_found))
