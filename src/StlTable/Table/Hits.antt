-- ===== src/StlTable/Table/Hits.antt =====
-- Which bits of a word `STLContainerTable::find_` (include/stl_map_backed_table_detail.hpp) sets, and
-- which rows it copies out with them.
use nv_embedding_cache.Common.{
  ℕ, ◌+◌, ◌<◌, ◌≡◌, refl, ◌∙◌, sym, arith, List, [], ◌∷◌, Option, none, some, Option-cases, inl,
  inr, Bool, true, false, ◌&&◌, ◌==◌, ==_iff, ==_self, Bool-cases, if◌then◌else◌, length,
  length-set, get_or, set, get_or-set_self, get_or-set_ne,
}
use nv_embedding_cache.StlTable.Part.Defs.{Config, Partition, find_one}
use nv_embedding_cache.StlTable.Part.Invariant.{IsValid}
use nv_embedding_cache.StlTable.Part.View.{view, find_one-view}
use nv_embedding_cache.StlTable.Table.Find.{Word, Finding, probe, probe_all}
use nv_embedding_cache.StlTable.Table.Lookup.{Looked, probe-Looked}

-- Is the position one of those that are visited?
unfoldable pub visited : ℕ → List ℕ → Bool
visited j [] = false
visited j (k ∷ ks) = let rest = visited j ks in if j == k then true else rest

-- A bit of the mask with the row at its index, and what a hit makes of them.
unfoldable pub effect : Bool → Option (List ℕ) → Bool × List ℕ → Bool × List ℕ
effect with_values none cell = cell
effect true (some row) cell = (true, row)
effect false (some row) cell = (true, cell.1)

effect-twice :
    (with_values : Bool) (hit : Option (List ℕ)) (cell : Bool × List ℕ)
    → effect with_values hit (effect with_values hit cell) ≡ effect with_values hit cell
unfolding effect
effect-twice with_values none cell = refl
effect-twice true (some row) cell = refl
effect-twice false (some row) cell = refl

copied :
    (with_values old_bit : Bool) (row old : List ℕ)
    → (true, if with_values && true then row else old)
      ≡ effect with_values (some row) (old_bit, old)
unfolding effect
copied true old_bit row old = refl
copied false old_bit row old = refl

never_copied :
    (with_values : Bool) (row old : List ℕ) → (if with_values && false then row else old) ≡ old
never_copied true row old = refl
never_copied false row old = refl

-- The row that the partition has for the key at an index, if the key is one of its keys.
unfoldable pub hit_at : (ℕ → ℕ) → List ℕ → Partition → ℕ → ℕ → Option (List ℕ)
hit_at part_of keys p part_idx x =
    if part_of (get_or keys x 0) == part_idx then view (get_or keys x 0) p else none

abbrev pub cell_at : ℕ → ℕ → Word × Finding → Bool × List ℕ
cell_at i j (mask, s) = (get_or mask j false, s.values (i + j))

module _ (part_of : ℕ → ℕ) (c : Config) (now : ℕ) (with_values with_sizes : Bool)
    (keys : List ℕ) where
  probe-cell :
      (p : Partition) (rows : ℕ → List ℕ) (part_idx i j k : ℕ) (mask : Word) (s : Finding)
      → Looked part_of c now with_values with_sizes keys part_idx p rows s
      → j < length mask
      → cell_at i j (probe part_of c now with_values with_sizes keys part_idx i k (mask, s)) ≡ (
          if j == k
          then effect with_values (hit_at part_of keys p part_idx (i + j)) (cell_at i j (mask, s))
          else cell_at i j (mask, s))
  unfolding probe effect hit_at
  probe-cell p rows part_idx i j k mask s l h =
      let key = get_or keys (i + k) 0 in
      let seen = find_one-view c s.part l.valid now key ∙ l.same_views key in
      elim (Bool-cases (j == k)) [
        | inl q ↦
            let same : j ≡ k = (==_iff j k).0 q in
            elim (Bool-cases (part_of key == part_idx)) [
              | inl e ↦ elim (Option-cases (find_one c now key s.part).0) [
                | inl n ↦
                    let lost : view key p ≡ none = sym seen ∙ n in rw (q, same, e, n, lost) refl
                | inr (row, n) ↦
                    let got : view key p ≡ some row = sym seen ∙ n in
                    let bit : get_or (set mask k true) k false ≡ true =
                      get_or-set_self mask k true false (omega (arith, same)) in
                    rw (q, same, e, n, got, bit, ==_self (i + k))
                      (copied with_values (get_or mask k false) row (s.values (i + k)))
              ]
              | inr e ↦ rw (q, same, e) refl
            ]
        | inr q ↦ elim (Bool-cases (part_of key == part_idx)) [
          | inl e ↦ elim (Option-cases (find_one c now key s.part).0) [
            | inl n ↦ rw (q, e, n) refl
            | inr (row, n) ↦
                let bit : get_or (set mask k true) j false ≡ get_or mask j false =
                  get_or-set_ne mask k j true false (λ w. ground (arith, w, q)) in
                let apart : i + j == i + k ≡ false = ground (arith, q) in
                rw (q, e, n, bit, apart, never_copied with_values row (s.values (i + j))) refl
          ]
          | inr e ↦ rw (q, e) refl
        ]
      ]

  pub length-probe :
      (part_idx i k : ℕ) (mask : Word) (s : Finding)
      → length (probe part_of c now with_values with_sizes keys part_idx i k (mask, s)).0
        ≡ length mask
  unfolding probe
  length-probe part_idx i k mask s =
      let key = get_or keys (i + k) 0 in
      elim (Bool-cases (part_of key == part_idx)) [
        | inl e ↦ elim (Option-cases (find_one c now key s.part).0) [
          | inl n ↦ rw (e, n) refl
          | inr (row, n) ↦ rw (e, n) (length-set mask k true)
        ]
        | inr e ↦ rw e refl
      ]

  pub probe_all-cell :
      (p : Partition) (rows : ℕ → List ℕ) (part_idx i j : ℕ) (ks : List ℕ) (mask : Word)
      (s : Finding)
      → Looked part_of c now with_values with_sizes keys part_idx p rows s
      → j < length mask
      → cell_at i j (probe_all part_of c now with_values with_sizes keys part_idx i ks (mask, s))
        ≡ (if visited j ks
            then effect with_values (hit_at part_of keys p part_idx (i + j)) (cell_at i j (mask, s))
            else cell_at i j (mask, s))
  unfolding probe_all visited
  probe_all-cell p rows part_idx i j [] mask s l h = refl
  probe_all-cell p rows part_idx i j (k ∷ ks) mask s l h =
      let after = probe part_of c now with_values with_sizes keys part_idx i k (mask, s) in
      let hit = hit_at part_of keys p part_idx (i + j) in
      let cell = cell_at i j (mask, s) in
      let one = probe-cell p rows part_idx i j k mask s l h in
      let rest =
        probe_all-cell p rows part_idx i j ks after.0 after.1
          (probe-Looked part_of c now with_values with_sizes keys p rows part_idx i k mask s l)
          (omega (arith, length-probe part_idx i k mask s)) in
      rest ∙ elim (Bool-cases (j == k)) [
        | inl q ↦
            let here : cell_at i j after ≡ effect with_values hit cell = one ∙ rw q refl in
            elim (Bool-cases (visited j ks)) [
              | inl v ↦ rw (q, v, here) (effect-twice with_values hit cell)
              | inr v ↦ rw (q, v, here) refl
            ]
        | inr q ↦ let here : cell_at i j after ≡ cell = one ∙ rw q refl in rw (q, here) refl
      ]

-- What the loop over the positions of a word makes of each bit and of the row at its index.
pub probe_all-hits :
    (part_of : ℕ → ℕ) (c : Config) (now : ℕ) (with_values with_sizes : Bool) (keys : List ℕ)
    (part_idx i j : ℕ) (ks : List ℕ) (mask : Word) (s : Finding)
    → IsValid c s.part
    → j < length mask
    → cell_at i j (probe_all part_of c now with_values with_sizes keys part_idx i ks (mask, s)) ≡ (
        if visited j ks
        then effect with_values
            (hit_at part_of keys s.part part_idx (i + j))
            (cell_at i j (mask, s))
        else cell_at i j (mask, s))
probe_all-hits part_of c now wv ws keys part_idx i j ks mask s v h =
    probe_all-cell part_of c now wv ws keys s.part s.values part_idx i j ks mask s
      (record { valid = v; same_views = λ k. refl; rows_found = λ x. inl refl }) h
