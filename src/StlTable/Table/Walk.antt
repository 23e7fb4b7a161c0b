-- ===== src/StlTable/Table/Walk.antt =====
-- One partition's walk over the words of a hit mask in `STLContainerTable::find_`
-- (include/stl_map_backed_table_detail.hpp): what becomes of each bit and of the row at its index.
use native.Mathlib.Nat.{mul-le-mul_right}
use nv_embedding_cache.Common.{
  ℕ, suc, ◌+◌, ◌-◌, ◌*◌, ◌≤◌, ◌<◌, ◌≡◌, ◌≢◌, refl, ap, ◌∙◌, sym, arith, List, [], ◌∷◌, map,
  Option-cases, inl, inr, Bool, true, false, not, ◌||◌, ◌==◌, ==_iff, ==_self, ltb, Bool-cases,
  length, length-set, get_or, set, get_or-set_self, get_or-set_ne,
}
use nv_embedding_cache.StlTable.Part.Defs.{Config, find_one}
use nv_embedding_cache.StlTable.Part.Invariant.{IsValid}
use nv_embedding_cache.StlTable.Table.Find.{Word, Finding, clip, join, probe, probe_all, find_word}
use nv_embedding_cache.StlTable.Table.Hits.{
  visited, effect, hit_at, cell_at, probe_all-hits, length-probe,
}
use nv_embedding_cache.StlTable.Table.Words.{
  touch, missed, visited-missed, clip-at, length-clip, get_or-lt, join-at, length-join,
}

-- A hit mask of `size` words, `n` bits wide.
pub record HasShape (n size : ℕ) (hit_mask : List Word) : Type 0 where
  pub words : length hit_mask ≡ size
  pub bits : (w : ℕ) → w < size → length (get_or hit_mask w []) ≡ n

-- The bit of a key's index `w * n + j`, with the row at that index.
abbrev pub cell_of : ℕ → ℕ → ℕ → Finding → Bool × List ℕ
cell_of n w j s = (get_or (get_or s.hit_mask w []) j false, s.values (w * n + j))

other_word : (v w n j k : ℕ) → j < n → k < n → v ≢ w → v * n + j ≢ w * n + k
other_word v w n j k h g d e = elim (Bool-cases (ltb v w)) [
  | inl lt ↦
      let step : suc v * n ≤ w * n = mul-le-mul_right n (ground arith) in
      let one : suc v * n ≡ v * n + n = grind arith in omega (arith, one, step, e, h, g)
  | inr ge ↦
      let less : w < v = ground (arith, d, ge) in
      let step : suc w * n ≤ v * n = mul-le-mul_right n (omega (arith, less)) in
      let one : suc w * n ≡ w * n + n = grind arith in omega (arith, one, step, e, h, g)
]

module _ (part_of : ℕ → ℕ) (c : Config) (now : ℕ) (with_values with_sizes : Bool)
    (keys : List ℕ) where
  length-probe_all :
      (part_idx i : ℕ) (js : List ℕ) (mask : Word) (s : Finding)
      → length (probe_all part_of c now with_values with_sizes keys part_idx i js (mask, s)).0
        ≡ length mask
  unfolding probe_all
  length-probe_all part_idx i [] mask s = refl
  length-probe_all part_idx i (j ∷ js) mask s =
      let after = probe part_of c now with_values with_sizes keys part_idx i j (mask, s) in
      length-probe_all part_idx i js after.0 after.1
      ∙ length-probe part_of c now with_values with_sizes keys part_idx i j mask s

  probe-mask :
      (part_idx i j : ℕ) (mask : Word) (s : Finding)
      → (probe part_of c now with_values with_sizes keys part_idx i j (mask, s)).1.hit_mask
        ≡ s.hit_mask
  unfolding probe
  probe-mask part_idx i j mask s =
      let key = get_or keys (i + j) 0 in
      elim (Bool-cases (part_of key == part_idx)) [
        | inl e ↦ elim (Option-cases (find_one c now key s.part).0) [
          | inl n ↦ rw (e, n) refl
          | inr (row, n) ↦ rw (e, n) refl
        ]
        | inr e ↦ rw e refl
      ]

  probe_all-mask :
      (part_idx i : ℕ) (js : List ℕ) (mask : Word) (s : Finding)
      → (probe_all part_of c now with_values with_sizes keys part_idx i js (mask, s)).1.hit_mask
        ≡ s.hit_mask
  unfolding probe_all
  probe_all-mask part_idx i [] mask s = refl
  probe_all-mask part_idx i (j ∷ js) mask s =
      let after = probe part_of c now with_values with_sizes keys part_idx i j (mask, s) in
      probe_all-mask part_idx i js after.0 after.1 ∙ probe-mask part_idx i j mask s

  -- Rows at other indices stay.
  probe-elsewhere :
      (part_idx i j y : ℕ) (mask : Word) (s : Finding)
      → y ≢ i + j
      → (probe part_of c now with_values with_sizes keys part_idx i j (mask, s)).1.values y
        ≡ s.values y
  unfolding probe
  probe-elsewhere part_idx i j y mask s d =
      let key = get_or keys (i + j) 0 in
      let apart : y == i + j ≡ false = ground (arith, d) in
      elim (Bool-cases (part_of key == part_idx)) [
        | inl e ↦ elim (Option-cases (find_one c now key s.part).0) [
          | inl n ↦ rw (e, n) refl
          | inr (row, n) ↦ elim (Bool-cases with_values) [
            | inl o ↦ rw (e, n, o, apart) refl
            | inr o ↦ rw (e, n, o) refl
          ]
        ]
        | inr e ↦ rw e refl
      ]

  probe_all-elsewhere :
      (part_idx i y : ℕ) (js : List ℕ) (mask : Word) (s : Finding)
      → ((k : ℕ) → visited k js ≡ true → y ≢ i + k)
      → (probe_all part_of c now with_values with_sizes keys part_idx i js (mask, s)).1.values y
        ≡ s.values y
  unfolding probe_all visited
  probe_all-elsewhere part_idx i y [] mask s d = refl
  probe_all-elsewhere part_idx i y (j ∷ js) mask s d =
      let after = probe part_of c now with_values with_sizes keys part_idx i j (mask, s) in
      probe_all-elsewhere part_idx i y js after.0 after.1
        (λ k v. d k (elim (Bool-cases (k == j)) [ inl e ↦ rw e refl | inr e ↦ rw e v ]))
      ∙ probe-elsewhere part_idx i j y mask s (d j (rw (==_self j) refl))

  -- The loop over the positions of a word.
  abbrev pub walked : ℕ → ℕ → ℕ → Finding → Word × Finding
  walked num_bits part_idx w s =
      let mask = get_or s.hit_mask w [] in
      probe_all part_of c now with_values with_sizes keys part_idx (w * num_bits)
        (missed num_bits mask (length keys - w * num_bits)) (mask, s)

  pub find_word-mask :
      (num_bits part_idx w : ℕ) (s : Finding)
      → (find_word part_of c now with_values with_sizes keys num_bits part_idx w s).hit_mask
        ≡ set s.hit_mask w (join (get_or s.hit_mask w []) (walked num_bits part_idx w s).0)
  unfolding find_word
  find_word-mask num_bits part_idx w s =
      let mask = get_or s.hit_mask w [] in
      ap (λ m. set m w (join mask (walked num_bits part_idx w s).0))
        (probe_all-mask part_idx (w * num_bits) (missed num_bits mask (length keys - w * num_bits))
          mask s)

  module _ (num_bits size part_idx : ℕ) where
    pub find_word-HasShape :
        (w : ℕ) (s : Finding)
        → w < size
        → HasShape num_bits size s.hit_mask
        → HasShape num_bits size
            (find_word part_of c now with_values with_sizes keys num_bits part_idx w s).hit_mask
    find_word-HasShape w s h shape =
        let mask = get_or s.hit_mask w [] in
        let i = w * num_bits in
        let js = missed num_bits mask (length keys - i) in
        let after = walked num_bits part_idx w s in
        let new = join mask after.0 in
        let out = find_word-mask num_bits part_idx w s in
        record {
          words = ap length out ∙ length-set s.hit_mask w new ∙ shape.words;
          bits = λ v g. elim (Bool-cases (w == v)) [
            | inl e ↦
                let same : v ≡ w = sym ((==_iff w v).0 e) in
                ap (λ m. length (get_or m v [])) out
                ∙ ap length (
                    ap (λ u. get_or (set s.hit_mask w new) u []) same
                    ∙ get_or-set_self s.hit_mask w new [] (omega (arith, shape.words)))
                ∙ length-join mask after.0 (length-probe_all part_idx i js mask s)
                ∙ shape.bits w h
            | inr e ↦
                ap (λ m. length (get_or m v [])) out
                ∙ ap length (get_or-set_ne s.hit_mask w v new [] (λ q. ground (arith, q, e)))
                ∙ shape.bits v g
          ];
        }

    pub find_word-cell :
        (w j : ℕ) (s : Finding)
        → IsValid c s.part
        → HasShape num_bits size s.hit_mask
        → w < size
        → j < num_bits
        → w * num_bits + j < length keys
        → cell_of num_bits w j
            (find_word part_of c now with_values with_sizes keys num_bits part_idx w s)
          ≡ touch with_values
              (hit_at part_of keys s.part part_idx (w * num_bits + j))
              (cell_of num_bits w j s)
    unfolding find_word touch
    find_word-cell w j s v shape h g left =
        let mask = get_or s.hit_mask w [] in
        let i = w * num_bits in
        let js = missed num_bits mask (length keys - i) in
        let after = walked num_bits part_idx w s in
        let hit = hit_at part_of keys s.part part_idx (i + j) in
        let wide : j < length mask = omega (arith, shape.bits w h) in
        let seen : visited j js ≡ not (get_or mask j false) =
          visited-missed num_bits j (length keys - i) mask (shape.bits w h)
          ∙ clip-at mask (length keys - i) j wide (omega arith) in
        let cell =
          probe_all-hits part_of c now with_values with_sizes keys part_idx i j js mask s v wide in
        let bit : get_or
              (get_or
                (find_word part_of c now with_values with_sizes keys num_bits part_idx w s).hit_mask
                w [])
              j false
            ≡ get_or mask j false || get_or after.0 j false =
          ap (λ m. get_or (get_or m w []) j false) (find_word-mask num_bits part_idx w s)
          ∙ ap (λ u. get_or u j false)
              (get_or-set_self s.hit_mask w (join mask after.0) [] (omega (arith, shape.words)))
          ∙ join-at mask after.0 j in
        let joined : cell_of num_bits w j
              (find_word part_of c now with_values with_sizes keys num_bits part_idx w s)
            ≡ (get_or mask j false || get_or after.0 j false, after.1.values (i + j)) =
          ap (λ b. (b, after.1.values (i + j))) bit in
        elim (Bool-cases (get_or mask j false)) [
          | inl e ↦
              let stays : cell_at i j after ≡ cell_at i j (mask, s) = cell ∙ rw (seen, e) refl in
              joined ∙ rw e (ap (λ z. (true, z.1)) stays)
          | inr e ↦
              let moves : cell_at i j after ≡ effect with_values hit (cell_at i j (mask, s)) =
                cell ∙ rw (seen, e) refl in
              joined ∙ rw e (moves ∙ rw e refl)
        ]

    pub find_word-other :
        (w v j : ℕ) (s : Finding)
        → HasShape num_bits size s.hit_mask
        → w < size
        → j < num_bits
        → v ≢ w
        → cell_of num_bits v j
            (find_word part_of c now with_values with_sizes keys num_bits part_idx w s)
          ≡ cell_of num_bits v j s
    unfolding find_word
    find_word-other w v j s shape h g d =
        let mask = get_or s.hit_mask w [] in
        let i = w * num_bits in
        let left = length keys - i in
        let js = missed num_bits mask left in
        let after = walked num_bits part_idx w s in
        let row : after.1.values (v * num_bits + j) ≡ s.values (v * num_bits + j) =
          probe_all-elsewhere part_idx i (v * num_bits + j) js mask s (λ k seen.
            let bound =
              get_or-lt (clip (map not mask) left) k
                (sym (visited-missed num_bits k left mask (shape.bits w h)) ∙ seen) in
            other_word v w num_bits j k g
              (omega (arith, bound, length-clip mask left, shape.bits w h)) d) in
        let bit : get_or
              (get_or
                (find_word part_of c now with_values with_sizes keys num_bits part_idx w s).hit_mask
                v [])
              j false
            ≡ get_or (get_or s.hit_mask v []) j false =
          ap (λ m. get_or (get_or m v []) j false) (find_word-mask num_bits part_idx w s)
          ∙ ap (λ u. get_or u j false)
              (get_or-set_ne s.hit_mask w v (join mask after.0) [] (λ q. d (sym q))) in
        ap (λ b. (b, after.1.values (v * num_bits + j))) bit
        ∙ ap (λ r. (get_or (get_or s.hit_mask v []) j false, r)) row
