-- ===== src/StlTable/Table/Counter.antt =====
-- The counter of hits of `find` of `STLContainerTable` (include/stl_map_backed_table_detail.hpp).
use nv_embedding_cache.Common.{
  ℕ, zero, suc, ◌+◌, ◌-◌, ◌*◌, ◌/◌, ◌≤◌, ◌≡◌, refl, ap, ◌∙◌, arith, List, [], ◌∷◌, map, some,
  Option-cases, inl, inr, Bool, true, false, not, ◌||◌, ◌==◌, leb, Bool-cases, length, get_or, set,
  true-false,
}
use nv_embedding_cache.StlTable.Part.Defs.{Config, Partition, find_one}
use nv_embedding_cache.StlTable.Table.Find.{
  Word, Finding, count_bits, visits, clip, join, probe, probe_all, find_word, find_words,
  find_parts, find, words_from, num_tasks_per_part,
}

-- The set bits of a mask.
unfoldable pub set_bits : List Word → ℕ
set_bits [] = 0
set_bits (w ∷ ws) = count_bits w + set_bits ws

-- The bits of one word are set in another of the same width.
abbrev Below : Word → Word → Type 0
Below [] [] = Unit
Below [] (b ∷ w) = ⊥
Below (a ∷ v) [] = ⊥
Below (a ∷ v) (b ∷ w) = (a || b ≡ b) × Below v w

bit_self : (a : Bool) → a || a ≡ a
bit_self true = refl
bit_self false = refl

bit_true : (a : Bool) → a || true ≡ true
bit_true true = refl
bit_true false = refl

bit_trans : (a b d : Bool) → a || b ≡ b → b || d ≡ d → a || d ≡ d
bit_trans true true d h g = g
bit_trans true false d h g = cc
bit_trans false b d h g = refl

Below-self : (v : Word) → Below v v
Below-self [] = tt
Below-self (a ∷ v) = (bit_self a, Below-self v)

Below-set : (v : Word) (j : ℕ) → Below v (set v j true)
Below-set [] j = tt
Below-set (a ∷ v) zero = (bit_true a, Below-self v)
Below-set (a ∷ v) (suc j) = (bit_self a, Below-set v j)

Below-trans : (u v w : Word) → Below u v → Below v w → Below u w
Below-trans [] [] w h g = g
Below-trans [] (b ∷ v) w h g = absurd h
Below-trans (a ∷ u) [] w h g = absurd h
Below-trans (a ∷ u) (b ∷ v) [] h g = absurd g
Below-trans (a ∷ u) (b ∷ v) (d ∷ w) h g = (bit_trans a b d h.0 g.0, Below-trans u v w h.1 g.1)

join-Below : (v w : Word) → Below v w → join v w ≡ w
unfolding join
join-Below [] [] h = refl
join-Below [] (b ∷ w) h = absurd h
join-Below (a ∷ v) [] h = absurd h
join-Below (a ∷ v) (b ∷ w) h = rw (h.0, join-Below v w h.1) refl

count_bits-Below : (v w : Word) → Below v w → count_bits v ≤ count_bits w
unfolding count_bits
count_bits-Below [] [] h = omega arith
count_bits-Below [] (b ∷ w) h = absurd h
count_bits-Below (a ∷ v) [] h = absurd h
count_bits-Below (true ∷ v) (true ∷ w) h = omega (arith, count_bits-Below v w h.1)
count_bits-Below (true ∷ v) (false ∷ w) h = absurd (true-false h.0)
count_bits-Below (false ∷ v) (true ∷ w) h = omega (arith, count_bits-Below v w h.1)
count_bits-Below (false ∷ v) (false ∷ w) h = omega (arith, count_bits-Below v w h.1)

-- A word of the mask replaced by one that has its bits.
set_bits-set :
    (ws : List Word) (i : ℕ) (u : Word)
    → Below (get_or ws i []) u
    → set_bits (set ws i u) + count_bits (get_or ws i []) ≡ set_bits ws + count_bits u
unfolding set_bits count_bits
set_bits-set [] i [] h = refl
set_bits-set [] i (b ∷ u) h = absurd h
set_bits-set (w ∷ ws) zero u h = omega arith
set_bits-set (w ∷ ws) (suc i) u h = omega (arith, set_bits-set ws i u h)

-- The counter and the set bits grow alike.
abbrev Counts : Finding → Finding → Type 0
Counts s s' = s'.num_hits + set_bits s.hit_mask ≡ s.num_hits + set_bits s'.hit_mask

record Kept (mask : Word) (s : Finding) (out : Word × Finding) : Type 0 where
  below : Below mask out.0
  same_mask : out.1.hit_mask ≡ s.hit_mask
  same_hits : out.1.num_hits ≡ s.num_hits

module _ (part_of : ℕ → ℕ) (c : Config) (now : ℕ) (with_values with_sizes : Bool)
    (keys : List ℕ) where
  probe-Kept :
      (part_idx i j : ℕ) (mask : Word) (s : Finding)
      → Kept mask s (probe part_of c now with_values with_sizes keys part_idx i j (mask, s))
  unfolding probe
  probe-Kept part_idx i j mask s =
      let key = get_or keys (i + j) 0 in
      let same : Kept mask s (mask, s) = record {
        below = Below-self mask;
        same_mask = refl;
        same_hits = refl;
      } in
      elim (Bool-cases (part_of key == part_idx)) [
        | inl e ↦ elim (Option-cases (find_one c now key s.part).0) [
          | inl n ↦ rw (e, n) same
          | inr (row, n) ↦
              rw (e, n) (record { below = Below-set mask j; same_mask = refl; same_hits = refl })
        ]
        | inr e ↦ rw e same
      ]

  probe_all-Kept :
      (part_idx i : ℕ) (js : List ℕ) (mask : Word) (s : Finding)
      → Kept mask s (probe_all part_of c now with_values with_sizes keys part_idx i js (mask, s))
  unfolding probe_all
  probe_all-Kept part_idx i [] mask s = record {
    below = Below-self mask;
    same_mask = refl;
    same_hits = refl;
  }
  probe_all-Kept part_idx i (j ∷ js) mask s =
      let after = probe part_of c now with_values with_sizes keys part_idx i j (mask, s) in
      let one = probe-Kept part_idx i j mask s in
      let rest = probe_all-Kept part_idx i js after.0 after.1 in
      let out =
        probe_all part_of c now with_values with_sizes keys part_idx i js (after.0, after.1) in
      record {
        below = Below-trans mask after.0 out.0 one.below rest.below;
        same_mask = rest.same_mask ∙ one.same_mask;
        same_hits = rest.same_hits ∙ one.same_hits;
      }

  find_word-Counts :
      (num_bits part_idx w : ℕ) (s : Finding)
      → Counts s (find_word part_of c now with_values with_sizes keys num_bits part_idx w s)
  unfolding find_word
  find_word-Counts num_bits part_idx w s =
      let mask = get_or s.hit_mask w [] in
      let i = w * num_bits in
      let js = visits num_bits (clip (map not mask) (length keys - i)) in
      let after = probe_all part_of c now with_values with_sizes keys part_idx i js (mask, s) in
      let k = probe_all-Kept part_idx i js mask s in
      let joined = join-Below mask after.0 k.below in
      let more = count_bits-Below mask after.0 k.below in
      let total = set_bits-set s.hit_mask w after.0 k.below in
      let new : set_bits (set after.1.hit_mask w (join mask after.0))
          ≡ set_bits (set s.hit_mask w after.0) =
        ap (λ m. set_bits (set m w (join mask after.0))) k.same_mask
        ∙ ap (λ u. set_bits (set s.hit_mask w u)) joined in
      omega (arith, more, total, new, k.same_hits)

  find_words-Counts :
      (num_bits part_idx : ℕ) (ws : List ℕ) (s : Finding)
      → Counts s (find_words part_of c now with_values with_sizes keys num_bits part_idx ws s)
  unfolding find_words
  find_words-Counts num_bits part_idx [] s = refl
  find_words-Counts num_bits part_idx (w ∷ ws) s =
      let one = find_word-Counts num_bits part_idx w s in
      let rest =
        find_words-Counts num_bits part_idx ws
          (find_word part_of c now with_values with_sizes keys num_bits part_idx w s) in
      omega (arith, one, rest)

  find_parts-Counts :
      (num_bits task_size parts i : ℕ) (ps : List Partition) (s : Finding)
      → Counts s
          (find_parts part_of c now with_values with_sizes keys num_bits task_size parts i ps s).1
  unfolding find_parts
  find_parts-Counts num_bits task_size parts i [] s = refl
  find_parts-Counts num_bits task_size parts i (p ∷ ps) s =
      let hm_size = (length keys + num_bits - 1) / num_bits in
      let words = words_from task_size hm_size parts i 0 (num_tasks_per_part task_size hm_size) in
      let s' =
        find_words part_of c now with_values with_sizes keys num_bits i words
          (record s { part = p }) in
      let one = find_words-Counts num_bits i words (record s { part = p }) in
      let rest = find_parts-Counts num_bits task_size parts (suc i) ps s' in
      omega (arith, one, rest)

-- With a stride that rows fit, `find` returns, and its counter has grown by as many as the hit mask has
-- gained bits, whatever the hit mask, the counter and the partitions are.
pub find-counts :
    (part_of : ℕ → ℕ) (c : Config) (now : ℕ) (with_values with_sizes : Bool) (keys : List ℕ)
    (num_bits task_size value_stride : ℕ) (parts : List Partition) (s : Finding)
    → c.max_value_size ≤ value_stride
    → (parts' : List Partition) × (s' : Finding) × (find part_of c now with_values with_sizes keys
          num_bits task_size value_stride parts s
        ≡ some (parts', s'))
      × (s'.num_hits + set_bits s.hit_mask ≡ s.num_hits + set_bits s'.hit_mask)
unfolding find
find-counts part_of c now wv ws keys n task_size value_stride parts s wide =
    elim (Bool-cases (length keys == 0)) [
      | inl e ↦ (parts, s, rw e refl, refl)
      | inr e ↦
          let fits : leb c.max_value_size value_stride ≡ true = ground (arith, wide) in
          let out = find_parts part_of c now wv ws keys n task_size (length parts) 0 parts s in
          (
            out.0,
            out.1,
            rw (e, fits) refl,
            find_parts-Counts part_of c now wv ws keys n task_size (length parts) 0 parts s,
          )
    ]
