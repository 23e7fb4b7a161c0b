-- ===== src/StlTable/Table/Past.antt =====
-- The bits of the last word of a hit mask behind the batch, which `STLContainerTable::find_`
-- (include/stl_map_backed_table_detail.hpp) clips.
use nv_embedding_cache.Common.{
  ℕ, suc, ◌+◌, ◌-◌, ◌*◌, ◌/◌, ◌≤◌, ◌<◌, ◌≡◌, refl, ap, ◌∙◌, sym, arith, List, [], ◌∷◌, inl, inr,
  Bool, true, false, ◌||◌, ◌==◌, ==_iff, Bool-cases, length, get_or, get_or-set_self, All, subst,
}
use nv_embedding_cache.StlTable.Part.Defs.{Config, Partition}
use nv_embedding_cache.StlTable.Part.Invariant.{IsValid}
use nv_embedding_cache.StlTable.Table.Find.{
  Finding, join, find_word, find_words, find_parts, words_from, num_tasks_per_part,
}
use nv_embedding_cache.StlTable.Table.Lookup.{Looked, find_words-Looked}
use nv_embedding_cache.StlTable.Table.Hits.{visited, cell_at, probe_all-hits}
use nv_embedding_cache.StlTable.Table.Words.{
  missed, visited-missed, clip-past, join-at, words_from-lt,
}
use nv_embedding_cache.StlTable.Table.Walk.{
  HasShape, cell_of, walked, find_word-mask, find_word-HasShape, find_word-other,
}

either_self : (a : Bool) → a || a ≡ a
either_self true = refl
either_self false = refl

module _ (part_of : ℕ → ℕ) (c : Config) (now : ℕ) (with_values with_sizes : Bool) (keys : List ℕ)
    (num_bits size : ℕ) where
  find_word-past :
      (part_idx w j : ℕ) (s : Finding)
      → IsValid c s.part
      → HasShape num_bits size s.hit_mask
      → w < size
      → j < num_bits
      → length keys ≤ w * num_bits + j
      → cell_of num_bits w j
          (find_word part_of c now with_values with_sizes keys num_bits part_idx w s)
        ≡ cell_of num_bits w j s
  unfolding find_word
  find_word-past part_idx w j s v shape h g past =
      let mask = get_or s.hit_mask w [] in
      let i = w * num_bits in
      let left = length keys - i in
      let js = missed num_bits mask left in
      let after = walked part_of c now with_values with_sizes keys num_bits part_idx w s in
      let wide : j < length mask = omega (arith, shape.bits w h) in
      let unseen : visited j js ≡ false =
        visited-missed num_bits j left mask (shape.bits w h)
        ∙ clip-past mask left j (omega arith) in
      let same : cell_at i j after ≡ cell_at i j (mask, s) =
        probe_all-hits part_of c now with_values with_sizes keys part_idx i j js mask s v wide
        ∙ rw unseen refl in
      let bit : get_or
            (get_or
              (find_word part_of c now with_values with_sizes keys num_bits part_idx w s).hit_mask w
              [])
            j false
          ≡ get_or mask j false =
        ap (λ m. get_or (get_or m w []) j false)
          (find_word-mask part_of c now with_values with_sizes keys num_bits part_idx w s)
        ∙ ap (λ u. get_or u j false)
            (get_or-set_self s.hit_mask w (join mask after.0) [] (omega (arith, shape.words)))
        ∙ join-at mask after.0 j
        ∙ ap (λ z. get_or mask j false || z.0) same
        ∙ either_self (get_or mask j false) in
      ap (λ b. (b, after.1.values (i + j))) bit ∙ ap (λ z. (get_or mask j false, z.1)) same

  find_words-past :
      (part_idx : ℕ) (p : Partition) (rows : ℕ → List ℕ) (ws : List ℕ) (v j : ℕ) (s : Finding)
      → Looked part_of c now with_values with_sizes keys part_idx p rows s
      → HasShape num_bits size s.hit_mask
      → All (λ w. w < size) ws
      → j < num_bits
      → length keys ≤ v * num_bits + j
      → (HasShape num_bits size
          (find_words part_of c now with_values with_sizes keys num_bits part_idx ws s).hit_mask)
        × (cell_of num_bits v j
              (find_words part_of c now with_values with_sizes keys num_bits part_idx ws s)
            ≡ cell_of num_bits v j s)
  unfolding find_words
  find_words-past part_idx p rows [] v j s l shape a g past = (shape, refl)
  find_words-past part_idx p rows (w ∷ ws) v j s l shape a g past =
      let s' = find_word part_of c now with_values with_sizes keys num_bits part_idx w s in
      let l' =
        find_words-Looked part_of c now with_values with_sizes keys p rows num_bits part_idx
          (w ∷ []) s l in
      let (shape', rest) =
        find_words-past part_idx p rows ws v j s' l'
          (find_word-HasShape part_of c now with_values with_sizes keys num_bits size part_idx w s
            a.0 shape)
          a.1 g past in
      (
        shape',
        rest ∙ elim (Bool-cases (v == w)) [
          | inl e ↦
              let same : v ≡ w = (==_iff v w).0 e in
              ap
                (λ u.
                  cell_of num_bits v j
                    (find_word part_of c now with_values with_sizes keys num_bits part_idx u s))
                (sym same)
              ∙ find_word-past part_idx v j s l.valid shape (omega (arith, a.0, same)) g past
          | inr e ↦
              find_word-other part_of c now with_values with_sizes keys num_bits size part_idx w v j
                s shape a.0 g (λ q. ground (arith, q, e))
        ],
      )

  find_words-HasShape :
      (part_idx : ℕ) (ws : List ℕ) (s : Finding)
      → HasShape num_bits size s.hit_mask
      → All (λ w. w < size) ws
      → HasShape num_bits size
          (find_words part_of c now with_values with_sizes keys num_bits part_idx ws s).hit_mask
  unfolding find_words
  find_words-HasShape part_idx [] s shape a = shape
  find_words-HasShape part_idx (w ∷ ws) s shape a =
      find_words-HasShape part_idx ws
        (find_word part_of c now with_values with_sizes keys num_bits part_idx w s)
        (find_word-HasShape part_of c now with_values with_sizes keys num_bits size part_idx w s a.0
          shape)
        a.1

  -- The mask keeps its words and their width.
  pub find_parts-HasShape :
      (task_size parts i : ℕ) (ps : List Partition) (s : Finding)
      → size ≡ (length keys + num_bits - 1) / num_bits
      → 0 < size
      → HasShape num_bits size s.hit_mask
      → HasShape num_bits size
          (find_parts part_of c now with_values with_sizes keys num_bits task_size parts i ps
            s).1.hit_mask
  unfolding find_parts
  find_parts-HasShape task_size parts i [] s e some_word shape = shape
  find_parts-HasShape task_size parts i (p ∷ ps) s e some_word shape =
      let hm_size = (length keys + num_bits - 1) / num_bits in
      let words = words_from task_size hm_size parts i 0 (num_tasks_per_part task_size hm_size) in
      let below =
        subst (λ n. All (λ w. w < n) words) (sym e)
          (words_from-lt task_size hm_size parts i 0 (num_tasks_per_part task_size hm_size)
            (omega (arith, e, some_word))) in
      find_parts-HasShape task_size parts (suc i) ps
        (find_words part_of c now with_values with_sizes keys num_bits i words
          (record s { part = p }))
        e some_word (find_words-HasShape i words (record s { part = p }) shape below)

  -- A bit behind the batch stays as it is.
  pub find_parts-past :
      (task_size parts i v j : ℕ) (ps : List Partition) (s : Finding)
      → size ≡ (length keys + num_bits - 1) / num_bits
      → v < size
      → All (IsValid c) ps
      → HasShape num_bits size s.hit_mask
      → j < num_bits
      → length keys ≤ v * num_bits + j
      → (HasShape num_bits size
          (find_parts part_of c now with_values with_sizes keys num_bits task_size parts i ps
            s).1.hit_mask)
        × (cell_of num_bits v j
              (find_parts part_of c now with_values with_sizes keys num_bits task_size parts i ps
                s).1
            ≡ cell_of num_bits v j s)
  unfolding find_parts
  find_parts-past task_size parts i v j [] s e in_mask valid shape g past = (shape, refl)
  find_parts-past task_size parts i v j (p ∷ ps) s e in_mask valid shape g past =
      let hm_size = (length keys + num_bits - 1) / num_bits in
      let words = words_from task_size hm_size parts i 0 (num_tasks_per_part task_size hm_size) in
      let s' =
        find_words part_of c now with_values with_sizes keys num_bits i words
          (record s { part = p }) in
      let below =
        subst (λ n. All (λ w. w < n) words) (sym e)
          (words_from-lt task_size hm_size parts i 0 (num_tasks_per_part task_size hm_size)
            (omega (arith, e, in_mask))) in
      let (shape', seen) =
        find_words-past i p s.values words v j (record s { part = p })
          (record { valid = valid.0; same_views = λ k. refl; rows_found = λ y. inl refl }) shape
          below g past in
      let (shape'', rest) =
        find_parts-past task_size parts (suc i) v j ps s' e in_mask valid.1 shape' g past in
      (shape'', rest ∙ seen)
