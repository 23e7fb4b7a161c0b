-- ===== src/StlTable/Table/Answers.antt =====
-- `find` of `STLContainerTable` (include/stl_map_backed_table_detail.hpp) over the words of all
-- partitions: every key of the batch is answered.
use native.Mathlib.Nat.{mod-lt, div-add-mod', le-div_iff_mul-le}
use nv_embedding_cache.Common.{
  ℕ, suc, ◌+◌, ◌-◌, ◌*◌, ◌/◌, ◌%◌, ◌≤◌, ◌<◌, ◌≡◌, refl, ap, ◌∙◌, sym, arith, List, [], ◌∷◌, none,
  some, inl, inr, Bool, true, false, ◌==◌, ==_iff, leb, Bool-cases, if◌then◌else◌, length, get_or,
  All, subst,
}
use nv_embedding_cache.StlTable.Part.Defs.{Config, Partition}
use nv_embedding_cache.StlTable.Part.Invariant.{IsValid}
use nv_embedding_cache.StlTable.Part.View.{view}
use nv_embedding_cache.StlTable.Table.Find.{
  Finding, find_word, find_words, find_parts, find, words_from, num_tasks_per_part,
}
use nv_embedding_cache.StlTable.Table.Batch.{view_at}
use nv_embedding_cache.StlTable.Table.Scan.{words_from-once}
use nv_embedding_cache.StlTable.Table.Lookup.{Looked, find_words-Looked}
use nv_embedding_cache.StlTable.Table.Reads.{view_from}
use nv_embedding_cache.StlTable.Table.Hits.{visited, hit_at}
use nv_embedding_cache.StlTable.Table.Words.{
  visited-count, words_from-lt, touch, touch-none, touch-twice,
}
use nv_embedding_cache.StlTable.Table.Walk.{
  HasShape, cell_of, find_word-HasShape, find_word-cell, find_word-other,
}

module _ (part_of : ℕ → ℕ) (c : Config) (now : ℕ) (with_values with_sizes : Bool) (keys : List ℕ)
    (num_bits size : ℕ) where
  same_hit :
      (part_idx x : ℕ) (p q : Partition)
      → ((k : ℕ) → view k q ≡ view k p)
      → hit_at part_of keys q part_idx x ≡ hit_at part_of keys p part_idx x
  unfolding hit_at
  same_hit part_idx x p q same = elim (Bool-cases (part_of (get_or keys x 0) == part_idx)) [
    | inl e ↦ rw e (same (get_or keys x 0))
    | inr e ↦ rw e refl
  ]

  -- The words of one partition, seen at the index `v * num_bits + j`.
  find_words-cell :
      (part_idx : ℕ) (p : Partition) (rows : ℕ → List ℕ) (ws : List ℕ) (v j : ℕ) (s : Finding)
      → Looked part_of c now with_values with_sizes keys part_idx p rows s
      → HasShape num_bits size s.hit_mask
      → All (λ w. w < size) ws
      → j < num_bits
      → v * num_bits + j < length keys
      → (HasShape num_bits size
          (find_words part_of c now with_values with_sizes keys num_bits part_idx ws s).hit_mask)
        × (cell_of num_bits v j
              (find_words part_of c now with_values with_sizes keys num_bits part_idx ws s)
            ≡ (if visited v ws
                then touch with_values
                    (hit_at part_of keys p part_idx (v * num_bits + j))
                    (cell_of num_bits v j s)
                else cell_of num_bits v j s))
  unfolding find_words visited
  find_words-cell part_idx p rows [] v j s l shape a g left = (shape, refl)
  find_words-cell part_idx p rows (w ∷ ws) v j s l shape a g left =
      let x = v * num_bits + j in
      let hit = hit_at part_of keys p part_idx x in
      let s' = find_word part_of c now with_values with_sizes keys num_bits part_idx w s in
      let l' =
        find_words-Looked part_of c now with_values with_sizes keys p rows num_bits part_idx
          (w ∷ []) s l in
      let (shape', rest) =
        find_words-cell part_idx p rows ws v j s' l'
          (find_word-HasShape part_of c now with_values with_sizes keys num_bits size part_idx w s
            a.0 shape)
          a.1 g left in
      (
        shape',
        rest ∙ elim (Bool-cases (v == w)) [
          | inl e ↦
              let same : v ≡ w = (==_iff v w).0 e in
              let here : cell_of num_bits v j s' ≡ touch with_values hit (cell_of num_bits v j s) =
                ap
                  (λ u.
                    cell_of num_bits v j
                      (find_word part_of c now with_values with_sizes keys num_bits part_idx u s))
                  (sym same)
                ∙ find_word-cell part_of c now with_values with_sizes keys num_bits size part_idx v
                    j s l.valid shape (omega (arith, a.0, same)) g left
                ∙ ap (λ o. touch with_values o (cell_of num_bits v j s))
                    (same_hit part_idx x p s.part l.same_views) in
              elim (Bool-cases (visited v ws)) [
                | inl o ↦ rw (e, o, here) (touch-twice with_values hit (cell_of num_bits v j s))
                | inr o ↦ rw (e, o, here) refl
              ]
          | inr e ↦
              let other : cell_of num_bits v j s' ≡ cell_of num_bits v j s =
                find_word-other part_of c now with_values with_sizes keys num_bits size part_idx w v
                  j s shape a.0 g (λ q. ground (arith, q, e)) in
              rw (e, other) refl
        ],
      )

  -- All partitions from number `i` on.
  find_parts-cell :
      (task_size parts i v j : ℕ) (ps : List Partition) (s : Finding)
      → 0 < task_size
      → size ≡ (length keys + num_bits - 1) / num_bits
      → v < size
      → All (IsValid c) ps
      → HasShape num_bits size s.hit_mask
      → j < num_bits
      → v * num_bits + j < length keys
      → cell_of num_bits v j
          (find_parts part_of c now with_values with_sizes keys num_bits task_size parts i ps s).1
        ≡ touch with_values
            (if leb i (part_of (get_or keys (v * num_bits + j) 0))
              then view_from part_of i (get_or keys (v * num_bits + j) 0) ps
              else none)
            (cell_of num_bits v j s)
  unfolding find_parts view_from hit_at
  find_parts-cell task_size parts i v j [] s some_task e in_mask valid shape g left =
      let key = get_or keys (v * num_bits + j) 0 in
      elim (Bool-cases (leb i (part_of key))) [
        | inl o ↦ rw o (sym (touch-none with_values (cell_of num_bits v j s)))
        | inr o ↦ rw o (sym (touch-none with_values (cell_of num_bits v j s)))
      ]
  find_parts-cell task_size parts i v j (p ∷ ps) s some_task e in_mask valid shape g left =
      let x = v * num_bits + j in
      let key = get_or keys x 0 in
      let hm_size = (length keys + num_bits - 1) / num_bits in
      let words = words_from task_size hm_size parts i 0 (num_tasks_per_part task_size hm_size) in
      let s' =
        find_words part_of c now with_values with_sizes keys num_bits i words
          (record s { part = p }) in
      let (shape', seen) =
        find_words-cell i p s.values words v j (record s { part = p })
          (record { valid = valid.0; same_views = λ k. refl; rows_found = λ y. inl refl }) shape
          (subst (λ n. All (λ w. w < n) words) (sym e)
            (words_from-lt task_size hm_size parts i 0 (num_tasks_per_part task_size hm_size)
              (omega (arith, e, in_mask))))
          g left in
      let once : visited v words ≡ true =
        visited-count v words
          (words_from-once task_size hm_size parts i v some_task (omega (arith, e, in_mask))) in
      let here : cell_of num_bits v j s'
          ≡ touch with_values (hit_at part_of keys p i x) (cell_of num_bits v j s) =
        seen ∙ rw once refl in
      let rest =
        find_parts-cell task_size parts (suc i) v j ps s' some_task e in_mask valid.1 shape' g
          left in
      rest ∙ elim (Bool-cases (part_of key == i)) [
        | inl own ↦
            let first : part_of key - i ≡ 0 = ground arith in
            let now_here : leb i (part_of key) ≡ true = ground arith in
            let no_more : leb (suc i) (part_of key) ≡ false = ground arith in
            rw (no_more, now_here, first, view_from)
              (touch-none with_values (cell_of num_bits v j s') ∙ here ∙ rw own refl)
        | inr own ↦
            let not_here : cell_of num_bits v j s' ≡ cell_of num_bits v j s =
              here ∙ rw own (touch-none with_values (cell_of num_bits v j s)) in
            elim (Bool-cases (leb (suc i) (part_of key))) [
              | inl later ↦
                  let from_here : leb i (part_of key) ≡ true = ground arith in
                  let next : part_of key - i ≡ suc (part_of key - suc i) = ground arith in
                  rw (later, from_here, next, not_here, view_from) refl
              | inr before ↦
                  let passed : leb i (part_of key) ≡ false = ground (arith, own, before) in
                  rw (before, passed, not_here, view_from) refl
            ]
      ]

view_from-first :
    (part_of : ℕ → ℕ) (key : ℕ) (parts : List Partition)
    → (if leb 0 (part_of key) then view_from part_of 0 key parts else none)
      ≡ view_at part_of key parts
unfolding view_from view_at
view_from-first part_of key parts =
    let all : leb 0 (part_of key) ≡ true = ground arith in
    let start : part_of key - 0 ≡ part_of key = omega arith in
    rw (all, view_from, view_at, start) refl

-- The bit of the key at index `x`, with the row at that index.
unfoldable pub answer : ℕ → ℕ → Finding → Bool × List ℕ
answer num_bits x s =
    (get_or (get_or s.hit_mask (x / num_bits) []) (x % num_bits) false, s.values x)

-- `find` of a batch in well-formed partitions, with a stride that rows fit, a hit mask of as many words
-- of a positive width as the batch needs, and a positive task size, succeeds and answers every key: a key whose bit was set
-- keeps its row; any other key that the table has gets its bit and, if values are asked for, its row;
-- and a key that the table does not have keeps both.
pub find-hits :
    (part_of : ℕ → ℕ) (c : Config) (now : ℕ) (with_values with_sizes : Bool) (keys : List ℕ)
    (num_bits task_size value_stride x : ℕ) (parts : List Partition) (s : Finding)
    → c.max_value_size ≤ value_stride
    → 0 < task_size
    → 0 < num_bits
    → All (IsValid c) parts
    → HasShape num_bits ((length keys + num_bits - 1) / num_bits) s.hit_mask
    → x < length keys
    → (parts' : List Partition) × (s' : Finding) × (find part_of c now with_values with_sizes keys
          num_bits task_size value_stride parts s
        ≡ some (parts', s'))
      × (answer num_bits x s'
          ≡ touch with_values (view_at part_of (get_or keys x 0) parts) (answer num_bits x s))
unfolding find answer view_at view_from
find-hits part_of c now wv ws keys n task_size value_stride x parts s wide some_task some_bits valid
      shape h =
    let v = x / n in
    let j = x % n in
    let split : v * n + j ≡ x = div-add-mod' x n in
    let in_mask : v < (length keys + n - 1) / n =
      let step : suc v * n ≡ v * n + n = grind arith in
      (le-div_iff_mul-le some_bits).1 (omega (arith, step, split, h)) in
    let some_keys : length keys == 0 ≡ false = ground (arith, h) in
    let fits : leb c.max_value_size value_stride ≡ true = ground (arith, wide) in
    let out = find_parts part_of c now wv ws keys n task_size (length parts) 0 parts s in
    let cell =
      find_parts-cell part_of c now wv ws keys n ((length keys + n - 1) / n) task_size
        (length parts) 0 v j parts s some_task refl in_mask valid shape (mod-lt x some_bits)
        (omega (arith, split, h)) in
    let at =
      subst
        (λ u.
          (get_or (get_or out.1.hit_mask v []) j false, out.1.values u)
          ≡ touch wv
              (if leb 0 (part_of (get_or keys u 0))
                then view_from part_of 0 (get_or keys u 0) parts
                else none)
              (get_or (get_or s.hit_mask v []) j false, s.values u))
        split cell in
    (
      out.0,
      out.1,
      rw (some_keys, fits) refl,
      at ∙ ap (λ o. touch wv o (answer n x s)) (view_from-first part_of (get_or keys x 0) parts),
    )
