-- ===== src/StlTable/Table/Insert.antt =====
-- `STLContainerTable::insert` (include/stl_map_backed_table_detail.hpp) on a whole batch.
use nv_embedding_cache.Common.{
  ℕ, suc, ◌+◌, ◌*◌, ◌≤◌, ◌≡◌, ◌≢◌, refl, ap, sym, ◌∙◌, max, List, [], ◌∷◌, some, arith, ◌==◌,
  ==_iff, leb, length, take, All, get_elem?, Option-cases, Bool-cases, true, false, inl, inr,
}
use nv_embedding_cache.StlTable.Part.Defs.{Config, Partition, Algorithms, slots_per_buffer}
use nv_embedding_cache.StlTable.Part.Invariant.{IsValid}
use nv_embedding_cache.StlTable.Part.View.{view, view-length}
use nv_embedding_cache.StlTable.Part.Insert.{Inserted, insert_one-Inserted}
use nv_embedding_cache.StlTable.Table.Defs.{ok, insert_task, insert, rows_from}
use nv_embedding_cache.StlTable.Table.Batch.{
  written, Agrees, written-Agrees, rows_from-full, view_at, Each, Each-refl, Each-none, Each-All,
  Each-at, execute_each-Each,
}

take_full : (xs : List ℕ) → take (length xs) xs ≡ xs
take_full [] = refl
take_full (x ∷ xs) = ap (◌∷◌ x) (take_full xs)

abbrev pub bound : Config → ℕ
bound c = max c.overflow_margin (c.resolution + 1)

module _ (part_of : ℕ → ℕ) (alg : Algorithms) (c : Config) where
  -- A full row is the value of its key afterwards.
  stored_full :
      (key : ℕ) (row : List ℕ) (p q : Partition)
      → length row ≡ c.max_value_size
      → Inserted alg c key row p q
      → view key q ≡ some row
  stored_full key row p q h r =
      let (w, e, pre) = r.stored in
      let same : length row ≡ length w = h ∙ sym (view-length c q key w r.valid e) in
      e ∙ ap some (sym (take_full w) ∙ ap (λ n. take n w) (sym same) ∙ pre)

  -- What the task of partition `i` does with the rows of a batch.
  pub record BatchInserted (rows : List (ℕ × List ℕ)) (i : ℕ) (p q : Partition) : Type 0 where
    pub valid : IsValid c q
    pub size : length p.slot_map ≤ bound c → length q.slot_map ≤ bound c
    pub reads : (j : ℕ) → part_of j ≡ i → Agrees (view j q) (written j rows (view j p))
    pub kept :
        (j : ℕ)
        → part_of j ≡ i
        → length p.slot_map + length rows ≤ c.overflow_margin
        → view j q ≡ written j rows (view j p)

  -- One round and the rest of the batch.
  batch_step :
      (k : ℕ) (row : List ℕ) (rest : List (ℕ × List ℕ)) (i : ℕ) (p p' q : Partition)
      → length row ≡ c.max_value_size
      → Inserted alg c k row p p'
      → BatchInserted rest i p' q
      → BatchInserted ((k, row) ∷ rest) i p q
  unfolding written
  batch_step k row rest i p p' q full ins r = record {
    valid = r.valid;
    size = λ h. r.size (ins.size h);
    reads = λ j e. elim (Bool-cases (j == k)) [
      | inl same ↦ rw same (rw (now_stored j same) at (r.reads j e))
      | inr other ↦ rw other (
          ground (
            arith,
            r.reads j e,
            written-Agrees j rest (view j p) (view j p') (ins.others j (apart j other)),
          ))
    ];
    kept = λ j e h. elim (Bool-cases (j == k)) [
      | inl same ↦ rw same (rw (now_stored j same) at (r.kept j e (omega (arith, ins.grows))))
      | inr other ↦ rw other (
          r.kept j e (omega (arith, ins.grows))
          ∙ ap (written j rest) (ins.kept j (apart j other) (omega arith)))
    ];
  }
    where
      now_stored : (j : ℕ) → j == k ≡ true → view j p' ≡ some row
      now_stored j same =
          ap (λ n. view n p') ((==_iff j k).0 same) ∙ stored_full k row p p' full ins

      apart : (j : ℕ) → j == k ≡ false → j ≢ k
      apart j other = ground arith

  module _ (now : ℕ → ℕ) (big : 1 ≤ slots_per_buffer c) where
    pub insert_task-BatchInserted :
        (rows : List (ℕ × List ℕ)) (i : ℕ) (p : Partition)
        → All (λ r. length r.1 ≡ c.max_value_size) rows
        → IsValid c p
        → (q : Partition) × (insert_task part_of alg c now rows i p ≡ some q)
          × BatchInserted rows i p q
    unfolding insert_task written
    insert_task-BatchInserted [] i p a v = (
      p,
      refl,
      record { valid = v; size = λ h. h; reads = λ j _. inl refl; kept = λ j _ _. refl },
    )
    insert_task-BatchInserted ((k, row) ∷ rest) i p a v = elim (Bool-cases (part_of k == i)) [
      | inr other ↦
          let (q, run, r) = insert_task-BatchInserted rest i p a.1 v in
          let skip : (j : ℕ) → part_of j ≡ i → j == k ≡ false = λ j e. ground (arith, ap part_of) in
          (
            q,
            rw (other, insert_task) run,
            record {
              valid = r.valid;
              size = r.size;
              reads = λ j e. rw (skip j e) (r.reads j e);
              kept = λ j e h. rw (skip j e) (r.kept j e (omega arith));
            },
          )
      | inl mine ↦
          let (p', one, ins) = insert_one-Inserted alg c (now i) k row p big (omega arith) v in
          let (q, run, r) = insert_task-BatchInserted rest i p' a.1 ins.valid in
          (q, rw (mine, insert_task, one) run, batch_step k row rest i p p' q a.0 ins r)
    ]

    sizes :
        (rows : List (ℕ × List ℕ)) (i : ℕ) (ps qs : List Partition)
        → Each (BatchInserted rows) i ps qs
        → All (λ p. length p.slot_map ≤ bound c) ps
        → All (λ p. length p.slot_map ≤ bound c) qs
    sizes rows i [] [] e a = tt
    sizes rows i [] (q ∷ qs) e a = absurd e
    sizes rows i (p ∷ ps) [] e a = absurd e
    sizes rows i (p ∷ ps) (q ∷ qs) e a = (e.0.size a.0, sizes rows (suc i) ps qs e.1 a.1)

    -- `insert` on a table.
    pub insert_lem :
        (keys : List ℕ) (stride : ℕ) (values : List ℕ) (parts : List Partition)
        → c.max_value_size ≤ stride
        → length keys * stride ≤ length values
        → All (IsValid c) parts
        → (parts' : List Partition) × (insert part_of alg c now keys stride c.max_value_size values
              parts
            ≡ ok parts')
          × Each (BatchInserted (rows_from stride c.max_value_size values 0 keys)) 0 parts parts'
    unfolding insert rows_from written
    insert_lem [] stride values parts h g v = (
      parts,
      refl,
      Each-refl (IsValid c) (BatchInserted (rows_from stride c.max_value_size values 0 [])) nothing
          0 parts v,
    )
      where
        nothing : (i : ℕ) (p : Partition) → IsValid c p → BatchInserted [] i p p
        nothing i p w = record {
          valid = w;
          size = λ h. h;
          reads = λ j _. inl refl;
          kept = λ j _ _. refl;
        }
    insert_lem (k ∷ ks) stride values parts h g v =
        let rows = rows_from stride c.max_value_size values 0 (k ∷ ks) in
        let fits : leb c.max_value_size c.max_value_size ≡ true = ground arith in
        let (qs, run, e) =
          execute_each-Each (IsValid c) (BatchInserted rows) (insert_task part_of alg c now rows)
            (λ i p w.
              insert_task-BatchInserted rows i p
                (rows_from-full stride c.max_value_size values 0 (k ∷ ks) h (omega (arith, g))) w)
            0 parts v in
        (qs, rw (fits, run), e)

    module _ (keys : List ℕ) (stride : ℕ) (values : List ℕ) (parts : List Partition)
        (wide : c.max_value_size ≤ stride) (long : length keys * stride ≤ length values)
        (v : All (IsValid c) parts) where
      -- `insert` of full rows into well-formed partitions, with buffers of one slot at least, succeeds,
      -- keeps the invariant of every partition, and leaves every key with its last row of the batch or
      -- else its old value, or with nothing.
      pub insert-Agrees :
          (j : ℕ)
          → (parts' : List Partition) × (insert part_of alg c now keys stride c.max_value_size
                values parts
              ≡ ok parts')
            × All (IsValid c) parts'
            × Agrees (view_at part_of j parts') (
                written j
                  (rows_from stride c.max_value_size values 0 keys)
                  (view_at part_of j parts))
      unfolding view_at
      insert-Agrees j =
          let rows = rows_from stride c.max_value_size values 0 keys in
          let (qs, run, e) = insert_lem keys stride values parts wide long v in
          (
            qs,
            run,
            Each-All (IsValid c) (BatchInserted rows) (λ i p q r. r.valid) 0 parts qs e,
            elim (Option-cases (get_elem? parts (part_of j))) [
              | inl f ↦
                  inr (rw (Each-none (BatchInserted rows) 0 parts qs (part_of j) e f, view_at))
              | inr (p, f) ↦
                  let (q, f', r) = Each-at (BatchInserted rows) 0 parts qs (part_of j) p e f in
                  rw (f, f', view_at) (r.reads j (omega arith))
            ],
          )

      -- `insert` of full rows into well-formed partitions, with buffers of one slot at least, where the
      -- partition of a key has room for the whole batch below the overflow margin, succeeds and leaves
      -- the key with exactly its last row of the batch, or else its old value.
      pub insert-written :
          (j : ℕ) (p : Partition)
          → get_elem? parts (part_of j) ≡ some p
          → length p.slot_map + length (rows_from stride c.max_value_size values 0 keys)
            ≤ c.overflow_margin
          → (parts' : List Partition) × (insert part_of alg c now keys stride c.max_value_size
                values parts
              ≡ ok parts')
            × (view_at part_of j parts'
                ≡ written j
                    (rows_from stride c.max_value_size values 0 keys)
                    (view_at part_of j parts))
      unfolding view_at
      insert-written j p f room =
          let rows = rows_from stride c.max_value_size values 0 keys in
          let (qs, run, e) = insert_lem keys stride values parts wide long v in
          let (q, f', r) = Each-at (BatchInserted rows) 0 parts qs (part_of j) p e f in
          (qs, run, rw (f, f', view_at) (r.kept j (omega arith) room))

      -- `insert` of full rows into well-formed partitions, with buffers of one slot at least, succeeds and
      -- keeps every partition at no more keys than the overflow margin, or one more than the resolution
      -- margin where that is larger, if every partition has no more before.
      pub insert-bound :
          All (λ p. length p.slot_map ≤ bound c) parts
          → (parts' : List Partition) × (insert part_of alg c now keys stride c.max_value_size
                values parts
              ≡ ok parts')
            × All (λ p. length p.slot_map ≤ bound c) parts'
      insert-bound a =
          let (qs, run, e) = insert_lem keys stride values parts wide long v in
          (qs, run, sizes (rows_from stride c.max_value_size values 0 keys) 0 parts qs e a)
