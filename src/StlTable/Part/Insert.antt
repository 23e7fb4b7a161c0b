-- ===== src/StlTable/Part/Insert.antt =====
-- `insert` of include/stl_map_backed_table_detail.hpp for one key: it never pops an empty free list,
-- keeps the invariant, stores the row, and loses other keys only by eviction.
use nv_embedding_cache.Common.{
  ℕ, zero, suc, ◌+◌, ◌≤◌, ◌<◌, ◌≡◌, ◌≢◌, ◌⊎◌, refl, ap, max, List, [], ◌∷◌, none, some, arith, ◌==◌,
  leb, if◌then◌else◌, length, take, take-append_self, Option-cases, List-cases, Bool-cases, inl,
  inr,
}
use nv_embedding_cache.StlTable.Dict.{lookup, count_slot-lookup-some}
use nv_embedding_cache.StlTable.Part.Defs.{
  Config, Partition, Algorithms, copy_n, carve, allocate, ensure_slot, fill, place, overwrite,
  insert_one, relieve, resolve, slots_per_buffer,
}
use nv_embedding_cache.StlTable.Part.Invariant.{
  IsValid, ensure_slot-IsValid, fill-IsValid, overwrite-IsValid,
}
use nv_embedding_cache.StlTable.Part.Overflow.{resolve-Resolved}
use nv_embedding_cache.StlTable.Part.View.{view, view-overwrite}

carve-nonempty : (base n : ℕ) (acc : List ℕ) → 1 ≤ length acc + n → carve base n acc ≢ []
unfolding carve
carve-nonempty base zero [] h = absurd (omega arith)
carve-nonempty base zero (x ∷ acc) h = λ e. cc
carve-nonempty base (suc n) acc h = carve-nonempty base n ((base + n) ∷ acc) (omega arith)

module _ (c : Config) (p : Partition) (v : IsValid c p) where
  slot_below : (k s : ℕ) → lookup k p.slot_map ≡ some s → s < p.num_slots
  slot_below k s e = ground (arith, v.slots s, count_slot-lookup-some k p.slot_map s)

  -- Nothing that is stored moves when a buffer is added.
  ensure_slot-view : (j : ℕ) → view j (ensure_slot c p) ≡ view j p
  unfolding ensure_slot allocate view
  ensure_slot-view j = elim (List-cases p.available_slots) [
    | inr (s, rest, e) ↦ rw (e, ensure_slot)
    | inl e ↦ elim (Option-cases (lookup j p.slot_map)) [
      | inl f ↦ rw (e, ensure_slot, f, view)
      | inr (t, f) ↦ rw (e, ensure_slot, f, view) (ground (arith, slot_below j t f))
    ]
  ]

  ensure_slot-map : (ensure_slot c p).slot_map ≡ p.slot_map
  unfolding ensure_slot allocate
  ensure_slot-map = elim (List-cases p.available_slots) [
    | inr (s, rest, e) ↦ rw (e, ensure_slot)
    | inl e ↦ rw (e, ensure_slot)
  ]

  ensure_slot-free :
      1 ≤ slots_per_buffer c
      → (s : ℕ) × (rest : List ℕ) × ((ensure_slot c p).available_slots ≡ s ∷ rest)
  unfolding ensure_slot allocate
  ensure_slot-free h = elim (List-cases p.available_slots) [
    | inr (s, rest, e) ↦ (s, rest, rw (e, ensure_slot) e)
    | inl e ↦ elim (List-cases (carve p.num_slots (slots_per_buffer c) p.available_slots)) [
      | inl f ↦
          absurd (carve-nonempty p.num_slots (slots_per_buffer c) p.available_slots (omega arith) f)
      | inr (s, rest, f) ↦ (s, rest, rw (e, ensure_slot) f)
    ]
  ]

  fill-view :
      (now key : ℕ) (row : List ℕ) (s : ℕ) (rest : List ℕ) (j : ℕ)
      → p.available_slots ≡ s ∷ rest
      → view j (fill c now key row s rest p)
        ≡ (if j == key then some (copy_n row (p.mem s).value) else view j p)
  unfolding fill view lookup
  fill-view now key row s rest j a = elim (Option-cases (lookup j p.slot_map)) [
    | inl f ↦ ground (arith, f)
    | inr (t, f) ↦
        let free : s ≢ t =
          λ st. ground (arith, rw a at (v.slots s), count_slot-lookup-some j p.slot_map t f) in
        ground (arith, f, free)
  ]

module _ (alg : Algorithms) (c : Config) where
  -- What one round of `insert` promises.
  pub record Inserted (key : ℕ) (row : List ℕ) (p q : Partition) : Type 0 where
    pub valid : IsValid c q
    pub stored : (w : List ℕ) × (view key q ≡ some w) × (take (length row) w ≡ row)
    pub others : (j : ℕ) → j ≢ key → (view j q ≡ view j p) ⊎ (view j q ≡ none)
    pub kept : (j : ℕ) → j ≢ key → length p.slot_map < c.overflow_margin → view j q ≡ view j p
    pub grows : length q.slot_map ≤ length p.slot_map + 1
    pub size :
        length p.slot_map ≤ max c.overflow_margin (c.resolution + 1)
        → length q.slot_map ≤ max c.overflow_margin (c.resolution + 1)

  -- Overflow handling forgets keys, and changes no value.
  record Relieved (p q : Partition) : Type 0 where
    valid : IsValid c q
    reads : (j : ℕ) → (view j q ≡ view j p) ⊎ (view j q ≡ none)
    same : length p.slot_map < c.overflow_margin → q ≡ p
    absent : (j : ℕ) → lookup j p.slot_map ≡ none → lookup j q.slot_map ≡ none
    shrinks : length q.slot_map ≤ length p.slot_map
    size :
        length p.slot_map ≤ max c.overflow_margin (c.resolution + 1)
        → length q.slot_map + 1 ≤ max c.overflow_margin (c.resolution + 1)

  resolve-view :
      (p : Partition)
      → IsValid c p
      → (j : ℕ) → (view j (resolve alg c p) ≡ view j p) ⊎ (view j (resolve alg c p) ≡ none)
  unfolding view
  resolve-view p v j =
      let r = resolve-Resolved alg c p v in
      elim (Option-cases (lookup j (resolve alg c p).slot_map)) [
        | inl e ↦ inr (rw (e, view))
        | inr (s, e) ↦ inl (
            let f : lookup j p.slot_map ≡ some s = ground (arith, r.reads j) in
            rw (e, f, view) (ap some (r.values s)))
      ]

  relieve-Relieved : (p : Partition) → IsValid c p → Relieved p (relieve alg c p)
  unfolding relieve
  relieve-Relieved p v = elim (Bool-cases (leb c.overflow_margin (length p.slot_map))) [
    | inl full ↦
        let r = resolve-Resolved alg c p v in
        rw full (record {
          valid = r.valid;
          reads = resolve-view p v;
          same = λ h. absurd (ground arith);
          absent = λ j e. ground (arith, r.reads j);
          shrinks = omega (arith, r.size);
          size = λ h. ground (arith, r.size);
        })
    | inr roomy ↦ rw roomy (record {
      valid = v;
      reads = λ j. inl refl;
      same = λ h. refl;
      absent = λ j e. e;
      shrinks = omega arith;
      size = λ h. ground arith;
    })
  ]

  hit-Inserted :
      (key s : ℕ) (row : List ℕ) (p : Partition)
      → length row ≤ c.max_value_size
      → IsValid c p
      → lookup key p.slot_map ≡ some s
      → Inserted key row p (overwrite s row p)
  unfolding copy_n
  hit-Inserted key s row p h v e =
      let w = view-overwrite c p v key in
      record {
        valid = overwrite-IsValid c s row p h v;
        stored =
            (copy_n row (p.mem s).value, ground (arith, w key s row e), take-append_self row _);
        others = λ j n. inl (ground (arith, w j s row e));
        kept = λ j n _. ground (arith, w j s row e);
        grows = unfold overwrite in omega arith;
        size = λ b. unfold overwrite in b;
      }

  miss-Inserted :
      (now key s : ℕ) (row rest : List ℕ) (p : Partition)
      → length row ≤ c.max_value_size
      → IsValid c p
      → lookup key p.slot_map ≡ none
      → let p' = ensure_slot c (relieve alg c p) in
        p'.available_slots ≡ s ∷ rest → Inserted key row p (fill c now key row s rest p')
  unfolding copy_n
  miss-Inserted now key s row rest p h v e a =
      let r = relieve-Relieved p v in
      let p1 = relieve alg c p in
      let p2 = ensure_slot c p1 in
      let v2 = ensure_slot-IsValid c p1 r.valid in
      let map_same = ensure_slot-map c p1 r.valid in
      let absent : lookup key p2.slot_map ≡ none = rw map_same (r.absent key e) in
      let w = fill-view c p2 v2 now key row s rest in
      let x = ensure_slot-view c p1 r.valid in
      record {
        valid = fill-IsValid c now key row s rest p2 absent a h v2;
        stored = (copy_n row (p2.mem s).value, ground (arith, w key a), take-append_self row _);
        others = λ j n. ground (arith, w j a, x j, r.reads j);
        kept = λ j n b. ground (arith, w j a, x j, ap (view j) (r.same b));
        grows = unfold fill in omega (arith, r.shrinks, ap (λ m. length m) map_same);
        size = λ b. unfold fill in omega (arith, r.size b, ap (λ m. length m) map_same);
      }

  -- A round of `insert`, for a well-formed partition, a row that fits and buffers of one slot at least,
  -- succeeds with what `Inserted` says: the partition stays well formed, the key has the row copied over
  -- it, and another key keeps its value or, where the partition had to be relieved, has none.
  pub insert_one-Inserted :
      (now key : ℕ) (row : List ℕ) (p : Partition)
      → 1 ≤ slots_per_buffer c
      → length row ≤ c.max_value_size
      → IsValid c p
      → (q : Partition) × (insert_one alg c now key row p ≡ some q) × Inserted key row p q
  unfolding insert_one place fill
  insert_one-Inserted now key row p big h v = elim (Option-cases (lookup key p.slot_map)) [
    | inr (s, e) ↦ (overwrite s row p, rw (e, insert_one), hit-Inserted key s row p h v e)
    | inl e ↦
        let r = relieve-Relieved p v in
        let (s, rest, a) = ensure_slot-free c (relieve alg c p) r.valid big in
        (
          fill c now key row s rest (ensure_slot c (relieve alg c p)),
          rw (e, insert_one) (rw (a, place)),
          miss-Inserted now key s row rest p h v e a,
        )
  ]
