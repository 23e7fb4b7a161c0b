-- ===== src/Layer/Hits.antt =====
-- The results of `HierarchicalEmbeddingLayer::lookup` (src/hierarchical_embedding_layer.cu) over tables
-- that keep the contract of `Table::find`.
use nv_embedding_cache.Common.{
  true-false, ℕ, zero, suc, ◌+◌, ◌-◌, ◌*◌, ◌^◌, ◌≤◌, ◌<◌, ◌≡◌, refl, sym, ap, ◌∙◌, List, [], ◌∷◌,
  Option, none, some, arith, ◌==◌, ltb, if◌then◌else◌, Bool, true, false, ◌&&◌, Bool-cases,
  Option-cases, inl, inr, Perm, range_from,
}
use nv_embedding_cache.StlTable.Table.Defs.{ok}
use nv_embedding_cache.LinearTable.Gather.{hit_bit}
use nv_embedding_cache.Layer.Lookup.{
  Progress, Floats, Looked, sub64, positive64, count_hits, fill_default, hierarchical_lookup,
  results, fill_num_tasks,
}
use nv_embedding_cache.Layer.Fill.{fill_tasks-at}
use nv_embedding_cache.Layer.Chain.{
  KnownTable, Resolved, Counted, count_set, count_set-full, first_row, resolvers, find_all-Resolved,
  is_some, or_else, byte_or,
}

-- The hits of all tables.
unfoldable pub sum_hits {ℓ} : {F : Type ℓ} → List (ℕ × F) → ℕ
sum_hits [] = 0
sum_hits (h ∷ hs) = h.0 + sum_hits hs

pub sub64-le : (a b : ℕ) → b ≤ a → a < 2 ^ 63 → sub64 a b ≡ a - b
unfolding sub64
sub64-le a b h g = omega arith

module _ {ℓ} {F : Type ℓ} (f : Floats F) (n : ℕ) (small : n < 2 ^ 63) where
  -- Counters that keep the contract add up.
  pub count_hits-sum :
      (before after : ℕ) (counters : List (Bool × ℕ))
      → Counted n before after counters
      → before ≤ n
      → ((count_hits f counters (n - before)).1 ≡ n - after)
        × ((after ≤ n) × (sum_hits (count_hits f counters (n - before)).0 + before ≡ after))
  unfolding count_hits sum_hits
  count_hits-sum before after [] c h = (ap (λ b. n - b) c, (omega (arith, c), omega (arith, c)))
  count_hits-sum before after ((true, counter) ∷ rest) (between, l, m, one, c) h =
      let left : sub64 (n - before) counter ≡ n - between =
        sub64-le (n - before) counter (omega (arith, one)) (omega arith) ∙ omega (arith, one) in
      let (e, (a, s)) = count_hits-sum between after rest c m in
      rw left (e, (a, omega (arith, s, one)))
  count_hits-sum before after ((false, counter) ∷ rest) (between, l, m, one, c) h =
      let new : sub64 (n - before) counter ≡ between - before =
        sub64-le (n - before) counter (omega (arith, one)) (omega arith) ∙ omega (arith, one) in
      let left : sub64 (n - before) (between - before) ≡ n - between =
        sub64-le (n - before) (between - before) (omega arith) (omega arith) ∙ omega arith in
      let (e, (a, s)) = count_hits-sum between after rest c m in
      rw (new, left) (e, (a, omega (arith, s)))

-- The answer of a lookup.
pub record Answer {ℓ κ} {A : Type ℓ} {F : Type κ} {row_size : ℕ} (ts : List (KnownTable A row_size))
    (default_embedding : Option (ℕ → A)) (n : ℕ) (keys : ℕ → ℕ) (stride : ℕ) (output : ℕ → A)
    (l : Looked A F) : Type (ℓ ⊔ κ) where
  pub rows :
      (k j : ℕ)
      → k < n
      → j < row_size
      → l.output (k * stride + j)
        ≡ byte_or (or_else (first_row ts (keys k)) default_embedding) j (output (k * stride + j))
  pub bits : (k : ℕ) → k < n → hit_bit l.hit_mask k ≡ is_some (first_row ts (keys k))
  pub hits : sum_hits l.table_hits + l.left_keys ≡ n
  pub left : l.left_keys + count_set (hit_bit l.hit_mask) n ≡ n
  pub inserts : l.insert_mask ≡ (if l.left_keys == 0 then none else l.hit_mask)

pub count_set-zero : (n : ℕ) → count_set (λ k. false) n ≡ 0
unfolding count_set
count_set-zero zero = refl
count_set-zero (suc n) = omega (arith, count_set-zero n)

insert_mask-left {ℓ} :
    {M : Type ℓ} (mask : Option M) (left : ℕ)
    → left < 2 ^ 63
    → (if positive64 left then mask else none) ≡ (if left == 0 then none else mask)
unfolding positive64
insert_mask-left mask left h = elim (Bool-cases (left == 0)) [
  | inl e ↦
      let nothing : ltb 0 left && ltb left (2 ^ 63) ≡ false = ground arith in rw (e, nothing) refl
  | inr e ↦
      let something : ltb 0 left && ltb left (2 ^ 63) ≡ true = ground arith in
      rw (e, something) refl
]

module _ {ℓ} {A : Type ℓ} {row_size : ℕ} (n : ℕ) (keys : ℕ → ℕ) (stride num_workers : ℕ)
    (order : List ℕ) (ts : List (KnownTable A row_size)) (output : ℕ → A) (q : Progress A)
    (fits : row_size ≤ stride) (r : Perm order (range_from 0 (fill_num_tasks n num_workers)))
    (bits : (k : ℕ) → k < n → hit_bit q.hit_mask k ≡ is_some (first_row ts (keys k)))
    (rows : (k j : ℕ)
      → k < n
      → j < row_size
      → q.output (k * stride + j)
        ≡ byte_or (first_row ts (keys k)) j (output (k * stride + j))) where
  -- The default rows come where the tables have none.
  fill_default-rows :
      (default_embedding : Option (ℕ → A)) (left k j : ℕ)
      → left < 2 ^ 63
      → left + count_set (hit_bit q.hit_mask) n ≡ n
      → k < n
      → j < row_size
      → fill_default default_embedding row_size num_workers order n stride
          (positive64 left)
          q
          (k * stride + j)
        ≡ byte_or (or_else (first_row ts (keys k)) default_embedding) j (output (k * stride + j))
  unfolding fill_default positive64
  fill_default-rows none left k j small total h g = elim (Option-cases (first_row ts (keys k))) [
    | inl e ↦ rw e (rw e at (rows k j h g))
    | inr (row, e) ↦ rw e (rw e at (rows k j h g))
  ]
  fill_default-rows (some default_) left k j small total h g =
      elim (Bool-cases (ltb 0 left && ltb left (2 ^ 63))) [
        | inl p ↦
            let inside : ltb k n ≡ true = ground arith in
            let in_row : ltb j row_size ≡ true = ground arith in
            let filled =
              fill_tasks-at q.hit_mask default_ row_size stride n num_workers order q.output k j
                fits r (omega arith) in
            elim (Option-cases (first_row ts (keys k))) [
              | inl e ↦
                  let miss : hit_bit q.hit_mask k ≡ false = bits k h ∙ ap is_some e in
                  rw (p, e) (filled ∙ rw (inside, miss, in_row) refl)
              | inr (row, e) ↦
                  let hit : hit_bit q.hit_mask k ≡ true = bits k h ∙ ap is_some e in
                  rw (p, e) (filled ∙ rw (inside, hit) (rw e at (rows k j h g)))
            ]
        | inr p ↦
            let full : count_set (hit_bit q.hit_mask) n ≡ n = ground arith in
            let hit = count_set-full (hit_bit q.hit_mask) n full k h in
            elim (Option-cases (first_row ts (keys k))) [
              | inl e ↦ absurd (true-false (sym hit ∙ bits k h ∙ ap is_some e))
              | inr (row, e) ↦ rw (p, e) (rw e at (rows k j h g))
            ]
      ]

-- A lookup of some keys over tables that keep the contract of `find`, with a stride that rows fit, of
-- fewer than 2^63 keys, in any order of the tasks of the default embedding, returns. The output has for
-- each key the row of the first table that has the key, or else the default row, or else what was there;
-- the hit mask tells whether a table has it; the hits of all tables and the keys that are left are all
-- keys, and the keys that are left are those without a bit; and the inserts get the hit mask just if
-- keys are left.
pub hierarchical_lookup-Answer {ℓ κ} :
    {A : Type ℓ} {F : Type κ} {row_size : ℕ} (f : Floats F) (default_embedding : Option (ℕ → A))
    (num_workers : ℕ) (order : List ℕ) (n : ℕ) (keys : ℕ → ℕ) (stride : ℕ)
    (ts : List (KnownTable A row_size)) (output : ℕ → A)
    → 0 < n
    → n < 2 ^ 63
    → row_size ≤ stride
    → Perm order (range_from 0 (fill_num_tasks n num_workers))
    → (l : Looked A F) × (hierarchical_lookup f default_embedding row_size num_workers order n keys
          stride false
          (resolvers ts)
          output
        ≡ ok l)
      × Answer ts default_embedding n keys stride output l
unfolding hierarchical_lookup results
hierarchical_lookup-Answer {A = A} {row_size = row_size} f default_ w order n keys stride ts output
      some_keys small fits r =
    let start : Progress A = record { output = output; hit_mask = some (λ w b. false) } in
    let (q, counters, mask, ((run, _), (m, (found, counted)))) =
      find_all-Resolved n keys stride some_keys fits ts start (λ w b. false) refl in
    let none_set : count_set (hit_bit start.hit_mask) n ≡ 0 = unfold hit_bit in count_set-zero n in
    let all : n - count_set (hit_bit start.hit_mask) n ≡ n = omega (arith, none_set) in
    let (e, (bound, sum)) =
      count_hits-sum f n small (count_set (hit_bit start.hit_mask) n)
        (count_set (hit_bit q.hit_mask) n) counters counted (omega (arith, none_set)) in
    let left : (count_hits f counters n).1 ≡ n - count_set (hit_bit q.hit_mask) n = rw all at e in
    let hits : sum_hits (count_hits f counters n).0 ≡ count_set (hit_bit q.hit_mask) n =
      omega (arith, rw all at sum, none_set) in
    let total : (count_hits f counters n).1 + count_set (hit_bit q.hit_mask) n ≡ n =
      omega (arith, left) in
    (
      results f default_ row_size w order n keys stride q counters,
      rw run refl,
      record {
        rows = λ k j h g.
            fill_default-rows n keys stride w order ts output q fits r (found_bits found)
              (found_rows found) default_ (count_hits f counters n).1 k j (omega (arith, left))
              total h g;
        bits = λ k h. found_bits found k h;
        hits = omega (arith, hits, total);
        left = total;
        inserts = insert_mask-left q.hit_mask (count_hits f counters n).1 (omega (arith, left));
      },
    )
  where
    first : Progress A
    first = record { output = output; hit_mask = some (λ w b. false) }

    found_bits :
        {q : Progress A}
        → Resolved (first_row ts) row_size n keys stride first q
        → (k : ℕ) → k < n
        → hit_bit q.hit_mask k ≡ is_some (first_row ts (keys k))
    found_bits found k h = unfold hit_bit in found.bits k h

    found_rows :
        {q : Progress A}
        → Resolved (first_row ts) row_size n keys stride first q
        → (k j : ℕ) → k < n
        → j < row_size
        → q.output (k * stride + j) ≡ byte_or (first_row ts (keys k)) j (output (k * stride + j))
    found_rows found k j h g = unfold hit_bit in found.rows k j h g
