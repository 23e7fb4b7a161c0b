-- ===== src/Layer/Linear.antt =====
-- A linear table (include/linear_host_table.hpp) as the last table of a `HierarchicalEmbeddingLayer`
-- (src/hierarchical_embedding_layer.cu): it counts all keys of a lookup as hits.
use nv_embedding_cache.Common.{
  ℕ, ◌+◌, ◌-◌, ◌*◌, ◌^◌, ◌≤◌, ◌<◌, ◌≡◌, refl, sym, ap, ◌∙◌, List, [], ◌∷◌, ◌++◌, Option, none, some,
  arith, ltb, Bool, true, false, ◌||◌, Bool-cases, inl, inr, Perm, range_from,
}
use nv_embedding_cache.StlTable.Table.Defs.{Outcome, ok, throws, undefined}
use nv_embedding_cache.LinearTable.Defs.{LinearConfig, LinearTable, Gathered, find, num_threads}
use nv_embedding_cache.LinearTable.Gather.{hit_bit, find-Found}
use nv_embedding_cache.Layer.Lookup.{
  Progress, Resolver, Floats, Looked, sub64, count_hits, find_all, hierarchical_lookup, results,
  fill_default,
}
use nv_embedding_cache.Layer.Chain.{
  KnownTable, Resolved, Counted, count_set, count_set-le, count_set_mono, first_row, resolvers,
  find_all-Resolved, is_some,
}
use nv_embedding_cache.Layer.Hits.{sub64-le, sum_hits, count_set-zero}

-- `reset_lookup_counter`, `find` and `get_lookup_counter`
unfoldable pub answer_of {ℓ} :
    {A : Type ℓ} → Outcome (Gathered A × LinearTable A) → Outcome (Progress A × ℕ)
answer_of (ok (g, t)) = ok (record { output = g.values; hit_mask = g.hit_mask }, t.key_counter)
answer_of throws = throws
answer_of undefined = undefined

unfoldable pub linear_resolver {ℓ} :
    {A : Type ℓ} → LinearConfig → ℕ → List ℕ → LinearTable A → Resolver A
linear_resolver c num_workers order t = record {
  find = λ n keys stride p. answer_of (
      find c num_workers order n (some keys) p.hit_mask stride (some p.output)
        (record t { key_counter = 0 }));
  lookup_counter_hits = true;
}

-- The row of a key, whatever the key is.
abbrev pub linear_row {ℓ} : {A : Type ℓ} → LinearConfig → LinearTable A → ℕ → Option (ℕ → A)
linear_row c t key = some (λ j. t.emb_table (key * c.max_value_size + j))

module _ {ℓ} {A : Type ℓ} (c : LinearConfig) (num_workers : ℕ) (order : List ℕ) (t : LinearTable A)
    (some_thread : 0 < num_threads c num_workers)
    (r : Perm order (range_from 0 (num_threads c num_workers))) where
  -- A linear table does what the contract of `find` says of rows and bits, and counts every key.
  pub linear_resolver-Resolved :
      (n : ℕ) (keys : ℕ → ℕ) (stride : ℕ) (p : Progress A) (mask : ℕ → ℕ → Bool)
      → 0 < n
      → c.max_value_size ≤ stride
      → p.hit_mask ≡ some mask
      → (q : Progress A) × (mask' : ℕ → ℕ → Bool) × ((linear_resolver c num_workers order t).find n
            keys stride p
          ≡ ok (q, n))
        × (q.hit_mask ≡ some mask')
        × Resolved (linear_row c t) c.max_value_size n keys stride p q
  unfolding linear_resolver answer_of
  linear_resolver-Resolved n keys stride p mask some_keys fits e =
      let (g, run, found) =
        find-Found c num_workers order keys n stride p.hit_mask p.output
          (record t { key_counter = 0 }) some_keys some_thread fits r in
      let counter : 0 + n ≡ n = omega arith in
      let (mask', f) = found.has_bits mask e in
      (
        record { output = g.values; hit_mask = g.hit_mask },
        mask',
        rw (run, answer_of, counter) refl,
        f,
        record {
          bits = λ k h. found.bits mask e k h ∙ sym (or_true (hit_bit p.hit_mask k));
          rows = λ k j h in_row.
              let inside : ltb j c.max_value_size ≡ true = ground arith in
              found.rows k j h (omega arith) ∙ elim (Bool-cases (hit_bit p.hit_mask k)) [
                | inl b ↦ rw b refl
                | inr b ↦ rw (b, inside) refl
              ];
        },
      )
    where
      or_true : (a : Bool) → a || true ≡ true
      or_true true = refl
      or_true false = refl

count_hits-last {ℓ} :
    {F : Type ℓ} (f : Floats F) (n : ℕ) (small : n < 2 ^ 63) (before after : ℕ)
    (counters : List (Bool × ℕ))
    → Counted n before after counters
    → before ≤ n
    → ((count_hits f (counters ++ (true, n) ∷ []) (n - before)).1 ≡ sub64 (n - after) n)
      × (sum_hits (count_hits f (counters ++ (true, n) ∷ []) (n - before)).0 + before ≡ after + n)
unfolding count_hits sum_hits
count_hits-last f n small before after [] c h = (ap (λ b. sub64 (n - b) n) c, omega (arith, c))
count_hits-last f n small before after ((true, counter) ∷ rest) (between, l, m, one, c) h =
    let left : sub64 (n - before) counter ≡ n - between =
      sub64-le (n - before) counter (omega (arith, one)) (omega arith) ∙ omega (arith, one) in
    let (e, s) = count_hits-last f n small between after rest c m in
    (rw (count_hits, left) e, rw left (omega (arith, s, one)))
count_hits-last f n small before after ((false, counter) ∷ rest) (between, l, m, one, c) h =
    let new : sub64 (n - before) counter ≡ between - before =
      sub64-le (n - before) counter (omega (arith, one)) (omega arith) ∙ omega (arith, one) in
    let left : sub64 (n - before) (between - before) ≡ n - between =
      sub64-le (n - before) (between - before) (omega arith) (omega arith) ∙ omega arith in
    let (e, s) = count_hits-last f n small between after rest c m in
    (rw (count_hits, new, left) e, rw (new, left) (omega (arith, s)))

same_count :
    (bit bit' : ℕ → Bool) (n : ℕ)
    → ((k : ℕ) → k < n → bit k ≡ bit' k)
    → count_set bit n ≡ count_set bit' n
same_count bit bit' n h =
    let up = count_set_mono bit bit' n (λ k l e. sym (h k l) ∙ e) in
    let down = count_set_mono bit' bit n (λ k l e. h k l ∙ e) in omega (arith, up, down)

wraps :
    (n after found : ℕ)
    → after ≡ found
    → found ≤ n
    → n < 2 ^ 63
    → sub64 (n - after) n ≡ sub64 0 found
unfolding sub64
wraps n after found e h g = omega arith

only {ℓ} :
    {A : Type ℓ} (n : ℕ) (keys : ℕ → ℕ) (stride : ℕ) (c : LinearConfig) (w : ℕ) (order : List ℕ)
    (t : LinearTable A) (q last : Progress A)
    → (linear_resolver c w order t).find n keys stride q ≡ ok (last, n)
    → find_all n keys stride (linear_resolver c w order t ∷ []) q ≡ ok (last, (true, n) ∷ [])
unfolding find_all linear_resolver
only n keys stride c w order t q last e = rw (find_all, e) refl

-- A lookup over tables that keep the contract of `find` and a linear table behind them returns, with
-- every key found, and counts more hits than keys: the keys that the tables before found are counted
-- twice, and `left_keys` is minus their number.
pub linear_last-overcounts {ℓ κ} :
    {A : Type ℓ} {F : Type κ} (f : Floats F) (c : LinearConfig) (num_workers : ℕ) (order : List ℕ)
    (t : LinearTable A) (ts : List (KnownTable A c.max_value_size)) (order' : List ℕ) (n : ℕ)
    (keys : ℕ → ℕ) (stride : ℕ) (output : ℕ → A)
    → 0 < num_threads c num_workers
    → Perm order (range_from 0 (num_threads c num_workers))
    → 0 < n
    → n < 2 ^ 63
    → c.max_value_size ≤ stride
    → (l : Looked A F) × (hierarchical_lookup f none c.max_value_size num_workers order' n keys
          stride false
          (resolvers ts ++ linear_resolver c num_workers order t ∷ [])
          output
        ≡ ok l)
      × (((k : ℕ) → k < n → hit_bit l.hit_mask k ≡ true)
          × ((sum_hits l.table_hits ≡ count_set (λ k. is_some (first_row ts (keys k))) n + n)
              × (l.left_keys ≡ sub64 0 (count_set (λ k. is_some (first_row ts (keys k))) n))))
unfolding hierarchical_lookup results fill_default
linear_last-overcounts {A = A} f c w order t ts order' n keys stride output thread r some_keys small
      fits =
    let start : Progress A = record { output = output; hit_mask = some (λ a b. false) } in
    let (q, counters, mask, ((_, then_run), (m, (found, counted)))) =
      find_all-Resolved n keys stride some_keys fits ts start (λ a b. false) refl in
    let (last, mask', run, full, linear) =
      linear_resolver-Resolved c w order t thread r n keys stride q mask some_keys fits m in
    let bits : (k : ℕ) → k < n → hit_bit q.hit_mask k ≡ is_some (first_row ts (keys k)) =
      λ k h. unfold hit_bit in found.bits k h in
    let found_keys = count_set (λ k. is_some (first_row ts (keys k))) n in
    let same : count_set (hit_bit q.hit_mask) n ≡ found_keys = same_count _ _ n bits in
    let bound : found_keys ≤ n = count_set-le (λ k. is_some (first_row ts (keys k))) n in
    let none_set : count_set (hit_bit start.hit_mask) n ≡ 0 = unfold hit_bit in count_set-zero n in
    let all : n - count_set (hit_bit start.hit_mask) n ≡ n = omega (arith, none_set) in
    let (e, sum) =
      count_hits-last f n small (count_set (hit_bit start.hit_mask) n)
        (count_set (hit_bit q.hit_mask) n) counters counted (omega (arith, none_set)) in
    let total = counters ++ (true, n) ∷ [] in
    let tail : find_all n keys stride (linear_resolver c w order t ∷ []) q
        ≡ ok (last, (true, n) ∷ []) =
      only n keys stride c w order t q last run in
    (
      results f none c.max_value_size w order' n keys stride last total,
      rw (then_run (linear_resolver c w order t ∷ []) last ((true, n) ∷ []) tail) refl,
      (
        λ k h. linear.bits k h ∙ either (hit_bit q.hit_mask k),
        (
          omega (arith, rw all at sum, none_set, same),
          rw all at e ∙ wraps n (count_set (hit_bit q.hit_mask) n) found_keys same bound small,
        ),
      ),
    )
  where
    either : (a : Bool) → a || true ≡ true
    either true = refl
    either false = refl
