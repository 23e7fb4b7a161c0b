-- ===== src/Layer/Chain.antt =====
-- `HierarchicalEmbeddingLayer::lookup` (src/hierarchical_embedding_layer.cu) over tables that keep the
-- contract of `Table::find` (include/table.hpp).
use nv_embedding_cache.Common.{
  ℕ, zero, suc, ◌+◌, ◌*◌, ◌≤◌, ◌<◌, ◌≡◌, refl, ◌∙◌, List, [], ◌∷◌, ◌++◌, Option, none, some, arith,
  ◌==◌, if◌then◌else◌, Bool, true, false, ◌||◌, to_nat, Bool-cases, inl, inr,
}
use nv_embedding_cache.StlTable.Table.Defs.{ok}
use nv_embedding_cache.LinearTable.Gather.{hit_bit}
use nv_embedding_cache.Layer.Lookup.{Progress, Resolver, find_all}

abbrev pub is_some {ℓ} : {A : Type ℓ} → Option A → Bool
is_some none = false
is_some (some a) = true

-- The first of two answers, and the byte of a row, if there is a row.
abbrev pub or_else {ℓ} : {A : Type ℓ} → Option A → Option A → Option A
or_else none b = b
or_else (some a) b = some a

abbrev pub byte_or {ℓ} : {A : Type ℓ} → Option (ℕ → A) → ℕ → A → A
byte_or none j x = x
byte_or (some row) j x = row j

-- How many of the first `n` bits are set.
unfoldable pub count_set : (ℕ → Bool) → ℕ → ℕ
count_set bit zero = 0
count_set bit (suc n) = to_nat (bit n) + count_set bit n

-- What a lookup of a table whose keys have the rows `view` does: a key whose bit is set is left alone,
-- and any other that the table has gets its row and its bit.
pub record Resolved {ℓ} {A : Type ℓ} (view : ℕ → Option (ℕ → A)) (row_size n : ℕ) (keys : ℕ → ℕ)
    (stride : ℕ) (p q : Progress A) : Type ℓ where
  pub bits :
      (k : ℕ) → k < n → hit_bit q.hit_mask k ≡ hit_bit p.hit_mask k || is_some (view (keys k))
  pub rows :
      (k j : ℕ)
      → k < n
      → j < row_size
      → q.output (k * stride + j) ≡ (
          if hit_bit p.hit_mask k
          then p.output (k * stride + j)
          else byte_or (view (keys k)) j (p.output (k * stride + j)))

-- The counter of a lookup: the keys that got their bit, or those that are still without.
abbrev pub Counts : Bool → ℕ → ℕ → ℕ → ℕ → Type 0
Counts counts_hits n before after counter =
    if counts_hits then counter + before ≡ after else counter + after ≡ n

-- A table that keeps the contract, with the rows of its keys.
pub record KnownTable {ℓ} (A : Type ℓ) (row_size : ℕ) : Type ℓ where
  pub resolver : Resolver A
  pub view : ℕ → Option (ℕ → A)
  pub resolves :
      (n : ℕ) (keys : ℕ → ℕ) (stride : ℕ) (p : Progress A) (mask : ℕ → ℕ → Bool)
      → 0 < n
      → row_size ≤ stride
      → p.hit_mask ≡ some mask
      → (q : Progress A) × (counter : ℕ) × (mask' : ℕ → ℕ → Bool) × (resolver.find n keys stride p
          ≡ ok (q, counter))
        × (q.hit_mask ≡ some mask')
        × Resolved view row_size n keys stride p q
        × Counts resolver.lookup_counter_hits n
            (count_set (hit_bit p.hit_mask) n)
            (count_set (hit_bit q.hit_mask) n)
            counter

-- The row of a key in the first table that has the key.
unfoldable pub first_row {ℓ} :
    {A : Type ℓ} → {row_size : ℕ} → List (KnownTable A row_size) → ℕ → Option (ℕ → A)
first_row [] key = none
first_row (t ∷ ts) key = or_else (t.view key) (first_row ts key)

abbrev pub resolvers {ℓ} :
    {A : Type ℓ} → {row_size : ℕ} → List (KnownTable A row_size) → List (Resolver A)
resolvers [] = []
resolvers (t ∷ ts) = t.resolver ∷ resolvers ts

-- The counters of the tables in turn, between the number of bits at the start and at the end.
abbrev pub Counted : ℕ → ℕ → ℕ → List (Bool × ℕ) → Type 0
Counted n before after [] = before ≡ after
Counted n before after ((counts_hits, counter) ∷ rest) =
    (between : ℕ) × (before ≤ between)
    × (between ≤ n)
    × Counts counts_hits n before between counter
    × Counted n between after rest

pub count_set-le : (bit : ℕ → Bool) (n : ℕ) → count_set bit n ≤ n
unfolding count_set
count_set-le bit zero = omega arith
count_set-le bit (suc n) = elim (Bool-cases (bit n)) [
  | inl e ↦ rw e (omega (arith, count_set-le bit n))
  | inr e ↦ rw e (omega (arith, count_set-le bit n))
]

pub count_set_mono :
    (bit bit' : ℕ → Bool) (n : ℕ)
    → ((k : ℕ) → k < n → bit k ≡ true → bit' k ≡ true)
    → count_set bit n ≤ count_set bit' n
unfolding count_set
count_set_mono bit bit' zero h = omega arith
count_set_mono bit bit' (suc n) h =
    let rest = count_set_mono bit bit' n (λ k l. h k (omega arith)) in
    elim (Bool-cases (bit n)) [
      | inl e ↦ rw (e, h n (omega arith) e) (omega (arith, rest))
      | inr e ↦ rw e (omega (arith, rest))
    ]

-- All bits are set if there are as many as positions.
pub count_set-full : (bit : ℕ → Bool) (n : ℕ) → count_set bit n ≡ n → (k : ℕ) → k < n → bit k ≡ true
unfolding count_set
count_set-full bit zero e k h = absurd (omega arith)
count_set-full bit (suc n) e k h = elim (Bool-cases (bit n)) [
  | inl b ↦
      let all : count_set bit n ≡ n = ground (arith, e) in
      elim (Bool-cases (k == n)) [
        | inl s ↦ let same : k ≡ n = ground arith in rw same b
        | inr s ↦ count_set-full bit n all k (ground arith)
      ]
  | inr b ↦ absurd (ground (arith, count_set-le bit n, e))
]

kept_true : (a b : Bool) → a ≡ true → a || b ≡ true
kept_true true b e = refl
kept_true false b e = absurd (ground arith)

-- One key through a table and the rest: `own` is the row that the table has, `later` that of the rest.
either_bit {ℓ} :
    {A : Type ℓ} {after last : Bool} (before : Bool) (own later : Option A)
    → after ≡ before || is_some own
    → last ≡ after || is_some later
    → last ≡ before || is_some (or_else own later)
either_bit true own later e f = f ∙ rw e refl
either_bit false none later e f = f ∙ rw e refl
either_bit false (some row) later e f = f ∙ rw e refl

either_row {ℓ} :
    {A : Type ℓ} {after : Bool} (x : A) {y z : A} (before : Bool) (own later : Option (ℕ → A))
    (j : ℕ)
    → after ≡ before || is_some own
    → y ≡ (if before then x else byte_or own j x)
    → z ≡ (if after then y else byte_or later j y)
    → z ≡ (if before then x else byte_or (or_else own later) j x)
either_row x true own later j e f g = g ∙ rw e f
either_row x false none none j e f g = g ∙ rw e f
either_row x false none (some row) j e f g = g ∙ rw e refl
either_row x false (some row) later j e f g = g ∙ rw e f

module _ {ℓ} {A : Type ℓ} {row_size : ℕ} (n : ℕ) (keys : ℕ → ℕ) (stride : ℕ) (some_keys : 0 < n)
    (fits : row_size ≤ stride) where
  -- The tables in turn leave what one table would that has the first row of every key.
  pub find_all-Resolved :
      (ts : List (KnownTable A row_size)) (p : Progress A) (mask : ℕ → ℕ → Bool)
      → p.hit_mask ≡ some mask
      → (q : Progress A) × (counters : List (Bool × ℕ)) × (mask' : ℕ → ℕ → Bool) × (((find_all n
                keys stride
                (resolvers ts)
                p
              ≡ ok (q, counters))
            × ((rs : List (Resolver A)) (q' : Progress A) (ds : List (Bool × ℕ))
                → find_all n keys stride rs q ≡ ok (q', ds)
                → find_all n keys stride (resolvers ts ++ rs) p ≡ ok (q', counters ++ ds)))
          × ((q.hit_mask ≡ some mask')
              × (Resolved (first_row ts) row_size n keys stride p q
                  × Counted n
                      (count_set (hit_bit p.hit_mask) n)
                      (count_set (hit_bit q.hit_mask) n)
                      counters)))
  unfolding find_all first_row
  find_all-Resolved [] p mask e = (
    p,
    [],
    mask,
    (
      (refl, λ rs q' ds h. h),
      (
        e,
        (
          record {
            bits = λ k h. or_false (hit_bit p.hit_mask k);
            rows = λ k j h g. same_either (hit_bit p.hit_mask k) (p.output (k * stride + j));
          },
          refl,
        ),
      ),
    ),
  )
    where
      or_false : (a : Bool) → a ≡ a || false
      or_false true = refl
      or_false false = refl

      same_either : (a : Bool) (x : A) → x ≡ (if a then x else x)
      same_either true x = refl
      same_either false x = refl
  find_all-Resolved (t ∷ ts) p mask e =
      let (p', counter, mask', run, e', one, counted) =
        t.resolves n keys stride p mask some_keys fits e in
      let (q, counters, mask'', ((run', then_run), (e'', (rest, counted')))) =
        find_all-Resolved ts p' mask' e' in
      (
        q,
        (t.resolver.lookup_counter_hits, counter) ∷ counters,
        mask'',
        (
          (
            rw (find_all, run, run') refl,
            λ rs last ds h. rw (find_all, run, then_run rs last ds h) refl,
          ),
          (
            e'',
            (
              record {
                bits = λ k h.
                    either_bit (hit_bit p.hit_mask k) (t.view (keys k)) (first_row ts (keys k))
                      (one.bits k h) (rest.bits k h);
                rows = λ k j h g.
                    either_row (p.output (k * stride + j)) (hit_bit p.hit_mask k) (t.view (keys k))
                      (first_row ts (keys k)) j (one.bits k h) (one.rows k j h g)
                      (rest.rows k j h g);
              },
              (
                count_set (hit_bit p'.hit_mask) n,
                count_set_mono (hit_bit p.hit_mask) (hit_bit p'.hit_mask) n
                    (λ k h b. one.bits k h ∙ kept_true _ _ b),
                count_set-le (hit_bit p'.hit_mask) n,
                counted,
                counted',
              ),
            ),
          ),
        ),
      )
