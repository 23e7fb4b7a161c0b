-- ===== src/LinearTable/Gather.antt =====
-- `LinearHostTable::find` (include/linear_host_table.hpp) with `cpu_kernel_gather`
-- (cpu_ops/cpu_gather.h).
use nv_embedding_cache.Common.{
  ℕ, ◌+◌, ◌-◌, ◌*◌, ◌/◌, ◌%◌, ◌≤◌, ◌<◌, ◌≡◌, refl, ap, ◌∙◌, List, Option, none, some, arith, ◌==◌,
  ltb, if◌then◌else◌, ◌&&◌, Bool, true, false, not, Bool-cases, inl, inr, range_from, Perm,
}
use nv_embedding_cache.StlTable.Table.Defs.{ok}
use nv_embedding_cache.LinearTable.Defs.{
  is_hit, fill_mask, gather_key, kernel_gather, aligned_keys_per_task, keys_per_task, run_tasks,
  LinearConfig, LinearTable, Gathered, guarded, find, num_threads,
}
use nv_embedding_cache.LinearTable.Copy.{memcpy-row}
use nv_embedding_cache.LinearTable.Cover.{
  run_tasks-once, run_tasks-kept, aligned_keys_per_task-covers,
}

-- The bit of a key's index.
unfoldable pub hit_bit : Option (ℕ → ℕ → Bool) → ℕ → Bool
hit_bit none k = false
hit_bit (some mask) k = mask (k / 64) (k % 64)

-- The tasks start at a word of the mask, so each tests the bit of its key.
is_hit-hit_bit :
    (hit_mask : Option (ℕ → ℕ → Bool)) (idx n t i : ℕ)
    → is_hit hit_mask (idx * aligned_keys_per_task n t) i
      ≡ hit_bit hit_mask (idx * aligned_keys_per_task n t + i)
unfolding is_hit hit_bit aligned_keys_per_task
is_hit-hit_bit none idx n t i = refl
is_hit-hit_bit (some mask) idx n t i =
    let q = (keys_per_task n t + 64 - 1) / 64 in
    let a = idx * q in
    let words : idx * (q * 64) ≡ a * 64 = grind arith in
    let word : a * 64 / 64 + i / 64 ≡ (a * 64 + i) / 64 = omega arith in
    let bit : i % 64 ≡ (a * 64 + i) % 64 = omega arith in
    rw words (ap (λ w. mask w (i % 64)) word ∙ ap (mask ((a * 64 + i) / 64)) bit)

-- The bits of a batch of `n` after `fill_mask`.
hit_bit-fill_mask :
    (n k : ℕ) (mask : ℕ → ℕ → Bool) → k < n → hit_bit (some (fill_mask n mask)) k ≡ true
unfolding hit_bit fill_mask
hit_bit-fill_mask n k mask h = elim (Bool-cases (ltb (k / 64) (n / 64))) [
  | inl e ↦ rw e
  | inr e ↦
      let last : k / 64 == n / 64 && not (n - n / 64 * 64 == 0) ≡ true = ground arith in
      let inside : ltb (k % 64) (n - n / 64 * 64) ≡ true = ground arith in rw (e, last, inside)
]

fill_mask-later : (n w b : ℕ) (mask : ℕ → ℕ → Bool) → n ≤ w * 64 → fill_mask n mask w b ≡ mask w b
unfolding fill_mask
fill_mask-later n w b mask h = ground arith

module _ {ℓ} {A : Type ℓ} (keys : ℕ → ℕ) (stride row n : ℕ) (hit_mask : Option (ℕ → ℕ → Bool))
    (table : ℕ → A) (fits : row ≤ stride) where
  -- What the body does at one position of the output.
  gather_key-at :
      (t k j idx i : ℕ) (m : ℕ → A)
      → j < stride
      → gather_key keys stride row hit_mask table
          (idx * aligned_keys_per_task n t)
          i
          m
          (k * stride + j)
        ≡ (if idx * aligned_keys_per_task n t + i == k
            then (if not (hit_bit hit_mask k) && ltb j row
                then table (keys k * row + j)
                else m (k * stride + j))
            else m (k * stride + j))
  unfolding gather_key
  gather_key-at t k j idx i m g =
      let at_i = idx * aligned_keys_per_task n t + i in
      let bit = is_hit-hit_bit hit_mask idx n t i in
      let copied = memcpy-row m table at_i k stride j (keys at_i * row) row fits g in
      elim (Bool-cases (at_i == k)) [
        | inl e ↦
            let same : at_i ≡ k = ground arith in
            elim (Bool-cases (hit_bit hit_mask k)) [
              | inl b ↦ rw (bit, e, same, b)
              | inr b ↦ rw (bit, e, same, b) (rw (e, same) at copied)
            ]
        | inr e ↦ elim (Bool-cases (hit_bit hit_mask at_i)) [
          | inl b ↦ rw (bit, e, b)
          | inr b ↦ rw (bit, e, b) (copied ∙ rw e refl)
        ]
      ]

  -- A position behind the rows of the batch.
  gather_key-behind :
      (t k j idx i : ℕ) (m : ℕ → A)
      → j < stride
      → n ≤ k
      → idx * aligned_keys_per_task n t + i < n
      → gather_key keys stride row hit_mask table
          (idx * aligned_keys_per_task n t)
          i
          m
          (k * stride + j)
        ≡ m (k * stride + j)
  gather_key-behind t k j idx i m g past inside =
      let other : idx * aligned_keys_per_task n t + i == k ≡ false = ground arith in
      gather_key-at t k j idx i m g ∙ rw other refl

-- What a lookup leaves: the rows of the misses in the output, and the mask full.
pub record Found {ℓ} {A : Type ℓ} (c : LinearConfig) (keys : ℕ → ℕ) (n stride : ℕ)
    (hit_mask : Option (ℕ → ℕ → Bool)) (t : LinearTable A) (values : ℕ → A) (g : Gathered A)
    : Type ℓ where
  pub rows :
      (k j : ℕ)
      → k < n
      → j < stride
      → g.values (k * stride + j) ≡ (
          if not (hit_bit hit_mask k) && ltb j c.max_value_size
          then t.emb_table (keys k * c.max_value_size + j)
          else values (k * stride + j))
  pub behind : (k j : ℕ) → n ≤ k → j < stride → g.values (k * stride + j) ≡ values (k * stride + j)
  pub bits :
      (mask : ℕ → ℕ → Bool) → hit_mask ≡ some mask → (k : ℕ) → k < n → hit_bit g.hit_mask k ≡ true
  pub has_bits :
      (mask : ℕ → ℕ → Bool)
      → hit_mask ≡ some mask
      → (mask' : ℕ → ℕ → Bool) × (g.hit_mask ≡ some mask')
  pub no_bits : hit_mask ≡ none → g.hit_mask ≡ none
  pub later_words :
      (mask : ℕ → ℕ → Bool)
      → hit_mask ≡ some mask
      → (w b : ℕ) → n ≤ w * 64
      → hit_bit g.hit_mask (w * 64 + b % 64) ≡ mask w (b % 64)

filled : ℕ → Option (ℕ → ℕ → Bool) → Option (ℕ → ℕ → Bool)
filled n hit_mask = elim hit_mask [ none ↦ none | some mask ↦ some (fill_mask n mask) ]

bits_filled :
    (n : ℕ) (hit_mask : Option (ℕ → ℕ → Bool)) (mask : ℕ → ℕ → Bool)
    → hit_mask ≡ some mask
    → (k : ℕ) → k < n
    → hit_bit (filled n hit_mask) k ≡ true
unfolding filled
bits_filled n none mask e k h = cc
bits_filled n (some other) mask e k h = hit_bit-fill_mask n k other h

words_filled :
    (n : ℕ) (hit_mask : Option (ℕ → ℕ → Bool)) (mask : ℕ → ℕ → Bool)
    → hit_mask ≡ some mask
    → (w b : ℕ) → n ≤ w * 64
    → hit_bit (filled n hit_mask) (w * 64 + b % 64) ≡ mask w (b % 64)
unfolding filled hit_bit
words_filled n none mask e w b h = cc
words_filled n (some other) mask e w b h =
    let word : (w * 64 + b % 64) / 64 ≡ w = omega arith in
    let bit : (w * 64 + b % 64) % 64 ≡ b % 64 = omega arith in
    let same : other ≡ mask = cc in
    rw (word, bit) (fill_mask-later n w (b % 64) other h ∙ ap (λ m. m w (b % 64)) same)

module _ {ℓ} {A : Type ℓ} (c : LinearConfig) (num_workers : ℕ) (order : List ℕ) (keys : ℕ → ℕ)
    (n stride : ℕ) (hit_mask : Option (ℕ → ℕ → Bool)) (values : ℕ → A) (t : LinearTable A) where
  -- `find` of some keys, with a thread and a stride that rows fit, in any order of its tasks: it
  -- returns, leaves the table and counts every key. At each index whose bit was not set, the output has
  -- the row of the key; every other byte of the output stays. With a mask, the bits of all keys are set
  -- and the words behind them stay; without one there is none.
  pub find-Found :
      0 < n
      → 0 < num_threads c num_workers
      → c.max_value_size ≤ stride
      → Perm order (range_from 0 (num_threads c num_workers))
      → (g : Gathered A) × (find c num_workers order n (some keys) hit_mask stride (some values) t
          ≡ ok (g, record { emb_table = t.emb_table; key_counter = t.key_counter + n }))
        × Found c keys n stride hit_mask t values g
  unfolding find guarded kernel_gather filled
  find-Found some_keys some_thread fits r =
      let threads = num_threads c num_workers in
      let per = aligned_keys_per_task n threads in
      let row = c.max_value_size in
      let body = gather_key keys stride row hit_mask t.emb_table in
      let covers : n ≤ threads * per = aligned_keys_per_task-covers n threads some_thread in
      let has_keys : ltb 0 n ≡ true = ground arith in
      let has_thread : threads == 0 ≡ false = ground arith in
      (
        record { values = run_tasks n body per order values; hit_mask = filled n hit_mask },
        rw (has_keys, has_thread) refl,
        record {
          rows = λ k j h g.
              run_tasks-once n per k (k * stride + j) body
                (λ v.
                  if not (hit_bit hit_mask k) && ltb j row
                  then t.emb_table (keys k * row + j)
                  else v)
                (λ idx i m inside.
                  gather_key-at keys stride row n hit_mask t.emb_table fits threads k j idx i m g)
                h threads order values covers r;
          behind = λ k j past g.
              run_tasks-kept n per (k * stride + j) body
                (λ idx i m inside.
                  gather_key-behind keys stride row n hit_mask t.emb_table fits threads k j idx i m
                    g past inside)
                order values;
          bits = bits_filled n hit_mask;
          has_bits = λ mask e. (fill_mask n mask, ap (filled n) e);
          no_bits = λ e. ap (filled n) e;
          later_words = words_filled n hit_mask;
        },
      )
