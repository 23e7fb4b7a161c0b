-- ===== src/Layer/Bits.antt =====
-- The bits of a hit mask, counted by word and by index, in words of 64 bits.
use nv_embedding_cache.Common.{
  ℕ, zero, suc, ◌+◌, ◌*◌, ◌/◌, ◌%◌, ◌<◌, ◌≡◌, refl, ap, ◌∙◌, sym, arith, List, [], ◌∷◌, map, Bool,
  false, to_nat, length, get_or, range_from,
}
use nv_embedding_cache.StlTable.Table.Find.{Word, count_bits}
use nv_embedding_cache.StlTable.Table.Counter.{set_bits}
use nv_embedding_cache.Layer.Chain.{count_set, count_set_mono}

module _ {ℓ} {A : Type ℓ} (f : ℕ → A) where
  pub get_or-map-range :
      (i n k : ℕ) (d : A) → k < n → get_or (map f (range_from i n)) k d ≡ f (i + k)
  get_or-map-range i zero k d h = absurd (omega arith)
  get_or-map-range i (suc n) zero d h = ap f (omega arith)
  get_or-map-range i (suc n) (suc k) d h =
      get_or-map-range (suc i) n k d (omega arith) ∙ ap f (omega arith)

  pub length-map-range : (i n : ℕ) → length (map f (range_from i n)) ≡ n
  length-map-range i zero = refl
  length-map-range i (suc n) = ap suc (length-map-range (suc i) n)

pub count_set-same :
    (bit bit' : ℕ → Bool) (n : ℕ)
    → ((k : ℕ) → k < n → bit k ≡ bit' k)
    → count_set bit n ≡ count_set bit' n
count_set-same bit bit' n h =
    let up = count_set_mono bit bit' n (λ k l e. sym (h k l) ∙ e) in
    let down = count_set_mono bit' bit n (λ k l e. h k l ∙ e) in omega (arith, up, down)

pub count_set-add :
    (bit : ℕ → Bool) (a b : ℕ)
    → count_set bit (a + b) ≡ count_set bit a + count_set (λ i. bit (a + i)) b
unfolding count_set
count_set-add bit a zero = let same : a + 0 ≡ a = omega arith in rw same (omega arith)
count_set-add bit a (suc b) =
    let next : a + suc b ≡ suc (a + b) = omega arith in
    rw (next, count_set) (omega (arith, count_set-add bit a b))

count_set-first :
    (bit : ℕ → Bool) (n : ℕ)
    → count_set bit (suc n) ≡ to_nat (bit 0) + count_set (λ i. bit (suc i)) n
unfolding count_set
count_set-first bit zero = refl
count_set-first bit (suc n) = omega (arith, count_set-first bit n)

count_bits-count_set : (w : Word) → count_bits w ≡ count_set (λ j. get_or w j false) (length w)
unfolding count_bits count_set
count_bits-count_set [] = refl
count_bits-count_set (b ∷ bs) =
    ap (λ n. to_nat b + n) (count_bits-count_set bs)
    ∙ sym (count_set-first (λ j. get_or (b ∷ bs) j false) (length bs))

-- The bit at an index.
abbrev pub bit_at : List Word → ℕ → Bool
bit_at ws x = get_or (get_or ws (x / 64) []) (x % 64) false

pub set_bits-count_set :
    (ws : List Word)
    → ((w : ℕ) → w < length ws → length (get_or ws w []) ≡ 64)
    → set_bits ws ≡ count_set (bit_at ws) (length ws * 64)
unfolding set_bits
set_bits-count_set [] h = unfold count_set in refl
set_bits-count_set (w ∷ ws) h =
    let width : length w ≡ 64 = h 0 (omega arith) in
    let rest = set_bits-count_set ws (λ v l. h (suc v) (omega arith)) in
    let split : suc (length ws) * 64 ≡ 64 + length ws * 64 = omega arith in
    let first : count_set (bit_at (w ∷ ws)) 64 ≡ count_set (λ j. get_or w j false) 64 =
      count_set-same (bit_at (w ∷ ws)) (λ j. get_or w j false) 64
        (λ k l.
          let word : k / 64 ≡ 0 = omega arith in
          let bit : k % 64 ≡ k = omega arith in rw (word, bit) refl) in
    let others : count_set (λ i. bit_at (w ∷ ws) (64 + i)) (length ws * 64)
        ≡ count_set (bit_at ws) (length ws * 64) =
      count_set-same (λ i. bit_at (w ∷ ws) (64 + i)) (bit_at ws) (length ws * 64)
        (λ k l.
          let word : (64 + k) / 64 ≡ suc (k / 64) = omega arith in
          let bit : (64 + k) % 64 ≡ k % 64 = omega arith in rw (word, bit) refl) in
    let sum = count_set-add (bit_at (w ∷ ws)) 64 (length ws * 64) in
    let own : count_bits w ≡ count_set (λ j. get_or w j false) 64 =
      count_bits-count_set w ∙ ap (count_set (λ j. get_or w j false)) width in
    rw split (omega (arith, own, rest, first, others, sum))
