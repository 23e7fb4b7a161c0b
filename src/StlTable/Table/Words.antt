-- ===== src/StlTable/Table/Words.antt =====
-- The walk over the words of the hit mask in `STLContainerTable::find_`
-- (include/stl_map_backed_table_detail.hpp): which keys of a batch a partition answers.
use native.Mathlib.Nat.{mod-lt}
use nv_embedding_cache.Common.{
  ◌<◌, zero, count, All, ◌++◌, sym, inl, inr, Bool-cases, true-false, ℕ, suc, ◌≤◌, ◌≡◌, refl, ap,
  ◌∙◌, arith, List, [], ◌∷◌, map, Option, none, some, Bool, true, false, not, ◌||◌, ◌==◌,
  if◌then◌else◌, length, get_or,
}
use nv_embedding_cache.StlTable.Table.Find.{
  Word, count_bits, visits, clip, join, words_from, task_words,
}
use nv_embedding_cache.StlTable.Table.Scan.{positions, visits-positions}
use nv_embedding_cache.StlTable.Table.Hits.{visited, effect}

-- What a lookup makes of a cell: a set bit is left alone.
unfoldable pub touch : Bool → Option (List ℕ) → Bool × List ℕ → Bool × List ℕ
touch with_values hit cell = if cell.0 then cell else effect with_values hit cell

pub touch-none : (with_values : Bool) (cell : Bool × List ℕ) → touch with_values none cell ≡ cell
unfolding touch effect
touch-none wv (true, row) = refl
touch-none wv (false, row) = refl

pub touch-twice :
    (with_values : Bool) (hit : Option (List ℕ)) (cell : Bool × List ℕ)
    → touch with_values hit (touch with_values hit cell) ≡ touch with_values hit cell
unfolding touch effect
touch-twice wv none (true, row) = refl
touch-twice wv none (false, row) = refl
touch-twice true (some r) (true, row) = refl
touch-twice true (some r) (false, row) = refl
touch-twice false (some r) (true, row) = refl
touch-twice false (some r) (false, row) = refl

-- The visited positions of a word are those of its set bits.
visited-map-suc : (j : ℕ) (xs : List ℕ) → visited (suc j) (map suc xs) ≡ visited j xs
unfolding visited
visited-map-suc j [] = refl
visited-map-suc j (x ∷ xs) =
    let same : suc j == suc x ≡ j == x = ground arith in rw (same, visited-map-suc j xs) refl

visited-map-zero : (xs : List ℕ) → visited 0 (map suc xs) ≡ false
unfolding visited
visited-map-zero [] = refl
visited-map-zero (x ∷ xs) =
    let apart : 0 == suc x ≡ false = ground arith in rw (apart) (visited-map-zero xs)

visited-positions : (j : ℕ) (w : Word) → visited j (positions w) ≡ get_or w j false
unfolding positions visited
visited-positions j [] = refl
visited-positions zero (true ∷ bs) = refl
visited-positions (suc j) (true ∷ bs) =
    let apart : suc j == 0 ≡ false = ground arith in
    rw apart (visited-map-suc j (positions bs) ∙ visited-positions j bs)
visited-positions zero (false ∷ bs) = visited-map-zero (positions bs)
visited-positions (suc j) (false ∷ bs) = visited-map-suc j (positions bs) ∙ visited-positions j bs

count_bits-le : (w : Word) → count_bits w ≤ length w
unfolding count_bits
count_bits-le [] = omega arith
count_bits-le (true ∷ bs) = omega (arith, count_bits-le bs)
count_bits-le (false ∷ bs) = omega (arith, count_bits-le bs)

pub length-clip : (w : Word) (n : ℕ) → length (clip (map not w) n) ≡ length w
unfolding clip
length-clip [] n = refl
length-clip (b ∷ bs) zero = ap suc (length-clip bs zero)
length-clip (b ∷ bs) (suc n) = ap suc (length-clip bs n)

pub clip-at :
    (w : Word) (n j : ℕ)
    → j < length w
    → j < n
    → get_or (clip (map not w) n) j false ≡ not (get_or w j false)
unfolding clip
clip-at [] n j h g = absurd (omega arith)
clip-at (b ∷ bs) zero j h g = absurd (omega arith)
clip-at (b ∷ bs) (suc n) zero h g = refl
clip-at (b ∷ bs) (suc n) (suc j) h g = clip-at bs n j (omega arith) (omega arith)

pub clip-past : (w : Word) (n j : ℕ) → n ≤ j → get_or (clip (map not w) n) j false ≡ false
unfolding clip
clip-past [] n j h = refl
clip-past (b ∷ bs) zero zero h = refl
clip-past (b ∷ bs) zero (suc j) h = clip-past bs zero j (omega arith)
clip-past (b ∷ bs) (suc n) zero h = absurd (omega arith)
clip-past (b ∷ bs) (suc n) (suc j) h = clip-past bs n j (omega arith)

pub get_or-lt : (w : Word) (j : ℕ) → get_or w j false ≡ true → j < length w
get_or-lt [] j e = absurd (true-false (sym e))
get_or-lt (b ∷ bs) zero e = omega arith
get_or-lt (b ∷ bs) (suc j) e = omega (arith, get_or-lt bs j e)

pub join-at :
    (v w : Word) (j : ℕ) → get_or (join v w) j false ≡ get_or v j false || get_or w j false
unfolding join
join-at [] w j = refl
join-at (a ∷ v) [] zero = ground arith
join-at (a ∷ v) [] (suc j) = ground arith
join-at (a ∷ v) (b ∷ w) zero = refl
join-at (a ∷ v) (b ∷ w) (suc j) = join-at v w j

pub length-join : (v w : Word) → length w ≡ length v → length (join v w) ≡ length v
unfolding join
length-join [] [] e = refl
length-join [] (b ∷ w) e = absurd (omega arith)
length-join (a ∷ v) [] e = refl
length-join (a ∷ v) (b ∷ w) e = ap suc (length-join v w (omega arith))

-- The positions that the loop over the word `mask` visits, where `left` keys are left.
abbrev pub missed : ℕ → Word → ℕ → List ℕ
missed n mask left = visits n (clip (map not mask) left)

pub visited-missed :
    (n j left : ℕ) (mask : Word)
    → length mask ≡ n
    → visited j (missed n mask left) ≡ get_or (clip (map not mask) left) j false
visited-missed n j left mask e =
    let w = clip (map not mask) left in
    ap (visited j) (visits-positions n w (omega (arith, count_bits-le w, length-clip mask left)))
    ∙ visited-positions j w

never_visited : (q : ℕ) (xs : List ℕ) → visited q xs ≡ false → count q xs ≡ 0
unfolding visited
never_visited q [] e = refl
never_visited q (x ∷ xs) e = elim (Bool-cases (q == x)) [
  | inl o ↦ absurd (true-false (sym (rw o refl) ∙ e))
  | inr o ↦ let rest = never_visited q xs (sym (rw o refl) ∙ e) in rw o (omega (arith, rest))
]

pub visited-count : (q : ℕ) (ws : List ℕ) → count q ws ≡ 1 → visited q ws ≡ true
visited-count q ws e = elim (Bool-cases (visited q ws)) [
  | inl v ↦ v
  | inr v ↦ absurd (omega (arith, e, never_visited q ws v))
]

All-append {ℓ} :
    {A : Type ℓ} (P : A → Type 0) (xs ys : List A) → All P xs → All P ys → All P (xs ++ ys)
All-append P [] ys h g = g
All-append P (x ∷ xs) ys h g = (h.0, All-append P xs ys h.1 g)

All-map : (P : ℕ → Type 0) (f : ℕ → ℕ) (xs : List ℕ) → ((x : ℕ) → P (f x)) → All P (map f xs)
All-map P f [] h = tt
All-map P f (x ∷ xs) h = (h x, All-map P f xs h)

pub words_from-lt :
    (task_size size parts part_idx task_idx n : ℕ)
    → 0 < size
    → All (λ w. w < size) (words_from task_size size parts part_idx task_idx n)
unfolding words_from task_words
words_from-lt task_size size parts part_idx task_idx zero h = tt
words_from-lt task_size size parts part_idx task_idx (suc n) h =
    All-append (λ w. w < size) (task_words task_size size parts part_idx task_idx)
      (words_from task_size size parts part_idx (suc task_idx) n)
      (All-map (λ w. w < size) _ _ (λ x. mod-lt _ h))
      (words_from-lt task_size size parts part_idx (suc task_idx) n h)
