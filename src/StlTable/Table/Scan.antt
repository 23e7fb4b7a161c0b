-- ===== src/StlTable/Table/Scan.antt =====
-- The loops of `STLContainerTable::find_` (include/stl_map_backed_table_detail.hpp): the bits of a word
-- that are visited, and the words that the tasks of a partition visit.
use native.Mathlib.Nat.{mod-eq_of_lt, mod-eq-sub-mod, add-mod-mod, mod-lt, div-add-mod'}
use nv_embedding_cache.Common.{
  ℕ, zero, suc, ◌+◌, ◌-◌, ◌*◌, ◌/◌, ◌%◌, ◌≤◌, ◌<◌, ◌≡◌, refl, ap, sym, ◌∙◌, min, List, [], ◌∷◌,
  ◌++◌, map, arith, ltb, leb, if◌then◌else◌, range_from, true, false, ◌&&◌, Bool-cases, inl, inr,
  count, to_nat, ◌⊎◌, fun_ext,
}
use mathlib.Core.List.{append-nil}
use nv_embedding_cache.StlTable.Table.Find.{
  Word, has_next, next, skip, count_bits, visits, task_words, words_from, num_tasks_per_part,
}

-- The positions of the set bits, in ascending order.
unfoldable pub positions : Word → List ℕ
positions [] = []
positions (true ∷ bs) = 0 ∷ map suc (positions bs)
positions (false ∷ bs) = map suc (positions bs)

visits-false : (n : ℕ) (bs : Word) → visits n (false ∷ bs) ≡ map suc (visits n bs)
unfolding visits has_next next skip
visits-false zero bs = refl
visits-false (suc n) bs = elim (Bool-cases (has_next bs)) [
  | inl e ↦ rw e (ap (λ r. suc (next bs) ∷ r) (visits-false n (skip bs)))
  | inr e ↦ rw e refl
]

visits-none : (n : ℕ) → visits n [] ≡ []
unfolding visits has_next
visits-none zero = refl
visits-none (suc n) = refl

-- The loop over `has_next`, `next` and `skip`, where it may turn as often as the word has set bits, visits
-- the positions of the set bits, each once and in ascending order.
pub visits-positions : (n : ℕ) (w : Word) → count_bits w ≤ n → visits n w ≡ positions w
unfolding visits has_next next skip positions count_bits
visits-positions n [] h = visits-none n
visits-positions zero (true ∷ bs) h = absurd (omega arith)
visits-positions (suc n) (true ∷ bs) h =
    ap (λ r. 0 ∷ r) (visits-false n bs ∙ ap (map suc) (visits-positions n bs (omega arith)))
visits-positions n (false ∷ bs) h =
    visits-false n bs ∙ ap (map suc) (visits-positions n bs (omega arith))

-- The words of a partition are a rotation of all words.
rotated : ℕ → ℕ → List ℕ → List ℕ
rotated size by xs = map (λ x. (x + by) % size) xs

map-append : (g : ℕ → ℕ) (xs ys : List ℕ) → map g (xs ++ ys) ≡ map g xs ++ map g ys
map-append g [] ys = refl
map-append g (x ∷ xs) ys = ap (λ r. g x ∷ r) (map-append g xs ys)

range_from-split : (i a b : ℕ) → range_from i a ++ range_from (i + a) b ≡ range_from i (a + b)
range_from-split i zero b =
    let start : i + 0 ≡ i = omega arith in let sum : 0 + b ≡ b = omega arith in rw (start, sum) refl
range_from-split i (suc a) b =
    let next_one : i + suc a ≡ suc i + a = omega arith in
    let sum : suc a + b ≡ suc (a + b) = omega arith in
    rw (sum, next_one) (ap (λ r. i ∷ r) (range_from-split (suc i) a b))

task_words-rotated :
    (g h : ℕ → ℕ) (a i n : ℕ)
    → ((x : ℕ) → g x ≡ h (a + x))
    → map g (range_from i n) ≡ map h (range_from (a + i) n)
task_words-rotated g h a i zero e = refl
task_words-rotated g h a i (suc n) e =
    let next_one : a + suc i ≡ suc (a + i) = omega arith in
    rw (e i) (ap (λ r. h (a + i) ∷ r) (task_words-rotated g h a (suc i) n e ∙ rw next_one refl))

-- A short task is the last.
range_from-joined :
    (a m ts r : ℕ)
    → (ts ≡ m) ⊎ (r ≡ 0)
    → range_from a ts ++ range_from (a + m) r ≡ range_from a (ts + r)
range_from-joined a m ts r (inl e) = rw (← e) (range_from-split a ts r)
range_from-joined a m ts r (inr e) =
    let sum : ts + 0 ≡ ts = omega arith in rw (e, sum) (append-nil (range_from a ts))

words_from-rotated :
    (m size parts p t n : ℕ)
    → words_from m size parts p t n
      ≡ rotated size (size * p / parts) (range_from (m * t) (min (n * m) (size - m * t)))
unfolding words_from task_words rotated
words_from-rotated m size parts p t zero =
    let none : min (0 * m) (size - m * t) ≡ 0 = omega arith in rw none refl
words_from-rotated m size parts p t (suc n) =
    let by = size * p / parts in
    let a = m * t in
    let ts = min m (size - a) in
    let r = min (n * m) (size - m * suc t) in
    let start : m * suc t ≡ a + m = grind arith in
    let zero_on : a + 0 ≡ a = omega arith in
    let all : min (suc n * m) (size - a) ≡ ts + r = grind (arith, start) in
    let short : (ts ≡ m) ⊎ (r ≡ 0) = elim (Bool-cases (leb m (size - a))) [
      | inl e ↦ inl (ground (arith, e))
      | inr e ↦ inr (ground (arith, e, start))
    ] in
    let here : map (λ i. (m * t + size * p / parts + i) % size) (range_from 0 ts)
        ≡ rotated size by (range_from a ts) =
      task_words-rotated _ (λ x. (x + by) % size) a 0 ts (λ x. ap (λ k. k % size) (omega arith))
      ∙ rw zero_on refl in
    let others : words_from m size parts p (suc t) n ≡ rotated size by (range_from (a + m) r) =
      words_from-rotated m size parts p (suc t) n
      ∙ ap (λ k. rotated size by (range_from k r)) start in
    rw (here, others, all)
      (sym (map-append (λ x. (x + by) % size) (range_from a ts) (range_from (a + m) r))
        ∙ ap (rotated size by) (range_from-joined a m ts r short))

-- Adding `r` modulo `size` wraps around at most once.
wrapped :
    (a r size : ℕ)
    → a < size
    → r < size
    → (a + r) % size ≡ (if ltb (a + r) size then a + r else a + r - size)
wrapped a r size h g = elim (Bool-cases (ltb (a + r) size)) [
  | inl e ↦ rw e (mod-eq_of_lt (ground (arith, e)))
  | inr e ↦ rw e (mod-eq-sub-mod (ground (arith, e)) ∙ mod-eq_of_lt (ground (arith, e)))
]

count-rotated :
    (q r size a n : ℕ)
    → q < size
    → r < size
    → a + n ≤ size
    → count q (rotated size r (range_from a n))
      ≡ (let y = if leb r q then q - r else q + size - r in to_nat (leb a y && ltb y (a + n)))
unfolding rotated
count-rotated q r size a zero h g l = ground arith
count-rotated q r size a (suc n) h g l =
    ground
      (arith, wrapped a r size (omega arith) g, count-rotated q r size (suc a) n h g (omega arith))

enough_tasks : (m size : ℕ) → 0 < m → size ≤ num_tasks_per_part m size * m
unfolding num_tasks_per_part
enough_tasks m size h = omega (arith, div-add-mod' (size + m - 1) m, mod-lt (size + m - 1) h)

-- The tasks of a partition, whatever the partition, the number of partitions and the size of a task,
-- which is not 0: together they visit each word of the hit mask exactly once.
pub words_from-once :
    (max_find_task_size hm_size parts part_idx q : ℕ)
    → 0 < max_find_task_size
    → q < hm_size
    → count q (
        words_from max_find_task_size hm_size parts part_idx 0
          (num_tasks_per_part max_find_task_size hm_size))
      ≡ 1
unfolding rotated
words_from-once m size parts p q h g =
    let by = size * p / parts in
    let tasks = num_tasks_per_part m size in
    let start : m * 0 ≡ 0 = omega arith in
    let all : min (tasks * m) (size - 0) ≡ size = omega (arith, enough_tasks m size h) in
    let turn : map (λ x. (x + by) % size) (range_from 0 size)
        ≡ map (λ x. (x + by % size) % size) (range_from 0 size) =
      ap (λ k. map k (range_from 0 size)) (fun_ext (λ x. sym (add-mod-mod x by size))) in
    let less : by % size < size = mod-lt by (omega arith) in
    rw (words_from-rotated m size parts p 0 tasks, start, all, turn)
      (count-rotated q (by % size) size 0 size g less (omega arith) ∙ ground arith)
