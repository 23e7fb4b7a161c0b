-- ===== src/StlTable/Table/Batch.antt =====
-- What a batch of `STLContainerTable` (include/stl_map_backed_table_detail.hpp) is about: the rows of
-- its buffers, the last row of each key, and the tasks of all partitions together.
use mathlib.Core.Path.{subst₂}
use nv_embedding_cache.Common.{
  ℕ, zero, suc, ◌+◌, ◌*◌, ◌≤◌, ◌≡◌, refl, subst, ◌⊎◌, List, [], ◌∷◌, Option, none, some, arith,
  ◌==◌, if◌then◌else◌, length, drop, length-take, length-drop, All, get_elem?, Bool-cases, inl, inr,
}
use nv_embedding_cache.StlTable.Part.Defs.{Partition}
use nv_embedding_cache.StlTable.Part.View.{view}
use nv_embedding_cache.StlTable.Table.Defs.{rows_from, execute_each}

-- The value of a key after the rows of a batch, the last of which wins.
unfoldable pub written : ℕ → List (ℕ × List ℕ) → Option (List ℕ) → Option (List ℕ)
written j [] v = v
written j ((k, row) ∷ rest) v = written j rest (if j == k then some row else v)

-- A cache may forget a value, and never makes one up.
abbrev pub Agrees : Option (List ℕ) → Option (List ℕ) → Type 0
Agrees w v = (w ≡ v) ⊎ (w ≡ none)

pub written-Agrees :
    (j : ℕ) (rows : List (ℕ × List ℕ)) (v w : Option (List ℕ))
    → Agrees w v
    → Agrees (written j rows w) (written j rows v)
unfolding written
written-Agrees j [] v w h = h
written-Agrees j ((k, row) ∷ rest) v w h = elim (Bool-cases (j == k)) [
  | inl e ↦ rw e (inl refl)
  | inr e ↦ rw e (written-Agrees j rest v w h)
]

-- The rows of a buffer that is long enough are full.
pub rows_from-full :
    (stride size : ℕ) (values : List ℕ) (i : ℕ) (keys : List ℕ)
    → size ≤ stride
    → (i + length keys) * stride ≤ length values
    → All (λ r. length r.1 ≡ size) (rows_from stride size values i keys)
unfolding rows_from
rows_from-full stride size values i [] h g = tt
rows_from-full stride size values i (k ∷ ks) h g =
    let step : i * stride + stride + length ks * stride ≡ (i + suc (length ks)) * stride =
      grind arith in
    let next : (suc i + length ks) * stride ≡ (i + suc (length ks)) * stride = grind arith in
    (
      omega (
        arith,
        length-take size (drop (i * stride) values),
        length-drop (i * stride) values,
        step,
      ),
      rows_from-full stride size values (suc i) ks h (rw next g),
    )

pub length-rows_from-le :
    (stride size : ℕ) (values : List ℕ) (i : ℕ) (keys : List ℕ)
    → All (λ r. length r.1 ≤ size) (rows_from stride size values i keys)
unfolding rows_from
length-rows_from-le stride size values i [] = tt
length-rows_from-le stride size values i (k ∷ ks) = (
  omega (arith, length-take size (drop (i * stride) values)),
  length-rows_from-le stride size values (suc i) ks,
)

-- The view of a key in the table: that of its partition.
unfoldable pub view_at : (ℕ → ℕ) → ℕ → List Partition → Option (List ℕ)
view_at part_of k parts = elim (get_elem? parts (part_of k)) [ none ↦ none | some p ↦ view k p ]

-- A relation between the partitions before and after, each with its number.
abbrev pub Each :
    (ℕ → Partition → Partition → Type 0) → ℕ → List Partition → List Partition → Type 0
Each R i [] [] = Unit
Each R i [] (q ∷ qs) = ⊥
Each R i (p ∷ ps) [] = ⊥
Each R i (p ∷ ps) (q ∷ qs) = R i p q × Each R (suc i) ps qs

-- Where every task succeeds, `execute_each` does, with what the tasks promise.
pub execute_each-Each :
    (P : Partition → Type 0) (R : ℕ → Partition → Partition → Type 0)
    (f : ℕ → Partition → Option Partition)
    → ((i : ℕ) (p : Partition) → P p → (q : Partition) × (f i p ≡ some q) × R i p q)
    → (i : ℕ) (ps : List Partition) → All P ps
    → (qs : List Partition) × (execute_each f i ps ≡ some qs) × Each R i ps qs
unfolding execute_each
execute_each-Each P R f h i [] a = ([], refl, tt)
execute_each-Each P R f h i (p ∷ ps) a =
    let (q, x, r) = h i p a.0 in
    let (qs, y, rs) = execute_each-Each P R f h (suc i) ps a.1 in
    (q ∷ qs, rw (x, execute_each, y), (r, rs))

pub Each-All :
    (P : Partition → Type 0) (R : ℕ → Partition → Partition → Type 0)
    → ((i : ℕ) (p q : Partition) → R i p q → P q)
    → (i : ℕ) (ps qs : List Partition) → Each R i ps qs
    → All P qs
Each-All P R h i [] [] e = tt
Each-All P R h i [] (q ∷ qs) e = absurd e
Each-All P R h i (p ∷ ps) [] e = absurd e
Each-All P R h i (p ∷ ps) (q ∷ qs) e = (h i p q e.0, Each-All P R h (suc i) ps qs e.1)

pub Each-at :
    (R : ℕ → Partition → Partition → Type 0) (i : ℕ) (ps qs : List Partition) (n : ℕ)
    (p : Partition)
    → Each R i ps qs
    → get_elem? ps n ≡ some p
    → (q : Partition) × (get_elem? qs n ≡ some q) × R (i + n) p q
Each-at R i [] qs n p e g = absurd (ground arith)
Each-at R i (p ∷ ps) [] n r e g = absurd e
Each-at R i (p ∷ ps) (q ∷ qs) zero r e g =
    (q, refl, subst₂ (λ m t. R m t q) (omega arith) (ground arith) e.0)
Each-at R i (p ∷ ps) (q ∷ qs) (suc n) r e g =
    let (t, h, x) = Each-at R (suc i) ps qs n r e.1 g in
    let shift : suc i + n ≡ i + suc n = omega arith in (t, h, subst (λ m. R m r t) shift x)

pub Each-refl :
    (P : Partition → Type 0) (R : ℕ → Partition → Partition → Type 0)
    → ((i : ℕ) (p : Partition) → P p → R i p p)
    → (i : ℕ) (ps : List Partition) → All P ps
    → Each R i ps ps
Each-refl P R h i [] a = tt
Each-refl P R h i (p ∷ ps) a = (h i p a.0, Each-refl P R h (suc i) ps a.1)

pub Each-none :
    (R : ℕ → Partition → Partition → Type 0) (i : ℕ) (ps qs : List Partition) (n : ℕ)
    → Each R i ps qs
    → get_elem? ps n ≡ none
    → get_elem? qs n ≡ none
Each-none R i [] [] n e g = refl
Each-none R i [] (q ∷ qs) n e g = absurd e
Each-none R i (p ∷ ps) [] n e g = absurd e
Each-none R i (p ∷ ps) (q ∷ qs) zero e g = cc
Each-none R i (p ∷ ps) (q ∷ qs) (suc n) e g = Each-none R (suc i) ps qs n e.1 g

pub get_elem?-lt {ℓ} : {A : Type ℓ} (xs : List A) (n : ℕ) → get_elem? xs n ≡ none → length xs ≤ n
get_elem?-lt [] n e = omega arith
get_elem?-lt (x ∷ xs) zero e = cc
get_elem?-lt (x ∷ xs) (suc n) e = omega (arith, get_elem?-lt xs n e)

pub All-at {ℓ κ} :
    {A : Type ℓ} (P : A → Type κ) (xs : List A) (n : ℕ) (x : A)
    → All P xs
    → get_elem? xs n ≡ some x
    → P x
All-at P [] n x a e = absurd (ground arith)
All-at P (y ∷ xs) zero x a e = subst P (ground arith) a.0
All-at P (y ∷ xs) (suc n) x a e = All-at P xs n x a.1 e
