-- ===== src/Common/Counts.antt =====
-- How often a number occurs in a list, and in the image of a list: a form of "no duplicates", of
-- "disjoint" and of "the same items" that linear arithmetic reads.
use Prim.Native.Nat.{ℕ, zero, suc, ◌+◌}
use mathlib.Core.Bool.{Bool, true, false}
use mathlib.Core.List.{List, [], ◌∷◌, Perm, Permᴰ}
use mathlib.Core.Logic.{∥∥₁_elim}
use mathlib.Core.Path.{◌≡◌, refl, ◌∙◌, ap, subst}
use native.Mathlib.Nat.{ℕ_set}
use native.Mathlib.Omega.{arith}
use nv_embedding_cache.Common.Tests.{◌==◌}
use nv_embedding_cache.Common.Lists.{take, drop, All, length}

abbrev pub to_nat : Bool → ℕ
to_nat true = 1
to_nat false = 0

abbrev pub count : ℕ → List ℕ → ℕ
count q [] = 0
count q (x ∷ xs) = to_nat (q == x) + count q xs

module _ {ℓ} {A : Type ℓ} (f : A → ℕ) where
  -- How many elements `f` sends to the number.
  abbrev pub count_by : ℕ → List A → ℕ
  count_by q [] = 0
  count_by q (x ∷ xs) = to_nat (q == f x) + count_by q xs

  pub count_by-take-drop :
      (q n : ℕ) (xs : List A) → count_by q (take n xs) + count_by q (drop n xs) ≡ count_by q xs
  count_by-take-drop q zero xs = omega arith
  count_by-take-drop q (suc n) [] = omega arith
  count_by-take-drop q (suc n) (x ∷ xs) = omega (arith, count_by-take-drop q n xs)

  count_by-permᴰ : (q : ℕ) {xs ys : List A} → Permᴰ xs ys → count_by q xs ≡ count_by q ys
  count_by-permᴰ q Permᴰ.nil = refl
  count_by-permᴰ q (Permᴰ.cons e p) = ground (arith, ap f e, count_by-permᴰ q p)
  count_by-permᴰ q (Permᴰ.swap e d) = ground (arith, ap f e, ap f d)
  count_by-permᴰ q (Permᴰ.trans p r) = count_by-permᴰ q p ∙ count_by-permᴰ q r

  pub count_by-perm : (q : ℕ) {xs ys : List A} → Perm xs ys → count_by q xs ≡ count_by q ys
  count_by-perm q p = ∥∥₁_elim p (ℕ_set _ _) (count_by-permᴰ q)

module _ {ℓ κ} {A : Type ℓ} (P : A → Type κ) where
  All-prop : (p : (x : A) → IsProp (P x)) (xs : List A) → IsProp (All P xs)
  All-prop p [] = hlevel
  All-prop p (x ∷ xs) = hlevel (p x, All-prop p xs)

  All-permᴰ : {xs ys : List A} → Permᴰ xs ys → All P xs → All P ys
  All-permᴰ Permᴰ.nil h = tt
  All-permᴰ (Permᴰ.cons e p) h = (subst P e h.0, All-permᴰ p h.1)
  All-permᴰ (Permᴰ.swap e d) h = (subst P d h.1.0, (subst P e h.0, h.1.1))
  All-permᴰ (Permᴰ.trans p r) h = All-permᴰ r (All-permᴰ p h)

  pub All-perm : (p : (x : A) → IsProp (P x)) {xs ys : List A} → Perm xs ys → All P xs → All P ys
  All-perm p {ys} r h = ∥∥₁_elim r (All-prop p ys) (λ d. All-permᴰ d h)

module _ {ℓ} {A : Type ℓ} where
  length-permᴰ : {xs ys : List A} → Permᴰ xs ys → length xs ≡ length ys
  length-permᴰ Permᴰ.nil = refl
  length-permᴰ (Permᴰ.cons e p) = ap suc (length-permᴰ p)
  length-permᴰ (Permᴰ.swap e d) = ap (λ n. suc (suc n)) refl
  length-permᴰ (Permᴰ.trans p r) = length-permᴰ p ∙ length-permᴰ r

  pub length-perm : {xs ys : List A} → Perm xs ys → length xs ≡ length ys
  length-perm p = ∥∥₁_elim p (ℕ_set _ _) length-permᴰ
