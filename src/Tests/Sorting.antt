-- ===== src/Tests/Sorting.antt =====
-- `std::sort` by insertion and `std::shuffle` as the identity: what the table asks of them can be met.
use mathlib.Core.List.Perm
use nv_embedding_cache.Common.{
  ℕ, ◌≤◌, List, [], ◌∷◌, arith, leb, if◌then◌else◌, All-imp, All-perm, Perm, Bool-cases, inl, inr,
}
use nv_embedding_cache.StlTable.Dict.{Entry}
use nv_embedding_cache.StlTable.Part.Defs.{Algorithms, Ascending}
use native.Mathlib.Bridge.{le_prop}

module _ (f : Entry → ℕ) where
  unfoldable pub add_sorted : Entry → List Entry → List Entry
  add_sorted x [] = x ∷ []
  add_sorted x (y ∷ l) = if leb (f x) (f y) then x ∷ y ∷ l else y ∷ add_sorted x l

  unfoldable pub sort : List Entry → List Entry
  sort [] = []
  sort (x ∷ l) = add_sorted x (sort l)

  add_sorted-perm : (x : Entry) (l : List Entry) → Perm (x ∷ l) (add_sorted x l)
  unfolding add_sorted
  add_sorted-perm x [] = Perm.refl (x ∷ [])
  add_sorted-perm x (y ∷ l) = elim (Bool-cases (leb (f x) (f y))) [
    | inl e ↦ rw e (Perm.refl (x ∷ y ∷ l))
    | inr e ↦ rw e (Perm.trans (Perm.swap y x l) (Perm.cons y (add_sorted-perm x l)))
  ]

  pub sort-perm : (l : List Entry) → Perm l (sort l)
  unfolding sort
  sort-perm [] = Perm.refl []
  sort-perm (x ∷ l) = Perm.trans (Perm.cons x (sort-perm l)) (add_sorted-perm x (sort l))

  add_sorted-Ascending : (x : Entry) (l : List Entry) → Ascending f l → Ascending f (add_sorted x l)
  unfolding add_sorted
  add_sorted-Ascending x [] h = (tt, tt)
  add_sorted-Ascending x (y ∷ l) h = elim (Bool-cases (leb (f x) (f y))) [
    | inl e ↦
        rw e
          ((ground arith, All-imp (λ z. f y ≤ f z) (λ z. f x ≤ f z) l (λ z g. ground arith) h.0), h)
    | inr e ↦ rw e (
      All-perm (λ z. f y ≤ f z) (λ z. le_prop) (add_sorted-perm x l) (ground arith, h.0),
      add_sorted-Ascending x l h.1,
    )
  ]

  pub sort-Ascending : (l : List Entry) → Ascending f (sort l)
  unfolding sort
  sort-Ascending [] = tt
  sort-Ascending (x ∷ l) = add_sorted-Ascending x (sort l) (sort-Ascending l)

abbrev pub algorithms : Algorithms
algorithms = record {
  sort = sort;
  shuffle = λ l. l;
  sort-perm = sort-perm;
  sort-ascending = sort-Ascending;
  shuffle-perm = Perm.refl;
}
