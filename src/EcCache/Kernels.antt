-- ===== src/EcCache/Kernels.antt =====
-- The kernels of include/ecache/ec_set_associative.cuh as assignments, one for each entry.
use nv_embedding_cache.Common.{
  ℕ, ◌<◌, ◌≡◌, refl, ap, sym, ◌∙◌, arith, List, [], ◌∷◌, ◌==◌, All, Bool-cases, ==_iff, count_by,
  ◌⊎◌, inl, inr,
}
use nv_embedding_cache.EcCache.State.{assign, assign_all}

module _ {E V : Type 0} (slot : E → ℕ) (value : (ℕ → V) → E → V) where
  -- A slot that no entry names keeps its value.
  pub assign_all-other :
      (es : List E) (a : ℕ → V) (s : ℕ)
      → count_by slot s es ≡ 0
      → assign_all slot value es a s ≡ a s
  unfolding assign_all
  assign_all-other [] a s h = refl
  assign_all-other (e ∷ es) a s h = elim (Bool-cases (s == slot e)) [
    | inl q ↦ absurd (ground (arith, q))
    | inr q ↦
        let here : assign a (slot e) (value a e) s ≡ a s = rw q refl in
        assign_all-other es (assign a (slot e) (value a e)) s (ground (arith, q)) ∙ here
  ]

  -- When every entry gives its slot the value that `g` has there, so that the order of the entries does
  -- not matter, the slots they name have that value afterwards, and so have those that had it before.
  pub assign_all-agree :
      (g : ℕ → V) (es : List E) (a : ℕ → V) (s : ℕ)
      → All (λ e. (b : ℕ → V) → value b e ≡ g (slot e)) es
      → (0 < count_by slot s es) ⊎ (a s ≡ g s)
      → assign_all slot value es a s ≡ g s
  unfolding assign_all
  assign_all-agree g [] a s h (inl p) = absurd (omega arith)
  assign_all-agree g [] a s h (inr p) = p
  assign_all-agree g (e ∷ es) a s h p = elim (Bool-cases (s == slot e)) [
    | inl q ↦
        let same : s ≡ slot e = (==_iff s (slot e)).0 q in
        let here : assign a (slot e) (value a e) s ≡ g s = rw q (h.0 a ∙ ap g (sym same)) in
        assign_all-agree g es (assign a (slot e) (value a e)) s h.1 (inr here)
    | inr q ↦
        let here : assign a (slot e) (value a e) s ≡ a s = rw q refl in
        assign_all-agree g es (assign a (slot e) (value a e)) s h.1
          (elim p [ inl k ↦ inl (ground (arith, k, q)) | inr k ↦ inr (here ∙ k) ])
  ]
