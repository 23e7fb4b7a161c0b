-- ===== src/Layer/Thresholds.antt =====
-- The default heuristic of the constructor of `HierarchicalEmbeddingLayer`
-- (src/hierarchical_embedding_layer.cu).
use nv_embedding_cache.Common.{
  some_injective, none-some, true-false, ℕ, zero, suc, ◌+◌, ◌≤◌, ◌<◌, ◌≡◌, refl, sym, ap, ◌∙◌, List,
  [], ◌∷◌, some, arith, ◌==◌, ltb, if◌then◌else◌, length, get_elem?, true, false, Bool-cases,
  Option-cases, inl, inr, ◌⊎◌,
}
use nv_embedding_cache.Layer.Construct.{
  TableInfo, on_host, last_host_idx, push_thresholds, default_thresholds,
}

push_thresholds-at {ℓ} :
    {F : Type ℓ} (zero_ default_ : F) (host i k : ℕ) (ts : List TableInfo)
    → k < length ts
    → get_elem? (push_thresholds zero_ default_ host i ts) k
      ≡ some (if i + k == host then zero_ else default_)
unfolding push_thresholds
push_thresholds-at z d host i k [] h = absurd (omega arith)
push_thresholds-at z d host i zero (t ∷ ts) h = let here : i + 0 ≡ i = omega arith in rw here refl
push_thresholds-at z d host i (suc k) (t ∷ ts) h =
    let next : suc i + k ≡ i + suc k = omega arith in
    rw next at (push_thresholds-at z d host (suc i) k ts (omega arith))

-- What the search finds: the last host table below `i`, or the sentinel.
record LastHost (size i k : ℕ) (ts : List TableInfo) : Type 0 where
  range : (k < i) ⊎ (k ≡ size)
  found : k < i → (t : TableInfo) × (get_elem? ts k ≡ some t) × (on_host t ≡ true)
  later :
      (j : ℕ) (t : TableInfo)
      → j < i
      → get_elem? ts j ≡ some t
      → on_host t ≡ true
      → (j ≤ k) × (k < i)

last_host_idx-LastHost :
    (size i : ℕ) (ts : List TableInfo) → i ≤ size → LastHost size i (last_host_idx size i ts) ts
unfolding last_host_idx
last_host_idx-LastHost size zero ts h = record {
  range = inr refl;
  found = λ l. absurd (omega arith);
  later = λ j t l e o. absurd (omega arith);
}
last_host_idx-LastHost size (suc i) ts h =
    let below = last_host_idx-LastHost size i ts (omega arith) in
    elim (Option-cases (get_elem? ts i)) [
      | inl e ↦ rw (e, last_host_idx) (skip below (λ t g o. none-some (sym e ∙ g)))
      | inr (t, e) ↦ elim (Bool-cases (on_host t)) [
        | inl o ↦
            rw (e, last_host_idx, o)
              (record {
                range = inl (omega arith);
                found = λ l. (t, e, o);
                later = λ j u l f p. (omega arith, omega arith);
              })
        | inr o ↦
            let no_host : (u : TableInfo) → get_elem? ts i ≡ some u → on_host u ≡ true → ⊥ =
              λ u g p. true-false (sym p ∙ ap on_host (some_injective (sym g ∙ e)) ∙ o) in
            rw (e, last_host_idx, o) (skip below no_host)
      ]
    ]
  where
    skip :
        {k : ℕ}
        → LastHost size i k ts
        → ((t : TableInfo) → get_elem? ts i ≡ some t → on_host t ≡ true → ⊥)
        → LastHost size (suc i) k ts
    skip {k} below no_host = record {
      range = elim below.range [ inl l ↦ inl (omega arith) | inr e ↦ inr e ];
      found = λ l. elim below.range [ inl m ↦ below.found m | inr e ↦ absurd (omega arith) ];
      later = λ j t l e o. elim (Bool-cases (j == i)) [
        | inl s ↦
            let at_i : j ≡ i = ground arith in
            absurd (no_host t (ap (get_elem? ts) (sym at_i) ∙ e) o)
        | inr s ↦ let (p, q) = below.later j t (ground arith) e o in (p, omega arith)
      ];
    }

-- Without a heuristic of its own, the layer gives the last host table the threshold zero, and every
-- other table the default one: a table has the threshold zero just if it is on the host and every table
-- behind it is on a GPU.
pub default_thresholds-at {ℓ} :
    {F : Type ℓ} (zero_ default_ : F) (ts : List TableInfo) (k : ℕ) (t : TableInfo)
    → get_elem? ts k ≡ some t
    → k < length ts
    → (on_host t ≡ true
        → ((j : ℕ) (u : TableInfo) → k < j → get_elem? ts j ≡ some u → on_host u ≡ false)
        → get_elem? (default_thresholds zero_ default_ ts) k ≡ some zero_)
      × (((on_host t ≡ false)
            ⊎ ((j : ℕ) × (u : TableInfo) × (k < j)
                × (j < length ts)
                × (get_elem? ts j ≡ some u)
                × (on_host u ≡ true)))
          → get_elem? (default_thresholds zero_ default_ ts) k ≡ some default_)
unfolding default_thresholds
default_thresholds-at z d ts k t e h =
    let n = length ts in
    let host = last_host_idx n n ts in
    let last = last_host_idx-LastHost n n ts (omega arith) in
    let at = push_thresholds-at z d host 0 k ts h in
    (
      λ o none_later.
          let (p, q) = last.later k t h e o in
          let (u, f, v) = last.found q in
          let here : host ≡ k = elim (Bool-cases (ltb k host)) [
            | inl l ↦ absurd (true-false (sym v ∙ none_later host u (ground arith) f))
            | inr l ↦ ground arith
          ] in
          let same : 0 + k == host ≡ true = ground arith in at ∙ rw same refl,
      λ why.
          let other : 0 + k == host ≡ false = elim why [
            | inl gpu ↦ elim (Bool-cases (k == host)) [
              | inl s ↦
                  let same : k ≡ host = ground arith in
                  let (u, f, v) = last.found (omega arith) in
                  absurd (
                    true-false (
                      sym v
                      ∙ ap on_host (some_injective (sym f ∙ ap (get_elem? ts) (sym same) ∙ e))
                      ∙ gpu))
              | inr s ↦ ground arith
            ]
            | inr (j, u, l, m, f, o) ↦ let (p, q) = last.later j u m f o in ground arith
          ] in
          at ∙ rw other refl,
    )
