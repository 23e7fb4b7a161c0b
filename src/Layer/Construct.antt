-- ===== src/Layer/Construct.antt =====
-- The constructor of `HierarchicalEmbeddingLayer` (src/hierarchical_embedding_layer.cu).
use nv_embedding_cache.Common.{
  some_injective, none-some, true-false, ℕ, zero, suc, ◌≤◌, ◌≡◌, refl, sym, ap, ◌∙◌, List, [], ◌∷◌,
  Option, none, some, arith, ◌==◌, ==_iff, if◌then◌else◌, length, get_elem?, Bool, true, false,
  ◌&&◌, ◌||◌, Bool-cases, inl, inr,
}

-- What the layer reads of a table; `none` is the device -1 of a host table.
pub record TableInfo : Type 0 where
  pub device : Option ℕ
  pub max_row_size : ℕ

unfoldable pub on_host : TableInfo → Bool
on_host t = elim t.device [ none ↦ true | some d ↦ false ]

unfoldable pub same_device : Option ℕ → Option ℕ → Bool
same_device none none = true
same_device none (some e) = false
same_device (some d) none = false
same_device (some d) (some e) = d == e

-- The loop over the tables; `previous` is the device of the table before, if there is one.
unfoldable pub check_tables : ℕ → Option (Option ℕ) → List TableInfo → Bool
check_tables row previous [] = true
check_tables row previous (t ∷ ts) =
    let rest = check_tables row (some t.device) ts in
    (on_host t || (elim previous [ none ↦ true | some d ↦ same_device t.device d ]))
    && (t.max_row_size == row && rest)

-- `tables_.rbegin()`, where the table before is `t`
unfoldable pub last_table : TableInfo → List TableInfo → TableInfo
last_table t [] = t
last_table t (u ∷ ts) = last_table u ts

-- The checks of the constructor, for a default embedding of so many bytes.
unfoldable pub check_layer : ℕ → List TableInfo → Bool
check_layer default_size [] = false
check_layer default_size (t ∷ ts) =
    check_tables t.max_row_size none (t ∷ ts)
    && (default_size == 0 || (t.max_row_size == default_size && on_host (last_table t ts)))

-- The loop that looks for the last host table, from the table `i` - 1 down; `size` if there is none.
unfoldable pub last_host_idx : ℕ → ℕ → List TableInfo → ℕ
last_host_idx size zero ts = size
last_host_idx size (suc i) ts =
    let before = last_host_idx size i ts in
    elim (get_elem? ts i) [ none ↦ before | some t ↦ if on_host t then i else before ]

-- The default thresholds, from the table `i` on.
unfoldable pub push_thresholds {ℓ} : {F : Type ℓ} → F → F → ℕ → ℕ → List TableInfo → List F
push_thresholds zero_ default_ host i [] = []
push_thresholds zero_ default_ host i (t ∷ ts) =
    (if i == host then zero_ else default_) ∷ push_thresholds zero_ default_ host (suc i) ts

unfoldable pub default_thresholds {ℓ} : {F : Type ℓ} → F → F → List TableInfo → List F
default_thresholds zero_ default_ ts =
    push_thresholds zero_ default_ (last_host_idx (length ts) (length ts) ts) 0 ts

previous_same :
    (d : ℕ) (previous : Option (Option ℕ)) (device p : Option ℕ)
    → device ≡ some d
    → (elim device [ none ↦ true | some e ↦ false ])
        || (elim previous [ none ↦ true | some q ↦ same_device device q ])
      ≡ true
    → previous ≡ some p
    → p ≡ some d
unfolding same_device
previous_same d none device p e ok f = absurd (none-some f)
previous_same d (some q) none p e ok f = absurd (none-some e)
previous_same d (some none) (some e') p e ok f = absurd (true-false (sym ok))
previous_same d (some (some q)) (some e') p e ok f =
    sym (some_injective f) ∙ ap some (sym ((==_iff e' q).0 ok) ∙ some_injective e)

first_or_later :
    (d : ℕ) (t : TableInfo) (ts : List TableInfo) (j : ℕ)
    → t.device ≡ some d
    → ((i : ℕ) (v : TableInfo) → i ≤ j → get_elem? ts i ≡ some v → v.device ≡ some d)
    → (i : ℕ) (v : TableInfo) → i ≤ suc j
    → get_elem? (t ∷ ts) i ≡ some v
    → v.device ≡ some d
first_or_later d t ts j first rest zero v l e = sym (ap (λ x. x.device) (some_injective e)) ∙ first
first_or_later d t ts j first rest (suc i) v l e = rest i v (omega arith) e

and_left : (a b : Bool) → a && b ≡ true → a ≡ true
and_left true b e = refl
and_left false b e = e

and_right : (a b : Bool) → a && b ≡ true → b ≡ true
and_right true b e = e
and_right false b e = absurd (true-false (sym e))

-- What an accepted list says of a GPU table: the tables before it, and the one before the list, are on
-- its device.
check_tables-before :
    (row d : ℕ) (previous : Option (Option ℕ)) (ts : List TableInfo) (j : ℕ) (u : TableInfo)
    → check_tables row previous ts ≡ true
    → get_elem? ts j ≡ some u
    → u.device ≡ some d
    → ((i : ℕ) (t : TableInfo) → i ≤ j → get_elem? ts i ≡ some t → t.device ≡ some d)
      × ((p : Option ℕ) → previous ≡ some p → p ≡ some d)
unfolding check_tables on_host
check_tables-before row d previous [] j u ok f dev = absurd (none-some f)
check_tables-before row d previous (t ∷ ts) zero u ok f dev =
    let first : t.device ≡ some d = ap (λ x. x.device) (some_injective f) ∙ dev in
    (
      λ i v l e. elim (Bool-cases (i == 0)) [
        | inl s ↦
            let at_0 : i ≡ 0 = ground arith in
            let same : some t ≡ some v = ap (get_elem? (t ∷ ts)) (sym at_0) ∙ e in
            sym (ap (λ x. x.device) (some_injective same)) ∙ first
        | inr s ↦ absurd (ground arith)
      ],
      λ p e. previous_same d previous t.device p first (and_left _ _ ok) e,
    )
check_tables-before row d previous (t ∷ ts) (suc j) u ok f dev =
    let rest =
      check_tables-before row d (some t.device) ts j u (and_right _ _ (and_right _ _ ok)) f dev in
    let first : t.device ≡ some d = rest.1 t.device refl in
    (
      λ i v l e. first_or_later d t ts j first rest.0 i v l e,
      λ p e. previous_same d previous t.device p first (and_left _ _ ok) e,
    )

-- In the tables that the constructor accepts, every table before a GPU table is on the same GPU: GPU
-- tables come first, and on one device.
pub check_layer-gpu_first :
    (default_size : ℕ) (ts : List TableInfo) (i j d : ℕ) (t u : TableInfo)
    → check_layer default_size ts ≡ true
    → i ≤ j
    → get_elem? ts i ≡ some t
    → get_elem? ts j ≡ some u
    → u.device ≡ some d
    → t.device ≡ some d
unfolding check_layer
check_layer-gpu_first default_size [] i j d t u ok le e f dev = absurd (none-some e)
check_layer-gpu_first default_size (v ∷ ts) i j d t u ok le e f dev =
    (check_tables-before v.max_row_size d none (v ∷ ts) j u (and_left _ _ ok) f dev).0 i t le e
