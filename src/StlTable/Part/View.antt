-- ===== src/StlTable/Part/View.antt =====
-- The abstract view of a partition, a partial function from keys to values, and what each operation
-- of include/stl_map_backed_table_detail.hpp does to it.
use nv_embedding_cache.Common.{
  length, ℕ, ◌≡◌, ◌∙◌, List, Option, none, some, arith, ◌==◌, if◌then◌else◌, Option-cases, inl, inr,
}
use mathlib.Core.Option
use nv_embedding_cache.StlTable.Dict.{lookup, lookup_slot_injective, lookup-erase}
use nv_embedding_cache.StlTable.Part.Defs.{
  Config, Partition, Slot, copy_n, overwrite, update_one, accumulate_one, erase_one, find_one,
  write,
}
use nv_embedding_cache.StlTable.Part.Invariant.{IsValid}

-- The value that a key has.
unfoldable pub view : ℕ → Partition → Option (List ℕ)
view k p = elim (lookup k p.slot_map) [ none ↦ none | some s ↦ some (p.mem s).value ]

-- Every value has the full size.
pub view-length :
    (c : Config) (p : Partition) (k : ℕ) (w : List ℕ)
    → IsValid c p
    → view k p ≡ some w
    → length w ≡ c.max_value_size
unfolding view
view-length c p k w v e = elim (Option-cases (lookup k p.slot_map)) [
  | inl f ↦ absurd (ground (arith, f))
  | inr (s, f) ↦ ground (arith, f, v.width s)
]

-- A write to the slot of one key is seen under no other key.
pub view-write :
    (c : Config) (p : Partition) (k j s : ℕ) (x : Slot)
    → IsValid c p
    → lookup k p.slot_map ≡ some s
    → view j (record p { mem = write p.mem s x }) ≡ (if j == k then some x.value else view j p)
unfolding view
view-write c p k j s x v e = elim (Option-cases (lookup j p.slot_map)) [
  | inl f ↦ rw (f, view) (ground arith)
  | inr (t, f) ↦
      let same : s ≡ t → j ≡ k =
        λ st. lookup_slot_injective j k s p.slot_map (ground arith) e (ground (arith, v.slots s)) in
      rw (f, view) (ground (arith, same))
]

module _ (c : Config) (p : Partition) (v : IsValid c p) where
  -- `overwrite` puts the row at the start of the value of one key.
  pub view-overwrite :
      (k j s : ℕ) (row : List ℕ)
      → lookup k p.slot_map ≡ some s
      → view j (overwrite s row p)
        ≡ (if j == k then some (copy_n row (p.mem s).value) else view j p)
  unfolding overwrite
  view-overwrite k j s row e = view-write c p k j s _ v e

  -- `erase` removes one key.
  pub view-erase_one : (k j : ℕ) → view j (erase_one k p) ≡ (if j == k then none else view j p)
  unfolding view erase_one
  view-erase_one k j = elim (Option-cases (lookup k p.slot_map)) [
    | inl e ↦ rw (e, erase_one) (ground arith)
    | inr (s, e) ↦ rw (e, erase_one) (ground (arith, lookup-erase k j p.slot_map (v.keys k)))
  ]

  -- `update` writes the row of a key that is there and ignores any other.
  pub view-update_one :
      (k j : ℕ) (row : List ℕ)
      → view j (update_one k row p)
        ≡ (if j == k then Option.map (copy_n row) (view k p) else view j p)
  unfolding update_one
  view-update_one k j row = elim (Option-cases (lookup k p.slot_map)) [
    | inl e ↦ rw (e, update_one) (ground (arith, view-absent e))
    | inr (s, e) ↦
        rw (e, update_one) (rw (view-overwrite k j s row e) (ground (arith, view-present e)))
  ]
    where
      view-absent : lookup k p.slot_map ≡ none → view k p ≡ none
      view-absent e = unfold view in rw (e, view)

      view-present : {s : ℕ} → lookup k p.slot_map ≡ some s → view k p ≡ some (p.mem s).value
      view-present e = unfold view in rw (e, view)

  -- `update_accumulate` runs the kernel on the value of a key that is there.
  pub view-accumulate_one :
      (kernel : List ℕ → List ℕ → List ℕ) (k j : ℕ) (upd : List ℕ)
      → view j (accumulate_one kernel k upd p)
        ≡ (if j == k then Option.map (λ w. kernel w upd) (view k p) else view j p)
  unfolding accumulate_one view
  view-accumulate_one kernel k j upd = elim (Option-cases (lookup k p.slot_map)) [
    | inl e ↦ rw (e, accumulate_one) (ground (arith, e))
    | inr (s, e) ↦
        rw (e, accumulate_one)
          (view-write c p k j s
              (record { value = kernel (p.mem s).value upd; meta = (p.mem s).meta }) v e
            ∙ ground (arith, e))
  ]

  -- `find` returns the view of its key and changes no view.
  pub find_one-view : (now k : ℕ) → (find_one c now k p).0 ≡ view k p
  unfolding find_one view
  find_one-view now k = elim (Option-cases (lookup k p.slot_map)) [
    | inl e ↦ rw (e, find_one, view)
    | inr (s, e) ↦ rw (e, find_one, view)
  ]

  pub view-find_one : (now k j : ℕ) → view j (find_one c now k p).1 ≡ view j p
  unfolding find_one
  view-find_one now k j = elim (Option-cases (lookup k p.slot_map)) [
    | inl e ↦ rw (e, find_one)
    | inr (s, e) ↦ rw (e, find_one) (view-write c p k j s _ v e ∙ same s e)
  ]
    where
      same :
          (s : ℕ)
          → lookup k p.slot_map ≡ some s
          → (if j == k then some (p.mem s).value else view j p) ≡ view j p
      same s e = unfold view in ground arith
