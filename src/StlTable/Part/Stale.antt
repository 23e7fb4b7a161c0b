-- ===== src/StlTable/Part/Stale.antt =====
-- `insert` with fewer bytes than a slot holds (include/stl_map_backed_table_detail.hpp).
use nv_embedding_cache.Common.{
  ℕ, ◌≡◌, refl, ap, arith, List, ◌∷◌, ◌++◌, none, some, leb, false, Option-cases, inl, inr, length,
  drop, ==_self,
}
use nv_embedding_cache.StlTable.Dict.{lookup, erase}
use nv_embedding_cache.StlTable.Part.Defs.{
  Config, Partition, Algorithms, erase_one, insert_one, relieve, ensure_slot, place, fill, copy_n,
}
use nv_embedding_cache.StlTable.Part.View.{view}

-- A key with the value `old` is erased, and another key, which the partition does not have then, is inserted
-- with any number of bytes while the partition is below the overflow margin: the insert succeeds, and the
-- value of the new key ends in the bytes of the erased one.
pub insert-erase_leaks :
    (c : Config) (alg : Algorithms) (now gone key : ℕ) (row old : List ℕ) (p : Partition)
    → view gone p ≡ some old
    → lookup key (erase_one gone p).slot_map ≡ none
    → leb c.overflow_margin (length (erase_one gone p).slot_map) ≡ false
    → (q : Partition) × (insert_one alg c now key row (erase_one gone p) ≡ some q)
      × (view key q ≡ some (row ++ drop (length row) old))
unfolding view insert_one erase_one relieve ensure_slot place fill copy_n lookup
insert-erase_leaks c alg now gone key row old p had new room =
    elim (Option-cases (lookup gone p.slot_map)) [
      | inl f ↦ absurd (ground (arith, f, had))
      | inr (s, f) ↦
          let value : (p.mem s).value ≡ old = ground (arith, f, had) in
          let new' : lookup key (erase gone p.slot_map) ≡ none = rw (f, erase_one) at new in
          let room' : leb c.overflow_margin (length (erase gone p.slot_map)) ≡ false =
            rw (f, erase_one) at room in
          let free : Partition = record p {
            available_slots = s ∷ p.available_slots;
            slot_map = erase gone p.slot_map;
          } in
          let erased : erase_one gone p ≡ free = rw (erase_one, f) refl in
          let hit : lookup key ((key, s) ∷ erase gone p.slot_map) ≡ some s = ground arith in
          let seen : view key (fill c now key row s p.available_slots free)
              ≡ some (row ++ drop (length row) old) =
            rw (hit, view) (rw (==_self s) (ap (λ v. some (row ++ drop (length row) v)) value)) in
          (
            fill c now key row s p.available_slots free,
            rw (erased) (rw (insert_one, new', room') refl),
            seen,
          )
    ]
