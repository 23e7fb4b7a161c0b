-- ===== src/StlTable/Dict.antt =====
-- `Partition::slot_map` of include/stl_map_backed_table.hpp, a `std::unordered_map` from keys to
-- slots, as the list of its pairs. A key is its bit pattern, and a slot the number of the slot.
use nv_embedding_cache.Common.{
  ℕ, ◌+◌, ◌≤◌, ◌≡◌, refl, List, [], ◌∷◌, Option, none, some, arith, ◌==◌, if◌then◌else◌, to_nat,
  count_by, length, All,
}

abbrev pub Entry : Type 0
Entry = ℕ × ℕ

abbrev pub key_of : Entry → ℕ
key_of e = e.0

abbrev pub slot_of : Entry → ℕ
slot_of e = e.1

-- `slot_map.find`, with the pair's second part
unfoldable pub lookup : ℕ → List Entry → Option ℕ
lookup k [] = none
lookup k ((j, s) ∷ m) = if k == j then some s else lookup k m

-- `slot_map.erase`
unfoldable pub erase : ℕ → List Entry → List Entry
erase k [] = []
erase k ((j, s) ∷ m) = if k == j then m else (j, s) ∷ erase k m

pub count_key-lookup-none : (k : ℕ) (m : List Entry) → lookup k m ≡ none → count_by key_of k m ≡ 0
unfolding lookup
count_key-lookup-none k [] h = refl
count_key-lookup-none k ((j, s) ∷ m) h = ground (arith, count_key-lookup-none k m)

pub lookup-count_key_zero : (k : ℕ) (m : List Entry) → count_by key_of k m ≡ 0 → lookup k m ≡ none
unfolding lookup
lookup-count_key_zero k [] h = refl
lookup-count_key_zero k ((j, s) ∷ m) h = ground (arith, lookup-count_key_zero k m)

pub count_slot-lookup-some :
    (k : ℕ) (m : List Entry) (s : ℕ) → lookup k m ≡ some s → 1 ≤ count_by slot_of s m
unfolding lookup
count_slot-lookup-some k [] s h = absurd (ground arith)
count_slot-lookup-some k ((j, t) ∷ m) s h = ground (arith, count_slot-lookup-some k m s)

pub count_key-lookup-some :
    (k : ℕ) (m : List Entry) (s : ℕ) → lookup k m ≡ some s → 1 ≤ count_by key_of k m
unfolding lookup
count_key-lookup-some k [] s h = absurd (ground arith)
count_key-lookup-some k ((j, t) ∷ m) s h = ground (arith, count_key-lookup-some k m s)

pub lookup-erase :
    (k q : ℕ) (m : List Entry)
    → count_by key_of k m ≤ 1
    → lookup q (erase k m) ≡ (if q == k then none else lookup q m)
unfolding lookup erase
lookup-erase k q [] h = ground arith
lookup-erase k q ((j, s) ∷ m) h = ground (arith, lookup-erase k q m, lookup-count_key_zero k m)

module _ (k s : ℕ) where
  pub count_key-erase :
      (q : ℕ) (m : List Entry)
      → lookup k m ≡ some s
      → count_by key_of q (erase k m) + to_nat (q == k) ≡ count_by key_of q m
  unfolding lookup erase
  count_key-erase q [] h = absurd (ground arith)
  count_key-erase q ((j, t) ∷ m) h = ground (arith, count_key-erase q m)

  pub count_slot-erase :
      (q : ℕ) (m : List Entry)
      → lookup k m ≡ some s
      → count_by slot_of q (erase k m) + to_nat (q == s) ≡ count_by slot_of q m
  unfolding lookup erase
  count_slot-erase q [] h = absurd (ground arith)
  count_slot-erase q ((j, t) ∷ m) h = ground (arith, count_slot-erase q m)

  pub length-erase : (m : List Entry) → lookup k m ≡ some s → length (erase k m) + 1 ≡ length m
  unfolding lookup erase
  length-erase [] h = absurd (ground arith)
  length-erase ((j, t) ∷ m) h = ground (arith, length-erase m)

-- Two keys never share a slot that occurs once.
pub lookup_slot_injective :
    (k j s : ℕ) (m : List Entry)
    → lookup k m ≡ some s
    → lookup j m ≡ some s
    → count_by slot_of s m ≤ 1
    → k ≡ j
unfolding lookup
lookup_slot_injective k j s [] h g once = absurd (ground arith)
lookup_slot_injective k j s ((i, t) ∷ m) h g once = ground (
  arith,
  lookup_slot_injective k j s m,
  count_slot-lookup-some k m s,
  count_slot-lookup-some j m s,
)

-- Every pair of a map with distinct keys is found under its key.
abbrev pub IsFound : List Entry → Entry → Type 0
IsFound m e = lookup e.0 m ≡ some e.1

IsFound-cons :
    (k s : ℕ) (m xs : List Entry)
    → count_by key_of k m ≡ 0
    → All (IsFound m) xs
    → count_by key_of k xs ≡ 0
    → All (IsFound ((k, s) ∷ m)) xs
unfolding lookup
IsFound-cons k s m [] h a z = tt
IsFound-cons k s m ((j, t) ∷ xs) h a z =
    (ground (arith, a.0), IsFound-cons k s m xs h a.1 (ground arith))

pub IsFound-self : (m : List Entry) → ((k : ℕ) → count_by key_of k m ≤ 1) → All (IsFound m) m
unfolding lookup
IsFound-self [] h = tt
IsFound-self ((k, s) ∷ m) h =
    let zero_k : count_by key_of k m ≡ 0 = ground (arith, h k) in
    (ground arith, IsFound-cons k s m m zero_k (IsFound-self m (λ q. omega (arith, h q))) zero_k)
