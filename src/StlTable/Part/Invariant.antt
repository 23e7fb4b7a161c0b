-- ===== src/StlTable/Part/Invariant.antt =====
-- The invariant of a partition, and the operations that change no pair of the map, or one.
use nv_embedding_cache.Common.{
  ℕ, suc, zero, ◌+◌, ◌≤◌, ◌≡◌, List, [], ◌∷◌, none, arith, ltb, length, length-append, length-drop,
  length-replicate, count, count_by, to_nat, Option-cases, List-cases, inl, inr,
}
use nv_embedding_cache.StlTable.Dict.{
  key_of, slot_of, lookup, count_key-lookup-none, count_key-erase, count_slot-erase,
}
use nv_embedding_cache.StlTable.Part.Defs.{
  Config, Partition, slots_per_buffer, copy_n, empty, carve, allocate, ensure_slot, fill, overwrite,
  erase_one, find_one, clear_part,
}

-- No key is stored twice. Every slot of the buffers is either in the map or free, and only once, so
-- no slot is lost and no two keys share one. Every value has its full size.
pub record IsValid (c : Config) (p : Partition) : Type 0 where
  pub keys : (k : ℕ) → count_by key_of k p.slot_map ≤ 1
  pub slots :
      (s : ℕ)
      → count_by slot_of s p.slot_map + count s p.available_slots ≡ to_nat (ltb s p.num_slots)
  pub width : (s : ℕ) → length (p.mem s).value ≡ c.max_value_size

pub length-copy_n :
    (row old : List ℕ) → length row ≤ length old → length (copy_n row old) ≡ length old
unfolding copy_n
length-copy_n row old h = omega (arith, length-append row, length-drop (length row) old)

pub count-carve :
    (q base n : ℕ) (acc : List ℕ)
    → count q (carve base n acc) + to_nat (ltb q base) ≡ count q acc + to_nat (ltb q (base + n))
unfolding carve
count-carve q base zero acc = ground arith
count-carve q base (suc n) acc = ground (arith, count-carve q base n ((base + n) ∷ acc))

pub empty-IsValid : (c : Config) → IsValid c (empty c)
unfolding empty
empty-IsValid c = record {
  keys = λ k. omega arith;
  slots = λ s. ground arith;
  width = λ s. length-replicate c.max_value_size 0;
}

module _ (c : Config) where
  pub clear_part-IsValid : (p : Partition) → IsValid c p → IsValid c (clear_part p)
  unfolding clear_part
  clear_part-IsValid p v = record {
    keys = λ k. omega arith;
    slots = λ s. ground arith;
    width = v.width;
  }

  pub allocate-IsValid :
      (p : Partition) → p.available_slots ≡ [] → IsValid c p → IsValid c (allocate c p)
  unfolding allocate
  allocate-IsValid p e v = record {
    keys = v.keys;
    slots = λ s.
        ground (arith, v.slots s, count-carve s p.num_slots (slots_per_buffer c) p.available_slots);
    width = λ s. ground (arith, v.width s, length-replicate {A = ℕ} c.max_value_size 0);
  }

  pub ensure_slot-IsValid : (p : Partition) → IsValid c p → IsValid c (ensure_slot c p)
  unfolding ensure_slot
  ensure_slot-IsValid p v = elim (List-cases p.available_slots) [
    | inl e ↦ rw (e, ensure_slot) (allocate-IsValid p e v)
    | inr (s, rest, e) ↦ rw (e, ensure_slot) v
  ]

  pub overwrite-IsValid :
      (s : ℕ) (row : List ℕ) (p : Partition)
      → length row ≤ c.max_value_size
      → IsValid c p
      → IsValid c (overwrite s row p)
  unfolding overwrite
  overwrite-IsValid s row p h v = record {
    keys = v.keys;
    slots = v.slots;
    width = λ q. ground (arith, v.width q, v.width s, length-copy_n row (p.mem s).value);
  }

  pub erase_one-IsValid : (key : ℕ) (p : Partition) → IsValid c p → IsValid c (erase_one key p)
  unfolding erase_one
  erase_one-IsValid key p v = elim (Option-cases (lookup key p.slot_map)) [
    | inl e ↦ rw (e, erase_one) v
    | inr (s, e) ↦
        rw (e, erase_one)
          (record {
            keys = λ k. omega (arith, v.keys k, count_key-erase key s k p.slot_map e);
            slots = λ q. ground (arith, v.slots q, count_slot-erase key s q p.slot_map e);
            width = v.width;
          })
  ]

  pub find_one-IsValid :
      (now key : ℕ) (p : Partition) → IsValid c p → IsValid c (find_one c now key p).1
  unfolding find_one
  find_one-IsValid now key p v = elim (Option-cases (lookup key p.slot_map)) [
    | inl e ↦ rw (e, find_one) v
    | inr (s, e) ↦
        rw (e, find_one)
          (record {
            keys = v.keys;
            slots = v.slots;
            width = λ q. ground (arith, v.width q, v.width s);
          })
  ]

  -- A row placed in a free slot: the slot moves from the free list to the map.
  pub fill-IsValid :
      (now key : ℕ) (row : List ℕ) (s : ℕ) (rest : List ℕ) (p : Partition)
      → lookup key p.slot_map ≡ none
      → p.available_slots ≡ s ∷ rest
      → length row ≤ c.max_value_size
      → IsValid c p
      → IsValid c (fill c now key row s rest p)
  unfolding fill
  fill-IsValid now key row s rest p e a h v = record {
    keys = λ k. ground (arith, v.keys k, count_key-lookup-none key p.slot_map e);
    slots = λ q. omega (arith, rw a at (v.slots q));
    width = λ q. ground (arith, v.width q, v.width s, length-copy_n row (p.mem s).value);
  }
