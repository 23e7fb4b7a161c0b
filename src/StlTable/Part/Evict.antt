-- ===== src/StlTable/Part/Evict.antt =====
-- "Evict keys and reclaim slots" and the rest of the overflow handling of `insert`
-- (include/stl_map_backed_table_detail.hpp): what it keeps and what it drops.
use nv_embedding_cache.Common.{
  ℕ, ◌+◌, ◌≤◌, ◌≡◌, refl, List, [], ◌∷◌, none, arith, ltb, if◌then◌else◌, length, All, count_by,
}
use nv_embedding_cache.StlTable.Dict.{
  Entry, key_of, lookup, erase, IsFound, count_key-erase, count_slot-erase, lookup-erase,
  length-erase,
}
use nv_embedding_cache.StlTable.Part.Defs.{Config, Partition, evict}
use nv_embedding_cache.StlTable.Part.Invariant.{IsValid}

IsFound-erase :
    (k : ℕ) (m es : List Entry)
    → count_by key_of k m ≤ 1
    → count_by key_of k es ≡ 0
    → All (IsFound m) es
    → All (IsFound (erase k m)) es
IsFound-erase k m [] h z a = tt
IsFound-erase k m ((j, t) ∷ es) h z a =
    (ground (arith, lookup-erase k j m, a.0), IsFound-erase k m es h (ground arith) a.1)

-- What eviction does to the map, the memory and the invariant.
pub record Evicted (c : Config) (es : List Entry) (p q : Partition) : Type 0 where
  pub valid : IsValid c q
  pub mem : q.mem ≡ p.mem
  pub num_slots : q.num_slots ≡ p.num_slots
  pub size : length q.slot_map + length es ≡ length p.slot_map
  pub reads :
      (k : ℕ)
      → lookup k q.slot_map ≡ (if ltb 0 (count_by key_of k es) then none else lookup k p.slot_map)

pub evict-Evicted :
    (c : Config) (es : List Entry) (p : Partition)
    → ((k : ℕ) → count_by key_of k es ≤ 1)
    → All (IsFound p.slot_map) es
    → IsValid c p
    → Evicted c es p (evict es p)
unfolding evict
evict-Evicted c [] p once a v = record {
  valid = v;
  mem = refl;
  num_slots = refl;
  size = omega arith;
  reads = λ k. ground arith;
}
evict-Evicted c ((k, s) ∷ es) p once a v =
    let p' : Partition = record p {
      slot_map = erase k p.slot_map;
      available_slots = s ∷ p.available_slots;
    } in
    let v' : IsValid c p' = record {
      keys = λ j. omega (arith, v.keys j, count_key-erase k s j p.slot_map a.0);
      slots = λ q. ground (arith, v.slots q, count_slot-erase k s q p.slot_map a.0);
      width = v.width;
    } in
    let r =
      evict-Evicted c es p' (λ j. omega (arith, once j))
        (IsFound-erase k p.slot_map es (v.keys k) (ground (arith, once k)) a.1) v' in
    record {
      valid = r.valid;
      mem = r.mem;
      num_slots = r.num_slots;
      size = omega (arith, r.size, length-erase k s p.slot_map a.0);
      reads = λ j. ground (arith, r.reads j, lookup-erase k j p.slot_map (v.keys k));
    }
