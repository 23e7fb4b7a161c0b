-- ===== src/StlTable/Part/Defs.antt =====
-- The state of a partition and the operations on one key
-- (include/stl_map_backed_table_detail.hpp, include/stl_map_backed_table.hpp, include/host_table.hpp).
use nv_embedding_cache.Common.{
  ℕ, zero, suc, ◌+◌, ◌-◌, ◌*◌, ◌/◌, ◌≤◌, List, [], ◌∷◌, ◌++◌, Option, none, some, ◌==◌, leb,
  if◌then◌else◌, length, take, drop, replicate, All, Perm,
}
use nv_embedding_cache.StlTable.Dict.{Entry, lookup, erase}

-- `OverflowHandler_t`
pub data OverflowHandler : Type 0 where
  evict_random evict_lru evict_lfu : OverflowHandler

-- The configuration. `resolution` is the product `resolution_margin` of `insert`, the margin that
-- the policy gives as a fraction, times `overflow_margin` and truncated.
pub record Config : Type 0 where
  pub max_value_size : ℕ
  pub value_alignment : ℕ
  pub allocation_rate : ℕ
  pub overflow_margin : ℕ
  pub handler : OverflowHandler
  pub resolution : ℕ

-- `meta_size`
unfoldable pub meta_size : OverflowHandler → ℕ
meta_size evict_random = 0
meta_size evict_lru = 8
meta_size evict_lfu = 8

-- `ceil_div` and `next_aligned`
unfoldable pub ceil_div : ℕ → ℕ → ℕ
ceil_div x n = (x + n - 1) / n

unfoldable pub next_aligned : ℕ → ℕ → ℕ
next_aligned x n = ceil_div x n * n

unfoldable pub slot_size : Config → ℕ
slot_size c = c.max_value_size + meta_size c.handler

unfoldable pub slot_stride : Config → ℕ
slot_stride c = next_aligned (slot_size c) c.value_alignment

-- `slots_per_buffer` of `insert`
unfoldable pub slots_per_buffer : Config → ℕ
slots_per_buffer c = c.allocation_rate / slot_stride c

pub record Slot : Type 0 where
  pub value : List ℕ
  pub meta : ℕ

-- `Partition`. The last element of `available_slots` stands first here; `num_slots` counts the slots
-- of all `slot_buffers`.
pub record Partition : Type 0 where
  pub slot_map : List Entry
  pub available_slots : List ℕ
  pub num_slots : ℕ
  pub mem : ℕ → Slot

-- `*slot = s`
abbrev pub write : (ℕ → Slot) → ℕ → Slot → ℕ → Slot
write mem s v q = if q == s then v else mem q

-- `std::copy_n` of a row to the first bytes of a value
unfoldable pub copy_n : List ℕ → List ℕ → List ℕ
copy_n row old = row ++ drop (length row) old

-- `std::sort` and `std::shuffle` with what the standard promises of them: the order of equal elements
-- and the shuffle's order are not fixed.
abbrev pub Ascending : (Entry → ℕ) → List Entry → Type 0
Ascending f [] = Unit
Ascending f (x ∷ xs) = All (λ y. f x ≤ f y) xs × Ascending f xs

pub record Algorithms : Type 0 where
  pub sort : (Entry → ℕ) → List Entry → List Entry
  pub shuffle : List Entry → List Entry
  pub sort-perm : (f : Entry → ℕ) (l : List Entry) → Perm l (sort f l)
  pub sort-ascending : (f : Entry → ℕ) (l : List Entry) → Ascending f (sort f l)
  pub shuffle-perm : (l : List Entry) → Perm l (shuffle l)

-- A slot of a new buffer: `std::vector` sets its bytes to zero.
abbrev pub blank : Config → Slot
blank c = record { value = replicate c.max_value_size 0; meta = 0 }

unfoldable pub empty : Config → Partition
empty c = record { slot_map = []; available_slots = []; num_slots = 0; mem = λ _. blank c }

-- The loop that cuts a new buffer into slots, from its end down to its start.
unfoldable pub carve : ℕ → ℕ → List ℕ → List ℕ
carve base zero acc = acc
carve base (suc n) acc = carve base n ((base + n) ∷ acc)

-- "Allocate new slot memory if there are no slots available."
unfoldable pub allocate : Config → Partition → Partition
allocate c p = record {
  slot_map = p.slot_map;
  available_slots = carve p.num_slots (slots_per_buffer c) p.available_slots;
  num_slots = p.num_slots + slots_per_buffer c;
  mem = λ q. if leb p.num_slots q then blank c else p.mem q;
}

unfoldable pub ensure_slot : Config → Partition → Partition
ensure_slot c p = elim p.available_slots [ [] ↦ allocate c p | s ∷ rest ↦ p ]

-- "Evict keys and reclaim slots until the resolution margin is reached."
unfoldable pub evict : List Entry → Partition → Partition
evict [] p = p
evict (e ∷ es) p =
    evict es
      (record p { slot_map = erase e.0 p.slot_map; available_slots = e.1 ∷ p.available_slots })

-- "Realign remaining frequency values to avoid entering a steady state."
unfoldable pub halve : List Entry → (ℕ → Slot) → ℕ → Slot
halve [] mem = mem
halve (e ∷ es) mem =
    halve es (write mem e.1 (record { value = (mem e.1).value; meta = (mem e.1).meta / 2 }))

-- The metadata word that a new row gets, from the word that its slot held.
unfoldable pub stamp : OverflowHandler → ℕ → ℕ → ℕ
stamp evict_random now old = old
stamp evict_lru now old = now
stamp evict_lfu now old = 1

-- `update_meta_data`, on a hit of `find`
unfoldable pub touch : OverflowHandler → ℕ → ℕ → ℕ
touch evict_random now old = old
touch evict_lru now old = now
touch evict_lfu now old = old + 1

-- `std::copy_n` to the slot of a key that is there; the metadata stays.
unfoldable pub overwrite : ℕ → List ℕ → Partition → Partition
overwrite s row p = record p {
  mem = write p.mem s (record { value = copy_n row (p.mem s).value; meta = (p.mem s).meta });
}

-- The body of `update`: `overwrite` on a hit.
unfoldable pub update_one : ℕ → List ℕ → Partition → Partition
update_one key row p = elim (lookup key p.slot_map) [ none ↦ p | some s ↦ overwrite s row p ]

-- The body of `update_accumulate`, for the kernel that `pick_cpu_update_kernel` chose.
unfoldable pub accumulate_one : (List ℕ → List ℕ → List ℕ) → ℕ → List ℕ → Partition → Partition
accumulate_one kernel key upd p = elim (lookup key p.slot_map) [
  | none ↦ p
  | some s ↦ record p {
    mem = write p.mem s (record { value = kernel (p.mem s).value upd; meta = (p.mem s).meta });
  }
]

-- The body of `erase`.
unfoldable pub erase_one : ℕ → Partition → Partition
erase_one key p = elim (lookup key p.slot_map) [
  | none ↦ p
  | some s ↦ record p { available_slots = s ∷ p.available_slots; slot_map = erase key p.slot_map }
]

-- The body of `clear`.
unfoldable pub clear_part : Partition → Partition
clear_part p = record p { slot_map = []; available_slots = []; num_slots = 0 }

module _ (c : Config) where
  -- The row in the free slot `s`: the copy, the metadata and `slot_map.emplace`.
  unfoldable pub fill : ℕ → ℕ → List ℕ → ℕ → List ℕ → Partition → Partition
  fill now key row s rest p = record {
    slot_map = (key, s) ∷ p.slot_map;
    available_slots = rest;
    num_slots = p.num_slots;
    mem =
        write p.mem s (record {
          value = copy_n row (p.mem s).value;
          meta = stamp c.handler now (p.mem s).meta;
        });
  }

  -- `available_slots.back()` and `pop_back()`, then the row
  unfoldable pub place : ℕ → ℕ → List ℕ → Partition → Option Partition
  place now key row p = elim p.available_slots [
    | [] ↦ none
    | s ∷ rest ↦ some (fill now key row s rest p)
  ]

  -- The body of `find_`: the row that is copied out, and the metadata.
  unfoldable pub find_one : ℕ → ℕ → Partition → Option (List ℕ) × Partition
  find_one now key p = elim (lookup key p.slot_map) [
    | none ↦ (none, p)
    | some s ↦ (
      some (p.mem s).value,
      record p {
        mem =
            write p.mem s
              (record { value = (p.mem s).value; meta = touch c.handler now (p.mem s).meta });
      },
    )
  ]

-- What the handlers do with the remaining pairs: LFU halves their frequencies.
unfoldable pub realign : OverflowHandler → List Entry → Partition → Partition
realign evict_random es p = p
realign evict_lru es p = p
realign evict_lfu es p = record p { mem = halve es p.mem }

module _ (alg : Algorithms) where
  -- The pairs in the order in which they are evicted.
  unfoldable pub arrange_by : OverflowHandler → Partition → List Entry
  arrange_by evict_random p = alg.shuffle p.slot_map
  arrange_by evict_lru p = alg.sort (λ e. (p.mem e.1).meta) p.slot_map
  arrange_by evict_lfu p = alg.sort (λ e. (p.mem e.1).meta) p.slot_map

module _ (alg : Algorithms) (c : Config) where
  abbrev pub arrange : Partition → List Entry
  arrange p = arrange_by alg c.handler p

  -- How many pairs stand before `keys_slots.end() - resolution_margin`.
  unfoldable pub num_victims : Partition → ℕ
  num_victims p = length (arrange p) - c.resolution

  unfoldable pub resolve : Partition → Partition
  resolve p =
      realign c.handler (drop (num_victims p) (arrange p))
        (evict (take (num_victims p) (arrange p)) p)

  -- "Handle overflows."
  unfoldable pub relieve : Partition → Partition
  relieve p = if leb c.overflow_margin (length p.slot_map) then resolve p else p

  -- The body of `insert` for a key of this partition.
  unfoldable pub insert_one : ℕ → ℕ → List ℕ → Partition → Option Partition
  insert_one now key row p = elim (lookup key p.slot_map) [
    | some s ↦ some (overwrite s row p)
    | none ↦ place c now key row (ensure_slot c (relieve p))
  ]
