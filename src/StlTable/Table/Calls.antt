-- ===== src/StlTable/Table/Calls.antt =====
-- Calls of `STLContainerTable` (include/stl_map_backed_table_detail.hpp) in sequence, on the table and on
-- a map that never evicts.
use nv_embedding_cache.Common.{
  ℕ, ◌*◌, ◌≤◌, ◌≡◌, Bool, List, [], ◌∷◌, Option, none, some, if◌then◌else◌, length,
}
use nv_embedding_cache.StlTable.Part.Defs.{Config, Partition, Algorithms}
use nv_embedding_cache.StlTable.Table.Defs.{
  TableConfig, Outcome, ok, throws, undefined, insert, update, update_accumulate, erase, clear,
  construct, rows_from,
}
use nv_embedding_cache.StlTable.Table.Find.{Finding, find}
use nv_embedding_cache.StlTable.Table.Batch.{written}
use nv_embedding_cache.StlTable.Table.Modify.{listed, updated}
use nv_embedding_cache.StlTable.Table.Change.{KeepsLength, accumulated}

-- The parameters of a lookup, and its output buffers.
pub record Query : Type 0 where
  pub keys : List ℕ
  pub now : ℕ
  pub with_values : Bool
  pub with_sizes : Bool
  pub num_bits : ℕ
  pub task_size : ℕ
  pub value_stride : ℕ
  pub output : Finding

-- A call of the table.
pub data Call : Type 0 where
  insert_rows : (keys : List ℕ) (stride size : ℕ) (values : List ℕ) (now : ℕ → ℕ) → Call
  update_rows : (keys : List ℕ) (stride size : ℕ) (values : List ℕ) → Call
  accumulate_rows :
      (kernel : List ℕ → List ℕ → List ℕ) (keys : List ℕ) (stride size : ℕ) (values : List ℕ) → Call
  erase_keys : (keys : List ℕ) → Call
  clear_all : Call
  find_rows : (query : Query) → Call

-- What the caller has to see to: rows are inserted in full, since a shorter one leaves the rest of its slot
-- as it is, and other sizes and strides are those that the table admits.
abbrev pub Fits : Config → Call → Type 0
Fits c (insert_rows keys stride size values now) =
    (size ≡ c.max_value_size) × (size ≤ stride) × (length keys * stride ≤ length values)
Fits c (update_rows keys stride size values) = size ≤ c.max_value_size
Fits c (accumulate_rows kernel keys stride size values) =
    KeepsLength kernel × (size ≤ c.max_value_size)
Fits c (erase_keys keys) = Unit
Fits c clear_all = Unit
Fits c (find_rows q) = c.max_value_size ≤ q.value_stride

-- A map that forgets nothing, after a call: the value of the key `j`.
unfoldable pub replay_one : Config → ℕ → Call → Option (List ℕ) → Option (List ℕ)
replay_one c j (insert_rows keys stride size values now) v =
    written j (rows_from stride size values 0 keys) v
replay_one c j (update_rows keys stride size values) v =
    updated j (rows_from stride size values 0 keys) v
replay_one c j (accumulate_rows kernel keys stride size values) v =
    accumulated kernel j (rows_from stride size values 0 keys) v
replay_one c j (erase_keys keys) v = if listed j keys then none else v
replay_one c j clear_all v = none
replay_one c j (find_rows q) v = v

unfoldable pub replay : Config → ℕ → List Call → Option (List ℕ) → Option (List ℕ)
replay c j [] v = v
replay c j (call ∷ calls) v = replay c j calls (replay_one c j call v)

abbrev pub found : Option (List Partition × Finding) → Outcome (List Partition)
found none = throws
found (some (parts, s)) = ok parts

module _ (part_of : ℕ → ℕ) (alg : Algorithms) (c : Config) where
  -- The table after a call.
  unfoldable pub call_one : Call → List Partition → Outcome (List Partition)
  call_one (insert_rows keys stride size values now) parts =
      insert part_of alg c now keys stride size values parts
  call_one (update_rows keys stride size values) parts =
      update part_of c keys stride size values parts
  call_one (accumulate_rows kernel keys stride size values) parts =
      update_accumulate part_of c (some kernel) keys stride size values parts
  call_one (erase_keys keys) parts = erase part_of keys parts
  call_one clear_all parts = clear parts
  call_one (find_rows q) parts = found (
      find part_of c q.now q.with_values q.with_sizes q.keys q.num_bits q.task_size q.value_stride
        parts q.output)

  unfoldable pub call_all : List Call → List Partition → Outcome (List Partition)
  call_all [] parts = ok parts
  call_all (call ∷ calls) parts = elim (call_one call parts) [
    | ok parts' ↦ call_all calls parts'
    | throws ↦ throws
    | undefined ↦ undefined
  ]

-- A new table, and calls of it in turn.
unfoldable pub run : (ℕ → ℕ) → Algorithms → ℕ → TableConfig → List Call → Outcome (List Partition)
run part_of alg key_bytes t calls = elim (construct key_bytes t) [
  | ok parts ↦ call_all part_of alg t.slots calls parts
  | throws ↦ throws
  | undefined ↦ undefined
]
