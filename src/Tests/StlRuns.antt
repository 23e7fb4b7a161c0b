-- ===== src/Tests/StlRuns.antt =====
-- The theorems of the map table at small tables.
use nv_embedding_cache.Common.{
  ◌++◌, drop, leb, ◌*◌, ◌/◌, false, count, ℕ, ◌-◌, ◌≤◌, ◌%◌, ◌≡◌, refl, List, [], ◌∷◌, none, some,
  arith, true, length, All,
}
use nv_embedding_cache.StlTable.Dict.{lookup, erase}
use nv_embedding_cache.StlTable.Part.Defs.{
  Config, Partition, evict_lru, empty, insert_one, slots_per_buffer, slot_stride, slot_size,
  next_aligned, ceil_div, meta_size, carve, allocate, ensure_slot, evict, realign, arrange_by,
  num_victims, resolve, relieve, place, fill, overwrite, copy_n, stamp, erase_one, find_one, touch,
  update_one,
}
use nv_embedding_cache.StlTable.Part.Invariant.{IsValid, empty-IsValid}
use nv_embedding_cache.StlTable.Part.Overflow.{resolve_order}
use nv_embedding_cache.StlTable.Part.View.{view}
use nv_embedding_cache.StlTable.Part.Stale.{insert-erase_leaks}
use nv_embedding_cache.StlTable.Table.Defs.{
  TableConfig, check, Doubles, resolution_of, ok, insert, erase as erase_keys, update, rows_from,
  execute_each, insert_task, erase_task,
}
use nv_embedding_cache.StlTable.Table.Batch.{view_at, Agrees, written}
use nv_embedding_cache.StlTable.Table.Insert.{insert-Agrees, insert-written, insert-bound, bound}
use nv_embedding_cache.StlTable.Table.Modify.{insert_one_undefined}
use nv_embedding_cache.StlTable.Table.Find.{visits, words_from, num_tasks_per_part, count_bits}
use nv_embedding_cache.StlTable.Table.Scan.{positions, words_from-once, visits-positions}
use nv_embedding_cache.Tests.Sorting.{algorithms, sort, add_sorted}

program : Unit {0}
unfolding lookup erase empty insert_one slots_per_buffer slot_stride slot_size next_aligned ceil_div
    meta_size carve allocate ensure_slot evict realign arrange_by num_victims resolve relieve place
    fill overwrite copy_n stamp erase_one find_one touch update_one check resolution_of insert
    erase_keys update rows_from execute_each insert_task erase_task sort add_sorted view_at written
    view
program = tt

abbrev pub lru : Config
lru = record {
  max_value_size = 2;
  value_alignment = 4;
  allocation_rate = 32;
  overflow_margin = 4;
  handler = evict_lru;
  resolution = 2;
}

abbrev pub tables : List Partition
tables = empty lru ∷ empty lru ∷ []

abbrev pub halves : ℕ → ℕ
halves k = k % 2

abbrev pub bytes : List ℕ
bytes = 10 ∷ 11 ∷ 20 ∷ 21 ∷ 30 ∷ 31 ∷ []

abbrev pub keys : List ℕ
keys = 1 ∷ 2 ∷ 1 ∷ []

pub tables-IsValid : All (IsValid lru) tables
tables-IsValid = (empty-IsValid lru, (empty-IsValid lru, tt))

pub big : 1 ≤ slots_per_buffer lru
unfolding program
big = omega arith

-- A key that comes twice has its second row.
runs :
    (parts : List Partition) × (insert halves algorithms lru (λ i. 7) keys 2 2 bytes tables
      ≡ ok parts)
    × (view_at halves 1 parts ≡ some (30 ∷ 31 ∷ []))
unfolding program
runs = (_, refl, refl)

insert-Agrees_example :
    (parts : List Partition) × (insert halves algorithms lru (λ i. 7) keys 2 2 bytes tables
      ≡ ok parts)
    × All (IsValid lru) parts
    × Agrees
        (view_at halves 1 parts)
        (written 1 (rows_from 2 2 bytes 0 keys) (view_at halves 1 tables))
insert-Agrees_example =
    insert-Agrees halves algorithms lru (λ i. 7) big keys 2 bytes tables (omega arith) (omega arith)
      tables-IsValid 1

insert-written_example :
    (parts : List Partition) × (insert halves algorithms lru (λ i. 7) keys 2 2 bytes tables
      ≡ ok parts)
    × (view_at halves 1 parts ≡ written 1 (rows_from 2 2 bytes 0 keys) (view_at halves 1 tables))
insert-written_example =
    insert-written halves algorithms lru (λ i. 7) big keys 2 bytes tables (omega arith)
      (omega arith) tables-IsValid 1 (empty lru) refl (unfold program in omega arith)

insert-bound_example :
    (parts : List Partition) × (insert halves algorithms lru (λ i. 7) keys 2 2 bytes tables
      ≡ ok parts)
    × All (λ p. length p.slot_map ≤ bound lru) parts
insert-bound_example =
    insert-bound halves algorithms lru (λ i. 7) big keys 2 bytes tables (omega arith) (omega arith)
      tables-IsValid (unfold program in omega arith)

-- A configuration that `check` accepts and whose buffers have no slot.
abbrev tiny : Config
tiny = record {
  max_value_size = 8;
  value_alignment = 4;
  allocation_rate = 8;
  overflow_margin = 100;
  handler = evict_lru;
  resolution = 80;
}

abbrev tiny_table : TableConfig
tiny_table = record {
  slots = tiny;
  mask_size = 8;
  key_size = 8;
  value_dtype_size = 4;
  num_partitions = 1;
  num_workgroups = 1;
  max_find_task_size = 128;
}

abbrev hundredths : Doubles
hundredths = record {
  F = ℕ;
  zero_ = 0;
  one_ = 100;
  le = leb;
  truncated_product = λ n m. n * m / 100;
}

check-tiny : (check hundredths 80 tiny_table ≡ true) × (resolution_of hundredths 100 80 ≡ 80)
unfolding program
check-tiny = (refl, refl)

insert_one_undefined_example : insert_one algorithms tiny 0 1 (1 ∷ []) (empty tiny) ≡ none
insert_one_undefined_example =
    insert_one_undefined tiny algorithms 0 1 (1 ∷ []) (unfold program in omega arith) (omega arith)

-- Two rows with different times: the older goes.
abbrev pub full : Partition
full = record {
  slot_map = (5, 0) ∷ (6, 1) ∷ [];
  available_slots = [];
  num_slots = 2;
  mem = λ s. record { value = 0 ∷ 0 ∷ []; meta = 9 - s };
}

abbrev pub one : Config
one = record lru { resolution = 1 }

pub full-IsValid : IsValid one full
full-IsValid = record { keys = λ k. ground arith; slots = λ s. ground arith; width = λ s. refl }

resolve_order_example : (full.mem 1).meta ≤ (full.mem 0).meta
unfolding program
resolve_order_example =
    resolve_order algorithms one full 6 5 1 0 (λ e. cc) full-IsValid refl refl refl (λ e. cc)

-- Three words in tasks of two, for the third of four partitions.
words_from-once_example : count 1 (words_from 2 3 4 2 0 (num_tasks_per_part 2 3)) ≡ 1
words_from-once_example = words_from-once 2 3 4 2 1 (omega arith) (omega arith)

visits-positions_example :
    visits 4 (true ∷ false ∷ true ∷ true ∷ []) ≡ positions (true ∷ false ∷ true ∷ true ∷ [])
visits-positions_example =
    visits-positions 4 (true ∷ false ∷ true ∷ true ∷ []) (unfold count_bits in omega arith)

abbrev short : List ℕ
short = 1 ∷ []

-- A partition with one key.
abbrev roomy : Partition
roomy = record {
  slot_map = (5, 0) ∷ [];
  available_slots = [];
  num_slots = 1;
  mem = λ s. record { value = 8 ∷ 9 ∷ []; meta = 0 };
}

-- One byte of a key behind the erased key 5.
insert-erase_leaks_example :
    (q : Partition) × (insert_one algorithms one 0 7 short (erase_one 5 roomy) ≡ some q)
    × (view 7 q ≡ some (short ++ drop (length short) (8 ∷ 9 ∷ [])))
insert-erase_leaks_example =
    insert-erase_leaks one algorithms 0 5 7 short (8 ∷ 9 ∷ []) roomy (unfold program in refl)
      (unfold program in refl) (unfold program in refl)
