-- ===== src/StlTable/Table/Defs.antt =====
-- The operations of `STLContainerTable` (include/stl_map_backed_table_detail.hpp) and the checks of
-- its configuration (src/stl_map_backed_table.cpp, src/host_table.cpp).
use nv_embedding_cache.Common.{
  ℕ, suc, ◌+◌, ◌-◌, ◌*◌, ◌%◌, ◌^◌, Bool, true, false, ◌&&◌, ◌||◌, List, [], ◌∷◌, Option, none, some,
  ◌==◌, leb, ltb, if◌then◌else◌, length, take, drop, replicate,
}
use Prim.Native.Nat.{bit_and}
use nv_embedding_cache.StlTable.Part.Defs.{
  Config, Partition, Algorithms, insert_one, update_one, accumulate_one, erase_one, clear_part,
  empty,
}

-- A call returns, throws (`NVE_CHECK_`, `NVE_THROW_`), or its behaviour is undefined.
pub data Outcome {ℓ} (A : Type ℓ) : Type ℓ where
  ok : A → Outcome A
  throws : Outcome A
  undefined : Outcome A

abbrev pub or_undefined {ℓ} : {A : Type ℓ} → Option A → Outcome A
or_undefined (some a) = ok a
or_undefined none = undefined

-- The fields of the configuration that only its checks read, beside those of the partitions.
pub record TableConfig : Type 0 where
  pub slots : Config
  pub mask_size : ℕ
  pub key_size : ℕ
  pub value_dtype_size : ℕ
  pub num_partitions : ℕ
  pub num_workgroups : ℕ
  pub max_find_task_size : ℕ

-- `has_single_bit` of include/bit_ops.hpp
unfoldable pub has_single_bit : ℕ → Bool
has_single_bit x = ltb 0 x && bit_and x (x - 1) == 0

unfoldable pub is_word_size : ℕ → Bool
is_word_size n = n == 1 || (n == 2 || (n == 4 || n == 8))

-- `HostTableConfig::check`
unfoldable pub check_base : TableConfig → Bool
unfolding is_word_size
check_base t =
    is_word_size t.mask_size
    && (is_word_size t.key_size
        && (ltb 0 t.slots.max_value_size
            && (leb t.slots.max_value_size (2 ^ 31 - 1 - 4)
                && t.slots.max_value_size % t.value_dtype_size == 0)))

-- What the overflow policy does with `double`: the comparison of its `resolution_margin`, and the product
-- with the overflow margin, truncated.
pub record Doubles : Type 1 where
  pub F : Type 0
  pub zero_ : F
  pub one_ : F
  pub le : F → F → Bool
  pub truncated_product : ℕ → F → ℕ

-- `OverflowPolicyConfig::check`; the overflow margin is a natural number here.
unfoldable pub check_policy : (d : Doubles) → d.F → Bool
check_policy d resolution_margin = d.le d.zero_ resolution_margin && d.le resolution_margin d.one_

-- The product `resolution_margin` of `insert`
unfoldable pub resolution_of : (d : Doubles) → ℕ → d.F → ℕ
resolution_of d overflow_margin resolution_margin =
    d.truncated_product overflow_margin resolution_margin

-- `STLContainerTableConfig::check`
unfoldable pub check : (d : Doubles) → d.F → TableConfig → Bool
unfolding check_base check_policy has_single_bit
check d resolution_margin t =
    check_base t
    && (has_single_bit t.num_partitions
        && (ltb 0 t.num_workgroups
            && (ltb 0 t.max_find_task_size
                && (has_single_bit t.slots.value_alignment
                    && (leb t.slots.max_value_size t.slots.allocation_rate
                        && check_policy d resolution_margin)))))

-- The constructor, for keys of `key_bytes` bytes: the partitions are empty.
unfoldable pub construct : ℕ → TableConfig → Outcome (List Partition)
construct key_bytes t =
    if t.key_size == key_bytes then ok (replicate t.num_partitions (empty t.slots)) else throws

-- `execute_n(0, num_parts, f, ...)`: the task with each partition's number. The tasks take their
-- partition's lock and touch nothing else, so that they run in the order of the partitions here.
unfoldable pub execute_each :
    (ℕ → Partition → Option Partition) → ℕ → List Partition → Option (List Partition)
execute_each f i [] = some []
execute_each f i (p ∷ ps) = elim (f i p) [
  | none ↦ none
  | some q ↦ elim (execute_each f (suc i) ps) [ none ↦ none | some qs ↦ some (q ∷ qs) ]
]

-- The keys of a batch with the bytes from `values[i * value_stride]` on, `value_size` of them.
unfoldable pub rows_from : ℕ → ℕ → List ℕ → ℕ → List ℕ → List (ℕ × List ℕ)
rows_from stride size values i [] = []
rows_from stride size values i (k ∷ ks) =
    (k, take size (drop (i * stride) values)) ∷ rows_from stride size values (suc i) ks

-- `part_of` is the partitioner, and `now` the time at which a task starts.
module _ (part_of : ℕ → ℕ) where
  module _ (alg : Algorithms) (c : Config) (now : ℕ → ℕ) where
    unfoldable pub insert_task : List (ℕ × List ℕ) → ℕ → Partition → Option Partition
    insert_task [] i p = some p
    insert_task ((k, row) ∷ rest) i p = elim (part_of k == i) [
      | false ↦ insert_task rest i p
      | true ↦ elim (insert_one alg c (now i) k row p) [
        | none ↦ none
        | some q ↦ insert_task rest i q
      ]
    ]

    -- `STLContainerTable::insert`
    unfoldable pub insert : List ℕ → ℕ → ℕ → List ℕ → List Partition → Outcome (List Partition)
    insert [] stride size values parts = ok parts
    insert (k ∷ ks) stride size values parts =
        if leb size c.max_value_size
        then or_undefined
            (execute_each (insert_task (rows_from stride size values 0 (k ∷ ks))) 0 parts)
        else throws

  unfoldable pub update_task : List (ℕ × List ℕ) → ℕ → Partition → Partition
  update_task [] i p = p
  update_task ((k, row) ∷ rest) i p =
      update_task rest i (if part_of k == i then update_one k row p else p)

  -- `STLContainerTable::update`
  unfoldable pub update :
      Config → List ℕ → ℕ → ℕ → List ℕ → List Partition → Outcome (List Partition)
  update c [] stride size values parts = ok parts
  update c (k ∷ ks) stride size values parts =
      if leb size c.max_value_size
      then or_undefined (
          execute_each (λ i p. some (update_task (rows_from stride size values 0 (k ∷ ks)) i p)) 0
            parts)
      else throws

  unfoldable pub accumulate_task :
      (List ℕ → List ℕ → List ℕ) → List (ℕ × List ℕ) → ℕ → Partition → Partition
  accumulate_task kernel [] i p = p
  accumulate_task kernel ((k, row) ∷ rest) i p =
      accumulate_task kernel rest i (if part_of k == i then accumulate_one kernel k row p else p)

  -- `STLContainerTable::update_accumulate`; `pick` is `pick_cpu_update_kernel` at the two data types,
  -- `none` where it throws.
  unfoldable pub update_accumulate :
      Config
      → Option (List ℕ → List ℕ → List ℕ)
      → List ℕ
      → ℕ
      → ℕ
      → List ℕ
      → List Partition
      → Outcome (List Partition)
  update_accumulate c pick [] stride size updates parts = ok parts
  update_accumulate c pick (k ∷ ks) stride size updates parts =
      if leb size c.max_value_size
      then (elim pick [
        | none ↦ throws
        | some kernel ↦ or_undefined (
            execute_each
              (λ i p. some (accumulate_task kernel (rows_from stride size updates 0 (k ∷ ks)) i p))
              0 parts)
      ])
      else throws

  unfoldable pub erase_task : List ℕ → ℕ → Partition → Partition
  erase_task [] i p = p
  erase_task (k ∷ rest) i p = erase_task rest i (if part_of k == i then erase_one k p else p)

  -- `STLContainerTable::erase`; an empty batch runs no key.
  unfoldable pub erase : List ℕ → List Partition → Outcome (List Partition)
  erase keys parts = or_undefined (execute_each (λ i p. some (erase_task keys i p)) 0 parts)

-- `STLContainerTable::clear`
unfoldable pub clear : List Partition → Outcome (List Partition)
clear parts = or_undefined (execute_each (λ i p. some (clear_part p)) 0 parts)

-- `STLContainerTable::size`
unfoldable pub size : List Partition → ℕ
size [] = 0
size (p ∷ ps) = length p.slot_map + size ps
