-- ===== src/StlTable/Table/Find.antt =====
-- `STLContainerTable::find_` of include/stl_map_backed_table_detail.hpp, with the bitmask of
-- include/bit_ops.hpp. A word of the hit mask is its bits, the least significant first. The tasks, which
-- join their bits into the mask atomically and hold the lock of their partition, run one after the
-- other here. With `PrefetchValues` a row is copied one hit later, which writes the same.
use nv_embedding_cache.Common.{
  ℕ, zero, suc, ◌+◌, ◌-◌, ◌*◌, ◌/◌, ◌%◌, min, List, [], ◌∷◌, ◌++◌, map, Option, none, some, ◌==◌,
  leb, if◌then◌else◌, length, get_or, set, range_from, Bool, true, false, ◌&&◌, ◌||◌, not, to_nat,
}
use nv_embedding_cache.StlTable.Part.Defs.{Config, Partition, find_one}

abbrev pub Word : Type 0
Word = List Bool

-- `generic_bitmask`: `has_next`, `next` (the trailing zeros), `skip` (the lowest bit cleared), `count`,
-- `invert`, `clip` and `join`
unfoldable pub has_next : Word → Bool
has_next [] = false
has_next (b ∷ bs) = let rest = has_next bs in if b then true else rest

unfoldable pub next : Word → ℕ
next [] = 0
next (true ∷ bs) = 0
next (false ∷ bs) = suc (next bs)

unfoldable pub skip : Word → Word
skip [] = []
skip (true ∷ bs) = false ∷ bs
skip (false ∷ bs) = false ∷ skip bs

unfoldable pub count_bits : Word → ℕ
count_bits [] = 0
count_bits (b ∷ bs) = to_nat b + count_bits bs

unfoldable pub clip : Word → ℕ → Word
clip [] n = []
clip (b ∷ bs) zero = false ∷ clip bs zero
clip (b ∷ bs) (suc n) = b ∷ clip bs n

unfoldable pub join : Word → Word → Word
join [] ws = ws
join (v ∷ vs) [] = v ∷ vs
join (v ∷ vs) (w ∷ ws) = (v || w) ∷ join vs ws

-- What a lookup writes: the hit mask, the rows and sizes by the index of their key, and the partition.
pub record Finding : Type 0 where
  pub hit_mask : List Word
  pub values : ℕ → List ℕ
  pub value_sizes : ℕ → ℕ
  pub part : Partition
  pub num_hits : ℕ

-- The positions that the loop over a word visits; a word has `fuel` bits.
unfoldable pub visits : ℕ → Word → List ℕ
visits zero it = []
visits (suc fuel) it =
    let rest = visits fuel (skip it) in if has_next it then next it ∷ rest else []

module _ (part_of : ℕ → ℕ) (c : Config) (now : ℕ) (with_values with_sizes : Bool)
    (keys : List ℕ) where
  -- The body of the loop over the bits of the word at `i`, with the bits of the word.
  unfoldable pub probe : ℕ → ℕ → ℕ → Word × Finding → Word × Finding
  probe part_idx i j (mask, s) =
      let key = get_or keys (i + j) 0 in
      let found = find_one c now key s.part in
      if part_of key == part_idx
      then (elim found.0 [
        | none ↦ (mask, s)
        | some row ↦ (
          set mask j true,
          record s {
            part = found.1;
            values = λ x. if with_values && (x == i + j) then row else s.values x;
            value_sizes =
                λ x. if with_sizes && (x == i + j) then c.max_value_size else s.value_sizes x;
          },
        )
      ])
      else (mask, s)

  unfoldable pub probe_all : ℕ → ℕ → List ℕ → Word × Finding → Word × Finding
  probe_all part_idx i [] s = s
  probe_all part_idx i (j ∷ js) s = probe_all part_idx i js (probe part_idx i j s)

  -- One word, `num_bits` wide.
  unfoldable pub find_word : ℕ → ℕ → ℕ → Finding → Finding
  find_word num_bits part_idx hm_off s =
      let mask = get_or s.hit_mask hm_off [] in
      let i = hm_off * num_bits in
      let (after, s') =
        probe_all part_idx i (visits num_bits (clip (map not mask) (length keys - i))) (mask, s) in
      record s' {
        num_hits = s'.num_hits + count_bits after - count_bits mask;
        hit_mask = set s'.hit_mask hm_off (join mask after);
      }

-- The words of a task, in the order of its loop: `task_idx` is the number within the partition, `parts`
-- the number of partitions.
unfoldable pub task_words : ℕ → ℕ → ℕ → ℕ → ℕ → List ℕ
task_words max_find_task_size hm_size parts part_idx task_idx =
    let hm_off0 = max_find_task_size * task_idx in
    let task_size = min max_find_task_size (hm_size - hm_off0) in
    map (λ hm_idx. (hm_off0 + hm_size * part_idx / parts + hm_idx) % hm_size)
      (range_from 0 task_size)

-- The words of `n` tasks of a partition, from `task_idx` on.
unfoldable pub words_from : ℕ → ℕ → ℕ → ℕ → ℕ → ℕ → List ℕ
words_from max_find_task_size hm_size parts part_idx task_idx zero = []
words_from max_find_task_size hm_size parts part_idx task_idx (suc n) =
    task_words max_find_task_size hm_size parts part_idx task_idx
    ++ words_from max_find_task_size hm_size parts part_idx (suc task_idx) n

unfoldable pub num_tasks_per_part : ℕ → ℕ → ℕ
num_tasks_per_part max_find_task_size hm_size =
    (hm_size + max_find_task_size - 1) / max_find_task_size

module _ (part_of : ℕ → ℕ) (c : Config) (now : ℕ) (with_values with_sizes : Bool) (keys : List ℕ)
    (num_bits : ℕ) where
  unfoldable pub find_words : ℕ → List ℕ → Finding → Finding
  find_words part_idx [] s = s
  find_words part_idx (w ∷ ws) s =
      find_words part_idx ws
        (find_word part_of c now with_values with_sizes keys num_bits part_idx w s)

  -- The partitions in turn, each with the tasks of its words.
  unfoldable pub find_parts : ℕ → ℕ → ℕ → List Partition → Finding → List Partition × Finding
  find_parts task_size parts part_idx [] s = ([], s)
  find_parts task_size parts part_idx (p ∷ ps) s =
      let hm_size = (length keys + num_bits - 1) / num_bits in
      let words =
        words_from task_size hm_size parts part_idx 0 (num_tasks_per_part task_size hm_size) in
      let s' = find_words part_idx words (record s { part = p }) in
      let (ps', s'') = find_parts task_size parts (suc part_idx) ps s' in (s'.part ∷ ps', s'')

  -- `find`: the rows that are found, and the counter of hits, which grows by the bits that are new.
  unfoldable pub find : ℕ → ℕ → List Partition → Finding → Option (List Partition × Finding)
  find task_size value_stride parts s =
      if length keys == 0
      then some (parts, s)
      else (if leb c.max_value_size value_stride
          then some (find_parts task_size (length parts) 0 parts s)
          else none)
