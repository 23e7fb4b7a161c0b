-- ===== src/Tests/LayerRuns.antt =====
-- The theorems of layers at small batches.
use nv_embedding_cache.Common.{
  ℕ, ◌+◌, ◌*◌, ◌<◌, ◌≡◌, ◌⊎◌, refl, ap, arith, List, [], ◌∷◌, ◌++◌, Option, none, some, Bool, true,
  false, ltb, if◌then◌else◌, ◌&&◌, not, Perm, range_from, get_elem?,
}
use mathlib.Core.List.Perm
use nv_embedding_cache.StlTable.Table.Defs.{ok}
use nv_embedding_cache.LinearTable.Defs.{LinearConfig, LinearTable, num_threads}
use nv_embedding_cache.LinearTable.Gather.{hit_bit}
use nv_embedding_cache.AutoInsert.Defs.{
  HandlerConfig, Handler, Batch, returned, auto_insert, lock_modify,
}
use nv_embedding_cache.Layer.Construct.{
  TableInfo, on_host, check_layer, check_tables, same_device, last_table, check_layer-gpu_first,
  default_thresholds,
}
use nv_embedding_cache.Layer.Thresholds.{default_thresholds-at}
use nv_embedding_cache.Layer.Lookup.{
  Floats, Looked, hierarchical_lookup, fill_tasks, fill_num_tasks, fill_keys_per_task, sub64,
}
use nv_embedding_cache.Layer.Fill.{fill_tasks-at}
use nv_embedding_cache.Layer.Chain.{KnownTable, first_row, count_set, resolvers, is_some}
use nv_embedding_cache.Layer.Hits.{Answer, sum_hits, hierarchical_lookup-Answer}
use nv_embedding_cache.Layer.Linear.{linear_resolver, linear_last-overcounts}
use nv_embedding_cache.Layer.HostLookup.{host_lookup, need_hitmask}
use nv_embedding_cache.Layer.Host.{host_lookup-Answer}
use nv_embedding_cache.Layer.MapTable.Keeps.{map_table}
use nv_embedding_cache.Tests.StlRuns.{full, one, full-IsValid}
use nv_embedding_cache.Layer.Modify.{
  Member, finished, threw, waits, layer_modify, Modified, layer_modify-Modified, layer_modify-stuck,
  Open,
}

-- Two tables on a GPU and one on the host.
abbrev infos : List TableInfo
infos =
    record { device = some 0; max_row_size = 8 }
    ∷ record { device = some 0; max_row_size = 8 }
    ∷ record { device = none; max_row_size = 8 }
    ∷ []

check_layer-gpu_first_example : Path (Option ℕ) (some 0) (some 0)
check_layer-gpu_first_example =
    check_layer-gpu_first 8 infos 0 1 0 (record { device = some 0; max_row_size = 8 })
      (record { device = some 0; max_row_size = 8 })
      (unfold check_layer in
        unfold check_tables in unfold same_device in unfold last_table in unfold on_host in refl)
      (omega arith) refl refl refl

-- The map table with the keys 5 and 6.
small_map : KnownTable ℕ 2
small_map = map_table (λ key. 0) one 9 1 (full ∷ []) (omega arith) (full-IsValid, tt)

abbrev rates : Floats ℕ
rates = record { of_int64 = λ n. n; div = λ a b. a }

abbrev three : ℕ → ℕ
three k = 5 + k

abbrev sevens : ℕ → ℕ
sevens j = 7

abbrev two_tasks : List ℕ
two_tasks = 1 ∷ 0 ∷ []

two_tasks-Perm : Perm two_tasks (range_from 0 (fill_num_tasks 3 2))
unfolding fill_num_tasks fill_keys_per_task
two_tasks-Perm = Perm.swap 0 1 []

fill_tasks-at_example :
    fill_tasks none sevens 4 8 3 (fill_keys_per_task 3 2) two_tasks (λ x. x) (2 * 8 + 1)
    ≡ (if ltb 2 3 && (not (hit_bit none 2) && ltb 1 4) then 7 else 2 * 8 + 1)
fill_tasks-at_example =
    fill_tasks-at none sevens 4 8 3 2 two_tasks (λ x. x) 2 1 (omega arith) two_tasks-Perm
      (omega arith)

-- Two keys are in the first table, and the third gets the default row.
hierarchical_lookup-Answer_example :
    (l : Looked ℕ ℕ) × (hierarchical_lookup rates
        (some sevens)
        2
        2
        two_tasks
        3
        three
        8
        false
        (resolvers (small_map ∷ small_map ∷ []))
        (λ x. x)
      ≡ ok l)
    × Answer (small_map ∷ small_map ∷ []) (some sevens) 3 three 8 (λ x. x) l
hierarchical_lookup-Answer_example =
    hierarchical_lookup-Answer rates (some sevens) 2 two_tasks 3 three 8
      (small_map ∷ small_map ∷ []) (λ x. x) (omega arith) (omega arith) (omega arith) two_tasks-Perm

host_lookup-Answer_example :
    (l : Looked ℕ ℕ) × (host_lookup rates
        (some sevens)
        2
        2
        two_tasks
        3
        true
        (some three)
        (some (λ x. x))
        8
        false
        small_map.resolver
      ≡ ok (record l { insert_mask = none }))
    × Answer (small_map ∷ []) (some sevens) 3 three 8 (λ x. x) l
host_lookup-Answer_example =
    host_lookup-Answer rates (some sevens) 2 two_tasks 3 three 8 false small_map (λ x. x)
      (omega arith) (omega arith) (omega arith) two_tasks-Perm (unfold need_hitmask in refl)

abbrev handler_config : HandlerConfig
handler_config = record {
  has_heuristic = true;
  min_insert_wait = 0;
  min_insert_size = 1;
  invalid_key = 0;
}

abbrev idle : Handler ℕ
idle = record {
  locked = false;
  insert_freq_cnt = 0;
  collected_keys = 0;
  collected_output_stride = 0;
  insert_keys = record { size = 0; contents = λ x. 0 };
  insert_data = record { size = 0; contents = λ x. 0 };
  launched = none;
}

abbrev members : List (Member ℕ ℕ)
members =
    record { table = 1; config = handler_config; handler = idle }
    ∷ record { table = 2; config = handler_config; handler = idle }
    ∷ []

layer_modify-Modified_example :
    (ms : List (Member ℕ ℕ)) × (layer_modify (λ t. some (t + 10)) (some 1) members ≡ finished ms)
    × Modified (λ t. some (t + 10)) 1 1 members ms
layer_modify-Modified_example =
    layer_modify-Modified (λ t. some (t + 10)) (some 1) members refl
      (λ k a b. second_open k (omega arith))
  where
    second_open :
        (k : ℕ)
        → k ≡ 1
        → (m m' : Member ℕ ℕ) × (get_elem? members k ≡ some m) × Open (λ t. some (t + 10)) m m'
    second_open k e = (
      record { table = 2; config = handler_config; handler = idle },
      _,
      ap (get_elem? members) e,
      record {
        held = record idle { locked = true };
        result = 12;
        lock = unfold lock_modify in refl;
        returns = refl;
        after = refl;
      },
    )

layer_modify-stuck_example :
    (ms : List (Member ℕ ℕ)) × (m' : Member ℕ ℕ) × (layer_modify (λ t. none) (some 1) members
      ≡ threw ms)
    × (get_elem? ms 1 ≡ some m')
    × (m'.table ≡ 2)
    × (layer_modify (λ t. some t) (some 1) ms ≡ waits ms)
    × ((needed : Bool) (b : Batch ℕ)
        → auto_insert m'.config (λ x. 0) (λ x. 0) needed b m'.handler ≡ returned m'.handler)
layer_modify-stuck_example =
    layer_modify-stuck (λ t. none) (λ t. some t) 1 members
      (record { table = 2; config = handler_config; handler = idle }) (λ x. 0) (λ x. 0) refl
      (omega arith) refl refl refl

abbrev low : ℕ
low = 0

abbrev usual : ℕ
usual = 75

default_thresholds-at_example :
    (on_host (record { device = some 0; max_row_size = 8 }) ≡ true
      → ((j : ℕ) (u : TableInfo) → 1 < j → get_elem? infos j ≡ some u → on_host u ≡ false)
      → get_elem? (default_thresholds low usual infos) 1 ≡ some low)
    × (((on_host (record { device = some 0; max_row_size = 8 }) ≡ false)
          ⊎ ((j : ℕ) × (u : TableInfo) × (1 < j)
              × (j < 3)
              × (get_elem? infos j ≡ some u)
              × (on_host u ≡ true)))
        → get_elem? (default_thresholds low usual infos) 1 ≡ some usual)
default_thresholds-at_example =
    default_thresholds-at low usual infos 1 (record { device = some 0; max_row_size = 8 }) refl
      (omega arith)

abbrev linear_config : LinearConfig
linear_config = record { max_value_size = 2; max_threads = 1; value_is_float32 = true }

abbrev rows : LinearTable ℕ
rows = record { emb_table = λ x. x; key_counter = 0 }

abbrev one_task : List ℕ
one_task = 0 ∷ []

one_task-Perm : Perm one_task (range_from 0 (num_threads linear_config 2))
unfolding num_threads
one_task-Perm = Perm.cons 0 Perm.nil

one_thread : 0 < num_threads linear_config 2
unfolding num_threads
one_thread = omega arith

-- The map table counts two hits, and the linear table three.
linear_last-overcounts_example :
    (l : Looked ℕ ℕ) × (hierarchical_lookup rates none 2 2 [] 3 three 8 false
        (resolvers (small_map ∷ []) ++ linear_resolver linear_config 2 one_task rows ∷ [])
        (λ x. x)
      ≡ ok l)
    × (((k : ℕ) → k < 3 → hit_bit l.hit_mask k ≡ true)
        × ((sum_hits l.table_hits
              ≡ count_set (λ k. is_some (first_row (small_map ∷ []) (three k))) 3 + 3)
            × (l.left_keys
                ≡ sub64 0 (count_set (λ k. is_some (first_row (small_map ∷ []) (three k))) 3))))
linear_last-overcounts_example =
    linear_last-overcounts rates linear_config 2 one_task rows (small_map ∷ []) [] 3 three 8
      (λ x. x) one_thread one_task-Perm (omega arith) (omega arith) (omega arith)
