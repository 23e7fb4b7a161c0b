-- ===== src/InsertHeuristic/Defs.antt =====
-- The heuristics of src/insert_heuristic.cpp. Single-precision arithmetic is a parameter, and so is the
-- number that `dis_(gen_)` draws in a call. The vectors of a heuristic, with one element per table, are
-- one list of records here. `none` is an exception.
use nv_embedding_cache.Common.{
  ℕ, ◌+◌, ◌-◌, ◌%◌, ◌^◌, List, [], ◌∷◌, ◌++◌, Option, none, some, ◌==◌, ltb, if◌then◌else◌, length,
  replicate, set, get_elem?, Bool, true, false, ◌&&◌,
}

-- What the heuristics use of `float`.
pub record Floats : Type 1 where
  pub F : Type 0
  pub add : F → F → F
  pub sub : F → F → F
  pub mul : F → F → F
  pub div : F → F → F
  pub abs : F → F
  pub sqrt : F → F
  pub floor : F → F
  pub lt : F → F → Bool
  pub le : F → F → Bool
  pub of_nat : ℕ → F

-- `DefaultInsertHeuristic::insert_needed`
unfoldable pub default_insert_needed : (f : Floats) → List f.F → f.F → ℕ → f.F → Option Bool
default_insert_needed f thresholds hitrate table_id drawn =
    let warmup_chance = f.sub (f.of_nat 1) hitrate in
    let steadystate_chance = f.mul (f.mul warmup_chance warmup_chance) warmup_chance in
    elim (get_elem? thresholds table_id) [
      | none ↦ none
      | some t ↦
          some (if f.lt hitrate t then f.lt drawn warmup_chance else f.lt drawn steadystate_chance)
    ]

-- `FSMInsertHeuristic`
pub data FsmState : Type 0 where
  start : FsmState
  steady : FsmState

pub record FsmTable (f : Floats) : Type 0 where
  pub threshold : f.F
  pub prev_hitrate : f.F
  pub state : FsmState

unfoldable pub fsm_construct : (f : Floats) → List f.F → List (FsmTable f)
fsm_construct f [] = []
fsm_construct f (t ∷ ts) =
    record { threshold = t; prev_hitrate = f.of_nat 0; state = start } ∷ fsm_construct f ts

unfoldable pub fsm_switch : (f : Floats) → FsmState → FsmTable f → f.F → Bool × FsmTable f
fsm_switch f start t hitrate =
    (true, record { threshold = t.threshold; prev_hitrate = hitrate; state = steady })
fsm_switch f steady t hitrate =
    if f.lt (f.abs (f.sub hitrate t.prev_hitrate)) t.threshold
    then (false, t)
    else (true, record { threshold = t.threshold; prev_hitrate = hitrate; state = steady })

unfoldable pub fsm_step : (f : Floats) → FsmTable f → f.F → Bool × FsmTable f
fsm_step f t hitrate =
    if f.le t.threshold (f.of_nat 0) then (false, t) else fsm_switch f t.state t hitrate

unfoldable pub fsm_insert_needed :
    (f : Floats) → List (FsmTable f) → f.F → ℕ → Option (Bool × List (FsmTable f))
fsm_insert_needed f ts hitrate table_id = elim (get_elem? ts table_id) [
  | none ↦ none
  | some t ↦ let (answer, t') = fsm_step f t hitrate in some (answer, set ts table_id t')
]

-- `StatisticalInsertHeuristic`
pub data State : Type 0 where
  start : State
  insert : State
  steady : State
  unstable : State

pub record StatConfig : Type 0 where
  pub num_keys : ℕ
  pub window_size : ℕ
  pub num_inserts_needed : ℕ
  pub max_unsteady_samples : ℕ

pub record StatTable (f : Floats) : Type 0 where
  pub k_factor : f.F
  pub window : List f.F
  pub mean : f.F
  pub var : f.F
  pub chebyshev : f.F
  pub state : State
  pub collected : ℕ
  pub performed : ℕ
  pub unsteady : ℕ

-- `getChebyshevProb`
unfoldable pub chebyshev_prob : (f : Floats) → ℕ → f.F → f.F
chebyshev_prob f window_size k =
    let term1 = f.div (f.of_nat 1) (f.of_nat (window_size + 1)) in
    let term2 = f.div (f.of_nat (window_size + 1)) (f.of_nat window_size) in
    let term3 = f.add (f.div (f.of_nat (window_size - 1)) (f.mul k k)) (f.of_nat 1) in
    f.mul term1 (f.floor (f.mul term2 term3))

-- The sum of the squared distances from the mean, over the window.
unfoldable pub squares : (f : Floats) → f.F → f.F → List f.F → f.F
squares f mean sum [] = sum
squares f mean sum (x ∷ xs) = squares f mean (f.add sum (f.mul (f.sub x mean) (f.sub x mean))) xs

unfoldable pub variance : (f : Floats) → StatConfig → f.F → List f.F → f.F
variance f c mean window =
    if c.num_keys == 0
    then f.div (squares f mean (f.of_nat 0) window) (f.of_nat (c.window_size - 1))
    else f.div (f.mul mean (f.sub (f.of_nat 1) mean)) (f.of_nat c.num_keys)

-- `updateDistributionParams`; the front of an empty window is undefined.
unfoldable pub update_distribution :
    (f : Floats) → StatConfig → f.F → List f.F → StatTable f → Option (StatTable f)
update_distribution f c hitrate [] t = none
update_distribution f c hitrate (old ∷ window) t =
    let mean = f.add t.mean (f.div (f.sub hitrate old) (f.of_nat c.window_size)) in
    let window' = window ++ hitrate ∷ [] in
    some (record t { window = window'; mean = mean; var = variance f c mean window' })

unfoldable pub stat_table : (f : Floats) → StatConfig → f.F → StatTable f
stat_table f c k = record {
  k_factor = k;
  window = replicate c.window_size (f.of_nat 0);
  mean = f.of_nat 0;
  var = f.of_nat 0;
  chebyshev = chebyshev_prob f c.window_size k;
  state = start;
  collected = 0;
  performed = 0;
  unsteady = 0;
}

-- The loop of the constructor, which checks every factor.
unfoldable pub stat_tables : (f : Floats) → StatConfig → List f.F → Option (List (StatTable f))
stat_tables f c [] = some []
stat_tables f c (k ∷ ks) =
    let rest = stat_tables f c ks in
    if f.lt (f.of_nat 0) k
    then elim rest [ none ↦ none | some ts ↦ some (stat_table f c k ∷ ts) ]
    else none

unfoldable pub stat_construct : (f : Floats) → StatConfig → List f.F → Option (List (StatTable f))
stat_construct f c ks =
    if ltb 0 (length ks)
      && (ltb 1 c.window_size && (ltb 0 c.num_inserts_needed && ltb 0 c.max_unsteady_samples))
    then stat_tables f c ks
    else none

-- Is the sample at least `k` standard deviations away from the mean?
unfoldable pub is_far : (f : Floats) → StatTable f → f.F → Bool
is_far f t hitrate = f.le (f.mul t.k_factor (f.sqrt t.var)) (f.abs (f.sub hitrate t.mean))

-- The cases of the switch of `insert_needed`. `insertions_performed_` is never reset, so its
-- wrap-around is written out; the other two counters stay below their limits.
unfoldable pub in_start :
    (f : Floats) → StatConfig → StatTable f → f.F → Option (Bool × StatTable f)
in_start f c t hitrate = elim (update_distribution f c hitrate t.window t) [
  | none ↦ none
  | some u ↦ some (
    false,
    record u {
      collected = u.collected + 1;
      state = if u.collected + 1 == c.window_size then insert else u.state;
    },
  )
]

unfoldable pub in_insert : (f : Floats) → StatConfig → StatTable f → Bool × StatTable f
in_insert f c t =
    let performed = (t.performed + 1) % 2 ^ 64 in
    (
      true,
      record t {
        performed = performed;
        state = if performed % c.num_inserts_needed == 0 then unstable else t.state;
      },
    )

unfoldable pub in_steady :
    (f : Floats) → StatConfig → StatTable f → f.F → Option (Bool × StatTable f)
in_steady f c t hitrate =
    if is_far f t hitrate
    then some (
      false,
      if t.unsteady + 1 == c.max_unsteady_samples
          then record t { state = insert; unsteady = 0 }
          else record t { unsteady = t.unsteady + 1 },
    )
    else elim (update_distribution f c hitrate t.window (record t { unsteady = 0 })) [
      | none ↦ none
      | some u ↦ some (false, u)
    ]

unfoldable pub in_unstable :
    (f : Floats) → StatConfig → StatTable f → f.F → f.F → Option (Bool × StatTable f)
in_unstable f c t hitrate drawn =
    let t' =
      if is_far f t hitrate && f.lt t.chebyshev drawn
      then record t { state = start; collected = 1 }
      else record t { state = steady } in
    elim (update_distribution f c hitrate t.window t') [ none ↦ none | some u ↦ some (false, u) ]

unfoldable pub stat_switch :
    (f : Floats) → StatConfig → State → StatTable f → f.F → f.F → Option (Bool × StatTable f)
stat_switch f c start t hitrate drawn = in_start f c t hitrate
stat_switch f c insert t hitrate drawn = some (in_insert f c t)
stat_switch f c steady t hitrate drawn = in_steady f c t hitrate
stat_switch f c unstable t hitrate drawn = in_unstable f c t hitrate drawn

unfoldable pub stat_insert_needed :
    (f : Floats)
    → StatConfig
    → List (StatTable f)
    → f.F
    → ℕ
    → f.F
    → Option (Bool × List (StatTable f))
stat_insert_needed f c ts hitrate table_id drawn = elim (get_elem? ts table_id) [
  | none ↦ none
  | some t ↦ elim (stat_switch f c t.state t hitrate drawn) [
    | none ↦ none
    | some r ↦ some (r.0, set ts table_id r.1)
  ]
]

-- `NeverInsertHeuristic::insert_needed`
unfoldable pub never_insert_needed : (f : Floats) → f.F → ℕ → Bool
never_insert_needed f hitrate table_id = false
