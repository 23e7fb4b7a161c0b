-- ===== src/Tests/HeuristicRuns.antt =====
-- The theorems of the insert heuristics at short runs of samples.
use nv_embedding_cache.Common.{
  ℕ, ◌+◌, ◌-◌, ◌*◌, ◌/◌, ◌≡◌, refl, List, [], ◌∷◌, Option, none, some, arith, Bool, true, false,
  ltb, leb, get_elem?, set, All, ◌↔◌,
}
use nv_embedding_cache.InsertHeuristic.Defs.{
  Floats, FsmState, FsmTable, State, insert, steady, unstable, StatConfig, StatTable,
  stat_insert_needed, is_far,
}
use nv_embedding_cache.InsertHeuristic.Nan.{NotANumber, stat_run-poisoned}
use nv_embedding_cache.InsertHeuristic.Fsm.{fsm_run, Quiet, fsm_run-Quiet}
use nv_embedding_cache.InsertHeuristic.Statistical.{IsConfig, IsValid, stat_insert_needed-IsValid}
use nv_embedding_cache.InsertHeuristic.Phases.{stat_run, inserts_all, unsteady_samples_insert}

-- Hundredths, for `float`.
abbrev pub hundredths : Floats
hundredths = record {
  F = ℕ;
  add = λ a b. a + b;
  sub = λ a b. a - b;
  mul = λ a b. a * b / 100;
  div = λ a b. a * 100 / b;
  abs = λ a. a;
  sqrt = λ a. a;
  floor = λ a. a / 100 * 100;
  lt = ltb;
  le = leb;
  of_nat = λ n. n * 100;
}

abbrev fsm_table : ℕ → FsmTable hundredths
fsm_table threshold = record { threshold = threshold; prev_hitrate = 0; state = FsmState.start }

fsm_run-Quiet_example :
    (bs : List Bool) × (((fsm_run hundredths (fsm_table 10) (50 ∷ 55 ∷ 70 ∷ [])).0 ≡ true ∷ bs)
      × Quiet hundredths 10 50 (55 ∷ 70 ∷ []) bs)
fsm_run-Quiet_example = fsm_run-Quiet hundredths (fsm_table 10) 50 (55 ∷ 70 ∷ []) refl refl

abbrev settings : StatConfig
settings = record {
  num_keys = 0;
  window_size = 2;
  num_inserts_needed = 3;
  max_unsteady_samples = 2;
}

settings-IsConfig : IsConfig settings
settings-IsConfig = record {
  windowed = omega arith;
  inserting = omega arith;
  patient = omega arith;
}

-- A table in a state, with a mean of one half.
abbrev table_in : State → StatTable hundredths
table_in s = record {
  k_factor = 260;
  window = 50 ∷ 50 ∷ [];
  mean = 50;
  var = 1;
  chebyshev = 90;
  state = s;
  collected = 2;
  performed = 6;
  unsteady = 0;
}

steady-IsValid : IsValid settings (table_in steady)
steady-IsValid = record { full = refl; collecting = λ e. cc; bounded = omega arith }

stat_insert_needed-IsValid_example :
    (t : StatTable hundredths) × (b : Bool) × (t' : StatTable hundredths) × ((get_elem?
          (table_in steady ∷ [])
          0
        ≡ some t)
      × ((stat_insert_needed hundredths settings (table_in steady ∷ []) 90 0 50
            ≡ some (b, set (table_in steady ∷ []) 0 t'))
          × (All (IsValid settings) (set (table_in steady ∷ []) 0 t')
              × ((b ≡ true) ↔ (t.state ≡ insert)))))
stat_insert_needed-IsValid_example =
    stat_insert_needed-IsValid hundredths settings (table_in steady ∷ []) 90 0 50 settings-IsConfig
      (steady-IsValid, tt) (omega arith)

inserts_all_example :
    (t : StatTable hundredths) × ((stat_run hundredths settings
          (table_in insert)
          ((40, 0) ∷ (60, 0) ∷ (50, 0) ∷ [])
        ≡ some (true ∷ true ∷ true ∷ [], t))
      × ((t.state ≡ unstable) × (t.performed ≡ 6 + 3)))
inserts_all_example =
    inserts_all hundredths settings (table_in insert) ((40, 0) ∷ (60, 0) ∷ (50, 0) ∷ [])
      settings-IsConfig refl refl (omega arith) refl

unsteady_samples_insert_example :
    (t : StatTable hundredths) × ((stat_run hundredths settings
          (table_in steady)
          ((90, 0) ∷ (95, 0) ∷ [])
        ≡ some (false ∷ false ∷ [], t))
      × (t.state ≡ insert))
unsteady_samples_insert_example =
    unsteady_samples_insert hundredths settings (table_in steady) ((90, 0) ∷ (95, 0) ∷ [])
      settings-IsConfig refl refl (unfold is_far in (refl, (refl, tt))) refl

-- Hundredths with a value that is not a number.
abbrev lifted : (ℕ → ℕ → ℕ) → Option ℕ → Option ℕ → Option ℕ
lifted g none b = none
lifted g (some a) none = none
lifted g (some a) (some b) = some (g a b)

abbrev compared : (ℕ → ℕ → Bool) → Option ℕ → Option ℕ → Bool
compared g none b = false
compared g (some a) none = false
compared g (some a) (some b) = g a b

abbrev partial : Floats
partial = record {
  F = Option ℕ;
  add = lifted (λ a b. a + b);
  sub = lifted (λ a b. a - b);
  mul = lifted (λ a b. a * b / 100);
  div = lifted (λ a b. a * 100 / b);
  abs = λ a. a;
  sqrt = λ a. a;
  floor = λ a. a;
  lt = compared ltb;
  le = compared leb;
  of_nat = λ n. some (n * 100);
}

partial-NotANumber : NotANumber partial
partial-NotANumber = record {
  nan = none;
  add-left = λ x. refl;
  add-right = λ x. right (λ a b. a + b) x;
  sub-left = λ x. refl;
  sub-right = λ x. right (λ a b. a - b) x;
  div-left = λ x. refl;
  abs_lem = refl;
  le-right = never;
}
  where
    right : (g : ℕ → ℕ → ℕ) (x : Option ℕ) → lifted g x none ≡ none
    right g none = refl
    right g (some a) = refl

    never : (x : Option ℕ) → compared leb x none ≡ false
    never none = refl
    never (some a) = refl

abbrev steady_table : StatTable partial
steady_table = record {
  k_factor = some 100;
  window = some 50 ∷ some 50 ∷ [];
  mean = some 50;
  var = some 1;
  chebyshev = some 50;
  state = steady;
  collected = 2;
  performed = 3;
  unsteady = 0;
}

stat_run-poisoned_example :
    (u : StatTable partial) × (stat_run partial settings steady_table
        ((partial-NotANumber.nan, some 0) ∷ (some 0, some 0) ∷ (some 0, some 0) ∷ [])
      ≡ some (false ∷ false ∷ false ∷ [], u))
    × (u.state ≡ steady)
    × (u.mean ≡ partial-NotANumber.nan)
stat_run-poisoned_example =
    stat_run-poisoned partial settings partial-NotANumber steady_table (some 0)
      ((some 0, some 0) ∷ (some 0, some 0) ∷ []) refl (omega arith)
