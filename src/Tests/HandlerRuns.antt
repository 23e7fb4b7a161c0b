-- ===== src/Tests/HandlerRuns.antt =====
-- The theorems of automatic inserts at small batches.
use nv_embedding_cache.Common.{
  ℕ, ◌+◌, ◌≡◌, refl, arith, [], ◌∷◌, none, some, true, false, ◌==◌, not,
}
use nv_embedding_cache.AutoInsert.Defs.{
  HandlerConfig, Handler, Batch, returned, thrown, construct, collect_keys_and_data, auto_insert,
  run_launched, lock_modify,
}
use nv_embedding_cache.AutoInsert.Collect.{Ready, Collected, collect-Collected}
use nv_embedding_cache.AutoInsert.Protocol.{IsValid, Step, construct-IsValid, auto_insert-Step}
use nv_embedding_cache.AutoInsert.Lock.{auto_inserts, auto_inserts-wait, auto_insert-stuck}

abbrev config : HandlerConfig
config = record { has_heuristic = true; min_insert_wait = 2; min_insert_size = 5; invalid_key = 99 }

abbrev zeros : ℕ → ℕ
zeros x = 0

-- Three keys, the first of them missed.
abbrev batch : Batch ℕ
batch = record {
  num_keys = 3;
  keys = λ i. 10 + i;
  output = λ x. x;
  output_stride = 4;
  hitmask = some (λ w b. not (b == 0));
}

-- Two keys are collected.
abbrev begun : Handler ℕ
begun = record {
  locked = false;
  insert_freq_cnt = 0;
  collected_keys = 2;
  collected_output_stride = 4;
  insert_keys = record { size = 5; contents = λ i. 50 + i };
  insert_data = record { size = 20; contents = λ x. 7 };
  launched = none;
}

begun-Ready : Ready config begun
begun-Ready = record {
  short = λ p. omega arith;
  key_room = λ p. omega arith;
  data_room = λ p. omega arith;
}

begun-IsValid : IsValid config begun
begun-IsValid = record { ready = λ e. begun-Ready; free = λ e. refl; busy = λ s e. cc }

-- All collected, and the insert is launched.
abbrev full : Handler ℕ
full = record begun { locked = true; collected_keys = 5; launched = some 4 }

full-IsValid : IsValid config full
full-IsValid = record {
  ready = λ e. absurd (no_task e);
  free = λ e. absurd (no_task e);
  busy = λ s e. (refl, (omega arith, (omega arith, four s e)));
}
  where
    no_task : full.launched ≡ none → ⊥
    no_task e = cc

    four : (s : ℕ) → full.launched ≡ some s → s ≡ 4
    four s e = ground arith

collect-Collected_example :
    Collected config batch begun (collect_keys_and_data config zeros zeros batch begun)
collect-Collected_example = collect-Collected config zeros zeros batch begun begun-Ready

auto_insert-Step_example :
    (h' : Handler ℕ) × (auto_insert config zeros zeros true batch begun ≡ returned h')
    × IsValid config h'
    × Step config batch begun h'
auto_insert-Step_example =
    auto_insert-Step config zeros zeros batch true begun begun-IsValid (λ p. refl)

auto_inserts-wait_example :
    (h' : Handler ℕ) × (auto_inserts config zeros zeros
        ((true, batch) ∷ [])
        (run_launched config true full)
      ≡ returned h')
    × (h'.collected_keys ≡ 0)
    × (h'.locked ≡ false)
    × (h'.launched ≡ none)
    × (h'.insert_freq_cnt + 1 ≡ 2)
auto_inserts-wait_example =
    auto_inserts-wait config zeros zeros ((true, batch) ∷ []) full 4 refl refl (omega arith)

-- A batch with another stride.
abbrev wider : Batch ℕ
wider = record batch { output_stride = 8 }

auto_insert-stuck_example :
    (h' : Handler ℕ) × (auto_insert config zeros zeros true wider begun ≡ thrown h')
    × (auto_inserts config zeros zeros ((true, batch) ∷ []) h' ≡ returned h')
    × (lock_modify config h' ≡ none)
auto_insert-stuck_example =
    auto_insert-stuck config zeros zeros true wider begun ((true, batch) ∷ []) refl refl
      (omega arith) (λ e. omega arith)

-- A new handler is valid, and collects the first batch with its missed key replaced.
new-IsValid : IsValid config (construct {A = ℕ} zeros zeros)
new-IsValid = construct-IsValid config zeros zeros
