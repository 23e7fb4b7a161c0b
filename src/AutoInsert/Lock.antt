-- ===== src/AutoInsert/Lock.antt =====
-- The lock of `AutoInsertHandler` (src/layer_utils.cpp): what finishes a collection, what drops it, and
-- what never gives the lock back.
use nv_embedding_cache.Common.{
  none-some, true-false, ℕ, suc, ◌+◌, ◌-◌, ◌≤◌, ◌<◌, ◌≡◌, ◌≢◌, refl, sym, ap, ◌∙◌, List, [], ◌∷◌,
  length, none, some, arith, ◌==◌, ltb, Bool, true, false, ◌||◌, not, Bool-cases, Option-cases,
  subst, inl, inr,
}
use nv_embedding_cache.AutoInsert.Defs.{
  HandlerConfig, Handler, Batch, Result, returned, thrown, settle, auto_insert, auto_insert_locked,
  run_launched, lock_modify, unlock_modify,
}
use nv_embedding_cache.AutoInsert.Protocol.{IsValid}

-- Calls of `auto_insert`, with the answers of the heuristic, up to an exception.
unfoldable pub auto_inserts {ℓ} :
    {A : Type ℓ} → HandlerConfig → (ℕ → ℕ) → (ℕ → A) → List (Bool × Batch A) → Handler A → Result A
auto_inserts c fresh_keys fresh_data [] h = returned h
auto_inserts c fresh_keys fresh_data ((needed, b) ∷ calls) h =
    elim (auto_insert c fresh_keys fresh_data needed b h) [
      | returned h' ↦ auto_inserts c fresh_keys fresh_data calls h'
      | thrown h' ↦ thrown h'
    ]

module _ {ℓ} {A : Type ℓ} (c : HandlerConfig) (fresh_keys : ℕ → ℕ) (fresh_data : ℕ → A) where
  one_wait :
      (needed : Bool) (b : Batch A) (h : Handler A) (n : ℕ)
      → c.has_heuristic ≡ true
      → h.locked ≡ false
      → h.collected_keys ≡ 0
      → h.insert_freq_cnt ≡ suc n
      → auto_insert c fresh_keys fresh_data needed b h
        ≡ returned (record h { locked = false; insert_freq_cnt = n })
  unfolding auto_insert auto_insert_locked settle
  one_wait needed b h n has free none_yet left =
      let open_ : not c.has_heuristic || h.locked ≡ false = ground arith in
      let nothing : ltb 0 h.collected_keys ≡ false = ground arith in
      let waits : suc n == 0 ≡ false = ground arith in
      let down : suc n - 1 ≡ n = omega arith in rw (open_, nothing, left, waits, down) refl

  count_down :
      (calls : List (Bool × Batch A)) (h : Handler A)
      → c.has_heuristic ≡ true
      → h.locked ≡ false
      → h.collected_keys ≡ 0
      → h.launched ≡ none
      → length calls ≤ h.insert_freq_cnt
      → (h' : Handler A) × (auto_inserts c fresh_keys fresh_data calls h ≡ returned h')
        × (h'.collected_keys ≡ 0)
        × (h'.locked ≡ false)
        × (h'.launched ≡ none)
        × (h'.insert_freq_cnt + length calls ≡ h.insert_freq_cnt)
  unfolding auto_inserts
  count_down [] h has free none_yet idle few = (h, refl, none_yet, free, idle, omega arith)
  count_down ((needed, b) ∷ calls) h has free none_yet idle few =
      let n = h.insert_freq_cnt - 1 in
      let one = one_wait needed b h n has free none_yet (omega (arith, few)) in
      let (h', run, k, l, t, total) =
        count_down calls (record h { locked = false; insert_freq_cnt = n }) has refl none_yet idle
          (omega (arith, few)) in
      (h', rw (auto_inserts, one) run, k, l, t, omega (arith, total, few))

  -- After an insert that returned, the next `min_insert_wait` lookups, whatever their batches are and
  -- whatever the heuristic says, collect and insert nothing and leave the lock free.
  pub auto_inserts-wait :
      (calls : List (Bool × Batch A)) (h : Handler A) (stride : ℕ)
      → c.has_heuristic ≡ true
      → h.launched ≡ some stride
      → length calls ≤ c.min_insert_wait
      → (h' : Handler A) × (auto_inserts c fresh_keys fresh_data calls (run_launched c true h)
          ≡ returned h')
        × (h'.collected_keys ≡ 0)
        × (h'.locked ≡ false)
        × (h'.launched ≡ none)
        × (h'.insert_freq_cnt + length calls ≡ c.min_insert_wait)
  unfolding run_launched
  auto_inserts-wait calls h stride has task few =
      rw (task, run_launched)
        (count_down calls
          (record h {
            launched = none;
            insert_freq_cnt = c.min_insert_wait;
            collected_keys = 0;
            locked = false;
          })
          has refl refl refl few)

  skip_all :
      (calls : List (Bool × Batch A)) (g : Handler A)
      → g.locked ≡ true
      → auto_inserts c fresh_keys fresh_data calls g ≡ returned g
  unfolding auto_inserts auto_insert
  skip_all [] g taken = refl
  skip_all ((needed, b) ∷ calls) g taken =
      let closed : not c.has_heuristic || g.locked ≡ true = ground arith in
      rw (auto_inserts, closed) (skip_all calls g taken)

  -- A batch whose stride is not the one of the unfinished collection throws, and the lock stays taken:
  -- from then on every lookup skips its insert and the next operation that takes the lock waits.
  pub auto_insert-stuck :
      (needed : Bool) (b : Batch A) (h : Handler A) (calls : List (Bool × Batch A))
      → c.has_heuristic ≡ true
      → h.locked ≡ false
      → 0 < h.collected_keys
      → b.output_stride ≢ h.collected_output_stride
      → (h' : Handler A) × (auto_insert c fresh_keys fresh_data needed b h ≡ thrown h')
        × (auto_inserts c fresh_keys fresh_data calls h' ≡ returned h')
        × (lock_modify c h' ≡ none)
  unfolding auto_insert auto_insert_locked lock_modify
  auto_insert-stuck needed b h calls has free some_keys differ =
      let held = record h { locked = true } in
      let open_ : not c.has_heuristic || h.locked ≡ false = ground arith in
      let going_on : ltb 0 h.collected_keys ≡ true = ground arith in
      let other : b.output_stride == h.collected_output_stride ≡ false = ground arith in
      (held, rw (open_, going_on, other) refl, skip_all calls held refl, rw has refl)

  empty-IsValid :
      (g : Handler A) → g.collected_keys ≡ 0 → g.locked ≡ false → g.launched ≡ none → IsValid c g
  empty-IsValid g empty free task = record {
    ready = λ e. record {
      short = λ p. absurd (omega arith);
      key_room = λ p. absurd (omega arith);
      data_room = λ p. absurd (omega arith);
    };
    free = λ e. free;
    busy = λ s e. absurd (ground arith);
  }

  lock_modify-idle :
      (h g : Handler A)
      → IsValid c h
      → c.has_heuristic ≡ true
      → lock_modify c h ≡ some g
      → g.launched ≡ none
  unfolding lock_modify
  lock_modify-idle h g v has got = elim (Bool-cases h.locked) [
    | inl l ↦ absurd (none-some (sym (rw (has, l) refl) ∙ got))
    | inr l ↦
        let idle : h.launched ≡ none = elim (Option-cases h.launched) [
          | inl n ↦ n
          | inr (s, n) ↦ absurd (true-false (sym (v.busy s n).0 ∙ l))
        ] in
        let taken : lock_modify c h ≡ some (record h { locked = true }) = rw (has, l) refl in
        let same : some (record h { locked = true }) ≡ some g = sym taken ∙ got in
        let there : record h { locked = true } ≡ g = cc in sym (ap (λ x. x.launched) there) ∙ idle
  ]

  -- The insert that a handler of this kind has launched, once it runs and returns, and a modification
  -- that gets the lock and gives it back, leave a handler of this kind without a collection and with its
  -- lock free.
  pub release-IsValid :
      (h : Handler A)
      → IsValid c h
      → c.has_heuristic ≡ true
      → ((stride : ℕ)
          → h.launched ≡ some stride
          → IsValid c (run_launched c true h)
            × (((run_launched c true h).collected_keys ≡ 0)
                × ((run_launched c true h).locked ≡ false)))
        × ((g : Handler A)
            → lock_modify c h ≡ some g
            → IsValid c (unlock_modify c g)
              × (((unlock_modify c g).collected_keys ≡ 0) × ((unlock_modify c g).locked ≡ false)))
  unfolding run_launched unlock_modify
  release-IsValid h v has = (
    λ stride task. rw (task, run_launched) (empty-IsValid _ refl refl refl, (refl, refl)),
    λ g got.
        let freed = record g { collected_keys = 0; locked = false } in
        let opened : unlock_modify c g ≡ freed = rw has refl in
        subst (λ x. IsValid c x × ((x.collected_keys ≡ 0) × (x.locked ≡ false))) (sym opened)
          (empty-IsValid freed refl refl (lock_modify-idle h g v has got), (refl, refl)),
  )
