-- ===== src/AutoInsert/Protocol.antt =====
-- The lock and the counters of `AutoInsertHandler` (src/layer_utils.cpp) over its calls.
use nv_embedding_cache.Common.{
  true-false, ℕ, ◌-◌, ◌*◌, ◌≤◌, ◌<◌, ◌≡◌, refl, sym, ◌∙◌, Option, none, some, arith, ◌==◌, leb, ltb,
  Bool, true, false, ◌&&◌, ◌||◌, not, Bool-cases, Option-cases, inl, inr,
}
use nv_embedding_cache.AutoInsert.Defs.{
  HandlerConfig, Handler, Batch, returned, collect_keys_and_data, settle, auto_insert,
  auto_insert_locked, construct,
}
use nv_embedding_cache.AutoInsert.Collect.{Ready, Collected, collect-Collected}

-- A handler whose lock is free, or held by the task that inserts what it collected.
pub record IsValid {ℓ} {A : Type ℓ} (c : HandlerConfig) (h : Handler A) : Type ℓ where
  pub ready : h.launched ≡ none → Ready c h
  pub free : h.launched ≡ none → h.locked ≡ false
  pub busy :
      (stride : ℕ)
      → h.launched ≡ some stride
      → (h.locked ≡ true)
        × ((0 < h.collected_keys)
            × ((c.min_insert_size ≤ h.collected_keys) × (stride ≡ h.collected_output_stride)))

pub construct-IsValid {ℓ} :
    {A : Type ℓ} (c : HandlerConfig) (fresh_keys : ℕ → ℕ) (fresh_data : ℕ → A)
    → IsValid c (construct fresh_keys fresh_data)
unfolding construct
construct-IsValid c fresh_keys fresh_data = record {
  ready = λ e. record {
    short = λ p. absurd (omega arith);
    key_room = λ p. absurd (omega arith);
    data_room = λ p. absurd (omega arith);
  };
  free = λ e. refl;
  busy = λ stride e. cc;
}

module _ {ℓ} {A : Type ℓ} (c : HandlerConfig) where
  settle-IsValid :
      (P : Handler A → Type ℓ) (stride : ℕ) (h : Handler A)
      → P (record h { launched = some stride })
      → P (record h { locked = false })
      → h.launched ≡ none
      → h.locked ≡ true
      → (0 < h.collected_keys → stride ≡ h.collected_output_stride)
      → (0 < h.collected_keys → c.min_insert_size ≤ h.insert_keys.size)
      → (0 < h.collected_keys → c.min_insert_size * h.collected_output_stride ≤ h.insert_data.size)
      → (h' : Handler A) × (settle c stride h ≡ returned h') × IsValid c h' × P h'
  unfolding settle
  settle-IsValid P stride h now later no_task lock same key_room data_room =
      elim (Bool-cases (ltb 0 h.collected_keys && leb c.min_insert_size h.collected_keys)) [
        | inl e ↦ (
          record h { launched = some stride },
          rw e refl,
          record {
            ready = λ d. cc;
            free = λ d. cc;
            busy = λ s d.
                (lock, (ground arith, (ground arith, same_stride s d (same (ground arith)))));
          },
          now,
        )
        | inr e ↦ (
          record h { locked = false },
          rw e refl,
          record {
            ready = λ d. record {
              short = λ p. ground arith;
              key_room = key_room;
              data_room = data_room;
            };
            free = λ d. refl;
            busy = λ s d. cc;
          },
          later,
        )
      ]
    where
      same_stride :
          (s : ℕ)
          → some stride ≡ some s
          → stride ≡ h.collected_output_stride
          → s ≡ h.collected_output_stride
      same_stride s d e = cc

-- What a call does.
pub data Step {ℓ} {A : Type ℓ} (c : HandlerConfig) (b : Batch A) (h : Handler A)
    : Handler A → Type ℓ where
  skipped : not c.has_heuristic || h.locked ≡ true → Step c b h h
  waited :
      (h' : Handler A)
      → h.collected_keys ≡ 0
      → h'.collected_keys ≡ 0
      → h'.insert_freq_cnt ≡ h.insert_freq_cnt - 1
      → Step c b h h'
  -- `g` is the handler as the collection finds it, with the lock and the stride of the batch.
  collected :
      (g h' : Handler A)
      → g.collected_keys ≡ h.collected_keys
      → g.insert_keys ≡ h.insert_keys
      → g.insert_data ≡ h.insert_data
      → g.collected_output_stride ≡ b.output_stride
      → Collected c b g h'
      → Step c b h h'

module _ {ℓ} {A : Type ℓ} (c : HandlerConfig) (b : Batch A) (h g : Handler A)
    (k : Collected c b h g) where
  -- The lock and the task are no part of a collection.
  relock-Collected :
      (lock : Bool) (task : Option ℕ)
      → Collected c b h (record g { locked = lock; launched = task })
  relock-Collected lock task = record {
    taken = k.taken;
    total = k.total;
    first_all = k.first_all;
    next_bound = k.next_bound;
    keys_kept = k.keys_kept;
    data_kept = k.data_kept;
    keys_added = k.keys_added;
    data_added = k.data_added;
    key_room = k.key_room;
    data_room = k.data_room;
  }

module _ {ℓ} {A : Type ℓ} (c : HandlerConfig) (fresh_keys : ℕ → ℕ) (fresh_data : ℕ → A)
    (b : Batch A) where
  -- A call that collects, on a handler whose lock it holds.
  collect-Step :
      (h g : Handler A)
      → g.collected_keys ≡ h.collected_keys
      → g.insert_keys ≡ h.insert_keys
      → g.insert_data ≡ h.insert_data
      → g.launched ≡ none
      → g.locked ≡ true
      → g.collected_output_stride ≡ b.output_stride
      → Ready c g
      → (h' : Handler A) × (settle c b.output_stride
            (collect_keys_and_data c fresh_keys fresh_data b g)
          ≡ returned h')
        × IsValid c h'
        × Step c b h h'
  collect-Step h g keys rows_of data_of no_task lock same r =
      let k = collect-Collected c fresh_keys fresh_data b g r in
      let after = collect_keys_and_data c fresh_keys fresh_data b g in
      let step : (h' : Handler A) → Collected c b g h' → Step c b h h' =
        λ h' d. collected g h' keys rows_of data_of same d in
      unfold collect_keys_and_data in
      settle-IsValid c (Step c b h) b.output_stride after
        (step _ (relock-Collected c b g after k g.locked (some b.output_stride)))
        (step _ (relock-Collected c b g after k false g.launched)) no_task lock (λ p. sym same)
        (λ p. k.key_room) (λ p. rw same (rw same at k.data_room))

  -- A call of `auto_insert`, whatever the heuristic says and whatever else runs, on a handler whose lock
  -- is free or held by its insert, where an unfinished collection has the stride of the batch: it
  -- returns, the handler is again of that kind, and the call skips the batch since there is no heuristic
  -- or the lock is taken, or counts down, or collects the batch.
  pub auto_insert-Step :
      (needed : Bool) (h : Handler A)
      → IsValid c h
      → (0 < h.collected_keys → b.output_stride ≡ h.collected_output_stride)
      → (h' : Handler A) × (auto_insert c fresh_keys fresh_data needed b h ≡ returned h')
        × IsValid c h'
        × Step c b h h'
  unfolding auto_insert auto_insert_locked
  auto_insert-Step needed h v same = elim (Bool-cases (not c.has_heuristic || h.locked)) [
    | inl e ↦ (h, rw e refl, v, skipped e)
    | inr e ↦
        let idle : h.launched ≡ none = no_task (ground arith) in
        let r = v.ready idle in
        let held = record h { locked = true } in
        let r' : Ready c held = record {
          short = r.short;
          key_room = r.key_room;
          data_room = r.data_room;
        } in
        elim (Bool-cases (ltb 0 h.collected_keys)) [
          | inl p ↦
              let fits : b.output_stride == h.collected_output_stride ≡ true =
                ground (arith, same (ground arith)) in
              rw (e, p, fits)
                (collect-Step h held refl refl refl idle refl (sym (same (ground arith))) r')
          | inr p ↦ elim (Bool-cases (h.insert_freq_cnt == 0 && needed)) [
            | inl q ↦
                rw (e, p, q)
                  (let none_yet : h.collected_keys ≡ 0 = ground arith in
                    collect-Step h
                      (record h {
                        locked = true;
                        collected_output_stride = b.output_stride;
                        collected_keys = 0;
                      })
                      (sym none_yet) refl refl idle refl refl
                      (record {
                        short = λ l. absurd (omega arith);
                        key_room = λ l. absurd (omega arith);
                        data_room = λ l. absurd (omega arith);
                      }))
            | inr q ↦
                rw (e, p, q)
                  (let none_yet : h.collected_keys ≡ 0 = ground arith in
                    settle-IsValid c (Step c b h) b.output_stride
                      (record h { locked = true; insert_freq_cnt = h.insert_freq_cnt - 1 })
                      (waited _ none_yet none_yet refl) (waited _ none_yet none_yet refl) idle refl
                      (λ l. absurd (omega arith)) (λ l. absurd (omega arith))
                      (λ l. absurd (omega arith)))
          ]
        ]
  ]
    where
      no_task : h.locked ≡ false → h.launched ≡ none
      no_task e = elim (Option-cases h.launched) [
        | inl n ↦ n
        | inr (s, n) ↦ absurd (true-false (sym (v.busy s n).0 ∙ e))
      ]
