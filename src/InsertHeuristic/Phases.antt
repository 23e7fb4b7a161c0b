-- ===== src/InsertHeuristic/Phases.antt =====
-- The phases of `StatisticalInsertHeuristic` of src/insert_heuristic.cpp: how long each lasts.
use nv_embedding_cache.Common.{
  ℕ, suc, ◌+◌, ◌%◌, ◌^◌, ◌<◌, ◌≡◌, refl, ap, ◌∙◌, List, [], ◌∷◌, Option, none, some, arith, ◌==◌,
  length, replicate, Bool, true, false, All, length-replicate,
}
use native.Mathlib.Nat.{suc-mod, mod_self, mod-eq_of_lt}
use nv_embedding_cache.InsertHeuristic.Defs.{
  Floats, State, start, insert, steady, unstable, StatConfig, StatTable, stat_table, is_far,
  in_start, in_insert, in_steady, stat_switch,
}
use nv_embedding_cache.InsertHeuristic.Statistical.{slide, IsConfig}

-- The answers for a table over a run of samples, each with the number drawn for it, and the table after
-- them. It is `none` when a sample makes a call fail.
unfoldable pub stat_run :
    (f : Floats) → StatConfig → StatTable f → List (f.F × f.F) → Option (List Bool × StatTable f)
stat_run f c t [] = some ([], t)
stat_run f c t (x ∷ xs) = elim (stat_switch f c t.state t x.0 x.1) [
  | none ↦ none
  | some r ↦ elim (stat_run f c r.1 xs) [ none ↦ none | some q ↦ some (r.0 ∷ q.0, q.1) ]
]

-- The remainder of a count, one further on.
count_ends : (p n : ℕ) → p % n + 1 ≡ n → (p + 1) % n ≡ 0
count_ends p n e =
    let one_more : p + 1 ≡ suc p = omega arith in
    let all : suc (p % n) ≡ n = omega arith in
    rw (one_more, suc-mod p n) (ap (λ k. k % n) all ∙ mod_self n)

count_goes_on : (p n : ℕ) → p % n + 1 < n → (p + 1) % n ≡ p % n + 1
count_goes_on p n h =
    let one_more : p + 1 ≡ suc p = omega arith in
    let less : suc (p % n) < n = omega arith in
    rw (one_more, suc-mod p n) (mod-eq_of_lt less ∙ omega arith)

module _ (f : Floats) (c : StatConfig) where
  -- A run with one answer throughout, the state it ends in, and its count of inserts.
  pub record Answers (b : Bool) (n performed : ℕ) (s : State)
      (out : Option (List Bool × StatTable f)) : Type 0 where
    pub last : StatTable f
    pub returns : out ≡ some (replicate n b, last)
    pub in_state : last.state ≡ s
    pub inserts : last.performed ≡ performed

  stat_run-cons :
      (t u v : StatTable f) (x : f.F × f.F) (xs : List (f.F × f.F)) (s : State) (b : Bool)
      (bs : List Bool)
      → t.state ≡ s
      → stat_switch f c s t x.0 x.1 ≡ some (b, u)
      → stat_run f c u xs ≡ some (bs, v)
      → stat_run f c t (x ∷ xs) ≡ some (b ∷ bs, v)
  unfolding stat_run
  stat_run-cons t u v x xs s b bs e g h =
      let here : stat_switch f c t.state t x.0 x.1 ≡ some (b, u) =
        ap (λ i. stat_switch f c i t x.0 x.1) e ∙ g in
      rw (stat_run, here, h) refl

  warm_up :
      (t : StatTable f) (xs : List (f.F × f.F))
      → IsConfig c
      → t.state ≡ start
      → length t.window ≡ c.window_size
      → t.collected + length xs ≡ c.window_size
      → 0 < length xs
      → Answers false (length xs) t.performed insert (stat_run f c t xs)
  unfolding stat_run stat_switch in_start
  warm_up t [] k e w n h = absurd (omega arith)
  warm_up t (x ∷ []) k e w n h =
      let (u, s) = slide f c x.0 t.window t (omega (arith, k.windowed)) in
      let full : u.collected + 1 == c.window_size ≡ true = ground (arith, s.same_collected, n) in
      let after = record u { collected = u.collected + 1; state = insert } in
      record {
        last = after;
        returns =
            stat_run-cons t after after x [] start false [] e (rw (in_start, s.done, full) refl)
              refl;
        in_state = refl;
        inserts = s.same_performed;
      }
  warm_up t (x ∷ y ∷ xs) k e w n h =
      let (u, s) = slide f c x.0 t.window t (omega (arith, k.windowed)) in
      let few : u.collected + 1 == c.window_size ≡ false = ground (arith, s.same_collected, n) in
      let after = record u { collected = u.collected + 1 } in
      let more =
        warm_up after (y ∷ xs) k (s.same_state ∙ e) (s.same_length ∙ w)
          (omega (arith, s.same_collected)) (omega arith) in
      record {
        last = more.last;
        returns =
            stat_run-cons t after more.last x (y ∷ xs) start false _ e
              (rw (in_start, s.done, few) refl) more.returns;
        in_state = more.in_state;
        inserts = more.inserts ∙ s.same_performed;
      }

  insert_phase :
      (t : StatTable f) (xs : List (f.F × f.F))
      → t.state ≡ insert
      → t.performed % c.num_inserts_needed + length xs ≡ c.num_inserts_needed
      → t.performed + length xs < 2 ^ 64
      → 0 < length xs
      → Answers true (length xs) (t.performed + length xs) unstable (stat_run f c t xs)
  unfolding stat_run stat_switch in_insert
  insert_phase t [] e n w h = absurd (omega arith)
  insert_phase t (x ∷ []) e n w h =
      let fits : (t.performed + 1) % 2 ^ 64 ≡ t.performed + 1 = mod-eq_of_lt w in
      let last_one : (t.performed + 1) % c.num_inserts_needed == 0 ≡ true =
        ground (arith, count_ends t.performed c.num_inserts_needed n) in
      let after = record t { performed = t.performed + 1; state = unstable } in
      record {
        last = after;
        returns =
            stat_run-cons t after after x [] insert true [] e (rw (in_insert, fits, last_one) refl)
              refl;
        in_state = refl;
        inserts = refl;
      }
  insert_phase t (x ∷ y ∷ xs) e n w h =
      let fits : (t.performed + 1) % 2 ^ 64 ≡ t.performed + 1 = mod-eq_of_lt (omega arith) in
      let step = count_goes_on t.performed c.num_inserts_needed (omega arith) in
      let going_on : (t.performed + 1) % c.num_inserts_needed == 0 ≡ false = ground (arith, step) in
      let after = record t { performed = t.performed + 1 } in
      let more = insert_phase after (y ∷ xs) e (omega (arith, step)) (omega arith) (omega arith) in
      record {
        last = more.last;
        returns =
            stat_run-cons t after more.last x (y ∷ xs) insert true _ e
              (rw (in_insert, fits, going_on) refl) more.returns;
        in_state = more.in_state;
        inserts = more.inserts ∙ omega arith;
      }

  unsteady_phase :
      (t : StatTable f) (xs : List (f.F × f.F))
      → t.state ≡ steady
      → All (λ x. is_far f t x.0 ≡ true) xs
      → t.unsteady + length xs ≡ c.max_unsteady_samples
      → 0 < length xs
      → Answers false (length xs) t.performed insert (stat_run f c t xs)
  unfolding stat_run stat_switch in_steady is_far
  unsteady_phase t [] e a n h = absurd (omega arith)
  unsteady_phase t (x ∷ []) e a n h =
      let enough : t.unsteady + 1 == c.max_unsteady_samples ≡ true = ground (arith, n) in
      let after = record t { state = insert; unsteady = 0 } in
      record {
        last = after;
        returns =
            stat_run-cons t after after x [] steady false [] e (rw (in_steady, a.0, enough) refl)
              refl;
        in_state = refl;
        inserts = refl;
      }
  unsteady_phase t (x ∷ y ∷ xs) e a n h =
      let few : t.unsteady + 1 == c.max_unsteady_samples ≡ false = ground (arith, n) in
      let after = record t { unsteady = t.unsteady + 1 } in
      let more = unsteady_phase after (y ∷ xs) e a.1 (omega arith) (omega arith) in
      record {
        last = more.last;
        returns =
            stat_run-cons t after more.last x (y ∷ xs) steady false _ e
              (rw (in_steady, a.0, few) refl) more.returns;
        in_state = more.in_state;
        inserts = more.inserts;
      }

-- A fresh table, with a configuration that the constructor accepts: the first `window_size` samples ask
-- for no insert, and after them the table is in its insert state.
pub first_window :
    (f : Floats) (c : StatConfig) (k : f.F) (xs : List (f.F × f.F))
    → IsConfig c
    → length xs ≡ c.window_size
    → (t : StatTable f) × ((stat_run f c (stat_table f c k) xs
          ≡ some (replicate c.window_size false, t))
        × ((t.state ≡ insert) × (t.performed ≡ 0)))
unfolding stat_table
first_window f c k xs g n =
    let w =
      warm_up f c (stat_table f c k) xs g refl (length-replicate c.window_size (f.of_nat 0))
        (omega arith) (omega (arith, g.windowed)) in
    (w.last, (w.returns ∙ rw n refl, (w.in_state, w.inserts)))

-- A table in its insert state, at the start of a batch of inserts and before the counter wraps around:
-- the next `num_inserts_needed` samples all ask for an insert, and after them the table is unstable and
-- at the end of the batch.
pub inserts_all :
    (f : Floats) (c : StatConfig) (t : StatTable f) (xs : List (f.F × f.F))
    → IsConfig c
    → t.state ≡ insert
    → t.performed % c.num_inserts_needed ≡ 0
    → t.performed + c.num_inserts_needed < 2 ^ 64
    → length xs ≡ c.num_inserts_needed
    → (t' : StatTable f) × ((stat_run f c t xs ≡ some (replicate c.num_inserts_needed true, t'))
        × ((t'.state ≡ unstable) × (t'.performed ≡ t.performed + c.num_inserts_needed)))
inserts_all f c t xs g e r w n =
    let p = insert_phase f c t xs e (omega arith) (rw n w) (omega (arith, g.inserting)) in
    (p.last, (p.returns ∙ rw n refl, (p.in_state, p.inserts ∙ omega arith)))

-- A steady table without unsteady samples so far: `max_unsteady_samples` samples in a row that are too
-- far from its mean ask for no insert, and after them the table is in its insert state.
pub unsteady_samples_insert :
    (f : Floats) (c : StatConfig) (t : StatTable f) (xs : List (f.F × f.F))
    → IsConfig c
    → t.state ≡ steady
    → t.unsteady ≡ 0
    → All (λ x. is_far f t x.0 ≡ true) xs
    → length xs ≡ c.max_unsteady_samples
    → (t' : StatTable f) × ((stat_run f c t xs ≡ some (replicate c.max_unsteady_samples false, t'))
        × (t'.state ≡ insert))
unsteady_samples_insert f c t xs g e z a n =
    let p = unsteady_phase f c t xs e a (omega arith) (omega (arith, g.patient)) in
    (p.last, (p.returns ∙ rw n refl, p.in_state))
