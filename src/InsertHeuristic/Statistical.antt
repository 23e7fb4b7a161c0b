-- ===== src/InsertHeuristic/Statistical.antt =====
-- `StatisticalInsertHeuristic` of src/insert_heuristic.cpp: its state machine over a run of samples.
use nv_embedding_cache.Common.{
  ℕ, zero, suc, ◌+◌, ◌<◌, ◌≡◌, refl, ◌∙◌, List, [], ◌∷◌, Option, some, arith, ◌==◌, if◌then◌else◌,
  length, Bool, true, false, inl, inr, ◌↔◌, Bool-cases, set, get_elem?, All, ◌&&◌, length-append,
}
use nv_embedding_cache.InsertHeuristic.Defs.{
  Floats, State, start, insert, steady, unstable, StatConfig, StatTable, update_distribution,
  is_far, in_start, in_insert, in_steady, in_unstable, stat_switch, stat_insert_needed,
}

-- What the constructor checks of the configuration.
pub record IsConfig (c : StatConfig) : Type 0 where
  pub windowed : 1 < c.window_size
  pub inserting : 0 < c.num_inserts_needed
  pub patient : 0 < c.max_unsteady_samples

pub record IsValid {f : Floats} (c : StatConfig) (t : StatTable f) : Type 0 where
  pub full : length t.window ≡ c.window_size
  pub collecting : t.state ≡ start → t.collected < c.window_size
  pub bounded : t.unsteady < c.max_unsteady_samples

module _ (f : Floats) (c : StatConfig) where
  -- A window that is not empty slides, and nothing but the distribution changes.
  pub record Slid (hitrate : f.F) (window : List f.F) (t u : StatTable f) : Type 0 where
    pub done : update_distribution f c hitrate window t ≡ some u
    pub same_length : length u.window ≡ length window
    pub same_state : u.state ≡ t.state
    pub same_collected : u.collected ≡ t.collected
    pub same_unsteady : u.unsteady ≡ t.unsteady
    pub same_performed : u.performed ≡ t.performed

  pub slide :
      (hitrate : f.F) (window : List f.F) (t : StatTable f)
      → 0 < length window
      → (u : StatTable f) × Slid hitrate window t u
  unfolding update_distribution
  slide hitrate [] t h = absurd (omega arith)
  slide hitrate (x ∷ window) t h = (
    _,
    record {
      done = refl;
      same_length = omega (arith, length-append window (hitrate ∷ []));
      same_state = refl;
      same_collected = refl;
      same_unsteady = refl;
      same_performed = refl;
    },
  )

  -- What a sample does to a valid table: the answer is yes in the insert state only.
  pub record Stepped (t : StatTable f) (out : Option (Bool × StatTable f)) : Type 0 where
    answer : Bool
    next : StatTable f
    returns : out ≡ some (answer, next)
    next_valid : IsValid c next
    yes_in_insert : (answer ≡ true) ↔ (t.state ≡ insert)

  in_start-Stepped :
      (t : StatTable f) (hitrate : f.F)
      → IsConfig c
      → IsValid c t
      → t.state ≡ start
      → Stepped t (in_start f c t hitrate)
  unfolding in_start
  in_start-Stepped t hitrate k v e =
      let (u, s) = slide hitrate t.window t (omega (arith, v.full, k.windowed)) in
      let few = v.collecting e in
      record {
        answer = false;
        next = record u {
          collected = u.collected + 1;
          state = if u.collected + 1 == c.window_size then insert else u.state;
        };
        returns = rw (in_start, s.done) refl;
        next_valid = record {
          full = s.same_length ∙ v.full;
          collecting = λ i. ground (arith, i, few, s.same_collected);
          bounded = omega (arith, s.same_unsteady, v.bounded);
        };
        yes_in_insert = (λ i. cc, λ i. cc);
      }

  in_insert-Stepped :
      (t : StatTable f) → IsValid c t → t.state ≡ insert → Stepped t (some (in_insert f c t))
  unfolding in_insert
  in_insert-Stepped t v e = record {
    answer = true;
    next = (in_insert f c t).1;
    returns = refl;
    next_valid = record {
      full = v.full;
      collecting = λ i. ground (arith, i, e);
      bounded = v.bounded;
    };
    yes_in_insert = (λ i. e, λ i. refl);
  }

  in_steady-Stepped :
      (t : StatTable f) (hitrate : f.F)
      → IsConfig c
      → IsValid c t
      → t.state ≡ steady
      → Stepped t (in_steady f c t hitrate)
  unfolding in_steady
  in_steady-Stepped t hitrate k v e =
      let (u, s) =
        slide hitrate t.window (record t { unsteady = 0 }) (omega (arith, v.full, k.windowed)) in
      elim (Bool-cases (is_far f t hitrate)) [
        | inl g ↦ elim (Bool-cases (t.unsteady + 1 == c.max_unsteady_samples)) [
          | inl n ↦ record {
            answer = false;
            next = record t { state = insert; unsteady = 0 };
            returns = rw (in_steady, g, n) refl;
            next_valid = record { full = v.full; collecting = λ i. cc; bounded = k.patient };
            yes_in_insert = (λ i. cc, λ i. cc);
          }
          | inr n ↦ record {
            answer = false;
            next = record t { unsteady = t.unsteady + 1 };
            returns = rw (in_steady, g, n) refl;
            next_valid = record {
              full = v.full;
              collecting = λ i. cc;
              bounded = ground (arith, n, v.bounded);
            };
            yes_in_insert = (λ i. cc, λ i. cc);
          }
        ]
        | inr g ↦ record {
          answer = false;
          next = u;
          returns = rw (in_steady, g, s.done) refl;
          next_valid = record {
            full = s.same_length ∙ v.full;
            collecting = λ i. cc;
            bounded = omega (arith, s.same_unsteady, k.patient);
          };
          yes_in_insert = (λ i. cc, λ i. cc);
        }
      ]

  in_unstable-Stepped :
      (t : StatTable f) (hitrate drawn : f.F)
      → IsConfig c
      → IsValid c t
      → t.state ≡ unstable
      → Stepped t (in_unstable f c t hitrate drawn)
  unfolding in_unstable
  in_unstable-Stepped t hitrate drawn k v e =
      let some_window : 0 < length t.window = omega (arith, v.full, k.windowed) in
      elim (Bool-cases (is_far f t hitrate && f.lt t.chebyshev drawn)) [
        | inl g ↦
            let (u, s) =
              slide hitrate t.window (record t { state = start; collected = 1 }) some_window in
            record {
              answer = false;
              next = u;
              returns = rw (in_unstable, g, s.done) refl;
              next_valid = record {
                full = s.same_length ∙ v.full;
                collecting = λ i. omega (arith, s.same_collected, k.windowed);
                bounded = omega (arith, s.same_unsteady, v.bounded);
              };
              yes_in_insert = (λ i. cc, λ i. cc);
            }
        | inr g ↦
            let (u, s) = slide hitrate t.window (record t { state = steady }) some_window in
            record {
              answer = false;
              next = u;
              returns = rw (in_unstable, g, s.done) refl;
              next_valid = record {
                full = s.same_length ∙ v.full;
                collecting = λ i. cc;
                bounded = omega (arith, s.same_unsteady, v.bounded);
              };
              yes_in_insert = (λ i. cc, λ i. cc);
            }
      ]

  switch-Stepped :
      (s : State) (t : StatTable f) (hitrate drawn : f.F)
      → IsConfig c
      → IsValid c t
      → t.state ≡ s
      → Stepped t (stat_switch f c s t hitrate drawn)
  unfolding stat_switch
  switch-Stepped start t hitrate drawn k v e = in_start-Stepped t hitrate k v e
  switch-Stepped insert t hitrate drawn k v e = in_insert-Stepped t v e
  switch-Stepped steady t hitrate drawn k v e = in_steady-Stepped t hitrate k v e
  switch-Stepped unstable t hitrate drawn k v e = in_unstable-Stepped t hitrate drawn k v e

  All-get :
      (P : StatTable f → Type 0) (ts : List (StatTable f)) (i : ℕ)
      → All P ts
      → i < length ts
      → (t : StatTable f) × ((get_elem? ts i ≡ some t) × P t)
  All-get P [] i a h = absurd (omega arith)
  All-get P (t ∷ ts) zero a h = (t, (refl, a.0))
  All-get P (t ∷ ts) (suc i) a h = All-get P ts i a.1 (omega arith)

  All-set :
      (P : StatTable f → Type 0) (ts : List (StatTable f)) (i : ℕ) (t : StatTable f)
      → All P ts
      → P t
      → All P (set ts i t)
  All-set P [] i t a p = tt
  All-set P (u ∷ ts) zero t a p = (p, a.1)
  All-set P (u ∷ ts) (suc i) t a p = (a.0, All-set P ts i t a.1 p)

-- With a configuration that the constructor accepts, valid tables and a table id in range, a call
-- neither throws nor reads an empty window; it changes that table only, leaves every table valid, and
-- asks for an insert exactly when the table was in its insert state.
pub stat_insert_needed-IsValid :
    (f : Floats) (c : StatConfig) (ts : List (StatTable f)) (hitrate : f.F) (table_id : ℕ)
    (drawn : f.F)
    → IsConfig c
    → All (IsValid c) ts
    → table_id < length ts
    → (t : StatTable f) × (b : Bool) × (t' : StatTable f) × ((get_elem? ts table_id ≡ some t)
        × ((stat_insert_needed f c ts hitrate table_id drawn ≡ some (b, set ts table_id t'))
            × (All (IsValid c) (set ts table_id t') × ((b ≡ true) ↔ (t.state ≡ insert)))))
unfolding stat_insert_needed
stat_insert_needed-IsValid f c ts hitrate table_id drawn k a h =
    let (t, (e, v)) = All-get f c (IsValid c) ts table_id a h in
    let s = switch-Stepped f c t.state t hitrate drawn k v refl in
    (
      t,
      s.answer,
      s.next,
      (
        e,
        (
          rw (stat_insert_needed, e, s.returns) refl,
          (All-set f c (IsValid c) ts table_id s.next a s.next_valid, s.yes_in_insert),
        ),
      ),
    )
