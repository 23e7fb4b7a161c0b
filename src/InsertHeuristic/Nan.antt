-- ===== src/InsertHeuristic/Nan.antt =====
-- `StatisticalInsertHeuristic` (src/insert_heuristic.cpp) on a hit rate that is not a number, the 0 / 0 of
-- a table behind tables that found all keys (src/hierarchical_embedding_layer.cu).
use nv_embedding_cache.Common.{
  ◌<◌, ◌≡◌, refl, ap, ◌∙◌, List, [], ◌∷◌, some, arith, length, replicate, false, inl, inr,
  length-append, List-cases, ◌++◌,
}
use nv_embedding_cache.InsertHeuristic.Defs.{
  Floats, steady, StatConfig, StatTable, update_distribution, variance, is_far, in_steady,
  stat_switch,
}
use nv_embedding_cache.InsertHeuristic.Phases.{stat_run}

-- The rules of IEEE 754 for a value that is not a number.
pub record NotANumber (f : Floats) : Type 0 where
  pub nan : f.F
  pub add-left : (x : f.F) → f.add nan x ≡ nan
  pub add-right : (x : f.F) → f.add x nan ≡ nan
  pub sub-left : (x : f.F) → f.sub nan x ≡ nan
  pub sub-right : (x : f.F) → f.sub x nan ≡ nan
  pub div-left : (x : f.F) → f.div nan x ≡ nan
  pub abs_lem : f.abs nan ≡ nan
  pub le-right : (x : f.F) → f.le x nan ≡ false

module _ (f : Floats) (c : StatConfig) (is : NotANumber f) where
  -- A step of a steady table whose sample, or whose mean, is not a number.
  steady_step :
      (t : StatTable f) (x : f.F × f.F)
      → t.state ≡ steady
      → 0 < length t.window
      → f.sub x.0 t.mean ≡ is.nan
      → ((h w : f.F) → f.add t.mean (f.div (f.sub x.0 h) w) ≡ is.nan)
      → (u : StatTable f) × (stat_switch f c t.state t x.0 x.1 ≡ some (false, u))
        × (u.state ≡ steady)
        × (u.mean ≡ is.nan)
        × (0 < length u.window)
  unfolding stat_switch in_steady is_far update_distribution
  steady_step t x s w d m = elim (List-cases t.window) [
    | inl e ↦ absurd (omega (arith, ap length e))
    | inr (old, rest, e) ↦
        let k_std = f.mul t.k_factor (f.sqrt t.var) in
        let near : is_far f t x.0 ≡ false =
          ap (λ y. f.le k_std (f.abs y)) d ∙ ap (f.le k_std) is.abs_lem ∙ is.le-right k_std in
        let window = rest ++ x.0 ∷ [] in
        let mean = f.add t.mean (f.div (f.sub x.0 old) (f.of_nat c.window_size)) in
        let u = record t {
          unsteady = 0;
          window = window;
          mean = mean;
          var = variance f c mean window;
        } in
        let slid : update_distribution f c x.0 t.window (record t { unsteady = 0 }) ≡ some u =
          ap (λ v. update_distribution f c x.0 v (record t { unsteady = 0 })) e in
        (
          u,
          ap (λ y. stat_switch f c y t x.0 x.1) s ∙ stays t x.0 u near slid,
          s,
          m old (f.of_nat c.window_size),
          omega (arith, length-append rest (x.0 ∷ [])),
        )
  ]
    where
      stays :
          (t : StatTable f) (h : f.F) (u : StatTable f)
          → is_far f t h ≡ false
          → update_distribution f c h t.window (record t { unsteady = 0 }) ≡ some u
          → in_steady f c t h ≡ some (false, u)
      stays t h u near slid = rw (in_steady, near, slid) refl

  -- A steady table whose mean is not a number answers every sample alike.
  steady_run :
      (xs : List (f.F × f.F)) (t : StatTable f)
      → t.state ≡ steady
      → 0 < length t.window
      → t.mean ≡ is.nan
      → (u : StatTable f) × (stat_run f c t xs ≡ some (replicate (length xs) false, u))
        × (u.state ≡ steady)
        × (u.mean ≡ is.nan)
  unfolding stat_run
  steady_run [] t s w m = (t, refl, s, m)
  steady_run (x ∷ xs) t s w m =
      let (u, run, s', m', w') =
        steady_step t x s w (ap (f.sub x.0) m ∙ is.sub-right x.0)
          (λ h v. ap (λ y. f.add y (f.div (f.sub x.0 h) v)) m ∙ is.add-left _) in
      let (last, runs, s'', m'') = steady_run xs u s' w' m' in
      (last, rw (stat_run, run, runs) refl, s'', m'')

-- A sample that is not a number leaves a steady table steady for good: whatever the samples behind it
-- are, no answer of the heuristic asks for an insert.
pub stat_run-poisoned :
    (f : Floats) (c : StatConfig) (is : NotANumber f) (t : StatTable f) (drawn : f.F)
    (xs : List (f.F × f.F))
    → t.state ≡ steady
    → 0 < length t.window
    → (u : StatTable f) × (stat_run f c t ((is.nan, drawn) ∷ xs)
        ≡ some (replicate (length ((is.nan, drawn) ∷ xs)) false, u))
      × (u.state ≡ steady)
      × (u.mean ≡ is.nan)
unfolding stat_run
stat_run-poisoned f c is t drawn xs s w =
    let (u, run, s', m', w') =
      steady_step f c is t (is.nan, drawn) s w (is.sub-left t.mean)
        (λ h v.
          ap (λ y. f.add t.mean (f.div y v)) (is.sub-left h)
          ∙ ap (f.add t.mean) (is.div-left v)
          ∙ is.add-right t.mean) in
    let (last, runs, s'', m'') = steady_run f c is xs u s' w' m' in
    (last, rw (stat_run, run, runs) refl, s'', m'')
