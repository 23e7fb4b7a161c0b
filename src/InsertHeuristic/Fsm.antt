-- ===== src/InsertHeuristic/Fsm.antt =====
-- `FSMInsertHeuristic` of src/insert_heuristic.cpp over a run of samples.
use nv_embedding_cache.Common.{
  ◌≡◌, refl, ap, List, [], ◌∷◌, length, replicate, Bool, true, false, inl, inr, Bool-cases,
}
use nv_embedding_cache.InsertHeuristic.Defs.{Floats, FsmState, FsmTable, fsm_switch, fsm_step}

-- The answers for a table, one for each sample, and the table after them.
unfoldable pub fsm_run : (f : Floats) → FsmTable f → List f.F → List Bool × FsmTable f
fsm_run f t [] = ([], t)
fsm_run f t (x ∷ xs) =
    let (b, t') = fsm_step f t x in let (bs, t'') = fsm_run f t' xs in (b ∷ bs, t'')

-- No sample without an insert is as far as the threshold from the sample of the last insert.
unfoldable pub Quiet : (f : Floats) → f.F → f.F → List f.F → List Bool → Type 0
Quiet f threshold prev [] bs = Unit
Quiet f threshold prev (x ∷ xs) [] = ⊥
Quiet f threshold prev (x ∷ xs) (true ∷ bs) = Quiet f threshold x xs bs
Quiet f threshold prev (x ∷ xs) (false ∷ bs) =
    (f.lt (f.abs (f.sub x prev)) threshold ≡ true) × Quiet f threshold prev xs bs

-- A table whose threshold is not positive never asks for an insert, and its state stays the same.
pub fsm_run_disabled :
    (f : Floats) (t : FsmTable f) (xs : List f.F)
    → f.le t.threshold (f.of_nat 0) ≡ true
    → fsm_run f t xs ≡ (replicate (length xs) false, t)
unfolding fsm_run fsm_step
fsm_run_disabled f t [] h = refl
fsm_run_disabled f t (x ∷ xs) h = rw h (ap (λ r. (false ∷ r.0, r.1)) (fsm_run_disabled f t xs h))

fsm_run_steady :
    (f : Floats) (threshold prev : f.F) (xs : List f.F)
    → f.le threshold (f.of_nat 0) ≡ false
    → Quiet f threshold prev xs
        (fsm_run f
          (record { threshold = threshold; prev_hitrate = prev; state = FsmState.steady })
          xs).0
unfolding fsm_run fsm_step fsm_switch Quiet
fsm_run_steady f threshold prev [] h = tt
fsm_run_steady f threshold prev (x ∷ xs) h =
    elim (Bool-cases (f.lt (f.abs (f.sub x prev)) threshold)) [
      | inl e ↦ rw (h, e) (e, fsm_run_steady f threshold prev xs h)
      | inr e ↦ rw (h, e) (fsm_run_steady f threshold x xs h)
    ]

-- A table in its start state, with a positive threshold, asks for an insert at the first sample, and
-- after it every sample without an insert is closer than the threshold to the sample of the last
-- insert.
pub fsm_run-Quiet :
    (f : Floats) (t : FsmTable f) (x : f.F) (xs : List f.F)
    → f.le t.threshold (f.of_nat 0) ≡ false
    → t.state ≡ FsmState.start
    → (bs : List Bool) × (((fsm_run f t (x ∷ xs)).0 ≡ true ∷ bs) × Quiet f t.threshold x xs bs)
unfolding fsm_run fsm_step fsm_switch
fsm_run-Quiet f t x xs h e = (_, (rw (h, e) refl, fsm_run_steady f t.threshold x xs h))
