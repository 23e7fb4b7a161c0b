-- ===== src/ThreadPool/Submit.antt =====
-- The submission loops of include/thread_pool_base.hpp: how often a task index is queued.
use nv_embedding_cache.Common.{
  ℕ, zero, suc, ◌+◌, ◌-◌, ◌%◌, ◌≤◌, ◌<◌, ◌≡◌, refl, ap, ◌∙◌, List, [], ◌∷◌, ◌++◌, Option, some,
  arith, ◌==◌, ltb, length, min, max, set, get_elem?, ◌≢◌, true, range_from, count, to_nat,
}
use nv_embedding_cache.ThreadPool.Defs.{
  Task, run, stop, Group, num_workers, enqueue, burst, push_to, submit_n, submit_rounds,
  submit_range,
}

-- How often a task index stands in a queue, and in all queues.
unfoldable pub waiting : ℕ → List Task → ℕ
waiting q [] = 0
waiting q (run i ∷ ts) = to_nat (q == i) + waiting q ts
waiting q (stop ∷ ts) = waiting q ts

unfoldable pub queued : ℕ → List Group → ℕ
queued q [] = 0
queued q (g ∷ gs) = waiting q g.tasks + queued q gs

waiting-append : (q : ℕ) (ts us : List Task) → waiting q (ts ++ us) ≡ waiting q ts + waiting q us
unfolding waiting
waiting-append q [] us = omega arith
waiting-append q (run i ∷ ts) us = omega (arith, waiting-append q ts us)
waiting-append q (stop ∷ ts) us = waiting-append q ts us

waiting-burst : (q idx n : ℕ) → waiting q (burst idx n) ≡ count q (range_from idx n)
unfolding waiting burst
waiting-burst q idx zero = refl
waiting-burst q idx (suc n) = ap (λ x. to_nat (q == idx) + x) (waiting-burst q (suc idx) n)

count-range_split :
    (q idx a b : ℕ)
    → count q (range_from idx (a + b))
      ≡ count q (range_from idx a) + count q (range_from (idx + a) b)
count-range_split q idx zero b = ground arith
count-range_split q idx (suc a) b =
    let next : suc idx + a ≡ idx + suc a = omega arith in
    let sum : suc a + b ≡ suc (a + b) = omega arith in
    rw sum
      (omega (arith, count-range_split q (suc idx) a b, ap (λ i. count q (range_from i b)) next))

-- What a push to one workgroup keeps, and what it adds.
record Pushed (ts : List Task) (gs gs' : List Group) : Type 0 where
  added : (q : ℕ) → queued q gs' ≡ queued q gs + waiting q ts
  workers_kept : num_workers gs' ≡ num_workers gs
  groups_kept : length gs' ≡ length gs

set-Pushed :
    (ts : List Task) (gs : List Group) (wg : ℕ) (g : Group)
    → get_elem? gs wg ≡ some g
    → Pushed ts gs (set gs wg (enqueue ts g))
unfolding queued num_workers
set-Pushed ts [] wg g e = cc
set-Pushed ts (h ∷ gs) zero g e =
    let same : h ≡ g = cc in
    record {
      added = λ q. rw (same, waiting-append) (omega arith);
      workers_kept = rw same refl;
      groups_kept = refl;
    }
set-Pushed ts (h ∷ gs) (suc wg) g e =
    let rest = set-Pushed ts gs wg g e in
    record {
      added = λ q. omega (arith, rest.added q);
      workers_kept = omega (arith, rest.workers_kept);
      groups_kept = omega (arith, rest.groups_kept);
    }

get_elem?-in_range :
    (gs : List Group) (i : ℕ) → i < length gs → (g : Group) × (get_elem? gs i ≡ some g)
get_elem?-in_range [] i h = absurd (omega arith)
get_elem?-in_range (g ∷ gs) zero h = (g, refl)
get_elem?-in_range (g ∷ gs) (suc i) h = get_elem?-in_range gs i (omega arith)

workers_in_groups : (gs : List Group) → 0 < num_workers gs → 0 < length gs
unfolding num_workers
workers_in_groups [] h = absurd (omega arith)
workers_in_groups (g ∷ gs) h = omega arith

submit_n-Pushed :
    (idx n wg : ℕ) (gs : List Group)
    → 0 < n
    → wg < length gs
    → 0 < num_workers gs
    → (gs' : List Group) × ((submit_n idx n wg gs ≡ some (idx + n, gs'))
        × Pushed (burst idx n) gs gs')
unfolding submit_n push_to
submit_n-Pushed idx zero wg gs p h w = absurd (omega arith)
submit_n-Pushed idx (suc n) wg gs p h w =
    let (g, e) = get_elem?-in_range gs wg h in
    let busy : ltb 0 (num_workers gs) ≡ true = ground arith in
    (
      set gs wg (enqueue (burst idx (suc n)) g),
      (rw (submit_n, push_to, e, busy) refl, set-Pushed (burst idx (suc n)) gs wg g e),
    )

-- What the rounds do.
Queues : ℕ → ℕ → List Group → Option (ℕ × List Group) → Type 0
Queues idx n gs out =
    (gs' : List Group) × ((out ≡ some (idx + n, gs'))
      × ((q : ℕ) → queued q gs' ≡ queued q gs + count q (range_from idx n)))

cyclic : (all rest : List ℕ) → all ≢ [] → elim rest [ [] ↦ all | x ∷ xs ↦ x ∷ xs ] ≢ []
cyclic all [] a e = a e
cyclic all (x ∷ xs) a e = cc

submit_rounds-Queues :
    (fuel idx n per : ℕ) (all rest : List ℕ) (gs : List Group)
    → n ≤ fuel
    → 0 < per
    → all ≢ []
    → rest ≢ []
    → 0 < num_workers gs
    → Queues idx n gs (submit_rounds fuel idx n per all rest gs)
unfolding submit_rounds Queues
submit_rounds-Queues fuel idx zero per all rest gs f p a r w =
    (gs, (ground arith, λ q. ground arith))
submit_rounds-Queues zero idx (suc n) per all rest gs f p a r w = absurd (omega arith)
submit_rounds-Queues (suc fuel) idx (suc n) per all [] gs f p a r w = absurd (r refl)
submit_rounds-Queues (suc fuel) idx (suc n) per all (v ∷ rest) gs f p a r w =
    let m = min (suc n) per in
    let inside : v % length gs < length gs = omega (arith, workers_in_groups gs w) in
    let (g', (e, s)) = submit_n-Pushed idx m (v % length gs) gs (omega arith) inside w in
    let still : 0 < num_workers g' = omega (arith, s.workers_kept) in
    let (gs', (e', q')) =
      submit_rounds-Queues fuel (idx + m) (suc n - per) per all
        (elim rest [ [] ↦ all | x ∷ xs ↦ x ∷ xs ]) g' (omega arith) p a (cyclic all rest a) still in
    let total : idx + m + (suc n - per) ≡ idx + suc n = omega arith in
    let parts : m + (suc n - per) ≡ suc n = omega arith in
    (
      gs',
      (
        rw (submit_rounds, e) (e' ∙ rw total refl),
        λ q. omega (
          arith,
          q' q,
          s.added q,
          waiting-burst q idx m,
          count-range_split q idx m (suc n - per),
          ap (λ k. count q (range_from idx k)) parts,
        ),
      ),
    )

-- `submit_n` over a non-empty range of workgroups, in a pool that has a worker: the call succeeds,
-- returns the next task index, and queues every index from `idx` to `idx + n - 1` once more, and no
-- other index, whatever the number of tasks per round.
pub submit_range-once :
    (idx n per : ℕ) (wgs : List ℕ) (gs : List Group)
    → wgs ≢ []
    → 0 < num_workers gs
    → (gs' : List Group) × ((submit_range idx n per wgs gs ≡ some (idx + n, gs'))
        × ((q : ℕ) → queued q gs' ≡ queued q gs + count q (range_from idx n)))
unfolding submit_range Queues
submit_range-once idx n per [] gs a w = absurd (a refl)
submit_range-once idx n per (v ∷ wgs) gs a w =
    submit_rounds-Queues n idx n (max per 1) (v ∷ wgs) (v ∷ wgs) gs (omega arith) (omega arith) a a
      w
