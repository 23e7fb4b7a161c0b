-- ===== src/LinearTable/Cover.antt =====
-- The tasks of cpu_ops/cpu_gather.h and cpu_ops/cpu_update.h share out the keys of a batch:
-- whatever the order of the tasks, each key is the body's of one loop once.
use native.Mathlib.Nat.{div-add-mod', mod-lt, mul-le-mul_right}
use nv_embedding_cache.Common.{
  ℕ, zero, suc, ◌+◌, ◌-◌, ◌*◌, ◌/◌, ◌≤◌, ◌<◌, ◌≡◌, refl, ap, ◌∙◌, List, [], ◌∷◌, arith, ◌==◌, leb,
  ltb, if◌then◌else◌, ◌&&◌, Bool, true, false, Bool-cases, inl, inr, count_by, count_by-perm,
  to_nat, range_from, Perm,
}
use nv_embedding_cache.LinearTable.Defs.{
  task_loop, run_task, run_tasks, keys_per_task, aligned_keys_per_task,
}

-- Is the index `k` one of the task's?
abbrev owns : ℕ → ℕ → ℕ → Bool
owns per k idx = leb (idx * per) k && ltb k (idx * per + per)

-- How many of the tasks have the index.
owners : ℕ → ℕ → List ℕ → ℕ
owners per k order = count_by (λ idx. to_nat (owns per k idx)) 1 order

owners-owned :
    (per k idx : ℕ) (order : List ℕ)
    → owns per k idx ≡ true
    → owners per k (idx ∷ order) ≡ suc (owners per k order)
unfolding owners
owners-owned per k idx order e = rw e (omega arith)

owners-other :
    (per k idx : ℕ) (order : List ℕ)
    → owns per k idx ≡ false
    → owners per k (idx ∷ order) ≡ owners per k order
unfolding owners
owners-other per k idx order e = rw e (omega arith)

owners-later : (per k i n : ℕ) → k < i * per → owners per k (range_from i n) ≡ 0
unfolding owners
owners-later per k i zero h = refl
owners-later per k i (suc n) h =
    let one : suc i * per ≡ i * per + per = grind arith in
    let not_mine : owns per k i ≡ false = ground arith in
    rw not_mine (omega (arith, owners-later per k (suc i) n (omega (arith, one))))

owners-range : (per k i n : ℕ) → i * per ≤ k → k < (i + n) * per → owners per k (range_from i n) ≡ 1
unfolding owners
owners-range per k i zero h g =
    let none_left : (i + 0) * per ≡ i * per = grind arith in absurd (omega arith)
owners-range per k i (suc n) h g =
    let one : suc i * per ≡ i * per + per = grind arith in
    let all : (i + suc n) * per ≡ (suc i + n) * per = grind arith in
    elim (Bool-cases (ltb k (i * per + per))) [
      | inl e ↦
          let mine : owns per k i ≡ true = ground arith in
          rw mine (omega (arith, owners-later per k (suc i) n (ground (arith, one))))
      | inr e ↦
          let not_mine : owns per k i ≡ false = ground arith in
          rw not_mine
            (omega (arith, owners-range per k (suc i) n (ground (arith, one)) (omega (arith, all))))
    ]

-- In any order of the tasks 0 to `t` - 1, one has the index.
owners-once :
    (per k t : ℕ) (order : List ℕ)
    → k < t * per
    → Perm order (range_from 0 t)
    → owners per k order ≡ 1
unfolding owners
owners-once per k t order h r =
    let none_before : 0 * per ≡ 0 = grind arith in
    let all : (0 + t) * per ≡ t * per = grind arith in
    count_by-perm (λ idx. to_nat (owns per k idx)) 1 r
    ∙ owners-range per k 0 t (omega arith) (omega arith)

-- The tasks have room for all keys.
pub keys_per_task-covers : (n t : ℕ) → 0 < t → n ≤ t * keys_per_task n t
unfolding keys_per_task
keys_per_task-covers n t h =
    let swap : t * ((n + t - 1) / t) ≡ (n + t - 1) / t * t = grind arith in
    omega (arith, div-add-mod' (n + t - 1) t, mod-lt (n + t - 1) h, swap)

pub aligned_keys_per_task-covers : (n t : ℕ) → 0 < t → n ≤ t * aligned_keys_per_task n t
unfolding aligned_keys_per_task
aligned_keys_per_task-covers n t h =
    let per = keys_per_task n t in
    let up : per ≤ (per + 64 - 1) / 64 * 64 = omega arith in
    let more : per * t ≤ (per + 64 - 1) / 64 * 64 * t = mul-le-mul_right t up in
    let swap : t * per ≡ per * t = grind arith in
    let swap' : t * ((per + 64 - 1) / 64 * 64) ≡ (per + 64 - 1) / 64 * 64 * t = grind arith in
    omega (arith, keys_per_task-covers n t h)

-- A position `x` that the body at the index `k` changes by `f`, and at no other index.
module _ {ℓ} {A : Type ℓ} (n per k x : ℕ) (body : ℕ → ℕ → (ℕ → A) → ℕ → A) (f : A → A)
    (one : (idx i : ℕ) (m : ℕ → A)
      → idx * per + i < n
      → body (idx * per) i m x ≡ (if idx * per + i == k then f (m x) else m x))
    (h : k < n) where
  task_loop-at :
      (idx i left : ℕ) (m : ℕ → A)
      → task_loop n body (idx * per) i left m x
        ≡ (if leb (idx * per + i) k && ltb k (idx * per + i + left) then f (m x) else m x)
  unfolding task_loop
  task_loop-at idx i zero m = ground arith
  task_loop-at idx i (suc left) m =
      let b = idx * per in
      let rest = task_loop-at idx (suc i) left (body b i m) in
      elim (Bool-cases (leb n (b + i))) [
        | inl e ↦ let past : leb (b + i) k ≡ false = ground arith in rw (e, past)
        | inr e ↦ elim (Bool-cases (b + i == k)) [
          | inl d ↦
              let here : body b i m x ≡ f (m x) = one idx i m (ground arith) ∙ rw d refl in
              let past : leb (b + suc i) k ≡ false = ground arith in
              let now : leb (b + i) k && ltb k (b + i + suc left) ≡ true = ground arith in
              rw (e, rest, here, past, now)
          | inr d ↦
              let same : body b i m x ≡ m x = one idx i m (ground arith) ∙ rw d refl in
              let later : leb (b + suc i) k && ltb k (b + suc i + left)
                  ≡ leb (b + i) k && ltb k (b + i + suc left) =
                ground arith in
              rw (e, rest, same, later)
        ]
      ]

  abbrev repeat : ℕ → A → A
  repeat zero a = a
  repeat (suc c) a = repeat c (f a)

  run_tasks-at :
      (order : List ℕ) (m : ℕ → A)
      → run_tasks n body per order m x ≡ repeat (owners per k order) (m x)
  unfolding run_tasks run_task
  run_tasks-at [] m = unfold owners in refl
  run_tasks-at (idx ∷ order) m =
      let now = task_loop-at idx 0 per m in
      let rest = run_tasks-at order (task_loop n body (idx * per) 0 per m) in
      let no_more : idx * per + 0 ≡ idx * per = omega arith in
      elim (Bool-cases (owns per k idx)) [
        | inl e ↦
            let here : task_loop n body (idx * per) 0 per m x ≡ f (m x) =
              now ∙ rw (no_more, e) refl in
            rest ∙ rw (owners-owned per k idx order e, here) refl
        | inr e ↦
            let same : task_loop n body (idx * per) 0 per m x ≡ m x = now ∙ rw (no_more, e) refl in
            rest ∙ rw (owners-other per k idx order e, same) refl
      ]

  -- The tasks, in any order, change it once.
  pub run_tasks-once :
      (t : ℕ) (order : List ℕ) (m : ℕ → A)
      → n ≤ t * per
      → Perm order (range_from 0 t)
      → run_tasks n body per order m x ≡ f (m x)
  run_tasks-once t order m g r =
      run_tasks-at order m ∙ ap (λ c. repeat c (m x)) (owners-once per k t order (omega arith) r)

-- A position that the body changes at no index of the batch.
module _ {ℓ} {A : Type ℓ} (n per x : ℕ) (body : ℕ → ℕ → (ℕ → A) → ℕ → A)
    (none_changes : (idx i : ℕ) (m : ℕ → A)
      → idx * per + i < n
      → body (idx * per) i m x ≡ m x) where
  task_loop-kept : (idx i left : ℕ) (m : ℕ → A) → task_loop n body (idx * per) i left m x ≡ m x
  unfolding task_loop
  task_loop-kept idx i zero m = refl
  task_loop-kept idx i (suc left) m = elim (Bool-cases (leb n (idx * per + i))) [
    | inl e ↦ rw e refl
    | inr e ↦
        rw (e, task_loop-kept idx (suc i) left (body (idx * per) i m))
          (none_changes idx i m (ground arith))
  ]

  pub run_tasks-kept : (order : List ℕ) (m : ℕ → A) → run_tasks n body per order m x ≡ m x
  unfolding run_tasks run_task
  run_tasks-kept [] m = refl
  run_tasks-kept (idx ∷ order) m =
      run_tasks-kept order (task_loop n body (idx * per) 0 per m) ∙ task_loop-kept idx 0 per m
