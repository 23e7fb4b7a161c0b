-- ===== src/Layer/Fill.antt =====
-- The default embedding of a lookup (src/hierarchical_embedding_layer.cu, src/host_embedding_layer.cpp).
use native.Mathlib.Nat.{div-add-mod', mod-lt}
use nv_embedding_cache.Common.{
  ℕ, zero, suc, ◌+◌, ◌-◌, ◌*◌, ◌/◌, ◌≤◌, ◌<◌, ◌≡◌, refl, ap, ◌∙◌, min, max, List, [], ◌∷◌, Option,
  arith, ◌==◌, leb, ltb, if◌then◌else◌, Bool, false, ◌&&◌, not, Bool-cases, inl, inr, range_from,
  Perm,
}
use nv_embedding_cache.LinearTable.Defs.{task_loop, run_task, run_tasks}
use nv_embedding_cache.LinearTable.Gather.{hit_bit}
use nv_embedding_cache.LinearTable.Copy.{memcpy-row}
use nv_embedding_cache.LinearTable.Cover.{run_tasks-once, run_tasks-kept}
use nv_embedding_cache.Layer.Lookup.{
  fill_keys_per_task, fill_num_tasks, fill_key, fill_keys, fill_task, fill_tasks,
}

fill_tasks-covers : (n w : ℕ) → n ≤ fill_num_tasks n w * fill_keys_per_task n w
unfolding fill_num_tasks fill_keys_per_task
fill_tasks-covers n w =
    let per = max 1 ((n + w - 1) / w) in
    let positive : 0 < per = omega arith in
    omega (arith, div-add-mod' (n + per - 1) per, mod-lt (n + per - 1) positive)

module _ {ℓ} {A : Type ℓ} (hit_mask : Option (ℕ → ℕ → Bool)) (row : ℕ → A)
    (row_size stride n per : ℕ) where
  abbrev body : ℕ → ℕ → (ℕ → A) → ℕ → A
  body base i output = fill_key hit_mask row row_size stride (base + i) output

  -- The loop up to the end of the batch is the loop that breaks there.
  fill_keys-task_loop :
      (base i left : ℕ) (output : ℕ → A)
      → fill_keys hit_mask row row_size stride
          (base + i)
          (min (base + i + left) n - (base + i))
          output
        ≡ task_loop n body base i left output
  unfolding fill_keys task_loop
  fill_keys-task_loop base i zero output =
      let none_left : min (base + i + 0) n - (base + i) ≡ 0 = omega arith in rw none_left refl
  fill_keys-task_loop base i (suc left) output = elim (Bool-cases (leb n (base + i))) [
    | inl e ↦
        let none_left : min (base + i + suc left) n - (base + i) ≡ 0 = ground arith in
        rw (none_left, e) refl
    | inr e ↦
        let more : min (base + i + suc left) n - (base + i)
            ≡ suc (min (base + suc i + left) n - (base + suc i)) =
          ground arith in
        let next : suc (base + i) ≡ base + suc i = omega arith in
        let filled = fill_key hit_mask row row_size stride (base + i) output in
        let count = min (base + suc i + left) n - (base + suc i) in
        rw (more, e)
          (ap (λ k. fill_keys hit_mask row row_size stride k count filled) next
            ∙ fill_keys-task_loop base (suc i) left filled)
  ]

  fill_tasks-run_tasks :
      (order : List ℕ) (output : ℕ → A)
      → fill_tasks hit_mask row row_size stride n per order output
        ≡ run_tasks n body per order output
  unfolding fill_tasks fill_task run_tasks run_task
  fill_tasks-run_tasks [] output = refl
  fill_tasks-run_tasks (idx ∷ order) output =
      let none_yet : idx * per ≡ idx * per + 0 = omega arith in
      let one : fill_keys hit_mask row row_size stride (idx * per)
            (min (idx * per + per) n - idx * per) output
          ≡ task_loop n body (idx * per) 0 per output =
        ap (λ b. fill_keys hit_mask row row_size stride b (min (b + per) n - b) output) none_yet
        ∙ fill_keys-task_loop (idx * per) 0 per output in
      rw one (fill_tasks-run_tasks order (task_loop n body (idx * per) 0 per output))

  fill_key-at :
      (fits : row_size ≤ stride) (m k j : ℕ) (output : ℕ → A)
      → j < stride
      → fill_key hit_mask row row_size stride m output (k * stride + j) ≡ (
          if m == k
          then (if not (hit_bit hit_mask k) && ltb j row_size
              then row j
              else output (k * stride + j))
          else output (k * stride + j))
  unfolding fill_key
  fill_key-at fits m k j output g =
      let copied = memcpy-row output row m k stride j 0 row_size fits g in
      elim (Bool-cases (m == k)) [
        | inl e ↦
            let same : m ≡ k = ground arith in
            elim (Bool-cases (hit_bit hit_mask k)) [
              | inl b ↦ rw (e, same, b)
              | inr b ↦
                  let at : 0 + j ≡ j = omega arith in rw (e, same, b) (rw (e, same, at) at copied)
            ]
        | inr e ↦ elim (Bool-cases (hit_bit hit_mask m)) [
          | inl b ↦ rw (e, b)
          | inr b ↦ rw (e, b) (copied ∙ rw e refl)
        ]
      ]

-- In whatever order the tasks of the default embedding run, the row of each key whose bit is not set
-- is the default row afterwards, and every other byte of the output stays, for any number of workers,
-- where rows fit the stride.
pub fill_tasks-at {ℓ} :
    {A : Type ℓ} (hit_mask : Option (ℕ → ℕ → Bool)) (row : ℕ → A)
    (row_size stride n num_workers : ℕ) (order : List ℕ) (output : ℕ → A) (k j : ℕ)
    → row_size ≤ stride
    → Perm order (range_from 0 (fill_num_tasks n num_workers))
    → j < stride
    → fill_tasks hit_mask row row_size stride n
        (fill_keys_per_task n num_workers)
        order
        output
        (k * stride + j)
      ≡ (if ltb k n && (not (hit_bit hit_mask k) && ltb j row_size)
          then row j
          else output (k * stride + j))
fill_tasks-at hit_mask row row_size stride n w order output k j fits r g =
    let per = fill_keys_per_task n w in
    let x = k * stride + j in
    let step = body hit_mask row row_size stride n per in
    ap (λ m. m x) (fill_tasks-run_tasks hit_mask row row_size stride n per order output)
    ∙ elim (Bool-cases (ltb k n)) [
      | inl e ↦ rw e (
          run_tasks-once n per k x step
            (λ v. if not (hit_bit hit_mask k) && ltb j row_size then row j else v)
            (λ idx i m inside.
              fill_key-at hit_mask row row_size stride n per fits (idx * per + i) k j m g)
            (ground arith) (fill_num_tasks n w) order output (fill_tasks-covers n w) r)
      | inr e ↦ rw e (
          run_tasks-kept n per x step
            (λ idx i m inside.
              let other : idx * per + i == k ≡ false = ground arith in
              fill_key-at hit_mask row row_size stride n per fits (idx * per + i) k j m g
              ∙ rw other refl)
            order output)
    ]
