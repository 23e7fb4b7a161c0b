-- ===== src/LinearTable/Copy.antt =====
-- The copies of cpu_ops/cpu_gather.h and cpu_ops/cpu_update.h in a buffer of rows: row `m`
-- starts at `m * stride`.
use native.Mathlib.Nat.{mul-le-mul_right}
use nv_embedding_cache.Common.{
  ℕ, zero, suc, ◌+◌, ◌-◌, ◌*◌, ◌≤◌, ◌<◌, ◌≡◌, ap, arith, ◌==◌, leb, ltb, if◌then◌else◌, ◌&&◌,
  Bool-cases, inl, inr, true, false, sym,
}
use nv_embedding_cache.LinearTable.Defs.{memcpy, add_row}

-- A position of one row is none of another's.
apart :
    (m k s j row : ℕ)
    → row ≤ s
    → j < s
    → m == k ≡ false
    → leb (m * s) (k * s + j) && ltb (k * s + j) (m * s + row) ≡ false
apart m k s j row h g e = elim (Bool-cases (ltb m k)) [
  | inl lt ↦
      let step : suc m * s ≤ k * s = mul-le-mul_right s (ground arith) in
      let one : suc m * s ≡ m * s + s = grind arith in ground (arith, one, step)
  | inr ge ↦
      let step : suc k * s ≤ m * s = mul-le-mul_right s (ground arith) in
      let one : suc k * s ≡ k * s + s = grind arith in ground (arith, one, step)
]

module _ {ℓ} {A : Type ℓ} (dst src : ℕ → A) (m k s j o row : ℕ) (h : row ≤ s) (g : j < s) where
  -- A copy to the row `m`, seen in the row `k`.
  pub memcpy-row :
      memcpy dst (m * s) src o row (k * s + j)
      ≡ (if m == k && ltb j row then src (o + j) else dst (k * s + j))
  unfolding memcpy
  memcpy-row = elim (Bool-cases (m == k)) [
    | inl e ↦
        let same : m ≡ k = ground arith in
        let inside : leb (k * s) (k * s + j) && ltb (k * s + j) (k * s + row) ≡ ltb j row =
          ground arith in
        let at : k * s + j - k * s ≡ j = omega arith in rw (e, same, inside, at)
    | inr e ↦ rw (e, apart m k s j row h g e)
  ]

  -- A sum into the row `m`, seen in the row `k`.
  pub add_row-row :
      (add : A → A → A)
      → add_row add dst (m * s) src o row (k * s + j)
        ≡ (if m == k && ltb j row then add (dst (k * s + j)) (src (o + j)) else dst (k * s + j))
  unfolding add_row
  add_row-row add = rows row h
    where
      rows :
          (n : ℕ)
          → n ≤ s
          → add_row add dst (m * s) src o n (k * s + j)
            ≡ (if m == k && ltb j n then add (dst (k * s + j)) (src (o + j)) else dst (k * s + j))
      rows zero b = ground arith
      rows (suc n) b =
          let before = rows n (omega arith) in
          elim (Bool-cases (m == k)) [
            | inr e ↦
                let off = apart m k s j (suc n) b g e in
                let other : k * s + j == m * s + n ≡ false = ground (arith, off) in
                rw (other, before, e)
            | inl e ↦
                let same : m ≡ k = ground arith in
                elim (Bool-cases (j == n)) [
                  | inl d ↦
                      let last : j ≡ n = ground arith in
                      let hit : k * s + j == m * s + n ≡ true = ground (arith, same, last) in
                      let new : ltb j n ≡ false = ground arith in
                      let done : ltb j (suc n) ≡ true = ground arith in
                      rw (hit, before, e, new, done)
                        (ap (λ i. add (dst (k * s + j)) (src (o + i))) (sym last))
                  | inr d ↦
                      let other : k * s + j == m * s + n ≡ false = ground (arith, same) in
                      let new : ltb j (suc n) ≡ ltb j n = ground arith in rw (other, before, e, new)
                ]
          ]
