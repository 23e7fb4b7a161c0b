-- ===== src/Layer/Modify.antt =====
-- `insert`, `update`, `accumulate`, `clear` and `erase` of `HierarchicalEmbeddingLayer`
-- (src/hierarchical_embedding_layer.cu): which tables a call changes, and the locks of their automatic
-- inserts. `none` is a negative table id. A table's own operation is a parameter, and `none` where it
-- throws.
use nv_embedding_cache.Common.{
  ℕ, zero, suc, ◌+◌, ◌-◌, ◌≤◌, ◌<◌, ◌≡◌, ◌≢◌, refl, sym, ap, ◌∙◌, List, Option, none, some, arith,
  ◌==◌, ltb, if◌then◌else◌, length, set, get_elem?, get_elem?-set_self, get_elem?-set_ne,
  length-set, Bool, true, false, ◌&&◌, ◌||◌, not, Bool-cases, inl, inr,
}
use nv_embedding_cache.AutoInsert.Defs.{
  HandlerConfig, Handler, Batch, returned, lock_modify, unlock_modify, auto_insert,
}

-- A table with its `AutoInsertHandler`.
pub record Member {ℓ κ} (T : Type ℓ) (A : Type κ) : Type (ℓ ⊔ κ) where
  pub table : T
  pub config : HandlerConfig
  pub handler : Handler A

-- A call returns, throws, or waits for a lock; the members are as they are at that point.
pub data Run {ℓ κ} (T : Type ℓ) (A : Type κ) : Type (ℓ ⊔ κ) where
  finished : List (Member T A) → Run T A
  threw : List (Member T A) → Run T A
  waits : List (Member T A) → Run T A

-- `t_start`, `t_end`, and the check of the table id.
abbrev pub t_start : Option ℕ → ℕ
t_start none = 0
t_start (some i) = i

abbrev pub t_end : ℕ → Option ℕ → ℕ
t_end size none = size
t_end size (some i) = i + 1

abbrev pub in_range : ℕ → Option ℕ → Bool
in_range size none = true
in_range size (some i) = ltb i size

module _ {ℓ κ} {T : Type ℓ} {A : Type κ} (op : T → Option T) where
  -- The loop of `update`, `accumulate`, `clear` and `erase`: `n` tables from `i` on, each under its lock.
  unfoldable pub modify_from : ℕ → ℕ → List (Member T A) → Run T A
  modify_from i zero ms = finished ms
  modify_from i (suc n) ms = elim (get_elem? ms i) [
    | none ↦ threw ms
    | some m ↦ elim (lock_modify m.config m.handler) [
      | none ↦ waits ms
      | some h ↦ elim (op m.table) [
        | none ↦ threw (set ms i (record m { handler = h }))
        | some t ↦
            modify_from (suc i) n
              (set ms i (record m { table = t; handler = unlock_modify m.config h }))
      ]
    ]
  ]

  -- The loop of `insert`, which takes no lock.
  unfoldable pub insert_from : ℕ → ℕ → List (Member T A) → Run T A
  insert_from i zero ms = finished ms
  insert_from i (suc n) ms = elim (get_elem? ms i) [
    | none ↦ threw ms
    | some m ↦ elim (op m.table) [
      | none ↦ threw ms
      | some t ↦ insert_from (suc i) n (set ms i (record m { table = t }))
    ]
  ]

  -- `update`, `accumulate` and, with no table id, `clear`
  unfoldable pub layer_modify : Option ℕ → List (Member T A) → Run T A
  layer_modify table_id ms =
      if in_range (length ms) table_id
      then modify_from (t_start table_id) (t_end (length ms) table_id - t_start table_id) ms
      else threw ms

  -- `erase`
  unfoldable pub layer_erase : ℕ → Bool → Option ℕ → List (Member T A) → Run T A
  layer_erase num_keys has_keys table_id ms =
      if num_keys == 0
      then finished ms
      else (if has_keys then layer_modify table_id ms else threw ms)

  -- `insert`
  unfoldable pub layer_insert : ℕ → Bool → Option ℕ → List (Member T A) → Run T A
  layer_insert num_keys has_keys table_id ms =
      if num_keys == 0
      then finished ms
      else (if has_keys && in_range (length ms) table_id
          then insert_from (t_start table_id) (t_end (length ms) table_id - t_start table_id) ms
          else threw ms)

  -- A table whose lock is free and on which the operation returns, and what becomes of it.
  pub record Open (m m' : Member T A) : Type (ℓ ⊔ κ) where
    pub held : Handler A
    pub result : T
    pub lock : lock_modify m.config m.handler ≡ some held
    pub returns : op m.table ≡ some result
    pub after : m' ≡ record m { table = result; handler = unlock_modify m.config held }

  -- The tables from `i` on, `n` of them, are changed, and no other.
  pub record Modified (i n : ℕ) (ms ms' : List (Member T A)) : Type (ℓ ⊔ κ) where
    pub size : length ms' ≡ length ms
    pub inside :
        (k : ℕ)
        → i ≤ k
        → k < i + n
        → (m : Member T A) × (m' : Member T A) × (get_elem? ms k ≡ some m)
          × (get_elem? ms' k ≡ some m')
          × Open m m'
    pub outside : (k : ℕ) → ((i ≤ k) → (k < i + n) → ⊥) → get_elem? ms' k ≡ get_elem? ms k

  abbrev pub AllOpen : ℕ → ℕ → List (Member T A) → Type (ℓ ⊔ κ)
  AllOpen i n ms =
      (k : ℕ)
      → i ≤ k
      → k < i + n
      → (m : Member T A) × (m' : Member T A) × (get_elem? ms k ≡ some m) × Open m m'

  modify_from-Modified :
      (i n : ℕ) (ms : List (Member T A))
      → AllOpen i n ms
      → (ms' : List (Member T A)) × (modify_from i n ms ≡ finished ms') × Modified i n ms ms'
  unfolding modify_from
  modify_from-Modified i zero ms open_ = (
    ms,
    refl,
    record { size = refl; inside = λ k a b. absurd (omega arith); outside = λ k out. refl },
  )
  modify_from-Modified i (suc n) ms open_ =
      let (m, m', e, o) = open_ i (omega arith) (omega arith) in
      let next = set ms i m' in
      let apart : (k : ℕ) → i ≢ k → get_elem? next k ≡ get_elem? ms k =
        λ k d. get_elem?-set_ne ms i k m' d in
      let (ms', run, r) = modify_from-Modified (suc i) n next (λ k a b.
        let (v, v', f, p) = open_ k (omega arith) (omega arith) in
        (v, v', apart k (λ s. omega arith) ∙ f, p)) in
      let here : get_elem? ms' i ≡ some m' =
        r.outside i (λ a b. omega arith) ∙ get_elem?-set_self ms i m m' e in
      (
        ms',
        rw (modify_from, e, o.lock, o.returns)
            (ap (λ x. modify_from (suc i) n (set ms i x)) (sym o.after) ∙ run),
        record {
          size = r.size ∙ length-set ms i m';
          inside = λ k a b. elim (Bool-cases (k == i)) [
            | inl s ↦ let same : k ≡ i = ground arith in (m, m', rw same e, rw same here, o)
            | inr s ↦
                let (v, v', f, g, p) = r.inside k (ground arith) (omega arith) in
                (v, v', sym (apart k (λ d. ground (arith, d))) ∙ f, g, p)
          ];
          outside = λ k out.
              r.outside k (λ a b. out (omega arith) (omega arith))
              ∙ apart k (λ d. out (omega arith) (omega arith));
        },
      )

  -- `update`, `accumulate` and `clear`, with a table id that exists or a negative one, where the locks
  -- of the tables are free and the operation returns on each: the call returns, and exactly the table of
  -- the id, or all tables if the id is negative, are changed, each by the operation, with its lock given
  -- back.
  pub layer_modify-Modified :
      (table_id : Option ℕ) (ms : List (Member T A))
      → in_range (length ms) table_id ≡ true
      → AllOpen (t_start table_id) (t_end (length ms) table_id - t_start table_id) ms
      → (ms' : List (Member T A)) × (layer_modify table_id ms ≡ finished ms')
        × Modified (t_start table_id) (t_end (length ms) table_id - t_start table_id) ms ms'
  unfolding layer_modify
  layer_modify-Modified table_id ms inside open_ =
      let (ms', run, r) =
        modify_from-Modified (t_start table_id) (t_end (length ms) table_id - t_start table_id) ms
          open_ in
      (ms', rw inside run, r)

module _ {ℓ κ} {T : Type ℓ} {A : Type κ} where
  -- An operation that throws on the table of the id, whose lock was free, leaves the lock taken: the
  -- call throws, the next modification of this table, whatever it is, waits, and the automatic inserts
  -- of the table skip every batch.
  pub layer_modify-stuck :
      (op next : T → Option T) (i : ℕ) (ms : List (Member T A)) (m : Member T A)
      (fresh_keys : ℕ → ℕ) (fresh_data : ℕ → A)
      → get_elem? ms i ≡ some m
      → i < length ms
      → m.config.has_heuristic ≡ true
      → m.handler.locked ≡ false
      → op m.table ≡ none
      → (ms' : List (Member T A)) × (m' : Member T A) × (layer_modify op (some i) ms ≡ threw ms')
        × (get_elem? ms' i ≡ some m')
        × (m'.table ≡ m.table)
        × (layer_modify next (some i) ms' ≡ waits ms')
        × ((needed : Bool) (b : Batch A)
            → auto_insert m'.config fresh_keys fresh_data needed b m'.handler ≡ returned m'.handler)
  unfolding layer_modify modify_from lock_modify auto_insert
  layer_modify-stuck op next i ms m fresh_keys fresh_data e h has free fails =
      let held = record m { handler = record m.handler { locked = true } } in
      let ms' = set ms i held in
      let inside : ltb i (length ms) ≡ true = ground arith in
      let inside' : ltb i (length ms') ≡ true = ground (arith, length-set ms i held) in
      let one : i + 1 - i ≡ 1 = omega arith in
      let here : get_elem? ms' i ≡ some held = get_elem?-set_self ms i m held e in
      let got : lock_modify m.config m.handler ≡ some held.handler =
        taken m.config m.handler has free in
      let shut : lock_modify m.config held.handler ≡ none = closed m.config held.handler has refl in
      let skips : not m.config.has_heuristic || true ≡ true =
        or_true (not m.config.has_heuristic) in
      (
        ms',
        held,
        rw (inside, one, modify_from, e, got, fails) refl,
        here,
        refl,
        rw (inside', one, modify_from, here, shut) refl,
        λ needed b. rw skips refl,
      )
    where
      or_true : (a : Bool) → a || true ≡ true
      or_true true = refl
      or_true false = refl

      taken :
          (c : HandlerConfig) (g : Handler A)
          → c.has_heuristic ≡ true
          → g.locked ≡ false
          → lock_modify c g ≡ some (record g { locked = true })
      taken c g has free = rw (lock_modify, has, free) refl

      closed :
          (c : HandlerConfig) (g : Handler A)
          → c.has_heuristic ≡ true
          → g.locked ≡ true
          → lock_modify c g ≡ none
      closed c g has free = rw (lock_modify, has, free) refl
