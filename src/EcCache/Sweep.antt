-- ===== src/EcCache/Sweep.antt =====
-- `CacheSAHostModify::invalidate`: the search of one set for one key.
use nv_embedding_cache.Common.{
  ℕ, zero, suc, ◌+◌, ◌*◌, ◌≤◌, ◌<◌, ◌≡◌, refl, ◌∙◌, arith, List, [], ◌∷◌, ◌++◌, Option, none, some,
  ◌==◌, ltb, leb, if◌then◌else◌, length, length-append, true, false, ◌&&◌, inl, inr, Bool-cases,
  count_by, ==_iff, ==_self,
}
use nv_embedding_cache.InsertHeuristic.Defs.{Floats}
use nv_embedding_cache.EcCache.State.{CacheConfig, ways, Entry, assign, entry_slot}
use nv_embedding_cache.EcCache.Defs.{stored_key, invalidate_ways}

module _ {f : Floats} (c : CacheConfig f) where
  -- The tag of a way after the ways of a set have been searched for a key, from `j` on.
  unfoldable pub swept : (ℕ → ℕ) → ℕ → ℕ → ℕ → ℕ → ℕ → ℕ
  swept tags key set_idx j s i =
      if (s == set_idx && leb j i) && (stored_key c tags s i == key)
      then c.sentinel
      else tags (s * ways + i)

  same_way : (t i u j : ℕ) → i < ways → j < ways → t * ways + i ≡ u * ways + j → (t ≡ u) × (i ≡ j)
  same_way t i u j l k e = (omega arith, omega arith)

  swept_first :
      (tags : ℕ → ℕ) (key u j : ℕ)
      → stored_key c tags u j == key ≡ true
      → swept (assign tags (u * ways + j) c.sentinel) key u (suc j) u j ≡ swept tags key u j u j
  unfolding swept
  swept_first tags key u j e =
      let late : leb (suc j) j ≡ false = ground arith in
      let now : leb j j ≡ true = ground arith in
      rw (late, now, e, ==_self u, ==_self (u * ways + j)) refl

  swept_skip :
      (tags : ℕ → ℕ) (key u j : ℕ)
      → stored_key c tags u j == key ≡ false
      → swept tags key u (suc j) u j ≡ swept tags key u j u j
  unfolding swept
  swept_skip tags key u j e = rw e (ground arith)

  swept_other :
      (tags : ℕ → ℕ) (key u j t i v : ℕ)
      → i < ways
      → j < ways
      → t * ways + i == u * ways + j ≡ false
      → swept (assign tags (u * ways + j) v) key u (suc j) t i ≡ swept tags key u j t i
  unfolding swept
  swept_other tags key u j t i v l k e =
      let later : (t == u && leb (suc j) i) ≡ (t == u && leb j i) = ground (arith, e) in
      rw (e, later) refl

  swept_skip_other :
      (tags : ℕ → ℕ) (key u j t i : ℕ)
      → i < ways
      → j < ways
      → t * ways + i == u * ways + j ≡ false
      → swept tags key u (suc j) t i ≡ swept tags key u j t i
  unfolding swept
  swept_skip_other tags key u j t i l k e =
      let later : (t == u && leb (suc j) i) ≡ (t == u && leb j i) = ground (arith, e) in
      rw later refl

  swept_hit :
      (tags : ℕ → ℕ) (key u j t i : ℕ)
      → stored_key c tags u j == key ≡ true
      → i < ways
      → j < ways
      → swept (assign tags (u * ways + j) c.sentinel) key u (suc j) t i ≡ swept tags key u j t i
  swept_hit tags key u j t i e l k = elim (Bool-cases (t * ways + i == u * ways + j)) [
    | inl q ↦
        let (same_set, same) = same_way t i u j l k ((==_iff (t * ways + i) (u * ways + j)).0 q) in
        rw (same_set, same) (swept_first tags key u j e)
    | inr q ↦ swept_other tags key u j t i c.sentinel l k q
  ]

  swept_miss :
      (tags : ℕ → ℕ) (key u j t i : ℕ)
      → stored_key c tags u j == key ≡ false
      → i < ways
      → j < ways
      → swept tags key u (suc j) t i ≡ swept tags key u j t i
  swept_miss tags key u j t i e l k = elim (Bool-cases (t * ways + i == u * ways + j)) [
    | inl q ↦
        let (same_set, same) = same_way t i u j l k ((==_iff (t * ways + i) (u * ways + j)).0 q) in
        rw (same_set, same) (swept_skip tags key u j e)
    | inr q ↦ swept_skip_other tags key u j t i l k q
  ]

module _ {f : Floats} (c : CacheConfig f) {Row : Type 0} where
  -- The entries that have been made, for tags that began as `h`.
  pub record Marks (h tags : ℕ → ℕ) (es : List (Entry Row)) : Type 0 where
    pub untouched : (x : ℕ) → count_by entry_slot x es ≡ 0 → tags x ≡ h x
    pub marked : (x : ℕ) → 0 < count_by entry_slot x es → tags x ≡ c.sentinel

  count-append :
      (x : ℕ) (es : List (Entry Row)) (e : Entry Row)
      → count_by entry_slot x (es ++ e ∷ [])
        ≡ count_by entry_slot x es + count_by entry_slot x (e ∷ [])
  count-append x [] e = omega arith
  count-append x (d ∷ es) e = omega (arith, count-append x es e)

  Marks-assign :
      (h tags : ℕ → ℕ) (es : List (Entry Row)) (e : Entry Row)
      → Marks h tags es
      → Marks h (assign tags (entry_slot e) c.sentinel) (es ++ e ∷ [])
  Marks-assign h tags es e m = record {
    untouched = λ x z.
        let away : x == entry_slot e ≡ false = ground (arith, z, count-append x es e) in
        rw away (m.untouched x (omega (arith, z, count-append x es e)));
    marked = λ x z. elim (Bool-cases (x == entry_slot e)) [
      | inl q ↦ rw q refl
      | inr q ↦ rw q (m.marked x (ground (arith, z, count-append x es e, q)))
    ];
  }

  -- What the search of a set for a key, or of all sets for all keys, comes to.
  pub record Swept (h : ℕ → ℕ) (room : ℕ) (result : ℕ → ℕ → ℕ)
      (out : Option ((ℕ → ℕ) × List (Entry Row))) : Type 0 where
    pub state : (ℕ → ℕ) × List (Entry Row)
    pub returns : out ≡ some state
    pub marks : Marks h state.0 state.1
    pub few : length state.1 ≤ room
    pub tags_of : (s i : ℕ) → i < ways → state.0 (s * ways + i) ≡ result s i

  pub invalidate_ways-Swept :
      (h : ℕ → ℕ) (max key set_idx j n : ℕ) (s : (ℕ → ℕ) × List (Entry Row))
      → j + n ≡ ways
      → length s.1 + n ≤ max
      → Marks h s.0 s.1
      → Swept h
          (length s.1 + n)
          (λ t i. swept c s.0 key set_idx j t i)
          (invalidate_ways c max key set_idx j n s)
  unfolding invalidate_ways swept
  invalidate_ways-Swept h max key set_idx j zero s w r m = record {
    state = s;
    returns = refl;
    marks = m;
    few = omega arith;
    tags_of = λ t i l. ground arith;
  }
  invalidate_ways-Swept h max key set_idx j (suc n) s w r m =
      elim (Bool-cases (stored_key c s.0 set_idx j == key)) [
        | inl e ↦
            let entry : Entry Row = record {
              src = none;
              dst = 0;
              set_idx = set_idx;
              way = j;
              tag = c.sentinel;
            } in
            let next : (ℕ → ℕ) × List (Entry Row) =
              (assign s.0 (set_idx * ways + j) c.sentinel, s.1 ++ entry ∷ []) in
            let room : ltb (length s.1) max ≡ true = ground arith in
            let rest =
              invalidate_ways-Swept h max key set_idx (suc j) n next (omega arith)
                (omega (arith, length-append s.1 (entry ∷ []))) (Marks-assign h s.0 s.1 entry m) in
            record {
              state = rest.state;
              returns = rw (e, room) rest.returns;
              marks = rest.marks;
              few = omega (arith, rest.few, length-append s.1 (entry ∷ []));
              tags_of =
                  λ t i l. rest.tags_of t i l ∙ swept_hit c s.0 key set_idx j t i e l (omega arith);
            }
        | inr e ↦
            let rest =
              invalidate_ways-Swept h max key set_idx (suc j) n s (omega arith) (omega arith) m in
            record {
              state = rest.state;
              returns = rw e rest.returns;
              marks = rest.marks;
              few = omega (arith, rest.few);
              tags_of = λ t i l.
                  rest.tags_of t i l ∙ swept_miss c s.0 key set_idx j t i e l (omega arith);
            }
      ]
