-- ===== src/EcCache/Invalidate.antt =====
-- `CacheSAHostModify::invalidate`: which ways lose their tag, on the host and on the device.
use nv_embedding_cache.Common.{
  ap, ℕ, ◌+◌, ◌*◌, ◌/◌, ◌%◌, ◌≤◌, ◌≡◌, refl, sym, ◌∙◌, arith, List, [], ◌∷◌, some, ◌==◌, leb,
  if◌then◌else◌, length, Bool, true, false, ◌&&◌, ◌||◌, inl, inr, Bool-cases, All, count_by,
}
use nv_embedding_cache.InsertHeuristic.Defs.{Floats}
use nv_embedding_cache.EcCache.State.{
  CacheConfig, ways, hash_set_idx, Entry, Table, entry_slot, tag_invalidate, modify_invalidate,
  write_tags, write_rows, modify,
}
use nv_embedding_cache.EcCache.Defs.{stored_key, invalidate_keys, invalidate}
use nv_embedding_cache.EcCache.Kernels.{assign_all-other, assign_all-agree}
use nv_embedding_cache.EcCache.Coherence.{modify-d_tags, modify-h_tags, modify-rows, count_zero}
use nv_embedding_cache.EcCache.Sweep.{swept, Marks, Swept, invalidate_ways-Swept}

module _ {f : Floats} (c : CacheConfig f) where
  -- Is the key that a way holds, by its tag, one of the keys of this set?
  unfoldable pub gone : List ℕ → (ℕ → ℕ) → ℕ → ℕ → Bool
  gone [] tags t i = false
  gone (key ∷ keys) tags t i =
      (t == hash_set_idx c.num_sets key && (stored_key c tags t i == key)) || gone keys tags t i

  gone-cong :
      (keys : List ℕ) (tags tags' : ℕ → ℕ) (t i : ℕ)
      → tags (t * ways + i) ≡ tags' (t * ways + i)
      → gone keys tags t i ≡ gone keys tags' t i
  unfolding gone
  gone-cong [] tags tags' t i e = refl
  gone-cong (key ∷ keys) tags tags' t i e = rw (e, gone-cong keys tags tags' t i e) refl

  if_same : (b : Bool) (x : ℕ) → (if b then x else x) ≡ x
  if_same true x = refl
  if_same false x = refl

  tags_after :
      (key : ℕ) (keys : List ℕ) (tags after : ℕ → ℕ) (t i : ℕ)
      → after (t * ways + i) ≡ swept c tags key (hash_set_idx c.num_sets key) 0 t i
      → (if gone keys after t i then c.sentinel else after (t * ways + i))
        ≡ (if gone (key ∷ keys) tags t i then c.sentinel else tags (t * ways + i))
  unfolding gone swept
  tags_after key keys tags after t i e =
      let now : leb 0 i ≡ true = ground arith in
      elim (Bool-cases (t == hash_set_idx c.num_sets key)) [
        | inl q ↦ elim (Bool-cases (stored_key c tags t i == key)) [
          | inl r ↦
              let cleared : after (t * ways + i) ≡ c.sentinel = e ∙ rw (q, now, r) refl in
              rw (q, r, cleared) (if_same (gone keys after t i) c.sentinel)
          | inr r ↦
              let same : after (t * ways + i) ≡ tags (t * ways + i) = e ∙ rw (q, now, r) refl in
              rw (q, r, same, gone-cong keys after tags t i same) refl
        ]
        | inr q ↦
            let same : after (t * ways + i) ≡ tags (t * ways + i) = e ∙ rw q refl in
            rw (q, same, gone-cong keys after tags t i same) refl
      ]

module _ {f : Floats} (c : CacheConfig f) {Row : Type 0} where
  invalidate_keys-Swept :
      (h : ℕ → ℕ) (max : ℕ) (keys : List ℕ) (s : (ℕ → ℕ) × List (Entry Row))
      → length s.1 + ways * length keys ≤ max
      → Marks c h s.0 s.1
      → Swept c h
          (length s.1 + ways * length keys)
          (λ t i. if gone c keys s.0 t i then c.sentinel else s.0 (t * ways + i))
          (invalidate_keys c max keys s)
  unfolding invalidate_keys gone
  invalidate_keys-Swept h max [] s r m = record {
    state = s;
    returns = refl;
    marks = m;
    few = omega arith;
    tags_of = λ t i l. refl;
  }
  invalidate_keys-Swept h max (key ∷ keys) s r m =
      let one =
        invalidate_ways-Swept c h max key (hash_set_idx c.num_sets key) 0 ways s (omega arith)
          (omega arith) m in
      let rest = invalidate_keys-Swept h max keys one.state (omega (arith, one.few)) one.marks in
      record {
        state = rest.state;
        returns = rw (invalidate_keys, one.returns) rest.returns;
        marks = rest.marks;
        few = omega (arith, rest.few, one.few);
        tags_of = λ t i l.
            rest.tags_of t i l ∙ tags_after c key keys s.0 one.state.0 t i (one.tags_of t i l);
      }

  entries-marked :
      (h tags d : ℕ → ℕ) (es : List (Entry Row))
      → Marks c h tags es
      → ((x : ℕ) → d x ≡ h x)
      → (x : ℕ) → tag_invalidate c.sentinel es d x ≡ tags x
  unfolding tag_invalidate
  entries-marked h tags d es m same x = elim (count_zero (count_by entry_slot x es)) [
    | inl z ↦
        assign_all-other entry_slot (λ a e. c.sentinel) es d x z ∙ same x ∙ sym (m.untouched x z)
    | inr p ↦
        assign_all-agree entry_slot (λ a e. c.sentinel) (λ y. c.sentinel) es d x (all_sentinels es)
          (inl p)
        ∙ sym (m.marked x p)
  ]
    where
      all_sentinels : (es : List (Entry Row)) → All (λ e. (b : ℕ → ℕ) → c.sentinel ≡ c.sentinel) es
      all_sentinels [] = tt
      all_sentinels (e ∷ es) = ((λ b. refl), all_sentinels es)

  -- `invalidate`, with room for an entry for every way of the set of every key, of a table whose device
  -- tags are its host tags: the call succeeds. After it a slot has the sentinel for a tag if the key that
  -- it held is one of the keys of its set, and its former tag if not, the device tags are the host tags,
  -- and the rows are as before.
  pub invalidate-gone :
      (max_update_sz : ℕ) (keys : List ℕ) (t : Table f Row)
      → ways * length keys ≤ max_update_sz
      → ((s : ℕ) → t.d_tags s ≡ t.h_tags s)
      → (t' : Table f Row) × ((invalidate c max_update_sz keys t ≡ some t')
          × (((x : ℕ)
                → t'.h_tags x
                  ≡ (if gone c keys t.h_tags (x / ways) (x % ways) then c.sentinel else t.h_tags x))
              × (((s : ℕ) → t'.d_tags s ≡ t'.h_tags s) × (t'.rows ≡ t.rows))))
  unfolding invalidate write_tags write_rows
  invalidate-gone max keys t r same =
      let w =
        invalidate_keys-Swept t.h_tags max keys (t.h_tags, []) (omega arith)
          (record { untouched = λ x z. refl; marked = λ x z. absurd (omega arith) }) in
      let u = record t { h_tags = w.state.0 } in
      let es = w.state.1 in
      (
        modify c modify_invalidate es u,
        (
          rw (invalidate, w.returns) refl,
          (
            λ x.
                let slot : x / ways * ways + x % ways ≡ x = omega arith in
                rw (modify-h_tags c modify_invalidate es u) (
                  ap w.state.0 (sym slot)
                  ∙ w.tags_of (x / ways) (x % ways) (omega arith)
                  ∙ ap
                      (λ y.
                        if gone c keys t.h_tags (x / ways) (x % ways)
                        then c.sentinel
                        else t.h_tags y)
                      slot),
            (
              λ s.
                  rw
                    (modify-d_tags c modify_invalidate es u, modify-h_tags c modify_invalidate es u)
                    (entries-marked t.h_tags w.state.0 t.d_tags es w.marks same s),
              modify-rows c modify_invalidate es u,
            ),
          ),
        ),
      )
