-- ===== src/EcCache/Coherence.antt =====
-- `CacheSAHostModify::insert` as a whole: what `modify` makes of the entries of its map.
use nv_embedding_cache.Common.{
  ℕ, zero, suc, ◌+◌, ◌<◌, ◌≡◌, refl, ap, sym, ◌∙◌, arith, List, [], ◌∷◌, map, none, some, ◌==◌, inl,
  inr, All, All-imp, count_by, to_nat, Perm, ◌⊎◌,
}
use nv_embedding_cache.InsertHeuristic.Defs.{Floats}
use nv_embedding_cache.EcCache.State.{
  CacheConfig, Entry, Table, Inserting, assign_all, entry_slot, tag_invalidate, tag_update,
  mem_update, mem_update_accumulate, ModifyOp, modify_replace, modify_update,
  modify_update_accumulate, modify_invalidate, write_rows, write_tags, modify,
}
use nv_embedding_cache.EcCache.Defs.{decay, insert_keys, insert}
use nv_embedding_cache.EcCache.Kernels.{assign_all-other, assign_all-agree}
use nv_embedding_cache.EcCache.Insert.{
  key_at, Coherent, Loop, Entries, Item, insert_keys-Loop, Loop-Entries,
}

pub count_zero : (n : ℕ) → (n ≡ 0) ⊎ (0 < n)
count_zero zero = inl refl
count_zero (suc n) = inr (omega arith)

module _ {f : Floats} (c : CacheConfig f) {Row : Type 0} where
  -- `modify` returns early for no entries, which writes nothing either.
  pub modify-d_tags :
      (op : ModifyOp Row) (es : List (Entry Row)) (t : Table f Row)
      → (modify c op es t).d_tags ≡ write_tags op es (tag_invalidate c.sentinel es t.d_tags)
  unfolding modify write_tags tag_invalidate tag_update assign_all
  modify-d_tags modify_replace [] t = refl
  modify-d_tags modify_update [] t = refl
  modify-d_tags (modify_update_accumulate add) [] t = refl
  modify-d_tags modify_invalidate [] t = refl
  modify-d_tags op (e ∷ es) t = refl

  pub modify-rows :
      (op : ModifyOp Row) (es : List (Entry Row)) (t : Table f Row)
      → (modify c op es t).rows ≡ write_rows op es t.rows
  unfolding modify write_rows mem_update mem_update_accumulate assign_all
  modify-rows modify_replace [] t = refl
  modify-rows modify_update [] t = refl
  modify-rows (modify_update_accumulate add) [] t = refl
  modify-rows modify_invalidate [] t = refl
  modify-rows op (e ∷ es) t = refl

  pub modify-h_tags :
      (op : ModifyOp Row) (es : List (Entry Row)) (t : Table f Row)
      → (modify c op es t).h_tags ≡ t.h_tags
  unfolding modify
  modify-h_tags op [] t = refl
  modify-h_tags op (e ∷ es) t = refl

  module _ (backing : ℕ → Row) where
    Entries-tags :
        (h tags d : ℕ → ℕ) (es : List (Entry Row))
        → Entries c backing h tags es
        → ((x : ℕ) → d x ≡ h x)
        → (x : ℕ) → tag_update es (tag_invalidate c.sentinel es d) x ≡ tags x
    unfolding tag_update tag_invalidate
    Entries-tags h tags d es k m x =
        assign_all-agree entry_slot (λ a e. e.tag) tags es
          (assign_all entry_slot (λ a e. c.sentinel) es d) x (All-imp _ _ es (λ e g b. g) k.tagged)
          (elim (count_zero (count_by entry_slot x es)) [
            | inl z ↦ inr (
                assign_all-other entry_slot (λ a e. c.sentinel) es d x z
                ∙ m x
                ∙ sym (k.untouched x z))
            | inr p ↦ inl p
          ])

    count-targets :
        (es : List (Entry Row)) (x : ℕ)
        → All (λ e. e.dst ≡ entry_slot e) es
        → count_by (λ e. e.dst) x es ≡ count_by entry_slot x es
    count-targets [] x a = refl
    count-targets (e ∷ es) x a =
        rw a.0 (ap (λ n. to_nat (x == entry_slot e) + n) (count-targets es x a.1))

    sources :
        (tags : ℕ → ℕ) (es : List (Entry Row))
        → All (λ e. e.dst ≡ entry_slot e) es
        → All (λ e. e.src ≡ some (backing (key_at c tags (entry_slot e)))) es
        → All
            (λ e.
              (b : ℕ → Row)
              → elim e.src [ none ↦ b e.dst | some r ↦ r ] ≡ backing (key_at c tags e.dst))
            es
    sources tags [] d a = tt
    sources tags (e ∷ es) d a = ((λ b. rw (a.0, d.0) refl), sources tags es d.1 a.1)

    Entries-rows :
        (h tags : ℕ → ℕ) (rows : ℕ → Row) (es : List (Entry Row))
        → Entries c backing h tags es
        → Coherent c backing h rows
        → Coherent c backing tags (mem_update es rows)
    unfolding mem_update Coherent key_at
    Entries-rows h tags rows es k m x w n =
        assign_all-agree (λ e. e.dst) (λ a e. elim e.src [ none ↦ a e.dst | some r ↦ r ])
          (λ y. backing (key_at c tags y)) es rows x (sources tags es k.target k.source)
          (elim (count_zero (count_by entry_slot x es)) [
            | inl z ↦ let same = k.untouched x z in inr (rw same (m x w (λ q. n (same ∙ q))))
            | inr p ↦ inl (omega (arith, count-targets es x k.target))
          ])

-- `insert` into a cache with a set, for keys in range that come with their rows of the backing store,
-- whatever their priorities, the counters, the room for entries and the order in which the hash map is walked. If
-- before the call the device tags of a table are its host tags and every cached row is the row of its
-- key, both hold after it.
pub insert-Coherent :
    {f : Floats} (c : CacheConfig f) {Row : Type 0} (backing : ℕ → Row)
    (iterate : List (Entry Row) → List (Entry Row)) (max_update_sz : ℕ)
    (items : List (ℕ × (f.F × Row))) (t : Table f Row)
    → IsSet Row
    → ((es : List (Entry Row)) → Perm es (iterate es))
    → 0 < c.num_sets
    → All (Item c backing) items
    → ((s : ℕ) → t.d_tags s ≡ t.h_tags s)
    → Coherent c backing t.h_tags t.rows
    → ((s : ℕ)
        → (insert c iterate max_update_sz items t).d_tags s
          ≡ (insert c iterate max_update_sz items t).h_tags s)
      × Coherent c backing
          (insert c iterate max_update_sz items t).h_tags
          (insert c iterate max_update_sz items t).rows
unfolding insert write_tags write_rows
insert-Coherent c backing iterate max items t set walk p a m r =
    let s0 : Inserting _ _ = record {
      tags = t.h_tags;
      counters = decay c t.counters;
      insert_map = [];
    } in
    let s = insert_keys c max items s0 in
    let l : Loop c backing t.h_tags s =
      insert_keys-Loop c backing t.h_tags max items s0 p a
        (record { kept = λ x z. refl; good = tt }) in
    let es = iterate (map (λ e. e.1) s.insert_map) in
    let k : Entries c backing t.h_tags s.tags es =
      Loop-Entries c backing set t.h_tags s es l (walk (map (λ e. e.1) s.insert_map)) in
    let u = record t { h_tags = s.tags; counters = s.counters } in
    (
      λ x.
          rw (modify-d_tags c modify_replace es u, modify-h_tags c modify_replace es u)
            (Entries-tags c backing t.h_tags s.tags t.d_tags es k m x),
      rw (modify-rows c modify_replace es u, modify-h_tags c modify_replace es u)
          (Entries-rows c backing t.h_tags s.tags t.rows es k r),
    )
