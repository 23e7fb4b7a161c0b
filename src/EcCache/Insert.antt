-- ===== src/EcCache/Insert.antt =====
-- `CacheSAHostModify::insert`: the tags of the device follow those of the host, and a row that is cached
-- is the row of its key.
use native.Mathlib.Nat.{ℕ_set}
use nv_embedding_cache.Common.{
  ℕ, zero, suc, ◌+◌, ◌*◌, ◌/◌, ◌≤◌, ◌<◌, ◌≡◌, refl, ap, sym, ◌∙◌, arith, List, [], ◌∷◌, map, some,
  ◌==◌, ltb, length, true, false, inl, inr, Bool-cases, Option-cases, All, All-perm, count_by,
  count_by-perm, to_nat, Perm, ◌≢◌, ==_self,
}
use nv_embedding_cache.InsertHeuristic.Defs.{Floats}
use nv_embedding_cache.EcCache.State.{
  CacheConfig, ways, hash_set_idx, construct_tag, construct_key, Entry, Inserting, assign,
  entry_slot,
}
use nv_embedding_cache.EcCache.Defs.{find, min_way, in_map, place_key, insert_key, insert_keys}
use nv_embedding_cache.EcCache.Hash.{TagFits, construct_key-construct_tag}

module _ {f : Floats} (c : CacheConfig f) where
  -- The key of a slot with this tag.
  unfoldable pub key_at : (ℕ → ℕ) → ℕ → ℕ
  key_at tags s = construct_key c.tag_signed c.key_space c.tag_space c.num_sets (tags s) (s / ways)

  -- A key of the index type whose tag fits the tag type: the maximum key of `check_tag_key_config`.
  abbrev pub InRange : ℕ → Type 0
  InRange key =
      (key < c.key_space) × TagFits c.tag_signed c.key_space c.tag_space (key / c.num_sets)

module _ {f : Floats} (c : CacheConfig f) {Row : Type 0} where
  -- Every cached row is the row that its key has in the backing store.
  unfoldable pub Coherent : (ℕ → Row) → (ℕ → ℕ) → (ℕ → Row) → Type 0
  Coherent backing tags rows =
      (s : ℕ) → s < c.num_sets * ways → tags s ≢ c.sentinel → rows s ≡ backing (key_at c tags s)

  module _ (backing : ℕ → Row) where
    -- What the loop knows of an entry of its map.
    pub record Good (tags : ℕ → ℕ) (e : ℕ × Entry Row) : Type 0 where
      at : entry_slot e.1 ≡ e.0
      target : e.1.dst ≡ e.0
      tagged : e.1.tag ≡ tags e.0
      source : e.1.src ≡ some (backing (key_at c tags e.0))

    pub record Loop (h : ℕ → ℕ) (s : Inserting f Row) : Type 0 where
      pub kept : (x : ℕ) → count_by (λ e. e.0) x s.insert_map ≡ 0 → s.tags x ≡ h x
      pub good : All (Good s.tags) s.insert_map

    Good-assign :
        (slot tag : ℕ) (tags : ℕ → ℕ) (m : List (ℕ × Entry Row))
        → in_map c slot m ≡ false
        → All (Good tags) m
        → All (Good (assign tags slot tag)) m
    unfolding in_map key_at
    Good-assign slot tag tags [] n a = tt
    Good-assign slot tag tags (e ∷ m) n a =
        let other : e.0 == slot ≡ false = ground (arith, n) in
        let rest : in_map c slot m ≡ false = ground (arith, n) in
        let g = a.0 in
        (
          record {
            at = g.at;
            target = g.target;
            tagged = rw other g.tagged;
            source = rw other g.source;
          },
          Good-assign slot tag tags m rest a.1,
        )

    in_map-count :
        (slot : ℕ) (m : List (ℕ × Entry Row))
        → in_map c slot m ≡ false
        → count_by (λ e. e.0) slot m ≡ 0
    unfolding in_map
    in_map-count slot [] n = refl
    in_map-count slot (e ∷ m) n = ground (arith, in_map-count slot m)

    min_way-lt :
        (counters : ℕ → f.F) (set_idx best j n : ℕ)
        → best < ways
        → j + n ≤ ways
        → min_way c counters set_idx best j n < ways
    unfolding min_way
    min_way-lt counters set_idx best j zero b h = b
    min_way-lt counters set_idx best j (suc n) b h =
        elim (Bool-cases
          (f.lt (counters (set_idx * ways + j)) (counters (set_idx * ways + best)))) [
            | inl e ↦ rw e (min_way-lt counters set_idx j (suc j) n (omega arith) (omega arith))
            | inr e ↦ rw e (min_way-lt counters set_idx best (suc j) n b (omega arith))
          ]

    place_key-Loop :
        (h : ℕ → ℕ) (key : ℕ) (priority : f.F) (row : Row) (way : ℕ) (s : Inserting f Row)
        → 0 < c.num_sets
        → InRange c key
        → row ≡ backing key
        → way < ways
        → Loop h s
        → Loop h (place_key c key priority row (hash_set_idx c.num_sets key) way s)
    unfolding place_key key_at
    place_key-Loop h key priority row way s p r b w l =
        let set_idx = hash_set_idx c.num_sets key in
        let slot = set_idx * ways + way in
        let tag = construct_tag c.tag_space c.num_sets key in
        elim (Bool-cases (f.lt priority (s.counters slot))) [
          | inl e ↦ rw e l
          | inr e ↦ elim (Bool-cases (in_map c slot s.insert_map)) [
            | inl m ↦ rw (e, m) l
            | inr m ↦
                let home : slot / ways ≡ set_idx = omega arith in
                let again : construct_key c.tag_signed c.key_space c.tag_space c.num_sets tag
                      (slot / ways)
                    ≡ key =
                  rw home (
                    construct_key-construct_tag c.tag_signed c.key_space c.tag_space c.num_sets key
                      p r.0 r.1) in
                let here : slot == slot ≡ true = ==_self slot in
                rw (e, m)
                  (record {
                    kept = λ x k.
                        let away : x == slot ≡ false = ground (arith, k) in
                        rw away (l.kept x (ground (arith, k)));
                    good = (
                      record {
                        at = refl;
                        target = refl;
                        tagged = rw here refl;
                        source = rw (here, again, b) refl;
                      },
                      Good-assign slot tag s.tags s.insert_map m l.good,
                    );
                  })
          ]
        ]

    -- What an item of the call brings: a key in range with its row.
    abbrev pub Item : ℕ × (f.F × Row) → Type 0
    Item i = InRange c i.0 × (i.1.1 ≡ backing i.0)

    insert_key-Loop :
        (h : ℕ → ℕ) (key : ℕ) (priority : f.F) (row : Row) (s : Inserting f Row)
        → 0 < c.num_sets
        → InRange c key
        → row ≡ backing key
        → Loop h s
        → Loop h (insert_key c key priority row s)
    unfolding insert_key
    insert_key-Loop h key priority row s p r b l = elim (Option-cases (find c s.tags key)) [
      | inl n ↦
          rw (insert_key, n)
            (place_key-Loop h key priority row
              (min_way c s.counters (hash_set_idx c.num_sets key) 0 1 7) s p r b
              (min_way-lt s.counters (hash_set_idx c.num_sets key) 0 1 7 (omega arith)
                (omega arith))
              l)
      | inr (j, n) ↦ rw (insert_key, n) (record { kept = l.kept; good = l.good })
    ]

    pub insert_keys-Loop :
        (h : ℕ → ℕ) (max_update_sz : ℕ) (items : List (ℕ × (f.F × Row))) (s : Inserting f Row)
        → 0 < c.num_sets
        → All Item items
        → Loop h s
        → Loop h (insert_keys c max_update_sz items s)
    unfolding insert_keys
    insert_keys-Loop h max [] s p a l = l
    insert_keys-Loop h max (i ∷ items) s p a l = elim (Bool-cases (ltb (length s.insert_map) max)) [
      | inl e ↦ rw e (
          insert_keys-Loop h max items (insert_key c i.0 i.1.0 i.1.1 s) p a.1
            (insert_key-Loop h i.0 i.1.0 i.1.1 s p a.0.0 a.0.1 l))
      | inr e ↦ rw e l
    ]

    -- The entries that are walked, in any order.
    pub record Entries (h tags : ℕ → ℕ) (es : List (Entry Row)) : Type 0 where
      pub untouched : (x : ℕ) → count_by entry_slot x es ≡ 0 → tags x ≡ h x
      pub tagged : All (λ e. e.tag ≡ tags (entry_slot e)) es
      pub target : All (λ e. e.dst ≡ entry_slot e) es
      pub source : All (λ e. e.src ≡ some (backing (key_at c tags (entry_slot e)))) es

    count-entries :
        (tags : ℕ → ℕ) (m : List (ℕ × Entry Row)) (x : ℕ)
        → All (Good tags) m
        → count_by entry_slot x (map (λ e. e.1) m) ≡ count_by (λ e. e.0) x m
    count-entries tags [] x a = refl
    count-entries tags (e ∷ m) x a =
        rw a.0.at (ap (λ n. to_nat (x == e.0) + n) (count-entries tags m x a.1))

    map-All :
        (P : Entry Row → Type 0) (tags : ℕ → ℕ) (m : List (ℕ × Entry Row))
        → ((e : ℕ × Entry Row) → Good tags e → P e.1)
        → All (Good tags) m
        → All P (map (λ e. e.1) m)
    map-All P tags [] i a = tt
    map-All P tags (e ∷ m) i a = (i e a.0, map-All P tags m i a.1)

    pub Loop-Entries :
        IsSet Row
        → (h : ℕ → ℕ) (s : Inserting f Row) (es : List (Entry Row)) → Loop h s
        → Perm (map (λ e. e.1) s.insert_map) es
        → Entries h s.tags es
    Loop-Entries set h s es l p = record {
      untouched = λ x n.
          l.kept x
            (sym (count-entries s.tags s.insert_map x l.good) ∙ count_by-perm entry_slot x p ∙ n);
      tagged =
          All-perm _ (λ e. ℕ_set _ _) p
            (map-All _ s.tags s.insert_map (λ e g. rw g.at g.tagged) l.good);
      target =
          All-perm _ (λ e. ℕ_set _ _) p
            (map-All _ s.tags s.insert_map (λ e g. rw g.at g.target) l.good);
      source =
          All-perm _ (λ e. hlevel set) p
            (map-All _ s.tags s.insert_map (λ e g. rw g.at g.source) l.good);
    }
