-- ===== src/EcCache/Defs.antt =====
-- The operations of `CacheSAHostModify` (include/ecache/ec_set_associative_host_modify.h). Locks, streams
-- and events are left out: an operation runs alone, and its kernels in order.
use nv_embedding_cache.Common.{
  ℕ, zero, suc, ◌+◌, ◌*◌, ◌/◌, ◌%◌, List, [], ◌∷◌, ◌++◌, map, Option, none, some, ◌==◌, ltb,
  if◌then◌else◌, length, Bool, true, false,
}
use nv_embedding_cache.InsertHeuristic.Defs.{Floats}
use nv_embedding_cache.EcCache.State.{
  CacheConfig, Entry, Inserting, Table, assign, construct_key, construct_tag, hash_set_idx, modify,
  modify_invalidate, modify_replace, modify_update, modify_update_accumulate, ways,
}

module _ {f : Floats} (c : CacheConfig f) where
  -- The key that a slot holds, by its tag.
  abbrev pub stored_key : (ℕ → ℕ) → ℕ → ℕ → ℕ
  stored_key tags set_idx way =
      construct_key c.tag_signed c.key_space c.tag_space c.num_sets (tags (set_idx * ways + way))
        set_idx

  -- The search for the way of a key, over `n` ways from `j` on.
  unfoldable pub find_way : (ℕ → ℕ) → ℕ → ℕ → ℕ → ℕ → Option ℕ
  find_way tags key set_idx j zero = none
  find_way tags key set_idx j (suc n) =
      let rest = find_way tags key set_idx (suc j) n in
      if stored_key tags set_idx j == key then some j else rest

  abbrev pub find : (ℕ → ℕ) → ℕ → Option ℕ
  find tags key = find_way tags key (hash_set_idx c.num_sets key) 0 ways

  -- The decay of all counters.
  unfoldable pub decay : (ℕ → f.F) → (ℕ → f.F)
  decay counters s =
      if ltb s (c.num_sets * ways) then f.mul (counters s) c.decay_rate else counters s

  -- `std::min_element` over the counters of a set: the first of the least.
  unfoldable pub min_way : (ℕ → f.F) → ℕ → ℕ → ℕ → ℕ → ℕ
  min_way counters set_idx best j zero = best
  min_way counters set_idx best j (suc n) =
      min_way counters set_idx
        (if f.lt (counters (set_idx * ways + j)) (counters (set_idx * ways + best))
          then j
          else best)
        (suc j) n

  module _ {Row : Type 0} where
    -- `invalidate`: the ways of a key, then the keys. The list of entries has room for `max_update_sz`;
    -- a write behind it is undefined, `none`.
    unfoldable pub invalidate_ways :
        ℕ → ℕ → ℕ → ℕ → ℕ → (ℕ → ℕ) × List (Entry Row) → Option ((ℕ → ℕ) × List (Entry Row))
    invalidate_ways max_update_sz key set_idx j zero s = some s
    invalidate_ways max_update_sz key set_idx j (suc n) s =
        let skip = invalidate_ways max_update_sz key set_idx (suc j) n s in
        let hit = invalidate_ways max_update_sz key set_idx (suc j) n (
          assign s.0 (set_idx * ways + j) c.sentinel,
          s.1 ++ record { src = none; dst = 0; set_idx = set_idx; way = j; tag = c.sentinel } ∷ [],
        ) in
        if stored_key s.0 set_idx j == key
        then (if ltb (length s.1) max_update_sz then hit else none)
        else skip

    unfoldable pub invalidate_keys :
        ℕ → List ℕ → (ℕ → ℕ) × List (Entry Row) → Option ((ℕ → ℕ) × List (Entry Row))
    invalidate_keys max_update_sz [] s = some s
    invalidate_keys max_update_sz (key ∷ keys) s =
        elim (invalidate_ways max_update_sz key (hash_set_idx c.num_sets key) 0 ways s) [
          | none ↦ none
          | some s' ↦ invalidate_keys max_update_sz keys s'
        ]

    unfoldable pub invalidate : ℕ → List ℕ → Table f Row → Option (Table f Row)
    invalidate max_update_sz keys t = elim (invalidate_keys max_update_sz keys (t.h_tags, [])) [
      | none ↦ none
      | some s ↦ some (modify c modify_invalidate s.1 (record t { h_tags = s.0 }))
    ]

    -- `clear_cache`
    unfoldable pub clear : f.F → Table f Row → Table f Row
    clear zero_count t =
        let h_tags : ℕ → ℕ = λ s. if ltb s (c.num_sets * ways) then c.sentinel else t.h_tags s in
        record t {
          h_tags = h_tags;
          counters = λ s. if ltb s (c.num_sets * ways) then zero_count else t.counters s;
          d_tags = λ s. if ltb s (c.num_sets * ways) then h_tags s else t.d_tags s;
        }

    unfoldable pub in_map : ℕ → List (ℕ × Entry Row) → Bool
    in_map k [] = false
    in_map k (e ∷ es) = let rest = in_map k es in if k == e.0 then true else rest

    unfoldable pub place_key : ℕ → f.F → Row → ℕ → ℕ → Inserting f Row → Inserting f Row
    place_key key priority row set_idx way s =
        let slot = set_idx * ways + way in
        if f.lt priority (s.counters slot)
        then s
        else (if in_map slot s.insert_map
            then s
            else let tag = construct_tag c.tag_space c.num_sets key in
              record {
                tags = assign s.tags slot tag;
                counters = assign s.counters slot priority;
                insert_map =
                    (
                      slot,
                      record {
                        src = some row;
                        dst = slot;
                        set_idx = set_idx;
                        way = way;
                        tag = tag;
                      },
                    )
                    ∷ s.insert_map;
              })

    unfoldable pub insert_key : ℕ → f.F → Row → Inserting f Row → Inserting f Row
    insert_key key priority row s =
        let set_idx = hash_set_idx c.num_sets key in
        elim (find s.tags key) [
          | some j ↦
              let slot = set_idx * ways + j in
              record s { counters = assign s.counters slot (f.add (s.counters slot) priority) }
          | none ↦ place_key key priority row set_idx (min_way s.counters set_idx 0 1 7) s
        ]

    -- The keys with their priorities and rows; the loop ends when the map is full.
    unfoldable pub insert_keys : ℕ → List (ℕ × (f.F × Row)) → Inserting f Row → Inserting f Row
    insert_keys max_update_sz [] s = s
    insert_keys max_update_sz (i ∷ is) s =
        let rest = insert_keys max_update_sz is (insert_key i.0 i.1.0 i.1.1 s) in
        if ltb (length s.insert_map) max_update_sz then rest else s

    -- `insert`; `iterate` is the order in which the hash map is walked.
    unfoldable pub insert :
        (List (Entry Row) → List (Entry Row))
        → ℕ
        → List (ℕ × (f.F × Row))
        → Table f Row
        → Table f Row
    insert iterate max_update_sz items t =
        let s =
          insert_keys max_update_sz items
            (record { tags = t.h_tags; counters = decay t.counters; insert_map = [] }) in
        modify c modify_replace (iterate (map (λ e. e.1) s.insert_map))
          (record t { h_tags = s.tags; counters = s.counters })

    -- `search_tag_storage_for_update`
    unfoldable pub search_tags : (ℕ → ℕ) → ℕ → List (ℕ × Row) → List (Entry Row) → List (Entry Row)
    search_tags tags max_update_sz [] es = es
    search_tags tags max_update_sz (i ∷ is) es =
        let set_idx = hash_set_idx c.num_sets i.0 in
        let rest = search_tags tags max_update_sz is (elim (find tags i.0) [
          | none ↦ es
          | some j ↦
              es
              ++ record {
                src = some i.1;
                dst = set_idx * ways + j;
                set_idx = set_idx;
                way = j;
                tag = tags (set_idx * ways + j);
              }
                ∷ []
        ]) in
        if ltb (length es) max_update_sz then rest else es

    -- `update` and `update_accumulate`
    unfoldable pub update : ℕ → List (ℕ × Row) → Table f Row → Table f Row
    update max_update_sz items t =
        modify c modify_update (search_tags t.h_tags max_update_sz items []) t

    unfoldable pub update_accumulate :
        (Row → Row → Row) → ℕ → List (ℕ × Row) → Table f Row → Table f Row
    update_accumulate add max_update_sz items t =
        modify c (modify_update_accumulate add) (search_tags t.h_tags max_update_sz items []) t

  -- `get_keys_stored_in_cache`, over `n` slots from `s` on, of the first table
  unfoldable pub keys_from : (ℕ → ℕ) → ℕ → ℕ → List ℕ
  keys_from tags s zero = []
  keys_from tags s (suc n) =
      let rest = keys_from tags (suc s) n in
      if tags s == c.sentinel then rest else stored_key tags (s / ways) (s % ways) ∷ rest

  unfoldable pub get_keys_stored_in_cache : {Row : Type 0} → Table f Row → List ℕ
  get_keys_stored_in_cache t = keys_from t.h_tags 0 (c.num_sets * ways)
