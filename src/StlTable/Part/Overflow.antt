-- ===== src/StlTable/Part/Overflow.antt =====
-- The overflow handling of `insert` as a whole (include/stl_map_backed_table_detail.hpp): which pairs
-- go, and what stays of the others.
use nv_embedding_cache.Common.{
  ℕ, suc, zero, ◌/◌, ◌≤◌, ◌≡◌, ◌≢◌, refl, ap, ◌∙◌, subst, List, [], ◌∷◌, none, some, arith, ◌==◌,
  ltb, if◌then◌else◌, length, take, drop, All, All-take, All-drop, All-perm, count_by,
  count_by-perm, length-perm, count_by-take-drop, Bool-cases, inl, inr, Perm, length-take, min,
  ==_iff,
}
use nv_embedding_cache.StlTable.Dict.{
  Entry, key_of, lookup, IsFound, IsFound-self, count_key-lookup-some,
}
use nv_embedding_cache.StlTable.Part.Defs.{
  Config, Partition, Slot, Algorithms, OverflowHandler, evict_random, evict_lru, evict_lfu, evict,
  halve, arrange_by, arrange, realign, num_victims, resolve, Ascending, write,
}
use nv_embedding_cache.StlTable.Part.Invariant.{IsValid}
use nv_embedding_cache.StlTable.Part.Evict.{Evicted, evict-Evicted}

halve-value : (es : List Entry) (mem : ℕ → Slot) (q : ℕ) → (halve es mem q).value ≡ (mem q).value
unfolding halve
halve-value [] mem q = refl
halve-value (e ∷ es) mem q =
    halve-value es (write mem e.1 (record { value = (mem e.1).value; meta = (mem e.1).meta / 2 })) q
    ∙ ground arith

Ascending-take-drop :
    (f : Entry → ℕ) (n : ℕ) (l : List Entry)
    → Ascending f l
    → All (λ x. All (λ y. f x ≤ f y) (drop n l)) (take n l)
Ascending-take-drop f zero l h = tt
Ascending-take-drop f (suc n) [] h = tt
Ascending-take-drop f (suc n) (x ∷ l) h =
    (All-drop (λ y. f x ≤ f y) n l h.0, Ascending-take-drop f n l h.1)

-- What holds of all pairs of a list holds of the pair with a key that occurs there.
at_key :
    (P : ℕ → Type 0) (m es : List Entry) (k s : ℕ)
    → All (λ e. P e.1) es
    → All (IsFound m) es
    → lookup k m ≡ some s
    → 1 ≤ count_by key_of k es
    → P s
at_key P m [] k s a f e h = absurd (omega arith)
at_key P m ((j, t) ∷ es) k s a f e h = elim (Bool-cases (k == j)) [
  | inl same ↦
      let kj : k ≡ j = (==_iff k j).0 same in let st : t ≡ s = ground (arith, f.0) in subst P st a.0
  | inr other ↦ at_key P m es k s a.1 f.1 e (ground arith)
]

arrange_by-perm :
    (alg : Algorithms) (h : OverflowHandler) (p : Partition) → Perm p.slot_map (arrange_by alg h p)
unfolding arrange_by
arrange_by-perm alg evict_random p = alg.shuffle-perm p.slot_map
arrange_by-perm alg evict_lru p = alg.sort-perm _ p.slot_map
arrange_by-perm alg evict_lfu p = alg.sort-perm _ p.slot_map

-- `realign` touches nothing but metadata.
realign-IsValid :
    (c : Config) (h : OverflowHandler) (es : List Entry) (p : Partition)
    → IsValid c p
    → IsValid c (realign h es p)
unfolding realign
realign-IsValid c evict_random es p v = v
realign-IsValid c evict_lru es p v = v
realign-IsValid c evict_lfu es p v = record {
  keys = v.keys;
  slots = v.slots;
  width = λ s. rw (halve-value es p.mem s) (v.width s);
}

realign-keeps :
    (h : OverflowHandler) (es : List Entry) (p : Partition)
    → ((realign h es p).slot_map ≡ p.slot_map)
      × ((realign h es p).available_slots ≡ p.available_slots)
      × ((realign h es p).num_slots ≡ p.num_slots)
      × ((s : ℕ) → ((realign h es p).mem s).value ≡ (p.mem s).value)
unfolding realign
realign-keeps evict_random es p = (refl, refl, refl, λ s. refl)
realign-keeps evict_lru es p = (refl, refl, refl, λ s. refl)
realign-keeps evict_lfu es p = (refl, refl, refl, λ s. halve-value es p.mem s)

module _ (alg : Algorithms) (c : Config) (p : Partition) where
  abbrev pub victims : List Entry
  victims = take (num_victims alg c p) (arrange alg c p)

  -- What overflow handling does, given the pairs that it drops.
  pub record Resolved (q : Partition) : Type 0 where
    pub valid : IsValid c q
    pub num_slots : q.num_slots ≡ p.num_slots
    pub size : length q.slot_map ≡ min (length p.slot_map) c.resolution
    pub reads :
        (k : ℕ)
        → lookup k q.slot_map
          ≡ (if ltb 0 (count_by key_of k victims) then none else lookup k p.slot_map)
    pub values : (s : ℕ) → (q.mem s).value ≡ (p.mem s).value

  module _ (v : IsValid c p) where
    perm : Perm p.slot_map (arrange alg c p)
    perm = arrange_by-perm alg c.handler p

    found : All (IsFound p.slot_map) (arrange alg c p)
    found = All-perm (IsFound p.slot_map) (λ e. hlevel) perm (IsFound-self p.slot_map v.keys)

    once : (k : ℕ) → count_by key_of k victims ≤ 1
    once k = omega (
      arith,
      v.keys k,
      count_by-perm key_of k perm,
      count_by-take-drop key_of k (num_victims alg c p) (arrange alg c p),
    )

    evicted : Evicted c victims p (evict victims p)
    evicted =
        evict-Evicted c victims p once (All-take (IsFound p.slot_map) _ (arrange alg c p) found) v

    pub resolve-Resolved : Resolved (resolve alg c p)
    unfolding resolve num_victims
    resolve-Resolved =
        let rest = drop (num_victims alg c p) (arrange alg c p) in
        let k = realign-keeps c.handler rest (evict victims p) in
        record {
          valid = realign-IsValid c c.handler rest (evict victims p) evicted.valid;
          num_slots = k.2 ∙ evicted.num_slots;
          size = omega (
            arith,
            ap (λ m. length m) k.0,
            evicted.size,
            length-perm perm,
            length-take (num_victims alg c p) (arrange alg c p),
          );
          reads = λ j. rw (k.0) (evicted.reads j);
          values = λ s. k.3 s ∙ ap (λ m. (m s).value) evicted.mem;
        }

arrange_by-Ascending :
    (alg : Algorithms) (h : OverflowHandler) (p : Partition)
    → h ≢ evict_random
    → Ascending (λ e. (p.mem e.1).meta) (arrange_by alg h p)
unfolding arrange_by
arrange_by-Ascending alg evict_random p n = absurd (n refl)
arrange_by-Ascending alg evict_lru p n = alg.sort-ascending _ p.slot_map
arrange_by-Ascending alg evict_lfu p n = alg.sort-ascending _ p.slot_map

-- An overflow of a well-formed partition under LRU or LFU: a key that goes has no larger metadata than a
-- key that stays.
pub resolve_order :
    (alg : Algorithms) (c : Config) (p : Partition) (k j s t : ℕ)
    → c.handler ≢ evict_random
    → IsValid c p
    → lookup k p.slot_map ≡ some s
    → lookup j p.slot_map ≡ some t
    → lookup k (resolve alg c p).slot_map ≡ none
    → lookup j (resolve alg c p).slot_map ≢ none
    → (p.mem s).meta ≤ (p.mem t).meta
resolve_order alg c p k j s t tagged v ek ej gone stays =
    let n = num_victims alg c p in
    let l = arrange alg c p in
    let rest = drop n l in
    let r = resolve-Resolved alg c p v in
    let f = λ (e : Entry). (p.mem e.1).meta in
    let sorted = Ascending-take-drop f n l (arrange_by-Ascending alg c.handler p tagged) in
    let all_found = found alg c p v in
    let above : All (λ e. (p.mem s).meta ≤ f e) rest =
      at_key (λ u. All (λ e. (p.mem u).meta ≤ f e) rest) p.slot_map (take n l) k s sorted
        (All-take (IsFound p.slot_map) n l all_found) ek (ground (arith, r.reads k)) in
    let out : count_by key_of j (take n l) ≡ 0 = ground (arith, r.reads j) in
    at_key (λ u. (p.mem s).meta ≤ (p.mem u).meta) p.slot_map rest j t above
      (All-drop (IsFound p.slot_map) n l all_found) ej
      (omega (
        arith,
        out,
        count_by-take-drop key_of j n l,
        count_by-perm key_of j (perm alg c p v),
        count_key-lookup-some j p.slot_map t ej,
      ))
