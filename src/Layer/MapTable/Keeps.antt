-- ===== src/Layer/MapTable/Keeps.antt =====
-- The map table (include/stl_map_backed_table_detail.hpp) and the contract of `Table::find`
-- (include/table.hpp).
use native.Mathlib.Nat.{div-eq_of_lt, mod-eq_of_lt, mul-add-div_right, mul-add-mod_self_right}
use nv_embedding_cache.Common.{
  ℕ, zero, suc, ◌+◌, ◌-◌, ◌*◌, ◌/◌, ◌%◌, ◌≤◌, ◌<◌, ◌≡◌, refl, ap, ◌∙◌, sym, subst, arith, List, [],
  ◌∷◌, map, Option, none, some, some_injective, none-some, Option-cases, inl, inr, Bool, true,
  false, ◌||◌, ◌==◌, leb, ltb, if◌then◌else◌, length, get_or, get_elem?, range_from, All,
}
use nv_embedding_cache.StlTable.Part.Defs.{Config, Partition}
use nv_embedding_cache.StlTable.Part.Invariant.{IsValid}
use nv_embedding_cache.StlTable.Part.View.{view-length}
use nv_embedding_cache.StlTable.Table.Defs.{ok}
use nv_embedding_cache.StlTable.Table.Find.{Finding, find, find_parts}
use nv_embedding_cache.StlTable.Table.Batch.{view_at, All-at}
use nv_embedding_cache.StlTable.Table.Hits.{effect}
use nv_embedding_cache.StlTable.Table.Words.{touch}
use nv_embedding_cache.StlTable.Table.Walk.{HasShape}
use nv_embedding_cache.StlTable.Table.Past.{find_parts-past, find_parts-HasShape}
use nv_embedding_cache.StlTable.Table.Answers.{answer, find-hits}
use nv_embedding_cache.StlTable.Table.Counter.{set_bits, find-counts}
use nv_embedding_cache.LinearTable.Gather.{hit_bit}
use nv_embedding_cache.Layer.Lookup.{Progress}
use nv_embedding_cache.Layer.Chain.{KnownTable, Resolved, is_some, byte_or, count_set}
use nv_embedding_cache.Layer.Bits.{
  get_or-map-range, length-map-range, count_set-same, count_set-add, bit_at, set_bits-count_set,
}
use nv_embedding_cache.Layer.MapTable.{
  words_of, query_of, progress_of, map_resolver, bytes_of, map_row,
}

get_or-default : (xs : List ℕ) (j d e : ℕ) → j < length xs → get_or xs j d ≡ get_or xs j e
get_or-default [] j d e h = absurd (omega arith)
get_or-default (x ∷ xs) zero d e h = refl
get_or-default (x ∷ xs) (suc j) d e h = get_or-default xs j d e (omega arith)

view_at-length :
    (part_of : ℕ → ℕ) (c : Config) (parts : List Partition) (key : ℕ) (row : List ℕ)
    → All (IsValid c) parts
    → view_at part_of key parts ≡ some row
    → length row ≡ c.max_value_size
unfolding view_at
view_at-length part_of c parts key row valid e =
    elim (Option-cases (get_elem? parts (part_of key))) [
      | inl f ↦ absurd (none-some (rw (f, view_at) at e))
      | inr (p, f) ↦
          view-length c p key row (All-at (IsValid c) parts (part_of key) p valid f)
            (rw (f, view_at) at e)
    ]

-- A touched cell: its bit and a byte of its row.
touched-bit :
    (hit : Option (List ℕ)) (bit : Bool) (old : List ℕ)
    → (touch true hit (bit, old)).0 ≡ bit || is_some (bytes_of hit)
unfolding touch effect
touched-bit hit true old = refl
touched-bit none false old = refl
touched-bit (some row) false old = refl

touched-byte :
    (hit : Option (List ℕ)) (bit : Bool) (old : List ℕ) (j d : ℕ)
    → ((row : List ℕ) → hit ≡ some row → j < length row)
    → get_or old j d ≡ d
    → get_or (touch true hit (bit, old)).1 j d ≡ (if bit then d else byte_or (bytes_of hit) j d)
unfolding touch effect
touched-byte hit true old j d long same = same
touched-byte none false old j d long same = same
touched-byte (some row) false old j d long same = get_or-default row j d 0 (long row refl)

module _ (part_of : ℕ → ℕ) (c : Config) (now task_size : ℕ) (parts : List Partition)
    (some_task : 0 < task_size) (valid : All (IsValid c) parts) where
  module _ (n : ℕ) (keys : ℕ → ℕ) (stride : ℕ) (mask : ℕ → ℕ → Bool) (output : ℕ → ℕ)
      (some_keys : 0 < n) (fits : c.max_value_size ≤ stride) where
    abbrev batch : List ℕ
    batch = map keys (range_from 0 n)

    abbrev query : Finding
    query = query_of c n stride mask output

    abbrev found : List Partition × Finding
    found = find_parts part_of c now true false batch 64 task_size (length parts) 0 parts query

    runs : find part_of c now true false batch 64 task_size stride parts query ≡ some found
    unfolding find
    runs =
        let len = length-map-range keys 0 n in
        let some_batch : length batch == 0 ≡ false = ground (arith, len) in
        let wide : leb c.max_value_size stride ≡ true = ground arith in rw (some_batch, wide) refl

    query-HasShape : HasShape 64 ((length batch + 64 - 1) / 64) query.hit_mask
    unfolding query_of words_of
    query-HasShape =
        let len : length batch ≡ n = length-map-range keys 0 n in
        rw len (record {
          words = length-map-range (λ w. map (mask w) (range_from 0 64)) 0 ((n + 64 - 1) / 64);
          bits = λ w h.
              ap length (
                get_or-map-range (λ u. map (mask u) (range_from 0 64)) 0 ((n + 64 - 1) / 64) w [] h)
              ∙ length-map-range (mask (0 + w)) 0 64;
        })

    query-bit : (k : ℕ) → k < n → bit_at query.hit_mask k ≡ mask (k / 64) (k % 64)
    unfolding query_of words_of
    query-bit k h =
        ap (λ u. get_or u (k % 64) false)
          (get_or-map-range (λ w. map (mask w) (range_from 0 64)) 0 ((n + 64 - 1) / 64) (k / 64) []
            (omega (arith, h)))
        ∙ get_or-map-range (mask (0 + k / 64)) 0 64 (k % 64) false (omega arith)
        ∙ drop_zero (k / 64) (k % 64)
      where
        drop_zero : (a b : ℕ) → mask (0 + a) (0 + b) ≡ mask a b
        drop_zero a b =
            let first : 0 + a ≡ a = omega arith in
            let second : 0 + b ≡ b = omega arith in rw (first, second) refl

    answered :
        (k : ℕ)
        → k < n
        → answer 64 k found.1 ≡ touch true (view_at part_of (keys k) parts) (answer 64 k query)
    answered k h =
        let len : length batch ≡ n = length-map-range keys 0 n in
        let key : get_or batch k 0 ≡ keys k =
          get_or-map-range keys 0 n k 0 h ∙ ap keys (omega arith) in
        let (parts', s', run, same) =
          find-hits part_of c now true false batch 64 task_size stride k parts query fits some_task
            (omega arith) valid query-HasShape (omega (arith, len, h)) in
        let one : found ≡ (parts', s') = some_injective (sym runs ∙ run) in
        ap (λ z. answer 64 k z.1) one
        ∙ same
        ∙ ap (λ x. touch true (view_at part_of x parts) (answer 64 k query)) key

    counted : found.1.num_hits + set_bits query.hit_mask ≡ set_bits found.1.hit_mask
    unfolding query_of
    counted =
        let (parts', s', run, sum) =
          find-counts part_of c now true false batch 64 task_size stride parts query fits in
        let one : found ≡ (parts', s') = some_injective (sym runs ∙ run) in
        ap (λ z. z.1.num_hits + set_bits query.hit_mask) one
        ∙ sum
        ∙ ap (λ z. 0 + set_bits z.1.hit_mask) (sym one)
        ∙ omega arith

    past_bits :
        (i : ℕ)
        → n ≤ i
        → i / 64 < (length batch + 64 - 1) / 64
        → bit_at found.1.hit_mask i ≡ bit_at query.hit_mask i
    past_bits i past inside =
        let len : length batch ≡ n = length-map-range keys 0 n in
        ap (λ z. z.0)
          (find_parts-past part_of c now true false batch 64 ((length batch + 64 - 1) / 64)
            task_size (length parts) 0 (i / 64) (i % 64) parts query refl inside valid
            query-HasShape (omega arith) (omega (arith, len, past))).1

    counter-bits :
        found.1.num_hits + count_set (λ k. mask (k / 64) (k % 64)) n
        ≡ count_set (bit_at found.1.hit_mask) n
    counter-bits =
        let len : length batch ≡ n = length-map-range keys 0 n in
        let size = (length batch + 64 - 1) / 64 in
        let before = query-HasShape in
        let after =
          find_parts-HasShape part_of c now true false batch 64 size task_size (length parts) 0
            parts query refl (omega (arith, len, some_keys)) before in
        let rest = size * 64 - n in
        let total : size * 64 ≡ n + rest = omega (arith, len) in
        let total_before : set_bits query.hit_mask ≡ count_set (bit_at query.hit_mask) (n + rest) =
          set_bits-count_set query.hit_mask (λ w h. before.bits w (omega (arith, h, before.words)))
          ∙ ap (λ m. count_set (bit_at query.hit_mask) (m * 64)) before.words
          ∙ ap (count_set (bit_at query.hit_mask)) total in
        let total_after : set_bits found.1.hit_mask
            ≡ count_set (bit_at found.1.hit_mask) (n + rest) =
          set_bits-count_set found.1.hit_mask (λ w h. after.bits w (omega (arith, h, after.words)))
          ∙ ap (λ m. count_set (bit_at found.1.hit_mask) (m * 64)) after.words
          ∙ ap (count_set (bit_at found.1.hit_mask)) total in
        let tails : count_set (λ i. bit_at found.1.hit_mask (n + i)) rest
            ≡ count_set (λ i. bit_at query.hit_mask (n + i)) rest =
          count_set-same _ _ rest
            (λ i h. past_bits (n + i) (omega arith) (omega (arith, h, total))) in
        let heads : count_set (bit_at query.hit_mask) n
            ≡ count_set (λ k. mask (k / 64) (k % 64)) n =
          count_set-same _ _ n query-bit in
        omega (
          arith,
          counted,
          total_before,
          total_after,
          tails,
          heads,
          count_set-add (bit_at query.hit_mask) n rest,
          count_set-add (bit_at found.1.hit_mask) n rest,
        )

    found-row :
        (k j : ℕ)
        → k < n
        → j < c.max_value_size
        → (progress_of c n stride output found.1).output (k * stride + j) ≡ (
            if mask (k / 64) (k % 64)
            then output (k * stride + j)
            else byte_or (map_row part_of parts (keys k)) j (output (k * stride + j)))
    unfolding progress_of answer query_of
    found-row k j h g =
        let x = k * stride + j in
        let positive : 0 < stride = omega (arith, g, fits) in
        let below : j < stride = omega (arith, g, fits) in
        let index : x / stride ≡ k =
          mul-add-div_right positive k j ∙ ap (λ u. k + u) (div-eq_of_lt below) ∙ omega arith in
        let byte : x % stride ≡ j = mul-add-mod_self_right k stride j ∙ mod-eq_of_lt below in
        let in_batch : ltb k n ≡ true = ground arith in
        let in_row : ltb j c.max_value_size ≡ true = ground arith in
        let old : get_or (query.values k) j (output x) ≡ output x =
          get_or-map-range (λ u. output (k * stride + u)) 0 c.max_value_size j (output x) g
          ∙ ap (λ u. output (k * stride + u)) (omega arith) in
        let hit = view_at part_of (keys k) parts in
        let seen : get_or (found.1.values k) j (output x)
            ≡ (if mask (k / 64) (k % 64) then output x else byte_or (bytes_of hit) j (output x)) =
          ap (λ z. get_or z.1 j (output x)) (answered k h)
          ∙ touched-byte hit (bit_at query.hit_mask k) (query.values k) j (output x)
              (λ row e. omega (arith, g, view_at-length part_of c parts (keys k) row valid e)) old
          ∙ ap (λ b. if b then output x else byte_or (bytes_of hit) j (output x)) (query-bit k h) in
        rw (index, byte, in_batch, in_row) seen

    found-Resolved :
        Resolved
          (map_row part_of parts)
          c.max_value_size
          n
          keys
          stride
          (record { output = output; hit_mask = some mask })
          (progress_of c n stride output found.1)
    unfolding progress_of hit_bit answer
    found-Resolved = record {
      bits = λ k h.
          ap (λ z. z.0) (answered k h)
          ∙ touched-bit (view_at part_of (keys k) parts) (bit_at query.hit_mask k) (query.values k)
          ∙ ap (λ b. b || is_some (map_row part_of parts (keys k))) (query-bit k h);
      rows = found-row;
    }

  -- The map table does what the contract of `find` says.
  pub map_resolver-Resolved :
      (n : ℕ) (keys : ℕ → ℕ) (stride : ℕ) (p : Progress ℕ) (mask : ℕ → ℕ → Bool)
      → 0 < n
      → c.max_value_size ≤ stride
      → p.hit_mask ≡ some mask
      → (q : Progress ℕ) × (counter : ℕ) × (mask' : ℕ → ℕ → Bool) × ((map_resolver part_of c now
              task_size parts).find
            n keys stride p
          ≡ ok (q, counter))
        × (q.hit_mask ≡ some mask')
        × Resolved (map_row part_of parts) c.max_value_size n keys stride p q
        × (counter + count_set (hit_bit p.hit_mask) n ≡ count_set (hit_bit q.hit_mask) n)
  unfolding map_resolver progress_of hit_bit
  map_resolver-Resolved n keys stride p mask some_keys fits e =
      let s = (found n keys stride mask p.output some_keys fits).1 in
      let q = progress_of c n stride p.output s in
      let same : p ≡ record { output = p.output; hit_mask = some mask } =
        ap (λ m. record { output = p.output; hit_mask = m }) e in
      (
        q,
        s.num_hits,
        (λ w b. get_or (get_or s.hit_mask w []) b false),
        rw (e, runs n keys stride mask p.output some_keys fits) refl,
        refl,
        subst (λ u. Resolved (map_row part_of parts) c.max_value_size n keys stride u q) (sym same)
            (found-Resolved n keys stride mask p.output some_keys fits),
        rw e (counter-bits n keys stride mask p.output some_keys fits),
      )

  unfoldable pub map_table : KnownTable ℕ c.max_value_size
  unfolding map_resolver
  map_table = record {
    resolver = map_resolver part_of c now task_size parts;
    view = map_row part_of parts;
    resolves = map_resolver-Resolved;
  }
