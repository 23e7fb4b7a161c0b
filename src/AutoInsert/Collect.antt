-- ===== src/AutoInsert/Collect.antt =====
-- What `collect_keys_and_data` of src/layer_utils.cpp puts in the buffers of a handler.
use native.Mathlib.Nat.{mul-le-mul_right}
use nv_embedding_cache.Common.{
  ℕ, zero, suc, ◌+◌, ◌-◌, ◌*◌, ◌≤◌, ◌<◌, ◌≡◌, refl, ◌∙◌, min, Option, none, some, arith, ◌==◌, leb,
  ltb, if◌then◌else◌, Bool, true, false, ◌&&◌, not, Bool-cases, inl, inr,
}
use nv_embedding_cache.LinearTable.Defs.{memcpy}
use nv_embedding_cache.LinearTable.Gather.{hit_bit}
use nv_embedding_cache.AutoInsert.Defs.{
  Buffer, get_ptr, HandlerConfig, Handler, Batch, rewrite_missed, rewrite, collection_total_size,
  collection_part_size, collect_keys_and_data,
}

-- A collection that goes on has less than `min_insert_size` keys, and buffers that hold as many.
pub record Ready {ℓ} {A : Type ℓ} (c : HandlerConfig) (h : Handler A) : Type ℓ where
  pub short : 0 < h.collected_keys → h.collected_keys < c.min_insert_size
  pub key_room : 0 < h.collected_keys → c.min_insert_size ≤ h.insert_keys.size
  pub data_room :
      0 < h.collected_keys → c.min_insert_size * h.collected_output_stride ≤ h.insert_data.size

-- Did the lookup miss the key at this index? Without a hit mask all keys are resolved.
unfoldable pub missed : Option (ℕ → ℕ → Bool) → ℕ → Bool
missed none i = false
missed (some mask) i = not (hit_bit (some mask) i)

rewrite_missed-before :
    (mask : ℕ → ℕ → Bool) (invalid dst n : ℕ) (keys : ℕ → ℕ) (x : ℕ)
    → x < dst
    → rewrite_missed mask invalid dst n keys x ≡ keys x
unfolding rewrite_missed
rewrite_missed-before mask invalid dst zero keys x h = refl
rewrite_missed-before mask invalid dst (suc j) keys x h =
    let other : x == dst + j ≡ false = ground arith in
    let rest = rewrite_missed-before mask invalid dst j keys x h in
    elim (Bool-cases (hit_bit (some mask) j)) [ inl e ↦ rw (e, rest) | inr e ↦ rw (e, other, rest) ]

rewrite_missed-at :
    (mask : ℕ → ℕ → Bool) (invalid dst n : ℕ) (keys : ℕ → ℕ) (i : ℕ)
    → rewrite_missed mask invalid dst n keys (dst + i)
      ≡ (if ltb i n && not (hit_bit (some mask) i) then invalid else keys (dst + i))
unfolding rewrite_missed
rewrite_missed-at mask invalid dst zero keys i = ground arith
rewrite_missed-at mask invalid dst (suc j) keys i =
    let rest = rewrite_missed-at mask invalid dst j keys i in
    elim (Bool-cases (i == j)) [
      | inl e ↦
          let same : i ≡ j = ground arith in
          let here : dst + j == dst + j ≡ true = ground arith in
          let not_yet : ltb j j ≡ false = ground arith in
          let now : ltb j (suc j) ≡ true = ground arith in
          elim (Bool-cases (hit_bit (some mask) j)) [
            | inl b ↦ rw (same, b, now) (rw (same, b, not_yet) at rest)
            | inr b ↦ rw (same, b, here, now)
          ]
      | inr e ↦
          let there : dst + i == dst + j ≡ false = ground arith in
          let as_before : ltb i (suc j) ≡ ltb i j = ground arith in
          elim (Bool-cases (hit_bit (some mask) j)) [
            | inl b ↦ rw (b, as_before) rest
            | inr b ↦ rw (b, there, as_before) rest
          ]
    ]

rewrite-before :
    (hitmask : Option (ℕ → ℕ → Bool)) (invalid dst n : ℕ) (keys : ℕ → ℕ) (x : ℕ)
    → x < dst
    → rewrite hitmask invalid dst n keys x ≡ keys x
unfolding rewrite
rewrite-before none invalid dst n keys x h = refl
rewrite-before (some mask) invalid dst n keys x h =
    rewrite_missed-before mask invalid dst n keys x h

rewrite-at :
    (hitmask : Option (ℕ → ℕ → Bool)) (invalid dst n : ℕ) (keys : ℕ → ℕ) (i : ℕ)
    → i < n
    → rewrite hitmask invalid dst n keys (dst + i)
      ≡ (if missed hitmask i then invalid else keys (dst + i))
unfolding rewrite missed
rewrite-at none invalid dst n keys i h = refl
rewrite-at (some mask) invalid dst n keys i h =
    let inside : ltb i n ≡ true = ground arith in
    rewrite_missed-at mask invalid dst n keys i ∙ rw inside refl

memcpy-before {ℓ} :
    {A : Type ℓ} (dst src : ℕ → A) (d s n x : ℕ) → x < d → memcpy dst d src s n x ≡ dst x
unfolding memcpy
memcpy-before dst src d s n x h = let out : leb d x ≡ false = ground arith in rw out refl

memcpy-at {ℓ} :
    {A : Type ℓ} (dst src : ℕ → A) (d n i : ℕ) → i < n → memcpy dst d src 0 n (d + i) ≡ src i
unfolding memcpy
memcpy-at dst src d n i h =
    let inside : leb d (d + i) && ltb (d + i) (d + n) ≡ true = ground arith in
    let at : 0 + (d + i - d) ≡ i = omega arith in rw (inside, at)

get_ptr-large {ℓ} :
    {A : Type ℓ} (fresh : ℕ → A) (n : ℕ) (b : Buffer A) → n ≤ b.size → get_ptr fresh n b ≡ b
unfolding get_ptr
get_ptr-large fresh n b h = let enough : ltb b.size n ≡ false = ground arith in rw enough refl

get_ptr-size {ℓ} :
    {A : Type ℓ} (fresh : ℕ → A) (n : ℕ) (b : Buffer A) → n ≤ (get_ptr fresh n b).size
unfolding get_ptr
get_ptr-size fresh n b = elim (Bool-cases (ltb b.size n)) [
  | inl e ↦ rw e (omega arith)
  | inr e ↦ rw e (ground arith)
]

-- The collection of a batch: `taken` of its keys are appended.
pub record Collected {ℓ} {A : Type ℓ} (c : HandlerConfig) (b : Batch A) (h h' : Handler A)
    : Type ℓ where
  pub taken : ℕ
  pub total : h'.collected_keys ≡ h.collected_keys + taken
  pub first_all : h.collected_keys ≡ 0 → taken ≡ b.num_keys
  pub next_bound :
      0 < h.collected_keys → taken ≡ min b.num_keys (c.min_insert_size - h.collected_keys)
  pub keys_kept :
      (i : ℕ) → i < h.collected_keys → h'.insert_keys.contents i ≡ h.insert_keys.contents i
  pub data_kept :
      (i : ℕ)
      → i < h.collected_keys * h.collected_output_stride
      → h'.insert_data.contents i ≡ h.insert_data.contents i
  pub keys_added :
      (i : ℕ)
      → i < taken
      → h'.insert_keys.contents (h.collected_keys + i)
        ≡ (if missed b.hitmask i then c.invalid_key else b.keys i)
  pub data_added :
      (i : ℕ)
      → i < taken * h.collected_output_stride
      → h'.insert_data.contents (h.collected_keys * h.collected_output_stride + i) ≡ b.output i
  pub key_room : c.min_insert_size ≤ h'.insert_keys.size
  pub data_room : c.min_insert_size * h.collected_output_stride ≤ h'.insert_data.size

module _ {ℓ} {A : Type ℓ} (c : HandlerConfig) (fresh_keys : ℕ → ℕ) (fresh_data : ℕ → A)
    (b : Batch A) (h : Handler A) (r : Ready c h) where
  total_size-le : c.min_insert_size ≤ collection_total_size c h.collected_keys b.num_keys
  unfolding collection_total_size
  total_size-le = ground arith

  -- A batch that comes while a collection that goes on, or none, is in the buffers: as many of its keys
  -- are appended as are missing to `min_insert_size`, or all of them if it is the first. What was
  -- collected stays where it is, since the buffers are large enough. A key that the lookup missed
  -- becomes the invalid key, and the rows are appended in their order.
  pub collect-Collected : Collected c b h (collect_keys_and_data c fresh_keys fresh_data b h)
  unfolding collect_keys_and_data collection_part_size
  collect-Collected =
      let at = h.collected_keys in
      let stride = h.collected_output_stride in
      let total = collection_total_size c at b.num_keys in
      let part = min b.num_keys (total - at) in
      let dst_keys = get_ptr fresh_keys total h.insert_keys in
      let dst_data = get_ptr fresh_data (total * stride) h.insert_data in
      let copied = memcpy dst_keys.contents at b.keys 0 part in
      record {
        taken = part;
        total = refl;
        first_all = λ e. all e;
        next_bound = λ p. unfold collection_total_size in ground arith;
        keys_kept = λ i l.
            rewrite-before b.hitmask c.invalid_key at part copied i l
            ∙ memcpy-before dst_keys.contents b.keys at 0 part i l
            ∙ same_keys i l;
        data_kept = λ i l.
            memcpy-before dst_data.contents b.output (at * stride) 0 (part * stride) i l
            ∙ same_data i l;
        keys_added = λ i l.
            rewrite-at b.hitmask c.invalid_key at part copied i l
            ∙ rw (memcpy-at dst_keys.contents b.keys at part i l) refl;
        data_added = λ i l. memcpy-at dst_data.contents b.output (at * stride) (part * stride) i l;
        key_room = omega (arith, total_size-le, get_ptr-size fresh_keys total h.insert_keys);
        data_room =
            let more : c.min_insert_size * stride ≤ total * stride =
              mul-le-mul_right stride total_size-le in
            omega (arith, get_ptr-size fresh_data (total * stride) h.insert_data);
      }
    where
      all :
          h.collected_keys ≡ 0
          → min b.num_keys (collection_total_size c h.collected_keys b.num_keys - h.collected_keys)
            ≡ b.num_keys
      all e = unfold collection_total_size in ground arith

      going_on :
          0 < h.collected_keys
          → collection_total_size c h.collected_keys b.num_keys ≡ c.min_insert_size
      going_on p = unfold collection_total_size in ground arith

      same_keys :
          (i : ℕ)
          → i < h.collected_keys
          → (get_ptr fresh_keys
                (collection_total_size c h.collected_keys b.num_keys)
                h.insert_keys).contents
              i
            ≡ h.insert_keys.contents i
      same_keys i l =
          rw
            (
              going_on (omega arith),
              get_ptr-large fresh_keys c.min_insert_size h.insert_keys (r.key_room (omega arith)),
            )
            refl

      same_data :
          (i : ℕ)
          → i < h.collected_keys * h.collected_output_stride
          → (get_ptr fresh_data
                (collection_total_size c h.collected_keys b.num_keys * h.collected_output_stride)
                h.insert_data).contents
              i
            ≡ h.insert_data.contents i
      same_data i l =
          let some_collected : 0 < h.collected_keys = grind arith in
          rw
            (
              going_on some_collected,
              get_ptr-large fresh_data (c.min_insert_size * h.collected_output_stride) h.insert_data
                  (r.data_room some_collected),
            )
            refl
