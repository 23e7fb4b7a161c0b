-- ===== src/EcCache/Hash.antt =====
-- include/ecache/ec_hash.h: a key is its set and its tag.
use native.Mathlib.Nat.{mod-eq_of_lt, div-add-mod', div-lt_self, add-mul-mod_self_right}
use nv_embedding_cache.Common.{
  ℕ, zero, suc, ◌+◌, ◌-◌, ◌*◌, ◌/◌, ◌%◌, ◌<◌, ◌≡◌, ◌∙◌, refl, arith, some, ◌≢◌, Bool, true, false,
  ◌&&◌, ltb, leb, if◌then◌else◌, Bool-cases, inl, inr,
}
use nv_embedding_cache.InsertHeuristic.Defs.{Floats}
use nv_embedding_cache.EcCache.State.{
  CacheConfig, hash_set_idx, construct_tag, construct_key, widen_tag,
}
use nv_embedding_cache.EcCache.Defs.{find_way, find}

-- What a tag type holds: with a signed type narrower than the keys, the numbers that its sign does not
-- extend, up to `std::numeric_limits<TagT>::max()`.
abbrev pub TagFits : Bool → ℕ → ℕ → ℕ → Type 0
TagFits tag_signed key_space tag_space q =
    if tag_signed && ltb tag_space key_space then q + q < tag_space else q < tag_space

widen_tag-fitting :
    (tag_signed : Bool) (key_space tag_space q : ℕ)
    → TagFits tag_signed key_space tag_space q
    → (q < tag_space) × (widen_tag tag_signed key_space tag_space q ≡ q)
unfolding widen_tag
widen_tag-fitting false ks ts q h = (h, refl)
widen_tag-fitting true ks ts q h = elim (Bool-cases (ltb ts ks)) [
  | inl e ↦
      let small : q + q < ts = rw e at h in
      let no_sign : leb ts (q + q) ≡ false = ground arith in (omega (arith, small), rw no_sign refl)
  | inr e ↦
      let small : q < ts = rw e at h in
      let none_more : ks - ts ≡ 0 = ground arith in (small, widened none_more)
]
  where
    widened : ks - ts ≡ 0 → (if leb ts (q + q) then q + (ks - ts) else q) ≡ q
    widened z = elim (Bool-cases (leb ts (q + q))) [
      | inl e ↦ rw e (omega (arith, z))
      | inr e ↦ rw e refl
    ]

-- The tag and the set of a key, in a cache that has a set, give the key back, as long as the key is one
-- of the index type and its quotient fits the tag type; in a signed tag type narrower than the keys, that
-- is up to the type's largest number, beyond which its sign would be extended.
pub construct_key-construct_tag :
    (tag_signed : Bool) (key_space tag_space num_sets key : ℕ)
    → 0 < num_sets
    → key < key_space
    → TagFits tag_signed key_space tag_space (key / num_sets)
    → construct_key tag_signed key_space tag_space num_sets
        (construct_tag tag_space num_sets key)
        (hash_set_idx num_sets key)
      ≡ key
unfolding construct_key construct_tag hash_set_idx
construct_key-construct_tag sg ks ts n key p h t =
    let (less, same) = widen_tag-fitting sg ks ts (key / n) t in
    let tag_fits : key / n % ts ≡ key / n = mod-eq_of_lt less in
    rw (tag_fits, same, div-add-mod' key n) (mod-eq_of_lt h)

-- With a number of sets that divides the key space: the last key is in the last set, and a sentinel tag of
-- full width gives it back there.
last_key_set : (m n : ℕ) → 0 < m → 0 < n → (m * n - 1) % n ≡ n - 1
last_key_set zero n p h = absurd (omega arith)
last_key_set (suc m) zero p h = absurd (omega arith)
last_key_set (suc m) (suc n) p h =
    let split : suc m * suc n - 1 ≡ n + m * suc n = grind arith in
    rw (split, add-mul-mod_self_right n m (suc n)) (mod-eq_of_lt (omega arith) ∙ omega arith)

last_key_again : (k n : ℕ) → 0 < k → 0 < n → ((k - 1) * n + (n - 1)) % k ≡ k - 1
last_key_again zero n p h = absurd (omega arith)
last_key_again (suc k) zero p h = absurd (omega arith)
last_key_again (suc k) (suc n) p h =
    let split : (suc k - 1) * suc n + (suc n - 1) ≡ k + n * suc k = grind arith in
    rw (split, add-mul-mod_self_right k n (suc k)) (mod-eq_of_lt (omega arith) ∙ omega arith)

last_key_tag : (k n : ℕ) → 0 < k → 1 < n → k / n % suc k < k
last_key_tag k n p h =
    let less : k / n < k = div-lt_self p h in
    let small : k / n % suc k ≡ k / n = mod-eq_of_lt (omega arith) in omega (arith, less, small)

as_wide : (tag_signed : Bool) (ks ts q : ℕ) → ts ≡ ks → q < ts → TagFits tag_signed ks ts q
as_wide false ks ts q e h = h
as_wide true ks ts q e h = let no : ltb ts ks ≡ false = ground (arith, e) in rw no h

-- Where the number of sets, two at least, divides the key space, tags are as wide as keys, and the
-- sentinel is the last tag, which is the default: the last key is found in the first way of its set
-- although all tags are sentinels, and its own tag is not the sentinel.
pub find_sentinel :
    {f : Floats} (c : CacheConfig f) (m : ℕ)
    → 1 < c.num_sets
    → 0 < m
    → c.key_space ≡ m * c.num_sets
    → c.tag_space ≡ c.key_space
    → c.sentinel ≡ c.tag_space - 1
    → (find c (λ s. c.sentinel) (c.key_space - 1) ≡ some 0)
      × (construct_tag c.tag_space c.num_sets (c.key_space - 1) ≢ c.sentinel)
unfolding find_way construct_key hash_set_idx construct_tag
find_sentinel c m p h k t e =
    let last = c.key_space - 1 in
    let n = c.num_sets in
    let big : 1 < m * n = grind (arith, p, h) in
    let set_of : last % n ≡ n - 1 = rw k (last_key_set m n h (omega arith)) in
    let sentinel : c.sentinel ≡ last = omega (arith, e, t) in
    let wide : widen_tag c.tag_signed c.key_space c.tag_space c.sentinel ≡ c.sentinel =
      (widen_tag-fitting c.tag_signed c.key_space c.tag_space c.sentinel (
        as_wide c.tag_signed c.key_space c.tag_space c.sentinel t
          (omega (arith, e, k, t, big)))).1 in
    let hit : (widen_tag c.tag_signed c.key_space c.tag_space c.sentinel * n + last % n)
          % c.key_space
        ≡ last =
      rw wide (
        rw (set_of, sentinel)
          (last_key_again c.key_space n (omega (arith, big, k)) (omega arith))) in
    let all : c.tag_space ≡ suc last = omega (arith, k, big, t) in
    let tag : last / n % c.tag_space < last =
      rw all (last_key_tag last n (omega (arith, k, big)) p) in
    (ground (arith, hit), λ q. omega (arith, tag, q, sentinel))
