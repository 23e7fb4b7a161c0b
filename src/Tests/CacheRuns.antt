-- ===== src/Tests/CacheRuns.antt =====
-- The theorems of the set-associative cache at small caches.
use mathlib.Core.List.Perm
use nv_embedding_cache.Common.{
  true, ◌/◌, ◌%◌, ℕ, ◌-◌, ◌*◌, ◌^◌, ◌≡◌, ◌≢◌, refl, List, [], ◌∷◌, some, arith, if◌then◌else◌, ◌==◌,
}
use nv_embedding_cache.EcCache.State.{
  CacheConfig, Table, ways, hash_set_idx, construct_tag, construct_key,
}
use nv_embedding_cache.EcCache.Defs.{find, insert, invalidate}
use nv_embedding_cache.EcCache.Hash.{construct_key-construct_tag, find_sentinel}
use nv_embedding_cache.EcCache.Insert.{Coherent}
use nv_embedding_cache.EcCache.Coherence.{insert-Coherent}
use nv_embedding_cache.EcCache.Invalidate.{gone, invalidate-gone}
use nv_embedding_cache.Tests.HeuristicRuns.{hundredths}
use native.Mathlib.Nat.{ℕ_set}

-- Two sets, 32-bit keys and tags, and the default sentinel.
abbrev small : CacheConfig hundredths
small = record {
  num_sets = 2;
  key_space = 4_294_967_296;
  tag_space = 4_294_967_296;
  tag_signed = true;
  sentinel = 4_294_967_295;
  decay_rate = 95;
}

-- A fresh table.
abbrev fresh : Table hundredths ℕ
fresh = record {
  h_tags = λ s. 4_294_967_295;
  d_tags = λ s. 4_294_967_295;
  counters = λ s. 0;
  rows = λ s. 0;
}

abbrev backing : ℕ → ℕ
backing key = key * 10

abbrev items : List (ℕ × (ℕ × ℕ))
items = (5, (80, 50)) ∷ (8, (70, 80)) ∷ (5, (10, 50)) ∷ []

construct_key-construct_tag_example :
    construct_key true
      (2 ^ 64)
      (2 ^ 32)
      1000
      (construct_tag (2 ^ 32) 1000 12345)
      (hash_set_idx 1000 12345)
    ≡ 12345
construct_key-construct_tag_example =
    construct_key-construct_tag true (2 ^ 64) (2 ^ 32) 1000 12345 (omega arith) (omega arith)
      (omega arith)

find_sentinel_example :
    (find small (λ s. 4_294_967_295) (4_294_967_296 - 1) ≡ some 0)
    × (construct_tag 4_294_967_296 2 (4_294_967_296 - 1) ≢ 4_294_967_295)
find_sentinel_example = find_sentinel small 2_147_483_648 (omega arith) (omega arith) refl refl refl

fresh-Coherent : Coherent small backing fresh.h_tags fresh.rows
unfolding Coherent
fresh-Coherent s l n = absurd (n refl)

insert-Coherent_example :
    ((s : ℕ)
      → (insert small (λ es. es) 4 items fresh).d_tags s
        ≡ (insert small (λ es. es) 4 items fresh).h_tags s)
    × Coherent small backing
        (insert small (λ es. es) 4 items fresh).h_tags
        (insert small (λ es. es) 4 items fresh).rows
insert-Coherent_example =
    insert-Coherent small backing (λ es. es) 4 items fresh ℕ_set (λ es. Perm.refl es) (omega arith)
      (
        ((omega arith, omega arith), refl),
        (((omega arith, omega arith), refl), (((omega arith, omega arith), refl), tt)),
      )
      (λ s. refl) fresh-Coherent

-- A table in which the key 5 is in the first way of the set 1.
abbrev one_key : Table hundredths ℕ
one_key = record fresh {
  h_tags = λ s. if s == 8 then 2 else 4_294_967_295;
  d_tags = λ s. if s == 8 then 2 else 4_294_967_295;
}

invalidate-gone_example :
    (t : Table hundredths ℕ) × ((invalidate small 24 (5 ∷ 8 ∷ 5 ∷ []) one_key ≡ some t)
      × (((x : ℕ)
            → t.h_tags x ≡ (
                if gone small (5 ∷ 8 ∷ 5 ∷ []) one_key.h_tags (x / ways) (x % ways)
                then 4_294_967_295
                else one_key.h_tags x))
          × (((s : ℕ) → t.d_tags s ≡ t.h_tags s) × (t.rows ≡ one_key.rows))))
invalidate-gone_example =
    invalidate-gone small 24 (5 ∷ 8 ∷ 5 ∷ []) one_key (omega arith) (λ s. refl)
