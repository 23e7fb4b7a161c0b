-- ===== src/Partitioner.antt =====
-- The partitioners of include/host_table.hpp. `std::hash` is a parameter: a function of the key into
-- 64 bits. The last step of each, `static_cast<int64_t>(x) & mask`, has a mask that is one less than
-- the number of partitions.
use Prim.Native.Nat.{bit_and, bit_or, bit_xor}
use nv_embedding_cache.Common.{ℕ, ◌-◌, ◌*◌, ◌/◌, ◌%◌, ◌^◌, ◌<◌, arith}
use nv_embedding_cache.Common.Bits.{bit_and-le}

-- `uint64_t` multiplication and the rotation of include/bit_ops.hpp
unfoldable pub mul64 : ℕ → ℕ → ℕ
mul64 x y = x * y % 2 ^ 64

unfoldable pub rotr : ℕ → ℕ → ℕ
rotr x n = bit_or (x / 2 ^ (n % 64)) (x * 2 ^ (64 - n % 64) % 2 ^ 64)

-- `x ^= x >> n`
unfoldable pub xor_shift : ℕ → ℕ → ℕ
xor_shift x n = bit_xor x (x / 2 ^ n)

pub data Partitioner : Type 0 where
  always_zero fowler_noll_vo murmur3 rrxmrrxmsx0 std_hash : Partitioner

unfoldable pub fowler_noll_vo_mix : ℕ → ℕ
fowler_noll_vo_mix x = mul64 (bit_xor x 14_695_981_039_346_656_037) 591_798_841

unfoldable pub murmur3_mix : ℕ → ℕ
murmur3_mix x =
    let a = mul64 (xor_shift x 33) 0xff51afd7ed558ccd in
    let b = mul64 (xor_shift a 33) 0xc4ceb9fe1a85ec53 in xor_shift b 33

unfoldable pub rrxmrrxmsx0_mix : ℕ → ℕ
rrxmrrxmsx0_mix x =
    let a = mul64 (bit_xor x (bit_xor (rotr x 25) (rotr x 50))) 0xa24baed4963ee407 in
    let b = mul64 (bit_xor a (bit_xor (rotr a 24) (rotr a 49))) 0x9fb21c651e98df25 in xor_shift b 28

-- `partitioner(key, mask)`
unfoldable pub partition_of : Partitioner → (ℕ → ℕ) → ℕ → ℕ → ℕ
partition_of always_zero hash mask key = 0
partition_of fowler_noll_vo hash mask key = bit_and (fowler_noll_vo_mix (hash key)) mask
partition_of murmur3 hash mask key = bit_and (murmur3_mix (hash key)) mask
partition_of rrxmrrxmsx0 hash mask key = bit_and (rrxmrrxmsx0_mix (hash key)) mask
partition_of std_hash hash mask key = bit_and (hash key) mask

-- Every partitioner, whatever the hash of the key is, names one of the partitions, if there is one.
partition_of-lt :
    (p : Partitioner) (hash : ℕ → ℕ) (num_partitions key : ℕ)
    → 0 < num_partitions
    → partition_of p hash (num_partitions - 1) key < num_partitions
unfolding partition_of
partition_of-lt always_zero hash n key h = omega arith
partition_of-lt fowler_noll_vo hash n key h =
    omega (arith, bit_and-le (fowler_noll_vo_mix (hash key)) (n - 1))
partition_of-lt murmur3 hash n key h = omega (arith, bit_and-le (murmur3_mix (hash key)) (n - 1))
partition_of-lt rrxmrrxmsx0 hash n key h =
    omega (arith, bit_and-le (rrxmrrxmsx0_mix (hash key)) (n - 1))
partition_of-lt std_hash hash n key h = omega (arith, bit_and-le (hash key) (n - 1))
