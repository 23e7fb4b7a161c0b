-- ===== src/Common/Bits.antt =====
-- Masks: the bitwise conjunction with a number is no more than the number.
use Prim.Native.Nat.{ℕ, zero, suc, ◌/◌, ◌≤◌, min, digits, bit_and, bit_and-bitwise}
use native.Mathlib.Omega.{arith}

-- However many digits are taken, none is more than the mask's.
masked-le : (count x mask : ℕ) → digits (λ m. 0) min count x mask ≤ mask
masked-le zero x mask = omega arith
masked-le (suc count) zero mask = omega arith
masked-le (suc count) (suc x) mask = omega (arith, masked-le count (suc x / 2) (mask / 2))

pub bit_and-le : (x mask : ℕ) → bit_and x mask ≤ mask
bit_and-le x mask = rw (bit_and-bitwise x mask) (masked-le x x mask)
