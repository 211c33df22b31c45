-- ===== src/Rng/Words.antt =====
-- `uint32_t` and `uint64_t` as native numbers below 2 ^ w: the shifts, rotations and the seeding
-- function `splitmix64_next` of src/utils/xoroshiro_64_star.hpp.
use Prim.Native.Nat.{bit_or, bit_xor}
use benchmark_fun.Common.{ℕ, ◌+◌, ◌-◌, ◌*◌, ◌/◌, ◌%◌, ◌^◌}

-- `x << k`, `x >> k` and a rotation of a w-bit word
abbrev pub shl : ℕ → ℕ → ℕ → ℕ
shl w x k = x * 2 ^ k % 2 ^ w

abbrev pub shr : ℕ → ℕ → ℕ
shr x k = x / 2 ^ k

unfoldable pub rotl : ℕ → ℕ → ℕ → ℕ
rotl w x k = bit_or (shl w x k) (shr x (w - k))

-- The number drawn, and the next seed.
pub splitmix64_next : ℕ → ℕ × ℕ
splitmix64_next seed =
    let x = (seed + 0x9e3779b97f4a7c15) % 2 ^ 64 in
    let z1 = bit_xor x (shr x 30) * 0xbf58476d1ce4e5b9 % 2 ^ 64 in
    let z2 = bit_xor z1 (shr z1 27) * 0x94d049bb133111eb % 2 ^ 64 in (bit_xor z2 (shr z2 31), x)
