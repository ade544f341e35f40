-- ===== src/LevelMask/Laws.antt =====
-- Levels and hash counts of a mask.
use tonlib_rs.Prelude.{ℕ, zero, suc, ◌/◌, ◌^◌, ◌≤◌, ◌<◌, ◌==◌, arith, Bool-cases, inl, inr, ==_iff}
use tonlib_rs.LevelMask.{LevelMask, level, bit_length}
use native.Mathlib.Nat.{pow-succ'}

-- The digits counted are enough to write the number.
pub lt-pow-bit_length : (fuel m : ℕ) → m < 2 ^ fuel → m < 2 ^ bit_length fuel m
unfolding bit_length
lt-pow-bit_length zero m h = h
lt-pow-bit_length (suc fuel) m h = elim (Bool-cases (m == 0)) [
  | inl z ↦ rw z (let e = (==_iff m 0).0 z in omega (arith, e))
  | inr s ↦ rw s (
      omega (
        arith,
        lt-pow-bit_length fuel (m / 2) (omega (arith, pow-succ' 2 fuel)),
        pow-succ' 2 (bit_length fuel (m / 2)),
      ))
]

pub bit_length-le : (fuel m : ℕ) → bit_length fuel m ≤ fuel
unfolding bit_length
bit_length-le zero m = omega arith
bit_length-le (suc fuel) m = ground (arith, bit_length-le fuel (m / 2))

-- No shorter number of digits is enough.
pub bit_length-least : (fuel m n : ℕ) → m < 2 ^ n → bit_length fuel m ≤ n
unfolding bit_length
bit_length-least zero m n h = omega arith
bit_length-least (suc fuel) zero n h = omega arith
bit_length-least (suc fuel) (suc m) zero h = absurd (omega arith)
bit_length-least (suc fuel) (suc m) (suc n) h =
    ground (arith, bit_length-least fuel (suc m / 2) n (omega (arith, pow-succ' 2 n)))

pub lt_pow_self : (v : ℕ) → v < 2 ^ v
lt_pow_self zero = omega arith
lt_pow_self (suc v) = omega (arith, lt_pow_self v, pow-succ' 2 v)

-- The level of a `u32` mask is the least k with the mask below 2 ^ k.
pub level-least :
    (l : LevelMask)
    → l.mask < 2 ^ 32
    → (l.mask < 2 ^ level l) × ((k : ℕ) → l.mask < 2 ^ k → level l ≤ k)
unfolding level
level-least l h = (lt-pow-bit_length 32 l.mask h, λ k hk. bit_length-least 32 l.mask k hk)
