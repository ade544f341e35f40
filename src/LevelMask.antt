-- ===== src/LevelMask.antt =====
-- src/cell/level_mask.rs: the set of significant levels of a cell, one bit a level.
pub mod Laws
use tonlib_rs.Prelude.{
  ℕ, zero, suc, ◌+◌, ◌-◌, ◌/◌, ◌%◌, ◌^◌, bit_and, bit_or, Bool, true, not, ◌==◌, if◌then◌else◌,
}

-- `LevelMask { mask: u32 }`
pub record LevelMask : Type 0 where
  pub mask : ℕ

-- `32 - m.leading_zeros()`: the number of digits of `m`, for `m` below 2 ^ fuel.
unfoldable pub bit_length : ℕ → ℕ → ℕ
bit_length zero m = 0
bit_length (suc fuel) m = let more = bit_length fuel (m / 2) in if m == 0 then 0 else suc more

-- `m.count_ones()`, for `m` below 2 ^ fuel
unfoldable pub count_ones : ℕ → ℕ → ℕ
count_ones zero m = 0
count_ones (suc fuel) m = m % 2 + count_ones fuel (m / 2)

unfoldable pub level : LevelMask → ℕ
unfolding bit_length
level l = bit_length 32 l.mask

unfoldable pub hash_index : LevelMask → ℕ
unfolding count_ones
hash_index l = count_ones 32 l.mask

unfoldable pub hash_count : LevelMask → ℕ
unfolding hash_index
hash_count l = hash_index l + 1

-- `level` is below 32 at every call, so `1u32 << level` does not overflow.
unfoldable pub apply : LevelMask → ℕ → LevelMask
apply l level = record { mask = bit_and l.mask (2 ^ level - 1) }

unfoldable pub apply_or : LevelMask → LevelMask → LevelMask
apply_or l other = record { mask = bit_or l.mask other.mask }

unfoldable pub shift_right : LevelMask → LevelMask
shift_right l = record { mask = l.mask / 2 }

unfoldable pub is_significant : LevelMask → ℕ → Bool
is_significant l zero = true
is_significant l (suc level) = not (l.mask / 2 ^ level % 2 == 0)
