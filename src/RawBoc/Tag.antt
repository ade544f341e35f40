-- ===== src/RawBoc/Tag.antt =====
-- The completion tag of src/cell/raw.rs: a partial last byte ends in a 1 and zeros, which
-- `read_cell` finds again. Every byte and every length is checked.
use tonlib_rs.Prelude.{
  ℕ, zero, suc, ◌+◌, ◌-◌, ◌%◌, ◌^◌, ◌<◌, ◌≡◌, refl, Bool, true, not, ◌&&◌, ◌||◌, ◌==◌, ltb, arith,
  bit_or, bit_and,
}
use tonlib_rs.RawBoc.Parse.{trailing_zeros}

-- The last byte with its completion tag, for `r` bits of it in use.
abbrev pub tagged : ℕ → ℕ → ℕ
tagged b r = bit_or b (2 ^ (8 - r - 1))

-- The tag is found and removed: checked for every byte.
abbrev tag_holds : ℕ → ℕ → Bool
tag_holds r b =
    not (b % 2 ^ (8 - r) == 0)
    || (ltb (tagged b r) 256
        && (trailing_zeros 8 (tagged b r) == 8 - r - 1)
        && (bit_and (tagged b r) (255 - 2 ^ (8 - r - 1)) == b))

all_below : ℕ → (ℕ → Bool) → Bool
all_below zero p = true
all_below (suc n) p = p n && all_below n p

all_below_at : (n : ℕ) (p : ℕ → Bool) (x : ℕ) → all_below n p ≡ true → x < n → p x ≡ true
unfolding all_below
all_below_at zero p x h lt = elim lt [ ]
all_below_at (suc n) p x h lt = ground (arith, all_below_at n p x)

tag_table : all_below 7 (λ k. all_below 256 (tag_holds (k + 1))) ≡ true
unfolding all_below trailing_zeros
tag_table = refl

pub record TagHolds (b r : ℕ) : Type 0 where
  pub is_byte : tagged b r < 256
  pub zeros : trailing_zeros 8 (tagged b r) ≡ 8 - r - 1
  pub stripped : bit_and (tagged b r) (255 - 2 ^ (8 - r - 1)) ≡ b

tag_of_test : (b r : ℕ) → b % 2 ^ (8 - r) ≡ 0 → tag_holds r b ≡ true → TagHolds b r
tag_of_test b r hz h = record {
  is_byte = ground arith;
  zeros = ground arith;
  stripped = ground arith;
}

pub tag_lem : (b r : ℕ) → b < 256 → 0 < r → r < 8 → b % 2 ^ (8 - r) ≡ 0 → TagHolds b r
tag_lem b r hb h0 h8 hz =
    let row =
      all_below_at 7 (λ k. all_below 256 (tag_holds (k + 1))) (r - 1) tag_table (omega arith) in
    let re : r - 1 + 1 ≡ r = omega arith in
    tag_of_test b r hz (all_below_at 256 (tag_holds r) b (rw re at row) hb)
