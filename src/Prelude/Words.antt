-- ===== src/Prelude/Words.antt =====
-- The bit operations of machine words, as arithmetic. The native operations stand for a recursion
-- on binary digits with fuel; here the fuel goes away and one equation for the lowest digit stays.
use Prim.Native.Nat.{
  ℕ, zero, suc, ◌+◌, ◌-◌, ◌*◌, ◌/◌, ◌%◌, ◌^◌, ◌≤◌, ◌<◌, min, max, bit_and, bit_or, digits, bitwise,
  bit_and-bitwise, bit_or-bitwise,
}
use mathlib.Core.Path.{◌≡◌, refl, ap}
use native.Mathlib.Omega.{arith}
use native.Mathlib.Nat.{pow-succ', one-le-pow, div-add-mod, div-div-eq-div-mul}

module _ (left : ℕ → ℕ) (op : ℕ → ℕ → ℕ) where
  -- More fuel than digits changes nothing.
  fuel_enough : (f g a b : ℕ) → a ≤ f → a ≤ g → digits left op f a b ≡ digits left op g a b
  fuel_enough zero zero a b hf hg = refl
  fuel_enough zero (suc g) zero b hf hg = refl
  fuel_enough zero (suc g) (suc a) b hf hg = elim hf [ ]
  fuel_enough (suc f) zero zero b hf hg = refl
  fuel_enough (suc f) zero (suc a) b hf hg = elim hg [ ]
  fuel_enough (suc f) (suc g) zero b hf hg = refl
  fuel_enough (suc f) (suc g) (suc a) b hf hg =
      rw (fuel_enough f g (suc a / 2) (b / 2) (omega arith) (omega arith))

  low_digit :
      (a b : ℕ)
      → bitwise left op (suc a) b ≡ bitwise left op (suc a / 2) (b / 2) * 2 + op (suc a % 2) (b % 2)
  low_digit a b =
      omega (arith, fuel_enough a (suc a / 2) (suc a / 2) (b / 2) (omega arith) (omega arith))

pub bit_and_digit : (a b : ℕ) → bit_and a b ≡ bit_and (a / 2) (b / 2) * 2 + min (a % 2) (b % 2)
bit_and_digit zero b = simp bit_and-bitwise (omega arith)
bit_and_digit (suc a) b = simp bit_and-bitwise (low_digit (λ y. 0) min a b)

pub bit_or_digit : (a b : ℕ) → bit_or a b ≡ bit_or (a / 2) (b / 2) * 2 + max (a % 2) (b % 2)
bit_or_digit zero b = simp bit_or-bitwise (omega arith)
bit_or_digit (suc a) b = simp bit_or-bitwise (low_digit (λ y. y) max a b)

-- Induction on a bound of the left number.
zero_below : (n a : ℕ) → a ≤ n → bit_and a 0 ≡ 0
zero_below n zero h = refl
zero_below zero (suc a) h = elim h [ ]
zero_below (suc n) (suc a) h =
    omega (arith, bit_and_digit (suc a) 0, zero_below n (suc a / 2) (omega arith))

pub bit_and-zero : (a : ℕ) → bit_and a 0 ≡ 0
bit_and-zero a = zero_below a a (omega arith)

or_zero_below : (n a : ℕ) → a ≤ n → bit_or a 0 ≡ a
or_zero_below n zero h = refl
or_zero_below zero (suc a) h = elim h [ ]
or_zero_below (suc n) (suc a) h =
    omega (arith, bit_or_digit (suc a) 0, or_zero_below n (suc a / 2) (omega arith))

pub bit_or-zero : (a : ℕ) → bit_or a 0 ≡ a
bit_or-zero a = or_zero_below a a (omega arith)

half_pow : (a k : ℕ) → a / 2 / 2 ^ k ≡ a / 2 ^ suc k
half_pow a k = rw (pow-succ' 2 k) (div-div-eq-div-mul a 2 (2 ^ k))

-- One bit of a number.
pub bit_and-pow : (k a : ℕ) → bit_and a (2 ^ k) ≡ a / 2 ^ k % 2 * 2 ^ k
bit_and-pow zero a = omega (arith, bit_and_digit a 1, bit_and-zero (a / 2))
bit_and-pow (suc k) a =
    let e : 2 ^ suc k / 2 ≡ 2 ^ k = omega (arith, pow-succ' 2 k) in
    let ih : bit_and (a / 2) (2 ^ suc k / 2) ≡ a / 2 ^ suc k % 2 * 2 ^ k =
      rw e (rw half_pow at (bit_and-pow k (a / 2))) in
    omega (
      arith,
      bit_and_digit a (2 ^ suc k),
      ih,
      pow-succ' 2 k,
      ap (λ (t : ℕ). a / 2 ^ suc k % 2 * t) (pow-succ' 2 k),
    )

-- The digits of a number above the lowest, and the remainder.
half_mod : (a k : ℕ) → a / 2 % 2 ^ k * 2 + a % 2 ≡ a % 2 ^ suc k
half_mod a k = omega (
  arith,
  div-add-mod (a / 2) (2 ^ k),
  div-add-mod a (2 ^ suc k),
  ap (λ (t : ℕ). 2 ^ k * t) (half_pow a k),
  ap (λ (t : ℕ). t * (a / 2 ^ suc k)) (pow-succ' 2 k),
)

-- A mask of ones keeps the remainder.
pub bit_and_mask : (k a : ℕ) → bit_and a (2 ^ k - 1) ≡ a % 2 ^ k
bit_and_mask zero a = omega (arith, bit_and-zero a)
bit_and_mask (suc k) a =
    let e : (2 ^ suc k - 1) / 2 ≡ 2 ^ k - 1 = omega (arith, pow-succ' 2 k, one-le-pow k 2) in
    let ih : bit_and (a / 2) ((2 ^ suc k - 1) / 2) ≡ a / 2 % 2 ^ k =
      rw e (bit_and_mask k (a / 2)) in
    omega (arith, bit_and_digit a (2 ^ suc k - 1), ih, pow-succ' 2 k, one-le-pow k 2, half_mod a k)

-- A number in the low digits, where the other number has zeros.
pub bit_or_low : (k q r : ℕ) → r < 2 ^ k → bit_or (q * 2 ^ k) r ≡ q * 2 ^ k + r
bit_or_low zero q r h = let e : r ≡ 0 = omega arith in rw e (omega (arith, bit_or-zero (q * 1)))
bit_or_low (suc k) q r h =
    let p = pow-succ' 2 k in
    let e1 : q * 2 ^ suc k ≡ 2 * (q * 2 ^ k) = omega (arith, ap (λ (t : ℕ). q * t) p) in
    let e2 : q * 2 ^ suc k / 2 ≡ q * 2 ^ k = omega (arith, e1) in
    let ih : bit_or (q * 2 ^ suc k / 2) (r / 2) ≡ q * 2 ^ k + r / 2 =
      rw e2 (bit_or_low k q (r / 2) (omega (arith, p))) in
    omega (arith, bit_or_digit (q * 2 ^ suc k) r, ih, e1)
