-- ===== src/Prelude/Bits.antt =====
-- Bit strings, high bit first: the value of a string, the digits of a number, bytes as bits.
use Prim.Native.Nat.{ℕ, zero, suc, ◌+◌, ◌*◌, ◌/◌, ◌%◌, ◌^◌, ◌<◌}
use mathlib.Core.Path.{◌≡◌, refl, sym, ap, ◌∙◌}
use mathlib.Core.Bool.{Bool, true, false}
use mathlib.Core.List.{List, [], ◌∷◌, ◌++◌, append_assoc, append-nil}
use native.Mathlib.Omega.{arith}
use native.Mathlib.Nat.{div-div-eq-div-mul, div-eq_of_lt, div-eq_of_lt-le, pow-succ'}
use tonlib_rs.Prelude.Tests.{◌==◌}
use tonlib_rs.Prelude.Lists.{length, length-append, replicate, replicate-add}

abbrev pub IsByte : ℕ → Type 0
IsByte b = b < 256

abbrev pub bit_value : Bool → ℕ
bit_value true = 1
bit_value false = 0

abbrev pub odd : ℕ → Bool
odd n = n % 2 == 1

-- The `n` low bits of `v`.
unfoldable pub to_bits : ℕ → ℕ → List Bool
to_bits zero v = []
to_bits (suc n) v = to_bits n (v / 2) ++ (odd v ∷ [])

unfoldable pub from_bits_acc : ℕ → List Bool → ℕ
from_bits_acc acc [] = acc
from_bits_acc acc (b ∷ bs) = from_bits_acc (2 * acc + bit_value b) bs

unfoldable pub from_bits : List Bool → ℕ
unfolding from_bits_acc
from_bits bs = from_bits_acc 0 bs

unfoldable pub unpack : List ℕ → List Bool
unfolding to_bits
unpack [] = []
unpack (b ∷ bs) = to_bits 8 b ++ unpack bs

pub bit_value-odd : (v : ℕ) → bit_value (odd v) ≡ v % 2
bit_value-odd v = ground arith

pub length-to_bits : (n v : ℕ) → length (to_bits n v) ≡ n
unfolding to_bits
length-to_bits zero v = refl
length-to_bits (suc n) v =
    omega (arith, length-append (to_bits n (v / 2)) (odd v ∷ []), length-to_bits n (v / 2))

from_bits_acc-append :
    (acc : ℕ) (xs ys : List Bool)
    → from_bits_acc acc (xs ++ ys) ≡ from_bits_acc (from_bits_acc acc xs) ys
unfolding from_bits_acc
from_bits_acc-append acc [] ys = refl
from_bits_acc-append acc (x ∷ xs) ys = from_bits_acc-append (2 * acc + bit_value x) xs ys

from_bits-snoc :
    (xs : List Bool) (b : Bool) → from_bits (xs ++ (b ∷ [])) ≡ 2 * from_bits xs + bit_value b
unfolding from_bits
from_bits-snoc xs b = from_bits_acc-append 0 xs (b ∷ [])

pub from_bits-to_bits : (n v : ℕ) → v < 2 ^ n → from_bits (to_bits n v) ≡ v
unfolding to_bits
from_bits-to_bits zero v h = unfold from_bits in omega arith
from_bits-to_bits (suc n) v h = omega (
  arith,
  from_bits-snoc (to_bits n (v / 2)) (odd v),
  bit_value-odd v,
  from_bits-to_bits n (v / 2) (omega (arith, pow-succ' 2 n)),
)

-- The digits of a number in two parts, and in three.
pub to_bits-append : (m n v k : ℕ) → k ≡ m + n → to_bits k v ≡ to_bits m (v / 2 ^ n) ++ to_bits n v
unfolding to_bits
to_bits-append m zero v k e =
    let p : k ≡ m = omega arith in
    let q : v / 2 ^ 0 ≡ v = omega arith in rw (p, q) (sym (append-nil (to_bits m v)))
to_bits-append m (suc n) v zero e = absurd (omega arith)
to_bits-append m (suc n) v (suc k) e =
    let q : v / 2 / 2 ^ n ≡ v / 2 ^ suc n =
      div-div-eq-div-mul v 2 (2 ^ n) ∙ ap (λ t. v / t) (sym (pow-succ' 2 n)) in
    rw (to_bits-append m n (v / 2) k (omega arith), q, append_assoc) refl

from_bits_acc_lem :
    (acc : ℕ) (xs : List Bool) → from_bits_acc acc xs ≡ acc * 2 ^ length xs + from_bits xs
unfolding from_bits from_bits_acc
from_bits_acc_lem acc [] = omega arith
from_bits_acc_lem acc (b ∷ xs) = omega (
  arith,
  from_bits_acc_lem (2 * acc + bit_value b) xs,
  from_bits_acc_lem (2 * 0 + bit_value b) xs,
  ap (λ (t : ℕ). acc * t) (pow-succ' 2 (length xs)),
)

pub from_bits-append :
    (xs ys : List Bool) → from_bits (xs ++ ys) ≡ from_bits xs * 2 ^ length ys + from_bits ys
from_bits-append xs ys =
    unfold from_bits in (from_bits_acc-append 0 xs ys ∙ from_bits_acc_lem (from_bits xs) ys)

pub from_bits-cons :
    (b : Bool) (xs : List Bool) → from_bits (b ∷ xs) ≡ bit_value b * 2 ^ length xs + from_bits xs
unfolding from_bits from_bits_acc
from_bits-cons b xs = omega (arith, from_bits_acc_lem (2 * 0 + bit_value b) xs)

pub from_bits-lt : (xs : List Bool) → from_bits xs < 2 ^ length xs
from_bits-lt [] = unfold from_bits from_bits_acc in omega arith
from_bits-lt (true ∷ xs) =
    omega (arith, from_bits-cons true xs, from_bits-lt xs, pow-succ' 2 (length xs))
from_bits-lt (false ∷ xs) =
    omega (arith, from_bits-cons false xs, from_bits-lt xs, pow-succ' 2 (length xs))

pub to_bits-zero : (n : ℕ) → to_bits n 0 ≡ replicate n false
unfolding to_bits
to_bits-zero zero = refl
to_bits-zero (suc n) = rw (to_bits-zero n) (sym (replicate-add n 1 false (suc n) (omega arith)))

-- Digits above the size of the number are zeros.
pub to_bits_pad :
    (m n v k : ℕ) → k ≡ m + n → v < 2 ^ n → to_bits k v ≡ replicate m false ++ to_bits n v
to_bits_pad m n v k e h = rw (to_bits-append m n v k e, div-eq_of_lt h, to_bits-zero m) refl

-- Only the value modulo `2 ^ n` counts.
pub to_bits-byte_mod : (v : ℕ) → to_bits 8 (v % 256) ≡ to_bits 8 v
unfolding to_bits
to_bits-byte_mod v = ground arith

pub length-unpack : (bs : List ℕ) → length (unpack bs) ≡ 8 * length bs
unfolding unpack
length-unpack [] = refl
length-unpack (b ∷ bs) =
    omega (arith, length-append (to_bits 8 b) (unpack bs), length-to_bits 8 b, length-unpack bs)

pub unpack-append : (xs ys : List ℕ) → unpack (xs ++ ys) ≡ unpack xs ++ unpack ys
unfolding unpack
unpack-append [] ys = refl
unpack-append (x ∷ xs) ys = rw (unpack-append xs ys, append_assoc) refl

pub to_bits-from_bits :
    (xs : List Bool) (q v : ℕ) → v ≡ q * 2 ^ length xs + from_bits xs → to_bits (length xs) v ≡ xs
to_bits-from_bits [] q v e = unfold to_bits in refl
to_bits-from_bits (b ∷ xs) q v e =
    let v' : v ≡ (2 * q + bit_value b) * 2 ^ length xs + from_bits xs =
      omega (arith, e, from_bits-cons b xs, ap (λ (t : ℕ). q * t) (pow-succ' 2 (length xs))) in
    let top : v / 2 ^ length xs ≡ 2 * q + bit_value b =
      div-eq_of_lt-le (2 ^ length xs) (omega (arith, v')) (omega (arith, v', from_bits-lt xs)) in
    to_bits-append 1 (length xs) v (suc (length xs)) (omega arith)
    ∙ rw (to_bits-from_bits xs (2 * q + bit_value b) v v', top)
        (unfold to_bits in ap (λ t. t ∷ xs) (odd_bit q b))
  where
    odd_bit : (q : ℕ) (b : Bool) → odd (2 * q + bit_value b) ≡ b
    odd_bit q true = ground arith
    odd_bit q false = ground arith

pub unpack-replicate_zero : (n : ℕ) → unpack (replicate n 0) ≡ replicate (8 * n) false
unfolding unpack to_bits
unpack-replicate_zero zero = refl
unpack-replicate_zero (suc n) =
    rw (unpack-replicate_zero n) (sym (replicate-add 8 (8 * n) false (8 * suc n) (omega arith)))
