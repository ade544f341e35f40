-- ===== src/Tests/Numbers.antt =====
-- A byte reader, big numbers and digests that behave as their crates document.
use tonlib_rs.Prelude.{
  ℕ, zero, suc, ◌+◌, ◌*◌, ◌/◌, ◌%◌, ◌^◌, ◌≤◌, ◌<◌, ◌≡◌, ◌≢◌, refl, ap, ◌∙◌, subst, List, [], ◌∷◌,
  ◌++◌, Bool, true, false, leb, length, length-append, take, drop, take-append, drop-append,
  replicate, All, arith, le→leb, lt→leb,
}
use tonlib_rs.Prelude.Bits.{IsByte, from_bits, from_bits-to_bits, unpack}
use tonlib_rs.Prelude.Bytes.{be_bytes, length-be_bytes, be_bytes-IsByte, unpack-be_bytes}
use tonlib_rs.Prelude.Outcome.{IoResult, done, failed}
use tonlib_rs.Libs.{BigUint, Digests}
use tonlib_rs.Libs.Streams.{ByteReader}
use tonlib_rs.LevelMask.{bit_length}
use tonlib_rs.LevelMask.Laws.{lt-pow-bit_length, bit_length-least, lt_pow_self}
use native.Mathlib.Nat.{lt_of_lt_of_le, pow-le-pow_right}

abbrev advance : {A : Type 0} → Bool → A → ℕ → List ℕ → IoResult (List ℕ) A
advance true a n bs = done a (drop n bs)
advance false a n bs = failed bs

abbrev read : ℕ → List ℕ → IoResult (List ℕ) ℕ
read n bs = advance (leb n (length bs)) (from_bits (unpack (take n bs))) n bs

abbrev read_to_vec : ℕ → List ℕ → IoResult (List ℕ) (List ℕ)
read_to_vec n bs = advance (leb n (length bs)) (take n bs) n bs

abbrev skip : ℕ → List ℕ → IoResult (List ℕ) (Unit {0})
skip n bs = advance (leb n (length bs)) tt n bs

advance_lem :
    {A : Type 0} (n : ℕ) (f : List ℕ → A) (xs ys : List ℕ)
    → length xs ≡ n
    → advance (leb n (length (xs ++ ys))) (f (take n (xs ++ ys))) n (xs ++ ys) ≡ done (f xs) ys
advance_lem n f xs ys e =
    let enough = le→leb n (length (xs ++ ys)) (omega (arith, length-append xs ys)) in
    let t : take n (xs ++ ys) ≡ xs = subst (λ k. take k (xs ++ ys) ≡ xs) e (take-append xs ys) in
    let d : drop n (xs ++ ys) ≡ ys = subst (λ k. drop k (xs ++ ys) ≡ ys) e (drop-append xs ys) in
    rw enough (rw (t, d) refl)

pub read_fits :
    (n : ℕ) (r : List ℕ) (bs ys : List ℕ)
    → All IsByte bs
    → r ≡ bs ++ ys
    → length bs ≡ n
    → (r' : List ℕ) × (read n r ≡ done (from_bits (unpack bs)) r') × (r' ≡ ys)
read_fits n r bs ys hb e h = (ys, rw e (advance_lem n (λ t. from_bits (unpack t)) bs ys h), refl)

pub read_to_vec_fits :
    (n : ℕ) (r : List ℕ) (bs ys : List ℕ)
    → r ≡ bs ++ ys
    → length bs ≡ n
    → (r' : List ℕ) × (read_to_vec n r ≡ done bs r') × (r' ≡ ys)
read_to_vec_fits n r bs ys e h = (ys, rw e (advance_lem n (λ t. t) bs ys h), refl)

pub skip_fits :
    (n : ℕ) (r : List ℕ) (bs ys : List ℕ)
    → r ≡ bs ++ ys
    → length bs ≡ n
    → (r' : List ℕ) × (skip n r ≡ done tt r') × (r' ≡ ys)
skip_fits n r bs ys e h = (ys, rw e (advance_lem n (λ t. tt) bs ys h), refl)

pub read_short : (n : ℕ) (r : List ℕ) → length r < n → (r' : List ℕ) × (read n r ≡ failed r')
read_short n r h = (r, rw (lt→leb n (length r) h) refl)

pub read_to_vec_short :
    (n : ℕ) (r : List ℕ) → length r < n → (r' : List ℕ) × (read_to_vec n r ≡ failed r')
read_to_vec_short n r h = (r, rw (lt→leb n (length r) h) refl)

abbrev pub byte_reader : ByteReader
byte_reader = record {
  Reader = List ℕ;
  endian = λ bs. bs;
  read = read;
  read_to_vec = read_to_vec;
  skip = skip;
  rest = λ r. r;
  rest-endian = λ bs. refl;
  read_lem = read_fits;
  read_to_vec_lem = read_to_vec_fits;
  skip_lem = skip_fits;
  read_short = read_short;
  read_to_vec_short = read_to_vec_short;
}

-- Big numbers.
unfoldable pub bits : ℕ → ℕ
unfolding bit_length
bits v = bit_length v v

unfoldable pub to_bytes_be : ℕ → List ℕ
unfolding bits be_bytes
to_bytes_be zero = 0 ∷ []
to_bytes_be (suc v) = be_bytes ((bits (suc v) + 7) / 8) (suc v)

unfoldable pub from_digits : List ℕ → ℕ
from_digits [] = 0
from_digits (d ∷ ds) = d + 2 ^ 32 * from_digits ds

pub bits-lt : (v : ℕ) → v < 2 ^ bits v
unfolding bits
bits-lt v = lt-pow-bit_length v v (lt_pow_self v)

pub bits-least : (v n : ℕ) → v < 2 ^ n → bits v ≤ n
unfolding bits
bits-least v n h = bit_length-least v v n h

pub to_bytes_be-IsByte : (v : ℕ) → All IsByte (to_bytes_be v)
unfolding to_bytes_be
to_bytes_be-IsByte zero = (omega arith, tt)
to_bytes_be-IsByte (suc v) = be_bytes-IsByte ((bits (suc v) + 7) / 8) (suc v)

pub length-to_bytes_be : (v : ℕ) → v ≢ 0 → length (to_bytes_be v) ≡ (bits v + 7) / 8
unfolding to_bytes_be
length-to_bytes_be zero h = absurd (h refl)
length-to_bytes_be (suc v) h = length-be_bytes ((bits (suc v) + 7) / 8) (suc v)

pub from_bits-to_bytes_be : (v : ℕ) → from_bits (unpack (to_bytes_be v)) ≡ v
unfolding to_bytes_be
from_bits-to_bytes_be zero = unfold unpack from_bits in refl
from_bits-to_bytes_be (suc v) =
    let n = (bits (suc v) + 7) / 8 in
    ap from_bits (unpack-be_bytes n (suc v) (8 * n) refl)
    ∙ from_bits-to_bits (8 * n) (suc v) (
        lt_of_lt_of_le (bits-lt (suc v))
          (pow-le-pow_right {n = 2} (omega arith) {i = bits (suc v)} {j = 8 * n} (omega arith)))

pub from_digits-nil : from_digits [] ≡ 0
unfolding from_digits
from_digits-nil = refl

pub from_digits-cons :
    (d : ℕ) (ds : List ℕ) → d < 2 ^ 32 → from_digits (d ∷ ds) ≡ d + 2 ^ 32 * from_digits ds
unfolding from_digits
from_digits-cons d ds h = refl

pub bits-zero : bits 0 ≡ 0
unfolding bits
bits-zero = refl

pub to_bytes_be-zero : to_bytes_be 0 ≡ 0 ∷ []
unfolding to_bytes_be
to_bytes_be-zero = refl

abbrev pub big_uint : BigUint
big_uint = record {
  bits = bits;
  to_bytes_be = to_bytes_be;
  from_bytes_be = λ bs. from_bits (unpack bs);
  from_digits = from_digits;
  bits-zero = bits-zero;
  bits-lt = bits-lt;
  bits-least = bits-least;
  to_bytes_be-zero = to_bytes_be-zero;
  to_bytes_be-IsByte = to_bytes_be-IsByte;
  length-to_bytes_be = length-to_bytes_be;
  from_bits-to_bytes_be = from_bits-to_bytes_be;
  from_bytes_be_lem = λ bs h. refl;
  from_digits-nil = from_digits-nil;
  from_digits-cons = from_digits-cons;
}

-- A digest of the right size: the length of its input.
abbrev sha256 : List ℕ → List ℕ
sha256 bs = replicate 32 (length bs % 256)

pub replicate-IsByte : (n v : ℕ) → v < 256 → All IsByte (replicate n v)
replicate-IsByte zero v h = tt
replicate-IsByte (suc n) v h = (h, replicate-IsByte n v h)

pub sha256-IsByte : (bs : List ℕ) → All IsByte (sha256 bs)
sha256-IsByte bs = replicate-IsByte 32 (length bs % 256) (omega arith)

abbrev pub digests : Digests
digests = record {
  sha256 = sha256;
  crc32_iscsi = λ bs. length bs % 2 ^ 32;
  crc16_xmodem = λ bs. length bs % 2 ^ 16;
  length-sha256 = λ bs. refl;
  sha256-IsByte = sha256-IsByte;
  crc32_iscsi-lt = λ bs. omega arith;
  crc16_xmodem-lt = λ bs. omega arith;
}
