-- ===== src/Tests/Streams.antt =====
-- Streams over plain lists that behave as bitstream_io documents.
use tonlib_rs.Prelude.{
  ℕ, zero, suc, ◌+◌, ◌-◌, ◌*◌, ◌/◌, ◌%◌, ◌^◌, ◌≤◌, ◌<◌, ◌≡◌, ◌≢◌, refl, ap₂, ◌∙◌, subst, List, [],
  ◌∷◌, ◌++◌, Bool, true, false, ◌&&◌, ◌==◌, ltb, leb, if◌then◌else◌, length, length-append,
  length-take, length-drop, take, drop, take-append, drop-append, take-append-drop, All, arith,
  Option, none, some, le→leb, lt→ltb, ge→ltb, ne→==, replicate,
}
use tonlib_rs.Prelude.Bits.{
  IsByte, to_bits, from_bits, from_bits-to_bits, from_bits-lt, to_bits-from_bits, unpack,
  length-unpack,
}
use tonlib_rs.Prelude.Outcome.{IoResult, done, failed}
use tonlib_rs.Libs.Streams.{BitWriter, BitReader}

-- The first `n` bytes of a bit string.
unfoldable pub pack : ℕ → List Bool → List ℕ
pack zero bs = []
pack (suc n) bs = from_bits (take 8 bs) ∷ pack n (drop 8 bs)

unpack-pack :
    (n : ℕ) (bs : List Bool)
    → length bs ≡ 8 * n
    → (unpack (pack n bs) ≡ bs) × All IsByte (pack n bs)
unfolding pack unpack
unpack-pack zero [] h = (refl, tt)
unpack-pack zero (b ∷ bs) h = absurd (omega arith)
unpack-pack (suc n) bs h =
    let len : length (take 8 bs) ≡ 8 = omega (arith, length-take 8 bs) in
    let (p, q) = unpack-pack n (drop 8 bs) (omega (arith, length-drop 8 bs)) in
    let lt : from_bits (take 8 bs) < 256 =
      subst (λ t. from_bits (take 8 bs) < 2 ^ t) len (from_bits-lt (take 8 bs)) in
    let digits : to_bits 8 (from_bits (take 8 bs)) ≡ take 8 bs =
      subst (λ t. to_bits t (from_bits (take 8 bs)) ≡ take 8 bs) len
        (to_bits-from_bits (take 8 bs) 0 (from_bits (take 8 bs)) (omega arith)) in
    (join digits p ∙ take-append-drop 8 bs, (lt, q))
  where
    join : {xs xs' ys ys' : List Bool} → xs ≡ xs' → ys ≡ ys' → xs ++ ys ≡ xs' ++ ys'
    join e e' = ap₂ ◌++◌ e e'

pack-unpack :
    (bs : List ℕ) (ys : List Bool) → All IsByte bs → pack (length bs) (unpack bs ++ ys) ≡ bs
unfolding pack unpack
pack-unpack [] ys h = refl
pack-unpack (b ∷ bs) ys h = ap₂ ◌∷◌ (from_bits-to_bits 8 b h.0) (pack-unpack bs ys h.1)

abbrev padded : List Bool → List Bool
padded w = if length w % 8 == 0 then w else w ++ replicate (8 - length w % 8) false

abbrev write_if : Bool → List Bool → List Bool → IoResult (List Bool) (Unit {0})
write_if true new w = done tt (w ++ new)
write_if false new w = failed w

abbrev write : ℕ → ℕ → ℕ → List Bool → IoResult (List Bool) (Unit {0})
write width bits v w = write_if (leb bits width && ltb v (2 ^ bits)) (to_bits bits v) w

abbrev writer : List Bool → Option (List ℕ)
writer w = if length w % 8 == 0 then some (pack (length w / 8) w) else none

pub write_fits :
    (width bits v : ℕ) (w : List Bool)
    → bits ≤ width
    → v < 2 ^ bits
    → (w' : List Bool) × (write width bits v w ≡ done tt w') × (w' ≡ w ++ to_bits bits v)
write_fits width bits v w hb hv =
    (w ++ to_bits bits v, rw (le→leb bits width hb, lt→ltb v (2 ^ bits) hv) refl, refl)

pub write_fails :
    (width bits v : ℕ) (w : List Bool)
    → 2 ^ bits ≤ v
    → (w' : List Bool) × (write width bits v w ≡ failed w') × (w' ≡ w)
write_fails width bits v w h = (w, rw (ge→ltb v (2 ^ bits) h) (fails (leb bits width)), refl)
  where
    fails : (b : Bool) → write_if (b && false) (to_bits bits v) w ≡ failed w
    fails true = refl
    fails false = refl

pub align_fits :
    (w : List Bool)
    → length w % 8 ≡ 0
    → (w' : List Bool) × (◌≡◌ {A = IoResult (List Bool) (Unit {0})}
        (done tt (padded w))
        (done tt w'))
      × (w' ≡ w)
align_fits w h = (w, rw h refl, refl)

pub writer_some :
    (w : List Bool)
    → length w % 8 ≡ 0
    → (bs : List ℕ) × (writer w ≡ some bs) × (unpack bs ≡ w) × All IsByte bs
writer_some w h =
    let (p, q) = unpack-pack (length w / 8) w (omega arith) in
    (pack (length w / 8) w, rw h refl, p, q)

pub writer_none : (w : List Bool) → length w % 8 ≢ 0 → writer w ≡ none
writer_none w h = rw (ne→== (length w % 8) 0 h) refl

abbrev pub bit_writer : BitWriter
bit_writer = record {
  Writer = List Bool;
  endian = [];
  write_bit = λ b w. done tt (w ++ (b ∷ []));
  write = write;
  write_bytes = λ bs w. done tt (w ++ unpack bs);
  byte_aligned = λ w. length w % 8 == 0;
  byte_align = λ w. done tt (padded w);
  writer = writer;
  written = λ w. w;
  written-endian = refl;
  write_bit_lem = λ b w. (w ++ (b ∷ []), refl, refl);
  write_lem = write_fits;
  write_excess = write_fails;
  write_bytes_lem = λ bs w h. (w ++ unpack bs, refl, refl);
  byte_aligned_lem = λ w. refl;
  byte_align_aligned = align_fits;
  writer_aligned = writer_some;
  writer_unaligned = writer_none;
}

-- A reader is what is left and the count of what was read.
abbrev BitState : Type 0
BitState = List Bool × ℕ

abbrev advance : {A : Type 0} → Bool → A → ℕ → BitState → IoResult BitState A
advance true a n (bs, c) = done a (drop n bs, c + n)
advance false a n r = failed r

abbrev first_bit : List Bool → Bool
first_bit [] = false
first_bit (b ∷ bs) = b

abbrev read : ℕ → ℕ → BitState → IoResult BitState ℕ
read width n (bs, c) = advance (leb n width && leb n (length bs)) (from_bits (take n bs)) n (bs, c)

abbrev read_bytes : ℕ → BitState → IoResult BitState (List ℕ)
read_bytes n (bs, c) = advance (leb (8 * n) (length bs)) (pack n bs) (8 * n) (bs, c)

abbrev skip : ℕ → BitState → IoResult BitState (Unit {0})
skip n (bs, c) = advance (leb n (length bs)) tt n (bs, c)

drop_front :
    (n : ℕ) (xs ys : List Bool)
    → length xs ≡ n
    → (take n (xs ++ ys) ≡ xs) × (drop n (xs ++ ys) ≡ ys)
drop_front n xs ys e = rw (← e) (take-append xs ys, drop-append xs ys)

enough : (n : ℕ) (xs ys : List Bool) → length xs ≡ n → leb n (length (xs ++ ys)) ≡ true
enough n xs ys e = le→leb n (length (xs ++ ys)) (omega (arith, length-append xs ys))

pub read_fits :
    (width n : ℕ) (r : BitState) (xs ys : List Bool)
    → n ≤ width
    → r.0 ≡ xs ++ ys
    → length xs ≡ n
    → (r' : BitState) × (read width n r ≡ done (from_bits xs) r') × (r'.0 ≡ ys) × (r'.1 ≡ r.1 + n)
read_fits width n (bs, c) xs ys hw e h =
    let (t, d) = drop_front n xs ys h in
    ((ys, c + n), rw e (rw (le→leb n width hw, enough n xs ys h) (rw (t, d) refl)), refl, refl)

pub read_bytes_fits :
    (n : ℕ) (r : BitState) (bs : List ℕ) (ys : List Bool)
    → All IsByte bs
    → r.0 ≡ unpack bs ++ ys
    → length bs ≡ n
    → (r' : BitState) × (read_bytes n r ≡ done bs r') × (r'.0 ≡ ys) × (r'.1 ≡ r.1 + 8 * n)
read_bytes_fits n (rest, c) bs ys hb e h =
    let len : length (unpack bs) ≡ 8 * n = omega (arith, length-unpack bs, h) in
    let (t, d) = drop_front (8 * n) (unpack bs) ys len in
    let bytes : pack n (unpack bs ++ ys) ≡ bs =
      subst (λ k. pack k (unpack bs ++ ys) ≡ bs) h (pack-unpack bs ys hb) in
    (
      (ys, c + 8 * n),
      rw e (rw (enough (8 * n) (unpack bs) ys len) (rw (bytes, d) refl)),
      refl,
      refl,
    )

pub skip_fits :
    (n : ℕ) (r : BitState) (xs ys : List Bool)
    → r.0 ≡ xs ++ ys
    → length xs ≡ n
    → (r' : BitState) × (skip n r ≡ done tt r') × (r'.0 ≡ ys) × (r'.1 ≡ r.1 + n)
skip_fits n (bs, c) xs ys e h =
    let (t, d) = drop_front n xs ys h in
    ((ys, c + n), rw e (rw (enough n xs ys h) (rw d refl)), refl, refl)

abbrev read_bit : BitState → IoResult BitState Bool
read_bit (bs, c) = advance (leb 1 (length bs)) (first_bit bs) 1 (bs, c)

pub read_bit_fits :
    (r : BitState) (b : Bool) (ys : List Bool)
    → r.0 ≡ b ∷ ys
    → (r' : BitState) × (read_bit r ≡ done b r') × (r'.0 ≡ ys) × (r'.1 ≡ r.1 + 1)
read_bit_fits (bs, c) b ys e =
    ((ys, c + 1), rw e (rw (le→leb 1 (suc (length ys)) (omega arith)) refl), refl, refl)

abbrev pub bit_reader : BitReader
bit_reader = record {
  Reader = BitState;
  endian = λ bs. (unpack bs, 0);
  position_in_bits = λ r. some r.1;
  read_bit = read_bit;
  read = read;
  read_bytes = read_bytes;
  skip = skip;
  rest = λ r. r.0;
  consumed = λ r. r.1;
  rest-endian = λ bs h. refl;
  consumed-endian = λ bs. refl;
  position_in_bits_lem = λ r. refl;
  read_bit_lem = read_bit_fits;
  read_lem = read_fits;
  read_bytes_lem = read_bytes_fits;
  skip_lem = skip_fits;
}
