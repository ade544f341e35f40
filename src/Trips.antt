-- ===== src/Trips.antt =====
-- Values that `CellBuilder` of src/cell/builder.rs writes and `CellParser` of src/cell/parser.rs
-- reads back.
pub mod Built
pub mod Addresses
pub mod Bytes
pub mod References
pub mod Cells
pub mod Whole
pub mod Either
use tonlib_rs.Prelude.{
  ℕ, suc, ◌+◌, ◌*◌, ◌/◌, ◌%◌, ◌^◌, ◌≤◌, ◌<◌, ◌≡◌, ◌≢◌, refl, sym, ap, subst, ◌∙◌, length-append,
  List, [], ◌∷◌, ◌++◌, Bool, true, false, ◌==◌, length, replicate, arith, ne→==, Bool-cases, inl,
  inr, zero, append-nil,
}
use tonlib_rs.Prelude.Bits.{
  IsByte, to_bits, length-to_bits, from_bits, from_bits-to_bits, unpack, to_bits-byte_mod,
  length-unpack,
}
use tonlib_rs.Prelude.Outcome.{ok, ◌>>=◌, ◌>>◌, pure}
use tonlib_rs.Libs.{Libs}
use tonlib_rs.Builder.{Store, store_uint, store_number}
use tonlib_rs.Builder.Values.{store_coins}
use tonlib_rs.Builder.Stores.{Stores, Stores-then, Stores-store_number}
use tonlib_rs.Builder.Uint.{store_uint-digits}
use tonlib_rs.Parser.{Load, load_uint, load_number}
use tonlib_rs.Parser.Values.{load_coins, load_unary_length, unary_loop}
use tonlib_rs.Parser.Loads.{
  Loads, Loads-bind, Loads-pure, Loads-load_number, Loads-load_bit, Ahead, After,
  remaining_bits-Ahead,
}
use tonlib_rs.Parser.Uint.{load_uint_value}
use native.Mathlib.Nat.{lt_of_lt_of_le, pow-le-pow_right}

-- The call of the builder appends bits, whatever it holds, and the call of the parser takes just
-- these bits, whatever follows them, and returns `a`.
pub record RoundTrip (libs : Libs) {A : Type 0} (store : Store libs (Unit {0})) (load : Load libs A)
    (a : A) : Type 0 where
  pub bits : List Bool
  pub stores : Stores libs store bits
  pub loads : Loads libs load bits a

module _ (libs : Libs) where
  open libs.big_uint use {bits, bits-lt}

  fits : (n val : ℕ) → bits val ≤ n → val < 2 ^ n
  fits n val h =
      lt_of_lt_of_le (bits-lt val) (pow-le-pow_right {n = 2} (omega arith) {i = bits val} {j = n} h)

  -- What the parser reads of the digits of a number.
  pub Loads-load_uint :
      (n val : ℕ) → 0 < n → bits val ≤ n → Loads libs (load_uint libs n) (to_bits n val) val
  Loads-load_uint n val pos h =
      subst (λ t. Loads libs (load_uint libs n) (to_bits n val) t)
        (from_bits-to_bits n val (fits n val h))
        (load_uint_value libs n (to_bits n val) (length-to_bits n val) pos)

  pub Loads-number :
      (width : ℕ)
      → width ≤ 64
      → (n val : ℕ) → n ≤ width
      → val < 2 ^ n
      → Loads libs (load_number libs width n) (to_bits n val) val
  Loads-number width small n val hn hv =
      subst (λ t. Loads libs (load_number libs width n) (to_bits n val) t)
        (from_bits-to_bits n val hv)
        (Loads-load_number libs width small n (to_bits n val) (length-to_bits n val) hn)

  bits_pos : (val : ℕ) → val ≢ 0 → 0 < bits val
  bits_pos val h = go (bits val) refl
    where
      go : (n : ℕ) → bits val ≡ n → 0 < n
      go zero e = let lt : val < 2 ^ 0 = rw e at (bits-lt val) in absurd (h (omega arith))
      go (suc n) e = omega arith

  -- A number other than 0 that fits in n bits is written by `store_uint` and read back by
  -- `load_uint` of the same width.
  pub load_uint-store_uint :
      (n val : ℕ)
      → val ≢ 0
      → bits val ≤ n
      → RoundTrip libs (store_uint libs n val) (load_uint libs n) val
  load_uint-store_uint n val h hn = record {
    bits = to_bits n val;
    stores = store_uint-digits libs n val h hn;
    loads = Loads-load_uint n val (omega (arith, bits_pos val h)) hn;
  }

  Stores-store_coins_zero : Stores libs (store_coins libs 0) (to_bits 4 0)
  unfolding store_coins
  Stores-store_coins_zero = Stores-store_number libs 8 (omega arith) 4 0 (omega arith) (omega arith)

  Loads-load_coins_zero : Loads libs (load_coins libs) (to_bits 4 0) 0
  unfolding load_coins
  Loads-load_coins_zero =
      subst (λ t. Loads libs (load_coins libs) t 0) (append-nil (to_bits 4 0))
        (Loads-bind libs _ _ (to_bits 4 0) []
          (Loads-number 8 (omega arith) 4 0 (omega arith) (omega arith)) (Loads-pure libs 0))

  -- The number of bytes, and the value in as many bytes.
  coins_bits : ℕ → ℕ → List Bool
  coins_bits k val = to_bits 4 k ++ to_bits (k * 8) val

  Stores-store_coins :
      (k val : ℕ)
      → val ≢ 0
      → k ≡ (bits val + 7) / 8
      → k < 16
      → Stores libs (store_coins libs val) (coins_bits k val)
  unfolding store_coins coins_bits
  Stores-store_coins k val h e hk =
      let byte : (bits val + 7) / 8 % 256 ≡ k = omega (arith, e) in
      rw (ne→== val 0 h, byte, sym e)
        (Stores-then libs _ _ (to_bits 4 k) (to_bits (k * 8) val)
          (Stores-store_number libs 8 (omega arith) 4 k (omega arith) (omega arith))
          (store_uint-digits libs (k * 8) val h (omega (arith, e))))

  Loads-load_coins :
      (k val : ℕ)
      → k ≢ 0
      → k ≡ (bits val + 7) / 8
      → k < 16
      → Loads libs (load_coins libs) (coins_bits k val) val
  unfolding load_coins coins_bits
  Loads-load_coins k val h e hk =
      Loads-bind libs _ _ (to_bits 4 k) (to_bits (k * 8) val)
        (Loads-number 8 (omega arith) 4 k (omega arith) (omega arith))
        (rw (ne→== k 0 h) (Loads-load_uint (k * 8) val (omega arith) (omega (arith, e))))

  -- The number of bits of an amount of coins.
  unfoldable pub coins_size : ℕ → ℕ
  coins_size zero = 4
  coins_size (suc v) = 4 + (bits (suc v) + 7) / 8 * 8

  pub coins_size-le : (val : ℕ) → bits val ≤ 120 → coins_size val ≤ 124
  unfolding coins_size
  coins_size-le zero h = omega arith
  coins_size-le (suc v) h = omega (arith, h)

  length-coins_bits : (k val : ℕ) → length (coins_bits k val) ≡ 4 + k * 8
  unfolding coins_bits
  length-coins_bits k val = omega (
    arith,
    length-append (to_bits 4 k) (to_bits (k * 8) val),
    length-to_bits 4 k,
    length-to_bits (k * 8) val,
  )

  -- The way of an amount of coins, with the number of its bits.
  pub coins_trip :
      (val : ℕ)
      → bits val ≤ 120
      → (t : RoundTrip libs (store_coins libs val) (load_coins libs) val) × (length t.bits
          ≡ coins_size val)
  unfolding coins_size
  coins_trip zero h = (
    record { bits = to_bits 4 0; stores = Stores-store_coins_zero; loads = Loads-load_coins_zero },
    omega (arith, length-to_bits 4 0),
  )
  coins_trip (suc v) h =
      let nz : suc v ≢ 0 = λ e. absurd (omega (arith, e)) in
      let k = (bits (suc v) + 7) / 8 in
      (
        record {
          bits = coins_bits k (suc v);
          stores = Stores-store_coins k (suc v) nz refl (omega arith);
          loads =
              Loads-load_coins k (suc v) (λ e. absurd (omega (arith, e, bits_pos (suc v) nz))) refl
                (omega arith);
        },
        length-coins_bits k (suc v),
      )

  -- An amount of coins of at most 120 bits, 0 included, is written by `store_coins` and read back
  -- by `load_coins`.
  pub load_coins-store_coins :
      (val : ℕ) → bits val ≤ 120 → RoundTrip libs (store_coins libs val) (load_coins libs) val
  load_coins-store_coins val h = (coins_trip val h).0
