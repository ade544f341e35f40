-- ===== src/Trips/Bytes.antt =====
-- Byte slices and unary lengths that go through a builder and a parser.
use tonlib_rs.Prelude.{
  ℕ, zero, suc, ◌+◌, ◌*◌, ◌≤◌, ◌<◌, ◌≡◌, refl, subst, List, [], ◌∷◌, ◌++◌, Bool, true, false,
  length, length-append, All, arith,
}
use tonlib_rs.Prelude.Bits.{IsByte, unpack, length-unpack}
use tonlib_rs.Prelude.Outcome.{err, cell_parser_error}
use tonlib_rs.Libs.{Libs}
use tonlib_rs.Builder.{store_slice}
use tonlib_rs.Builder.Stores.{Stores-store_slice}
use tonlib_rs.Parser.{
  CellParser, remaining_bits, load_bytes, load_uint, load_bits, load_bits_to_slice,
}
use tonlib_rs.Parser.Values.{load_unary_length, unary_loop, skip_bits}
use tonlib_rs.Parser.Loads.{
  Loads, Loads-ensure, Loads-read_bytes, Loads-bind, Loads-pure, Loads-load_bit, Ahead,
  remaining_bits-Ahead, ensure_enough_bits_short,
}
use tonlib_rs.Trips.{RoundTrip}

module _ (libs : Libs) where
  pub Loads-load_bytes :
      (bs : List ℕ) → All IsByte bs → Loads libs (load_bytes libs (length bs)) (unpack bs) bs
  unfolding load_bytes
  Loads-load_bytes bs h =
      Loads-ensure libs (length bs * 8) _ (unpack bs) (omega (arith, length-unpack bs))
        (Loads-read_bytes libs (length bs) bs h refl)

  -- Bytes written by `store_slice` are read back by `load_bytes` of as many.
  pub load_bytes-store_slice :
      (bs : List ℕ)
      → All IsByte bs
      → RoundTrip libs (store_slice libs bs) (load_bytes libs (length bs)) bs
  load_bytes-store_slice bs h = record {
    bits = unpack bs;
    stores = Stores-store_slice libs bs h;
    loads = Loads-load_bytes bs h;
  }

  -- `n` ones and a zero.
  unfoldable pub unary : ℕ → List Bool
  unary zero = false ∷ []
  unary (suc n) = true ∷ unary n

  length-unary : (n : ℕ) → length (unary n) ≡ n + 1
  unfolding unary
  length-unary zero = refl
  length-unary (suc n) = omega (arith, length-unary n)

  Loads-unary_loop :
      (rounds n res : ℕ) → n < rounds → Loads libs (unary_loop libs rounds res) (unary n) (res + n)
  unfolding unary_loop unary
  Loads-unary_loop zero n res h = elim h [ ]
  Loads-unary_loop (suc rounds) zero res h =
      let e : res + 0 ≡ res = omega arith in
      rw e (Loads-bind libs _ _ (false ∷ []) [] (Loads-load_bit libs false) (Loads-pure libs res))
  Loads-unary_loop (suc rounds) (suc n) res h =
      let e : res + suc n ≡ res + 1 + n = omega arith in
      rw e (
        Loads-bind libs _ _ (true ∷ []) (unary n) (Loads-load_bit libs true)
          (Loads-unary_loop rounds n (res + 1) (omega arith)))

  Loads-unary_from_zero :
      (rounds n : ℕ) → n < rounds → Loads libs (unary_loop libs rounds 0) (unary n) n
  Loads-unary_from_zero rounds n h =
      subst (λ t. Loads libs (unary_loop libs rounds 0) (unary n) t) (omega arith)
        (Loads-unary_loop rounds n 0 h)

  -- `load_unary_length` takes n ones and a zero and returns n, and its fuel is enough.
  pub load_unary_length-unary : (n : ℕ) → Loads libs (load_unary_length libs) (unary n) n
  unfolding load_unary_length
  load_unary_length-unary n = record {
    run = λ p ys h.
        let size = remaining_bits-Ahead libs p (unary n ++ ys) h in
        (Loads-unary_from_zero (suc (remaining_bits libs p)) n
            (omega (arith, size, length-append (unary n) ys, length-unary n))).run
          p ys h;
  }

  -- With fewer bits ahead than they ask for, `load_uint`, `load_bytes`, `load_bits` and `skip_bits`
  -- are errors that leave the parser as it was.
  pub short_loads :
      (n : ℕ) (p : CellParser libs) (bs : List Bool)
      → Ahead libs p bs
      → length bs < n
      → (load_uint libs n p ≡ err cell_parser_error p)
        × (load_bits libs n p ≡ err cell_parser_error p)
        × (skip_bits libs n p ≡ err cell_parser_error p)
        × ((k : ℕ) → n ≤ k * 8 → load_bytes libs k p ≡ err cell_parser_error p)
  unfolding load_uint load_bytes load_bits load_bits_to_slice skip_bits
  short_loads n p bs h hs =
      let short = ensure_enough_bits_short libs n p bs h hs in
      (
        rw short refl,
        rw short refl,
        rw short refl,
        λ k hk. rw (ensure_enough_bits_short libs (k * 8) p bs h (omega arith)) refl,
      )
