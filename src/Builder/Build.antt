-- ===== src/Builder/Build.antt =====
-- `build` of src/cell/builder.rs: the cell that it makes out of the bits written.
use tonlib_rs.Prelude.{
  ℕ, zero, suc, ◌+◌, ◌-◌, ◌*◌, ◌/◌, ◌%◌, ◌≤◌, ◌<◌, ◌≡◌, refl, sym, ap, ◌∙◌, List, [], ◌∷◌, ◌++◌,
  append-nil, append_assoc, Bool, true, false, length, length-append, length-replicate, replicate,
  All, arith, lt→ltb, ge→ltb, some,
}
use tonlib_rs.Prelude.Bits.{IsByte, unpack, length-unpack}
use tonlib_rs.Prelude.Outcome.{ok, err, cell_builder_error, lift}
use tonlib_rs.Libs.{Libs}
use tonlib_rs.Cell.New
use tonlib_rs.Builder.{CellBuilder}
use tonlib_rs.Builder.Cells.{align, build}

module _ (libs : Libs) where
  open libs.bit_writer use {
    Writer, written, byte_aligned, byte_aligned_lem, write_bit_lem, writer, writer_aligned,
  }

  -- `k` is the distance to the next byte boundary.
  align_lem :
      (rounds k t : ℕ) (w : Writer)
      → k < 8
      → k < rounds
      → (length (written w) + k) % 8 ≡ 0
      → (w' : Writer) × (align libs rounds t w ≡ ok (t + k) w')
        × (written w' ≡ written w ++ replicate k false)
  unfolding align
  align_lem zero k t w h8 hr e = elim hr [ ]
  align_lem (suc rounds) zero t w h8 hr e =
      let aligned : byte_aligned w ≡ true = byte_aligned_lem w ∙ ground (arith, e) in
      let t0 : t + 0 ≡ t = omega arith in
      (w, rw (aligned, align) (rw t0 refl), sym (append-nil (written w)))
  align_lem (suc rounds) (suc k) t w h8 hr e =
      let open' : byte_aligned w ≡ false = byte_aligned_lem w ∙ ground (arith, e) in
      let (w1, e1, v1) = write_bit_lem false w in
      let len : length (written w1) ≡ length (written w) + 1 =
        ap length v1 ∙ omega (arith, length-append (written w) (false ∷ [])) in
      let (w2, e2, v2) =
        align_lem rounds k (t + 1) w1 (omega arith) (omega arith) (omega (arith, len)) in
      let te : t + 1 + k ≡ t + suc k = omega arith in
      (
        w2,
        rw (open', align) (rw (e1) (rw te at e2)),
        v2 ∙ rw v1 (append_assoc (written w) (false ∷ []) (replicate k false)),
      )

  -- The bytes of a built cell: what was written, with zeros up to the next byte.
  pub record Packed (b : CellBuilder libs) (vec : List ℕ) : Type 0 where
    pub zeros : ℕ
    pub bytes : All IsByte vec
    pub unpack_eq : unpack vec ≡ written b.bit_writer ++ replicate zeros false
    pub zeros-lt : zeros < 8
    pub length_eq : length vec ≡ (length (written b.bit_writer) + 7) / 8

  align_writer :
      (w : Writer)
      → (z : ℕ) × (w' : Writer) × (align libs 8 0 w ≡ ok (0 + z) w')
        × (written w' ≡ written w ++ replicate z false)
        × (z < 8)
        × ((length (written w) + z) % 8 ≡ 0)
  align_writer w =
      let z = (length (written w) + 7) / 8 * 8 - length (written w) in
      let small : z < 8 = omega arith in
      let full : (length (written w) + z) % 8 ≡ 0 = omega arith in
      let (w', e, v) = align_lem 8 z 0 w small small full in (z, w', e, v, small, full)

  length-padded :
      (z : ℕ) (xs ys : List Bool) → ys ≡ xs ++ replicate z false → length ys ≡ length xs + z
  length-padded z xs ys e =
      omega (arith, ap length e, length-append xs (replicate z false), length-replicate z false)

  pack :
      (b : CellBuilder libs)
      → (z : ℕ) × (vec : List ℕ) × (w : Writer) × Packed b vec
        × (align libs 8 0 b.bit_writer ≡ ok (0 + z) w)
        × (writer w ≡ some vec)
        × (length vec * 8 - (0 + z) ≡ length (written b.bit_writer))
  pack b =
      let (z, w, e1, v, small, full) = align_writer b.bit_writer in
      let len = length-padded z (written b.bit_writer) (written w) v in
      let (vec, e2, u, hb) = writer_aligned w (omega (arith, len, full)) in
      let vlen : 8 * length vec ≡ length (written b.bit_writer) + z =
        omega (arith, length-unpack vec, ap (λ (t : List Bool). length t) u, len) in
      (
        z,
        vec,
        w,
        record {
          zeros = z;
          bytes = hb;
          unpack_eq = u ∙ v;
          zeros-lt = small;
          length_eq = omega (arith, vlen, small);
        },
        e1,
        e2,
        omega (arith, vlen),
      )

  -- For at most 1023 bits and four references, `build` calls `Cell::new` with the bits written,
  -- packed in the least number of bytes with fewer than eight zeros behind them, their exact
  -- number and the references.
  pub build_lem :
      (b : CellBuilder libs)
      → length (written b.bit_writer) ≤ 1023
      → length b.references ≤ 4
      → (vec : List ℕ) × (w : Writer) × Packed b vec
        × (build libs b
            ≡ lift
                (New.new libs vec (length (written b.bit_writer)) b.references b.is_cell_exotic)
                (record b { bit_writer = w }))
  unfolding build
  build_lem b hn hr =
      let (z, vec, w, packed, e1, e2, size) = pack b in
      let short = ge→ltb 1023 (length (written b.bit_writer)) hn in
      (vec, w, packed, rw e1 (rw e2 (rw size (rw (short, ge→ltb 4 (length b.references) hr) refl))))

  -- More than 1023 bits are refused.
  pub build_too_long :
      (b : CellBuilder libs)
      → 1023 < length (written b.bit_writer)
      → (b' : CellBuilder libs) × (build libs b ≡ err cell_builder_error b')
  unfolding build
  build_too_long b hn =
      let (z, vec, w, packed, e1, e2, size) = pack b in
      let long = lt→ltb 1023 (length (written b.bit_writer)) hn in
      (record b { bit_writer = w }, rw e1 (rw e2 (rw size (rw long refl))))
