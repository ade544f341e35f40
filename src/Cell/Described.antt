-- ===== src/Cell/Described.antt =====
-- The byte string that `get_repr_for_data` of src/cell.rs makes, described without a writer.
use tonlib_rs.Prelude.{
  ℕ, ◌+◌, ◌/◌, ◌%◌, ◌^◌, ◌<◌, ◌≡◌, refl, ap, ◌∙◌, List, [], ◌∷◌, ◌++◌, Bool, length, All,
  All-append, arith,
}
use tonlib_rs.Prelude.Bits.{IsByte, to_bits, unpack, unpack-append, length-unpack}
use tonlib_rs.Prelude.Outcome.{cell_parser_error, Result}
use tonlib_rs.Libs.{Libs}
use tonlib_rs.Libs.Writes.{Puts, Puts-pure, Puts-then, Puts-write, Puts-write_bytes, writer-unpack}
use tonlib_rs.LevelMask.{LevelMask, apply}
use tonlib_rs.Cell.{Cell, CellType}
use tonlib_rs.CellType.{child_depth, child_hash}
use tonlib_rs.Cell.Repr.{
  write_ref_depths, write_ref_hashes, write_repr, get_repr_for_data, get_refs_descriptor,
  get_bits_descriptor,
}
use tonlib_rs.Cell.Data.{data_repr, data_repr-IsByte, Puts-write_data}

-- What a reference gives to the cell that holds it: a `u16` depth and a hash of bytes.
pub record IsChild (t : CellType) (level : ℕ) (c : Cell) : Type 0 where
  pub depth_u16 : child_depth t c level < 2 ^ 16
  pub hash_bytes : All IsByte (child_hash t c level)

-- The depths of the references, two bytes each, and their hashes.
unfoldable pub depth_bytes : CellType → ℕ → List Cell → List ℕ
depth_bytes t level [] = []
depth_bytes t level (c ∷ cs) =
    child_depth t c level / 256 ∷ child_depth t c level % 256 ∷ depth_bytes t level cs

unfoldable pub hash_bytes : CellType → ℕ → List Cell → List ℕ
hash_bytes t level [] = []
hash_bytes t level (c ∷ cs) = child_hash t c level ++ hash_bytes t level cs

-- Two descriptors, the data, the depths and the hashes.
unfoldable pub repr : List ℕ × ℕ → List ℕ × ℕ → List Cell → LevelMask → ℕ → CellType → List ℕ
unfolding depth_bytes hash_bytes
repr (original, original_len) (current, current_len) refs l level t =
    get_refs_descriptor t refs (apply l level).mask
    ∷ get_bits_descriptor original original_len
    ∷ (data_repr current current_len ++ (depth_bytes t level refs ++ hash_bytes t level refs))

depth_bytes-IsByte :
    (t : CellType) (level : ℕ) (cs : List Cell)
    → All (IsChild t level) cs
    → All IsByte (depth_bytes t level cs)
unfolding depth_bytes
depth_bytes-IsByte t level [] h = tt
depth_bytes-IsByte t level (c ∷ cs) h =
    let d = h.0.depth_u16 in (omega (arith, d), (omega arith, depth_bytes-IsByte t level cs h.1))

hash_bytes-IsByte :
    (t : CellType) (level : ℕ) (cs : List Cell)
    → All (IsChild t level) cs
    → All IsByte (hash_bytes t level cs)
unfolding hash_bytes
hash_bytes-IsByte t level [] h = tt
hash_bytes-IsByte t level (c ∷ cs) h =
    All-append IsByte (child_hash t c level) (hash_bytes t level cs) h.0.hash_bytes
      (hash_bytes-IsByte t level cs h.1)

refs_descriptor-IsByte :
    (t : CellType) (refs : List Cell) (m : ℕ) → IsByte (get_refs_descriptor t refs m)
unfolding get_refs_descriptor
refs_descriptor-IsByte t refs m = omega arith

bits_descriptor-IsByte : (bs : List ℕ) (n : ℕ) → IsByte (get_bits_descriptor bs n)
unfolding get_bits_descriptor
bits_descriptor-IsByte bs n = ground arith

pub repr-IsByte :
    (original : List ℕ) (n : ℕ) (current : List ℕ) (m : ℕ) (refs : List Cell) (l : LevelMask)
    (level : ℕ) (t : CellType)
    → All IsByte current
    → All (IsChild t level) refs
    → All IsByte (repr (original, n) (current, m) refs l level t)
unfolding repr
repr-IsByte original n current m refs l level t hd hr = (
  refs_descriptor-IsByte t refs _,
  (
    bits_descriptor-IsByte original n,
    All-append IsByte (data_repr current m) _ (data_repr-IsByte current m hd) (
        All-append IsByte (depth_bytes t level refs) (hash_bytes t level refs)
          (depth_bytes-IsByte t level refs hr) (hash_bytes-IsByte t level refs hr)),
  ),
)

module _ (libs : Libs) where
  Puts-depths :
      (t : CellType) (level : ℕ) (cs : List Cell)
      → All (IsChild t level) cs
      → Puts libs.bit_writer (write_ref_depths libs cs t level) (unpack (depth_bytes t level cs))
  unfolding write_ref_depths depth_bytes unpack
  Puts-depths t level [] h = Puts-pure libs.bit_writer
  Puts-depths t level (c ∷ cs) h =
      let d = h.0.depth_u16 in
      Puts-then libs.bit_writer _ _ (to_bits 8 (child_depth t c level / 256)) _
        (Puts-write libs.bit_writer cell_parser_error 16 8 _ (omega arith) (omega (arith, d)))
        (Puts-then libs.bit_writer _ _ (to_bits 8 (child_depth t c level % 256)) _
          (Puts-write libs.bit_writer cell_parser_error 16 8 _ (omega arith) (omega arith))
          (Puts-depths t level cs h.1))

  Puts-hashes :
      (t : CellType) (level : ℕ) (cs : List Cell)
      → All (IsChild t level) cs
      → Puts libs.bit_writer (write_ref_hashes libs cs t level) (unpack (hash_bytes t level cs))
  unfolding write_ref_hashes hash_bytes
  Puts-hashes t level [] h = unfold unpack in Puts-pure libs.bit_writer
  Puts-hashes t level (c ∷ cs) h =
      rw (unpack-append (child_hash t c level) (hash_bytes t level cs)) (
        Puts-then libs.bit_writer _ _ (unpack (child_hash t c level))
          (unpack (hash_bytes t level cs))
          (Puts-write_bytes libs.bit_writer cell_parser_error (child_hash t c level) h.0.hash_bytes)
          (Puts-hashes t level cs h.1))

  tail_bits :
      (xs ys zs : List ℕ) → unpack (xs ++ (ys ++ zs)) ≡ unpack xs ++ (unpack ys ++ unpack zs)
  tail_bits xs ys zs = rw (unpack-append xs (ys ++ zs), unpack-append ys zs) refl

  Puts-repr :
      (original : List ℕ) (n : ℕ) (current : List ℕ) (m : ℕ) (refs : List Cell) (l : LevelMask)
      (level : ℕ) (t : CellType)
      → All IsByte current
      → length current ≡ (m + 7) / 8
      → All (IsChild t level) refs
      → Puts libs.bit_writer
          (write_repr libs (original, n) (current, m) refs l level t)
          (unpack (repr (original, n) (current, m) refs l level t))
  unfolding write_repr repr unpack
  Puts-repr original n current m refs l level t hd hl hr =
      rw (tail_bits (data_repr current m) (depth_bytes t level refs) (hash_bytes t level refs)) (
        Puts-then libs.bit_writer _ _ (to_bits 8 _) _
          (Puts-write libs.bit_writer cell_parser_error 8 8 _ (omega arith)
            (refs_descriptor-IsByte t refs _))
          (Puts-then libs.bit_writer _ _ (to_bits 8 _) _
            (Puts-write libs.bit_writer cell_parser_error 8 8 _ (omega arith)
              (bits_descriptor-IsByte original n))
            (Puts-then libs.bit_writer _ _ (unpack (data_repr current m)) _
              (Puts-write_data libs current m hd hl)
              (Puts-then libs.bit_writer _ _ (unpack (depth_bytes t level refs)) _
                (Puts-depths t level refs hr) (Puts-hashes t level refs hr)))))

  whole : (bs : List ℕ) (xs : List Bool) → xs ≡ unpack bs → length xs % 8 ≡ 0
  whole bs xs e = omega (arith, ap (λ (t : List Bool). length t) e, length-unpack bs)

  -- `get_repr_for_data` returns the descriptors, the data with its completion tag, and the depths
  -- and the hashes of the references, for data of just the bytes that its bits need and
  -- references with `u16` depths and hashes of bytes.
  pub get_repr_for_data_lem :
      (original : List ℕ) (n : ℕ) (current : List ℕ) (m : ℕ) (refs : List Cell) (l : LevelMask)
      (level : ℕ) (t : CellType)
      → All IsByte current
      → length current ≡ (m + 7) / 8
      → All (IsChild t level) refs
      → get_repr_for_data libs (original, n) (current, m) refs l level t
        ≡ Result.ok (repr (original, n) (current, m) refs l level t)
  unfolding get_repr_for_data
  get_repr_for_data_lem original n current m refs l level t hd hl hr =
      let out = repr (original, n) (current, m) refs l level t in
      let (w, e, v) =
        (Puts-repr original n current m refs l level t hd hl hr).run libs.bit_writer.endian in
      let held : libs.bit_writer.written w ≡ unpack out =
        v ∙ rw libs.bit_writer.written-endian refl in
      let given =
        writer-unpack libs.bit_writer w out (repr-IsByte original n current m refs l level t hd hr)
          held (whole out _ held) in
      rw e (rw given refl)
