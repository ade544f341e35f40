-- ===== src/RawBoc/Ends.antt =====
-- The checksum at the end of a serialized bag of cells: it covers the bytes before it.
use tonlib_rs.Prelude.{
  ℕ, ◌%◌, ◌≡◌, refl, sym, ap, ◌∙◌, List, [], ◌++◌, append-nil, Bool, true, false, length, All,
  arith,
}
use tonlib_rs.Prelude.Bits.{IsByte, unpack, unpack-append, length-unpack}
use tonlib_rs.Prelude.Outcome.{boc_serialization_error, boc_deserialization_error, ok, ◌>>◌, io}
use tonlib_rs.Libs.{Libs}
use tonlib_rs.Libs.Writes.{Puts, writer-unpack}
use tonlib_rs.Libs.Reads.{Gets, Gets-pure, Gets-read}
use tonlib_rs.RawBoc.{Put, write_crc, to_le_bytes}
use tonlib_rs.RawBoc.Parse.{read_crc}

module _ (libs : Libs) where
  open libs.bit_writer use {Writer, written, byte_align, byte_align_aligned, write_bytes_lem}

  -- A call that starts behind the bytes `pre` and ends behind the bytes `out`.
  pub record Ends (m : Put libs) (pre out : List ℕ) : Type 0 where
    pub run :
        (w : Writer)
        → written w ≡ unpack pre
        → (w' : Writer) × (m w ≡ ok tt w') × (written w' ≡ unpack out)

  pub Ends-then :
      (m k : Put libs) (pre b out : List ℕ)
      → Puts libs.bit_writer m (unpack b)
      → Ends k (pre ++ b) out
      → Ends (m >> k) pre out
  Ends-then m k pre b out hm hk = record {
    run = λ w e.
        let (w1, e1, v1) = hm.run w in
        let (w2, e2, v2) = hk.run w1 (v1 ∙ rw e (sym (unpack-append pre b))) in (w2, rw e1 e2, v2);
  }

  le_bytes-IsByte : (v : ℕ) → All IsByte (to_le_bytes v)
  unfolding to_le_bytes
  le_bytes-IsByte v = (omega arith, (omega arith, (omega arith, (omega arith, tt))))

  pub whole_bytes : (bs : List ℕ) (w : Writer) → written w ≡ unpack bs → length (written w) % 8 ≡ 0
  whole_bytes bs w e = omega (arith, ap (λ (t : List Bool). length t) e, length-unpack bs)

  -- The bytes of the checksum.
  abbrev pub crc_bytes : Bool → List ℕ → List ℕ
  crc_bytes true pre = to_le_bytes (libs.digests.crc32_iscsi pre)
  crc_bytes false pre = []

  pub crc_bytes-IsByte : (has_crc32 : Bool) (pre : List ℕ) → All IsByte (crc_bytes has_crc32 pre)
  crc_bytes-IsByte true pre = le_bytes-IsByte (libs.digests.crc32_iscsi pre)
  crc_bytes-IsByte false pre = tt

  Ends-align : (pre : List ℕ) → Ends (io boc_serialization_error byte_align) pre pre
  Ends-align pre = record {
    run = λ w e.
        let (w', e', v) = byte_align_aligned w (whole_bytes pre w e) in (w', rw e' refl, v ∙ e);
  }

  pub Ends-crc :
      (has_crc32 : Bool) (pre : List ℕ)
      → All IsByte pre
      → Ends
          (write_crc libs has_crc32 >> io boc_serialization_error byte_align)
          pre
          (pre ++ crc_bytes has_crc32 pre)
  unfolding write_crc
  Ends-crc false pre hb = rw append-nil (Ends-align pre)
  Ends-crc true pre hb = record {
    run = λ w e.
        let given = writer-unpack libs.bit_writer w pre hb e (whole_bytes pre w e) in
        let (w1, e1, v1) = write_bytes_lem (crc_bytes true pre) w (crc_bytes-IsByte true pre) in
        let (w2, e2, v2) =
          (Ends-align (pre ++ crc_bytes true pre)).run w1
            (v1 ∙ rw e (sym (unpack-append pre (crc_bytes true pre)))) in
        (w2, rw given (rw e1 e2), v2);
  }

  -- The reader takes the checksum and drops it.
  pub Gets-crc :
      (has_crc32 : Bool) (pre : List ℕ)
      → (v : ℕ) × Gets libs.byte_reader (read_crc libs has_crc32) (crc_bytes has_crc32 pre) v
  unfolding read_crc
  Gets-crc true pre = (
    _,
    Gets-read libs.byte_reader boc_deserialization_error 4 (crc_bytes true pre)
        (crc_bytes-IsByte true pre) (unfold to_le_bytes in refl),
  )
  Gets-crc false pre = (0, Gets-pure libs.byte_reader 0)
