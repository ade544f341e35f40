-- ===== src/RawBoc/Header.antt =====
-- The header byte of a serialized bag of cells.
use tonlib_rs.Prelude.{
  ℕ, zero, suc, ◌+◌, ◌/◌, ◌%◌, ◌^◌, ◌≤◌, ◌<◌, ◌≡◌, refl, subst, ◌∙◌, [], ◌∷◌, ◌++◌, Bool, true,
  false, ◌==◌, if◌then◌else◌, arith, bit_and,
}
use tonlib_rs.Prelude.Bits.{to_bits, from_bits, from_bits-to_bits, unpack}
use tonlib_rs.Prelude.Words.{bit_and_mask}
use tonlib_rs.Prelude.Outcome.{boc_serialization_error, boc_deserialization_error, io}
use tonlib_rs.Libs.{Libs}
use tonlib_rs.Libs.Writes.{Puts, Puts-then, Puts-write, Puts-write_bit}
use tonlib_rs.Libs.Reads.{Gets, Gets-read}
use tonlib_rs.RawBoc.{write_flags}
use tonlib_rs.RawBoc.Codec.{Codec}

-- The header byte: the flags and the size of references.
abbrev pub header : Bool → ℕ → ℕ
header has_crc32 n = (if has_crc32 then 64 else 0) + n

header_bits :
    (has_crc32 : Bool) (n : ℕ)
    → n ≤ 4
    → (false ∷ has_crc32 ∷ false ∷ []) ++ (to_bits 2 0 ++ to_bits 3 n)
      ≡ to_bits 8 (header has_crc32 n)
unfolding to_bits
header_bits true zero h = refl
header_bits true (suc zero) h = refl
header_bits true (suc (suc zero)) h = refl
header_bits true (suc (suc (suc zero))) h = refl
header_bits true (suc (suc (suc (suc zero)))) h = refl
header_bits true (suc (suc (suc (suc (suc n))))) h = absurd (omega arith)
header_bits false zero h = refl
header_bits false (suc zero) h = refl
header_bits false (suc (suc zero)) h = refl
header_bits false (suc (suc (suc zero))) h = refl
header_bits false (suc (suc (suc (suc zero)))) h = refl
header_bits false (suc (suc (suc (suc (suc n))))) h = absurd (omega arith)

pub header_fields :
    (has_crc32 : Bool) (n : ℕ)
    → n ≤ 4
    → (header has_crc32 n < 256)
      × (bit_and (header has_crc32 n) 7 ≡ n)
      × ((header has_crc32 n / 2 ^ 7 % 2 == 1) ≡ false)
      × ((header has_crc32 n / 2 ^ 6 % 2 == 1) ≡ has_crc32)
header_fields true n h =
    (omega arith, bit_and_mask 3 (64 + n) ∙ omega arith, ground arith, ground arith)
header_fields false n h =
    (omega arith, bit_and_mask 3 (0 + n) ∙ omega arith, ground arith, ground arith)

one_byte_value : (v : ℕ) → v < 256 → from_bits (unpack (v ∷ [])) ≡ v
unfolding unpack
one_byte_value v h = from_bits-to_bits 8 v h

module _ (libs : Libs) where
  open libs.bit_writer use {
    Writer, written, writer, byte_align, byte_align_aligned, write_bytes, write_bytes_lem,
    written-endian,
  }

  Puts-flags :
      (has_crc32 : Bool) (n : ℕ)
      → n ≤ 4
      → Puts libs.bit_writer (write_flags libs has_crc32 n) (to_bits 8 (header has_crc32 n))
  unfolding write_flags
  Puts-flags has_crc32 n h =
      subst (λ t. Puts libs.bit_writer (write_flags libs has_crc32 n) t) (header_bits has_crc32 n h)
        (Puts-then libs.bit_writer _ _ (false ∷ []) _
          (Puts-write_bit libs.bit_writer boc_serialization_error false)
          (Puts-then libs.bit_writer _ _ (has_crc32 ∷ []) _
            (Puts-write_bit libs.bit_writer boc_serialization_error has_crc32)
            (Puts-then libs.bit_writer _ _ (false ∷ []) _
              (Puts-write_bit libs.bit_writer boc_serialization_error false)
              (Puts-then libs.bit_writer _ _ (to_bits 2 0) (to_bits 3 n)
                (Puts-write libs.bit_writer boc_serialization_error 8 2 0 (omega arith)
                  (omega arith))
                (Puts-write libs.bit_writer boc_serialization_error 32 3 n (omega arith)
                  (omega arith))))))

  pub Codec-flags :
      (has_crc32 : Bool) (n : ℕ)
      → n ≤ 4
      → Codec libs
          (write_flags libs has_crc32 n)
          (io boc_deserialization_error (libs.byte_reader.read 1))
          (header has_crc32 n)
  Codec-flags has_crc32 n h =
      let fits = (header_fields has_crc32 n h).0 in
      record {
        bytes = header has_crc32 n ∷ [];
        are_bytes = (fits, tt);
        puts = unfold unpack in Puts-flags has_crc32 n h;
        gets =
            subst
              (λ t.
                Gets libs.byte_reader (io boc_deserialization_error (libs.byte_reader.read 1))
                  (header has_crc32 n ∷ []) t)
              (one_byte_value (header has_crc32 n) fits)
              (Gets-read libs.byte_reader boc_deserialization_error 1 (header has_crc32 n ∷ [])
                (fits, tt) refl);
      }
