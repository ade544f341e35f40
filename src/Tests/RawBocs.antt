-- ===== src/Tests/RawBocs.antt =====
-- A bag of two cells, serialized and read back.
use tonlib_rs.Prelude.{
  ℕ, ◌≡◌, refl, ap, List, [], ◌∷◌, ◌++◌, true, false, length, length-append, arith,
}
use tonlib_rs.Prelude.Outcome.{Result}
use tonlib_rs.RawBoc.{RawCell, RawBagOfCells, serialize, num_bytes}
use tonlib_rs.RawBoc.Parse.{parse}
use tonlib_rs.RawBoc.Cells.{IsRawCell}
use tonlib_rs.RawBoc.RoundTrip.{IsRawBoc, parse-serialize}
use tonlib_rs.Prelude.Bits.{to_bits, unpack, from_bits}
use tonlib_rs.Tests.Streams.{pack}
use tonlib_rs.Tests.Crates.{crates}

-- Sixteen bits and a reference.
abbrev parent : RawCell
parent = record {
  data_bytes = 0xab ∷ 0xcd ∷ [];
  bit_len = 16;
  references = 1 ∷ [];
  is_exotic = false;
  level_mask = 0;
}

-- Four bits, so the serialized byte carries a tag.
abbrev child : RawCell
child = record {
  data_bytes = 0xa0 ∷ [];
  bit_len = 4;
  references = [];
  is_exotic = true;
  level_mask = 1;
}

abbrev bag : RawBagOfCells
bag = record { cells = parent ∷ child ∷ []; roots = 0 ∷ [] }

pub only_byte : (x b : ℕ) (front : List ℕ) → x ∷ [] ≡ front ++ (b ∷ []) → b ≡ x
only_byte x b [] e = cc
only_byte x b (y ∷ ys) e =
    absurd (omega (arith, ap (λ (t : List ℕ). length t) e, length-append ys (b ∷ [])))

parent-IsRawCell : IsRawCell 1 parent
parent-IsRawCell = record {
  bytes = omega arith;
  data_length = omega arith;
  bits_bound = omega arith;
  padding = λ front b nz e. absurd (nz refl);
  references_bound = omega arith;
  references_fit = omega arith;
  mask_bound = omega arith;
}

child-IsRawCell : IsRawCell 1 child
child-IsRawCell = record {
  bytes = omega arith;
  data_length = omega arith;
  bits_bound = omega arith;
  padding = λ front b nz e. let p = only_byte 0xa0 b front e in rw p refl;
  references_bound = omega arith;
  references_fit = tt;
  mask_bound = omega arith;
}

bag-IsRawBoc : IsRawBoc bag
unfolding num_bytes
bag-IsRawBoc = record {
  cell_count = omega arith;
  root_count = omega arith;
  roots_fit = omega arith;
  cells_proper = (parent-IsRawCell, (child-IsRawCell, tt));
}

-- The bytes of the bag without a checksum.
bag_bytes :
    serialize crates bag false
    ≡ Result.ok (
        0xb5 ∷ 0xee ∷ 0x9c ∷ 0x72 ∷ 0x01 ∷ 0x01 ∷ 0x02 ∷ 0x01 ∷ 0x00 ∷ 0x08 ∷ 0x00 ∷ 0x01 ∷ 0x04
        ∷ 0xab ∷ 0xcd ∷ 0x01 ∷ 0x28 ∷ 0x01 ∷ 0xa8 ∷ [])
unfolding serialize to_bits unpack pack from_bits
bag_bytes = refl

parse-serialize_example :
    (bytes : List ℕ) × (serialize crates bag true ≡ Result.ok bytes)
    × (parse crates bytes ≡ Result.ok bag)
parse-serialize_example = parse-serialize crates bag true bag-IsRawBoc
