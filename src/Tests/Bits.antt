-- ===== src/Tests/Bits.antt =====
-- Numbers written to builders and read from parsers, at concrete values.
use tonlib_rs.Prelude.{
  ℕ, ◌≡◌, refl, List, [], ◌∷◌, Bool, true, false, if◌then◌else◌, ltb, length, replicate, arith,
}
use tonlib_rs.Prelude.Bits.{to_bits, from_bits, unpack}
use tonlib_rs.Prelude.Outcome.{err, panic, cell_builder_error, cell_parser_error}
use tonlib_rs.Builder.{CellBuilder, store_uint}
use tonlib_rs.Builder.Stores.{Stores}
use tonlib_rs.Builder.Uint.{store_uint-digits, store_uint-zero}
use tonlib_rs.Parser.{CellParser, load_uint}
use tonlib_rs.Parser as P
use tonlib_rs.Parser.Loads.{Loads, Ahead}
use tonlib_rs.Parser.Uint.{load_uint_value, load_uint-zero}
use tonlib_rs.Tests.Crates.{crates}
use tonlib_rs.Tests.Numbers.{bits}
use tonlib_rs.Builder.Build.{build_lem, build_too_long, Packed}
use tonlib_rs.Builder.Cells.{build}
use tonlib_rs.Prelude.Outcome.{lift}
use tonlib_rs.Cell.New

store_uint-digits_example : Stores crates (store_uint crates 12 300) (to_bits 12 300)
unfolding bits
store_uint-digits_example =
    store_uint-digits crates 12 300 (λ e. absurd (omega (arith, e))) (omega arith)

store_uint-zero_example : Stores crates (store_uint crates 4 0) (replicate 12 false)
store_uint-zero_example = store_uint-zero crates 4

load_uint_value_example :
    Loads crates (load_uint crates 5) (true ∷ false ∷ true ∷ true ∷ false ∷ []) 22
unfolding from_bits
load_uint_value_example =
    load_uint_value crates 5 (true ∷ false ∷ true ∷ true ∷ false ∷ []) refl (omega arith)

-- Two bits of a parser that hold the number 2.
abbrev two_bits : CellParser crates
two_bits = P.new crates 2 (0x80 ∷ []) []

two_bits-Ahead : Ahead crates two_bits (true ∷ false ∷ [])
unfolding P.new to_bits unpack
two_bits-Ahead = record { pad = replicate 6 false; rest_eq = refl; size_eq = refl }

load_uint-zero_example :
    load_uint crates 0 two_bits
    ≡ (if ltb (length (true ∷ false ∷ [])) 32 then err cell_parser_error two_bits else panic)
load_uint-zero_example = load_uint-zero crates two_bits (true ∷ false ∷ []) two_bits-Ahead

-- A builder that holds three bits.
abbrev three_bits : CellBuilder crates
three_bits = record {
  bit_writer = true ∷ false ∷ true ∷ [];
  bits_to_write = 3;
  references = [];
  is_cell_exotic = false;
}

-- A builder that holds 1024 bits, one more than a cell has room for.
abbrev overfull : CellBuilder crates
overfull = record {
  bit_writer = replicate 1024 true;
  bits_to_write = 1024;
  references = [];
  is_cell_exotic = false;
}

build_lem_example :
    (vec : List ℕ) × (w : List Bool) × Packed crates three_bits vec
    × (build crates three_bits
        ≡ lift (New.new crates vec 3 [] false) (record three_bits { bit_writer = w }))
build_lem_example = build_lem crates three_bits (omega arith) (omega arith)

build_too_long_example :
    (b' : CellBuilder crates) × (build crates overfull ≡ err cell_builder_error b')
build_too_long_example = build_too_long crates overfull (omega arith)
