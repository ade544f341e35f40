-- ===== src/Tests/Trips.antt =====
-- Values through a builder and a parser, at concrete values.
use tonlib_rs.Prelude.{ℕ, ◌*◌, ◌≤◌, ◌≡◌, refl, List, [], ◌∷◌, true, false, length, replicate, arith}
use tonlib_rs.Prelude.Bits.{to_bits, length-to_bits, unpack}
use tonlib_rs.Prelude.Outcome.{ok, err, cell_parser_error}
use tonlib_rs.Address.{TonAddress, IsAddress}
use tonlib_rs.Builder.{CellBuilder, store_uint, store_slice}
use tonlib_rs.Builder.Build.{Packed}
use tonlib_rs.Builder.Cells.{build}
use tonlib_rs.Builder.Uint.{store_uint-digits}
use tonlib_rs.Builder.Values.{store_coins, store_address}
use tonlib_rs.Cell.{Cell}
use tonlib_rs.Cell.Ordinary.{plain_cell, plain_cell-IsPlain}
use tonlib_rs.Parser
use tonlib_rs.Parser.{CellParser, load_uint, load_bytes, load_bits}
use tonlib_rs.Parser.Loads.{Loads, Ahead}
use tonlib_rs.Parser.Values.{load_coins, load_address, load_unary_length, skip_bits}
use tonlib_rs.Trips.{RoundTrip, Loads-load_uint, load_uint-store_uint, load_coins-store_coins}
use tonlib_rs.Trips.Addresses.{load_address-store_address}
use tonlib_rs.Trips.Built.{Through, build-plain_cell, build-RoundTrip}
use tonlib_rs.Trips.Bytes.{unary, load_bytes-store_slice, load_unary_length-unary, short_loads}
use tonlib_rs.Tests.Numbers.{bits}
use tonlib_rs.Tests.Crates.{crates}

load_uint-store_uint_example : RoundTrip crates (store_uint crates 12 300) (load_uint crates 12) 300
unfolding bits
load_uint-store_uint_example =
    load_uint-store_uint crates 12 300 (λ e. absurd (omega (arith, e))) (omega arith)

load_coins-store_coins_example : RoundTrip crates (store_coins crates 5000) (load_coins crates) 5000
unfolding bits
load_coins-store_coins_example = load_coins-store_coins crates 5000 (omega arith)

-- An address of the masterchain, the workchain -1.
abbrev pub masterchain : TonAddress
masterchain = record { workchain = 4294967295; hash_part = replicate 32 7 }

pub masterchain-IsAddress : IsAddress masterchain
masterchain-IsAddress = record {
  workchain_i32 = omega arith;
  hash_bytes = omega arith;
  hash_length = refl;
}

load_address-store_address_example :
    RoundTrip crates
      (store_address crates masterchain)
      (load_address crates)
      (record { workchain = 255; hash_part = replicate 32 7 })
load_address-store_address_example =
    load_address-store_address crates masterchain masterchain-IsAddress

fits_300 : bits 300 ≤ 12
unfolding bits
fits_300 = omega arith

abbrev trip_300 : RoundTrip crates (store_uint crates 12 300) (load_uint crates 12) 300
trip_300 = record {
  bits = to_bits 12 300;
  stores = store_uint-digits crates 12 300 (λ e. absurd (omega (arith, e))) fits_300;
  loads = Loads-load_uint crates 12 300 (omega arith) fits_300;
}

build-RoundTrip_example :
    Through crates (store_uint crates 12 300) (load_uint crates 12) 300 (length (to_bits 12 300))
build-RoundTrip_example =
    build-RoundTrip crates (store_uint crates 12 300) (load_uint crates 12) 300 trip_300
      (omega (arith, length-to_bits 12 300))

-- A builder that holds three bits and a reference to the empty cell.
abbrev empty_cell : Cell
empty_cell = plain_cell crates [] 0 []

abbrev holder : CellBuilder crates
holder = record {
  bit_writer = true ∷ false ∷ true ∷ [];
  bits_to_write = 3;
  references = empty_cell ∷ [];
  is_cell_exotic = false;
}

build-plain_cell_example :
    (vec : List ℕ) × (b' : CellBuilder crates) × Packed crates holder vec
    × (build crates holder ≡ ok (plain_cell crates vec 3 (empty_cell ∷ [])) b')
build-plain_cell_example =
    build-plain_cell crates holder (true ∷ false ∷ true ∷ []) (empty_cell ∷ []) refl refl refl
      (omega arith) (omega arith) (plain_cell-IsPlain crates [] 0 [], tt)

load_bytes-store_slice_example :
    RoundTrip crates (store_slice crates (1 ∷ 255 ∷ [])) (load_bytes crates 2) (1 ∷ 255 ∷ [])
load_bytes-store_slice_example = load_bytes-store_slice crates (1 ∷ 255 ∷ []) (omega arith)

load_unary_length-unary_example :
    Loads crates (load_unary_length crates) (true ∷ true ∷ true ∷ false ∷ []) 3
unfolding unary
load_unary_length-unary_example = load_unary_length-unary crates 3

-- A parser with two bits ahead.
abbrev two_bits : CellParser crates
two_bits = Parser.new crates 2 (0x80 ∷ []) []

two_bits-Ahead : Ahead crates two_bits (true ∷ false ∷ [])
unfolding Parser.new to_bits unpack
two_bits-Ahead = record { pad = replicate 6 false; rest_eq = refl; size_eq = refl }

short_loads_example :
    (load_uint crates 3 two_bits ≡ err cell_parser_error two_bits)
    × (load_bits crates 3 two_bits ≡ err cell_parser_error two_bits)
    × (skip_bits crates 3 two_bits ≡ err cell_parser_error two_bits)
    × ((k : ℕ) → 3 ≤ k * 8 → load_bytes crates k two_bits ≡ err cell_parser_error two_bits)
short_loads_example = short_loads crates 3 two_bits (true ∷ false ∷ []) two_bits-Ahead (omega arith)
