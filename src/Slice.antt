-- ===== src/Slice.antt =====
-- src/cell/slice.rs: a part of a cell.
pub mod Bounds
use tonlib_rs.Prelude.{
  ℕ, ◌+◌, ◌-◌, ◌/◌, ◌%◌, ◌^◌, List, Option, none, some, Bool, false, ◌||◌, ltb, if◌then◌else◌,
  length, replicate, get_elem?,
}
use tonlib_rs.Prelude.Outcome.{
  TonCellError, cell_parser_error, invalid_index, Outcome, Result, ok, err, bind, result_of, slice,
  ◌>>=◌, ◌>>◌,
}
use tonlib_rs.Libs.{Libs}
use tonlib_rs.Cell.{Cell, bit_len, data_of, references}
use tonlib_rs.Cell.New
use tonlib_rs.Parser
use tonlib_rs.Parser.{CellParser, Load}
use tonlib_rs.Parser.Values.{ensure_empty}

-- `CellSlice`
pub record CellSlice : Type 0 where
  pub cell : Cell
  pub start_bit : ℕ
  pub end_bit : ℕ
  pub start_ref : ℕ
  pub end_ref : ℕ

unfoldable pub new : Cell → ℕ → ℕ → ℕ → ℕ → Result CellSlice
new c start_bit end_bit start_ref end_ref =
    if ltb end_bit start_bit || ltb (bit_len c) end_bit
    then err cell_parser_error
    else if ltb end_ref start_ref || ltb (length (references c)) end_ref
    then err cell_parser_error
    else ok (record {
      cell = c;
      start_bit = start_bit;
      end_bit = end_bit;
      start_ref = start_ref;
      end_ref = end_ref;
    })

unfoldable pub new_with_offset : Cell → ℕ → Result CellSlice
unfolding new
new_with_offset c offset = new c offset (bit_len c) 0 (length (references c))

unfoldable pub full_cell : Cell → Result CellSlice
full_cell c = ok (record {
  cell = c;
  start_bit = 0;
  end_bit = bit_len c;
  start_ref = 0;
  end_ref = length (references c);
})

-- The difference of two `usize`, which wraps around below zero.
abbrev pub usize_sub : ℕ → ℕ → ℕ
usize_sub a b = (a + 2 ^ 64 - b) % 2 ^ 64

abbrev pub found : TonCellError → Option Cell → Result Cell
found e (some c) = ok c
found e none = err e

unfoldable pub reference : CellSlice → ℕ → Result Cell
reference s idx =
    let count = usize_sub s.end_ref s.start_ref in
    let there =
      found (invalid_index idx count) (get_elem? (references s.cell) (s.start_ref + idx)) in
    if ltb count idx then err (invalid_index idx count) else there

module _ (libs : Libs) where
  -- The parser starts at the first bit of the cell, and has all its references.
  unfoldable pub parser : CellSlice → CellParser libs
  unfolding Parser.new
  parser s = Parser.new libs (usize_sub s.end_bit s.start_bit) (data_of s.cell) (references s.cell)

  unfoldable pub parse : {A : Type 0} → CellSlice → Load libs A → Result A
  unfolding parser
  parse s load = result_of (load (parser s))

  -- `reader.ensure_empty()?; res`
  abbrev checked : {A : Type 0} → Result (Unit {0}) → Result A → Result A
  checked empty res = bind empty λ _. res

  abbrev ended : {A : Type 0} → Outcome (CellParser libs) A → Result A
  ended (Outcome.ok a p) = checked (result_of (ensure_empty libs p)) (Result.ok a)
  ended (Outcome.err e p) = checked (result_of (ensure_empty libs p)) (Result.err e)
  ended Outcome.panic = Result.panic

  unfoldable pub parse_fully : {A : Type 0} → CellSlice → Load libs A → Result A
  unfolding parser ensure_empty
  parse_fully s load = ended (load (parser s))

  unfoldable pub into_cell : CellSlice → Result Cell
  unfolding Parser.new Parser.on_reader Parser.read_bits
  into_cell s =
      let n = usize_sub s.end_bit s.start_bit in
      let read = do
        Parser.on_reader libs (libs.bit_reader.skip (s.start_bit % 2 ^ 32))
        Parser.read_bits libs n (replicate ((n + 7) / 8) 0)
      in bind (result_of (read (Parser.new libs n (data_of s.cell) (references s.cell)))) λ bytes.
        bind (slice s.start_ref s.end_ref (references s.cell))
          λ refs. New.new libs bytes n refs false
