-- ===== src/Trips/Cells.antt =====
-- Values that go through a built cell with references: `CellBuilder::build` of src/cell/builder.rs
-- and `Cell::parser` of src/cell.rs.
use tonlib_rs.Prelude.{
  ◌+◌, ◌/◌, false, replicate, ◌≤◌, ◌≡◌, refl, sym, ap, subst, ◌∙◌, ℕ, List, [], ◌++◌, append-nil,
  Bool, length, All, arith, drop,
}
use tonlib_rs.Prelude.Outcome.{Result, ok, result_of, ◌>>◌}
use tonlib_rs.Libs.{Libs}
use tonlib_rs.Prelude.Bits.{IsByte, unpack}
use tonlib_rs.Cell.{Cell, data_of, bit_len, references}
use tonlib_rs.Cell.Ordinary.{IsPlain, plain_cell}
use tonlib_rs.Cell.Trees.{to_list-of_list}
use tonlib_rs.Builder
use tonlib_rs.Builder.{CellBuilder, Store}
use tonlib_rs.Builder.Cells.{build}
use tonlib_rs.Parser
use tonlib_rs.Parser.{CellParser, Load}
use tonlib_rs.Parser.Loads.{Ahead}
use tonlib_rs.Trips.Built.{new-Ahead, build-plain_cell}
use tonlib_rs.Trips.References.{Filled, CellTrip}

module _ (libs : Libs) where
  open libs.bit_writer use {written}

  -- The parser on a built cell.
  pub parser-plain_cell :
      (vec : List ℕ) (n : ℕ) (refs : List Cell)
      → Parser.parser libs (plain_cell libs vec n refs) ≡ Parser.new libs n vec refs
  unfolding Parser.parser plain_cell data_of bit_len references
  parser-plain_cell vec n refs = ap (Parser.new libs n vec) (to_list-of_list refs)

  -- A builder with nothing but `bs` and `rs` in it closes to a cell on which a parser has these
  -- ahead.
  pub record Closed (b : CellBuilder libs) (bs : List Bool) (rs : List Cell) : Type 0 where
    pub made : Cell
    pub data_bytes : List ℕ
    pub made_eq : made ≡ plain_cell libs data_bytes (length bs) rs
    pub zeros : ℕ
    pub bytes : All IsByte data_bytes
    pub unpack_eq : unpack data_bytes ≡ bs ++ replicate zeros false
    pub length_eq : length data_bytes ≡ (length bs + 7) / 8
    pub build_eq : result_of (build libs b) ≡ Result.ok made
    pub ahead : Ahead libs (Parser.parser libs made) bs
    pub refs_eq : drop (Parser.parser libs made).next_ref (Parser.parser libs made).references ≡ rs

  pub close :
      (b : CellBuilder libs) (bs : List Bool) (rs : List Cell)
      → Filled libs (Builder.new libs) b bs rs
      → length bs ≤ 1023
      → length rs ≤ 4
      → All IsPlain rs
      → Closed b bs rs
  unfolding Builder.new Parser.new
  close b bs rs f h k plain =
      let held : written b.bit_writer ≡ bs =
        f.written_eq ∙ rw libs.bit_writer.written-endian refl in
      let (vec, closed, packed, built) =
        build-plain_cell libs b bs rs held f.references_eq f.exotic_eq h k plain in
      let parser_eq = parser-plain_cell vec (length bs) rs in
      record {
        made = plain_cell libs vec (length bs) rs;
        data_bytes = vec;
        made_eq = refl;
        zeros = packed.zeros;
        bytes = packed.bytes;
        unpack_eq = packed.unpack_eq ∙ ap (λ t. t ++ replicate packed.zeros false) held;
        length_eq = packed.length_eq ∙ ap (λ (t : List Bool). (length t + 7) / 8) held;
        build_eq = rw built refl;
        ahead = rw parser_eq (
            subst (λ t. Ahead libs (Parser.new libs (length t) vec rs) t) held
              (new-Ahead libs b vec rs packed));
        refs_eq = rw parser_eq refl;
      }

  -- A value that makes its way with at most 1023 bits and four references of level 0 makes it
  -- through a built cell: the builder holds its bits and references, `build` makes an ordinary
  -- cell of them, and a parser on that cell reads the value and leaves no bits.
  pub build-CellTrip :
      {A : Type 0} (store : Store libs (Unit {0})) (load : Load libs A) (a : A)
      → (trip : CellTrip libs store load a) → length trip.bits ≤ 1023
      → length trip.refs ≤ 4
      → All IsPlain trip.refs
      → (c : Cell) × (p : CellParser libs) × (result_of ((store >> build libs) (Builder.new libs))
          ≡ Result.ok c)
        × (load (Parser.parser libs c) ≡ ok a p)
        × Ahead libs p []
  unfolding Builder.new
  build-CellTrip store load a trip h k plain =
      let (b, e, filled) = trip.fills.run (Builder.new libs) (omega (arith, k)) in
      let c = close b trip.bits trip.refs filled h k plain in
      let (p, read, took) =
        trip.takes.run (Parser.parser libs c.made) [] [] (rw append-nil c.ahead)
          (c.refs_eq ∙ sym (append-nil trip.refs)) in
      (c.made, p, rw e c.build_eq, read, took.ahead)
