-- ===== src/Builder/Cells.antt =====
-- src/cell/builder.rs: references, whole cells, the two combinators, and `build`.
use tonlib_rs.Prelude.{
  ℕ, zero, suc, ◌+◌, ◌-◌, ◌*◌, ◌/◌, ◌%◌, ◌^◌, List, [], ◌∷◌, ◌++◌, Option, none, some, true, false,
  ltb, if◌then◌else◌, length,
}
use tonlib_rs.Prelude.Outcome.{
  cell_builder_error, Outcome, Result, ok, err, panic, done, failed, ◌>>=◌, ◌>>◌, pure, gets, lift,
}
use tonlib_rs.Libs.{Libs}
use tonlib_rs.Cell.{Cell, bit_len, references}
use tonlib_rs.Cell.New
use tonlib_rs.Parser
use tonlib_rs.Parser.{CellParser}
use tonlib_rs.Builder
use tonlib_rs.Builder.{CellBuilder, max_cell_bits, max_cell_references}

module _ (libs : Libs) where
  open libs.bit_writer use {Writer, write_bit, byte_aligned, writer}

  abbrev Store : Type 0 → Type 0
  Store A = Builder.Store libs A

  unfoldable pub store_reference : Cell → Store (Unit {0})
  store_reference c b =
      if ltb 4 (length b.references + 1)
      then err cell_builder_error b
      else ok tt (record b { references = b.references ++ (c ∷ []) })

  unfoldable pub store_references : List Cell → Store (Unit {0})
  unfolding store_reference
  store_references [] = pure tt
  store_references (c ∷ cs) = do store_reference c; store_references cs

  -- `self.store_reference(&Arc::new(cell))`
  unfoldable pub store_child : Cell → Store (Unit {0})
  unfolding store_reference
  store_child c = store_reference c

  -- A call on the parser inside a call on the builder.
  unfoldable pub on_parser :
      {A : Type 0} → Outcome (CellParser libs) A → Store (A × CellParser libs)
  on_parser (ok a p) b = ok (a, p) b
  on_parser (err e p) b = err e b
  on_parser panic b = panic

  unfoldable pub store_remaining_bits : CellParser libs → Store (CellParser libs)
  unfolding Builder.store_slice Builder.store_number on_parser
  store_remaining_bits p = do
    (bytes, p') ← on_parser (Parser.load_bytes libs (Parser.remaining_bits libs p / 8) p)
    Builder.store_slice libs bytes
    let num_bits = Parser.remaining_bits libs p' % 8
    (tail, p'') ← on_parser (Parser.load_number libs 8 num_bits p')
    Builder.store_u8 libs num_bits tail
    pure p''

  unfoldable pub store_cell_data : Cell → Store (Unit {0})
  unfolding store_remaining_bits
  store_cell_data c = do store_remaining_bits (Parser.parser libs c); pure tt

  unfoldable pub store_cell : Cell → Store (Unit {0})
  unfolding store_cell_data store_references references
  store_cell c = do store_cell_data c; store_references (references c)

  -- `MAX_CELL_BITS - self.bits_to_write` is that of `usize`.
  unfoldable pub remaining_bits : CellBuilder libs → ℕ
  remaining_bits b = (max_cell_bits + 2 ^ 64 - b.bits_to_write) % 2 ^ 64

  unfoldable pub store_either_cell_or_cell_ref : Cell → Store (Unit {0})
  unfolding Builder.store_bit store_cell store_reference remaining_bits
  store_either_cell_or_cell_ref c = do
    left ← gets remaining_bits
    if ltb (bit_len c) left
        then (do Builder.store_bit libs false; store_cell c)
        else (do Builder.store_bit libs true; store_reference c)

  unfoldable pub store_maybe_cell_ref : Option Cell → Store (Unit {0})
  unfolding Builder.store_bit store_reference
  store_maybe_cell_ref (some c) = do Builder.store_bit libs true; store_reference c
  store_maybe_cell_ref none = Builder.store_bit libs false

  -- `while !byte_aligned() { write_bit(false); trailing_zeros += 1 }`; 8 rounds reach a boundary.
  unfoldable pub align : ℕ → ℕ → Writer → Outcome Writer ℕ
  align zero trailing_zeros w = panic
  align (suc rounds) trailing_zeros w = elim (byte_aligned w) [
    | true ↦ ok trailing_zeros w
    | false ↦ elim (write_bit false w) [
      | done a w' ↦ align rounds (trailing_zeros + 1) w'
      | failed w' ↦ err cell_builder_error w'
    ]
  ]

  finish : Option (List ℕ) → ℕ → CellBuilder libs → Result Cell
  finish none trailing_zeros b = err cell_builder_error
  finish (some vec) trailing_zeros b =
      let n = length vec * 8 - trailing_zeros in
      if ltb max_cell_bits n
      then err cell_builder_error
      else if ltb max_cell_references (length b.references)
      then err cell_builder_error
      else New.new libs vec n b.references b.is_cell_exotic

  built : Outcome Writer ℕ → Store Cell
  unfolding finish
  built (ok trailing_zeros w) b =
      lift (finish (writer w) trailing_zeros (record b { bit_writer = w }))
        (record b { bit_writer = w })
  built (err e w) b = err e (record b { bit_writer = w })
  built panic b = panic

  unfoldable pub build : Store Cell
  unfolding align built
  build b = built (align 8 0 b.bit_writer) b
