-- ===== src/Parser/Values.antt =====
-- src/cell/parser.rs: coins, addresses, unary lengths, references and the two combinators.
use tonlib_rs.Prelude.{
  ◌^◌, ◌%◌, ℕ, zero, suc, ◌+◌, ◌-◌, ◌*◌, [], Option, none, some, false, ◌==◌, if◌then◌else◌, length,
  get_elem?,
}
use tonlib_rs.Prelude.Outcome.{
  cell_parser_error, invalid_address_type, non_empty_reader, ok, err, ◌>>=◌, ◌>>◌, pure, fail,
  abort, gets, lift,
}
use tonlib_rs.Libs.{Libs}
use tonlib_rs.Cell.{Cell}
use tonlib_rs.Cell.New
use tonlib_rs.Address.{TonAddress, null}
use tonlib_rs.Parser
use tonlib_rs.Parser.{CellParser}

module _ (libs : Libs) where
  open libs.bit_reader use {read, read_bytes, skip}

  abbrev Load : Type 0 → Type 0
  Load A = Parser.Load libs A

  unfoldable pub load_coins : Load ℕ
  unfolding Parser.load_number Parser.load_uint
  load_coins = do
    num_bytes ← Parser.load_u8 libs 4
    if num_bytes == 0 then pure 0 else Parser.load_uint libs (num_bytes * 8)

  -- The arm of `tp == 2`
  unfoldable pub load_std_address : Load TonAddress
  unfolding Parser.ensure_enough_bits Parser.on_reader
  load_std_address = do
    Parser.ensure_enough_bits libs (1 + 8 + 32 * 8)
    _ ← Parser.on_reader libs (read 8 1)
    wc ← Parser.on_reader libs (read 8 8)
    hash_part ← Parser.on_reader libs (read_bytes 32)
    pure (record { workchain = wc; hash_part = hash_part })

  unfoldable pub load_address : Load TonAddress
  unfolding Parser.ensure_enough_bits Parser.on_reader load_std_address
  load_address = do
    Parser.ensure_enough_bits libs 2
    tp ← Parser.on_reader libs (read 8 2)
    if tp == 0
        then pure null
        else if tp == 2
        then load_std_address
        else fail (invalid_address_type tp)

  -- `while self.load_bit()?`, with a round for each bit that is left and one that fails.
  unfoldable pub unary_loop : ℕ → ℕ → Load ℕ
  unfolding Parser.load_bit
  unary_loop zero res = abort
  unary_loop (suc rounds) res = do
    more ← Parser.load_bit libs
    let rest = unary_loop rounds (res + 1)
    if more then rest else pure res

  unfoldable pub load_unary_length : Load ℕ
  unfolding unary_loop Parser.remaining_bits
  load_unary_length = do rounds ← gets (Parser.remaining_bits libs); unary_loop (suc rounds) 0

  unfoldable pub ensure_empty : Load (Unit {0})
  unfolding Parser.remaining_bits
  ensure_empty p =
      if Parser.remaining_bits libs p == 0
      then ok tt p
      else err (non_empty_reader (Parser.remaining_bits libs p) (length p.references - p.next_ref))
          p

  unfoldable pub skip_bits : ℕ → Load (Unit {0})
  unfolding Parser.ensure_enough_bits Parser.on_reader
  skip_bits n = do Parser.ensure_enough_bits libs n; Parser.on_reader libs (skip (n % 2 ^ 32))

  take_reference : Option Cell → Load Cell
  take_reference (some c) p = ok c (record p { next_ref = p.next_ref + 1 })
  take_reference none p = err cell_parser_error p

  unfoldable pub next_reference : Load Cell
  unfolding take_reference
  next_reference p = take_reference (get_elem? p.references p.next_ref) p

  unfoldable pub load_either_cell_or_cell_ref : Load Cell
  unfolding Parser.load_bit next_reference Parser.remaining_bits Parser.load_bits
  load_either_cell_or_cell_ref = do
    is_ref ← Parser.load_bit libs
    if is_ref then next_reference else do
      n ← gets (Parser.remaining_bits libs)
      bytes ← Parser.load_bits libs n
      lift (New.new libs bytes n [] false)

  unfoldable pub load_maybe_cell_ref : Load (Option Cell)
  unfolding Parser.load_bit next_reference
  load_maybe_cell_ref = do
    is_some ← Parser.load_bit libs
    if is_some then (do c ← next_reference; pure (some c)) else pure none
