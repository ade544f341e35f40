-- ===== src/Parser.antt =====
-- src/cell/parser.rs and src/cell/util.rs: reading a cell bit by bit.
pub mod Loads
pub mod Uint
pub mod Values
use tonlib_rs.Prelude.{
  ℕ, zero, suc, ◌+◌, ◌-◌, ◌*◌, ◌/◌, ◌%◌, ◌^◌, List, [], ◌∷◌, ◌++◌, Option, none, some, Bool, true,
  false, ◌==◌, ltb, if◌then◌else◌, length, replicate, drop,
}
use tonlib_rs.Prelude.Outcome.{
  TonCellError, cell_parser_error, ok, err, IoResult, done, failed, Action, ◌>>=◌, ◌>>◌, pure, fail,
  abort,
}
use tonlib_rs.Libs.{Libs}
use tonlib_rs.Cell.{Cell, bit_len, data_of, references}

-- `CellParser`
pub record CellParser (libs : Libs) : Type 0 where
  pub bit_len : ℕ
  pub bit_reader : libs.bit_reader.Reader
  pub references : List Cell
  pub next_ref : ℕ

-- `BigInt`: a sign and a magnitude
pub record BigInt : Type 0 where
  pub negative : Bool
  pub magnitude : ℕ

unwrap_or_default : Option ℕ → ℕ
unwrap_or_default (some n) = n
unwrap_or_default none = 0

-- The bits of the first word that `load_uint` reads.
abbrev pub high_word_bits : ℕ → ℕ
high_word_bits n = if n % 32 == 0 then 32 else n % 32

module _ (libs : Libs) where
  open libs.bit_reader use {Reader, endian, position_in_bits, read_bit, read, read_bytes}
  open libs.big_uint use {from_digits}

  abbrev pub Load : Type 0 → Type 0
  Load A = Action (CellParser libs) A

  -- `CellParser::new`
  unfoldable pub new : ℕ → List ℕ → List Cell → CellParser libs
  new n data' refs = record {
    bit_len = n;
    bit_reader = endian data';
    references = refs;
    next_ref = 0;
  }

  -- `Cell::parser`
  unfoldable pub parser : Cell → CellParser libs
  unfolding new references
  parser c = new (bit_len c) (data_of c) (references c)

  unfoldable pub remaining_bits : CellParser libs → ℕ
  unfolding unwrap_or_default
  remaining_bits p =
      let pos = unwrap_or_default (position_in_bits p.bit_reader) in
      if ltb pos p.bit_len then p.bit_len - pos else 0

  unfoldable pub remaining_bytes : CellParser libs → ℕ
  unfolding remaining_bits
  remaining_bytes p = remaining_bits p / 8

  keep_reader : {A : Type 0} → TonCellError → IoResult Reader A → Load A
  keep_reader e (done a r) p = ok a (record p { bit_reader = r })
  keep_reader e (failed r) p = err e (record p { bit_reader = r })

  -- A call of the reader, its error as a parser error.
  unfoldable pub on_reader : {A : Type 0} → (Reader → IoResult Reader A) → Load A
  unfolding keep_reader
  on_reader m p = keep_reader cell_parser_error (m p.bit_reader) p

  unfoldable pub ensure_enough_bits : ℕ → Load (Unit {0})
  unfolding remaining_bits
  ensure_enough_bits n p = if ltb (remaining_bits p) n then err cell_parser_error p else ok tt p

  unfoldable pub load_bit : Load Bool
  unfolding ensure_enough_bits on_reader
  load_bit = do ensure_enough_bits 1; on_reader read_bit

  -- `load_number::<N>` for an unsigned type of the given width; `bit_len as u32`
  unfoldable pub load_number : ℕ → ℕ → Load ℕ
  unfolding ensure_enough_bits on_reader
  load_number width n = do ensure_enough_bits n; on_reader (read width (n % 2 ^ 32))

  abbrev pub load_u8 : ℕ → Load ℕ
  load_u8 n = load_number 8 n

  abbrev pub load_u16 : ℕ → Load ℕ
  load_u16 n = load_number 16 n

  abbrev pub load_u32 : ℕ → Load ℕ
  load_u32 n = load_number 32 n

  abbrev pub load_u64 : ℕ → Load ℕ
  load_u64 n = load_number 64 n

  abbrev pub load_byte : Load ℕ
  load_byte = load_u8 8

  -- The loop `for i in (0..num_words - 1).rev()`; the words are kept lowest first.
  unfoldable pub load_words : ℕ → List ℕ → Load (List ℕ)
  unfolding load_number
  load_words zero words = pure words
  load_words (suc k) words = do word ← load_u32 32; load_words k (word ∷ words)

  -- `words[num_words - 1] = high_word` is out of bounds if there are no words.
  unfoldable pub all_words : ℕ → ℕ → Load (List ℕ)
  unfolding load_words
  all_words zero high_word = abort
  all_words (suc k) high_word = load_words k (high_word ∷ [])

  unfoldable pub load_uint : ℕ → Load ℕ
  unfolding ensure_enough_bits load_number all_words
  load_uint n = do
    ensure_enough_bits n
    high_word ← load_u32 (high_word_bits n)
    words ← all_words ((n + 31) / 32) high_word
    pure (from_digits words)

  unfoldable pub load_int : ℕ → Load BigInt
  unfolding ensure_enough_bits load_number all_words
  load_int n = do
    ensure_enough_bits n
    high_word ← load_u32 (high_word_bits n)
    words ← all_words ((n + 31) / 32) high_word
    pure (record {
      negative = if high_word / 2 ^ 31 % 2 == 0 then false else true;
      magnitude = from_digits words;
    })

  -- `load_slice` into a buffer of `n` bytes, and `load_bytes(n)`
  unfoldable pub load_bytes : ℕ → Load (List ℕ)
  unfolding ensure_enough_bits on_reader
  load_bytes n = do ensure_enough_bits (n * 8); on_reader (read_bytes n)

  -- `BitReadExt::read_bits` into a buffer: the buffer after the call.
  unfoldable pub read_bits : ℕ → List ℕ → Load (List ℕ)
  unfolding on_reader
  read_bits num_bits slice =
      let total_bytes = (num_bits + 7) / 8 in
      let full_bytes = num_bits / 8 in
      let last_byte_len = num_bits % 8 in
      if ltb (length slice) total_bytes then fail cell_parser_error else do
        bytes ← on_reader (read_bytes full_bytes)
        if last_byte_len == 0 then pure (bytes ++ drop full_bytes slice) else do
          last_byte ← on_reader (read 8 last_byte_len)
          pure (bytes ++ ((last_byte * 2 ^ (8 - last_byte_len) % 256) ∷ drop total_bytes slice))

  unfoldable pub load_bits_to_slice : ℕ → List ℕ → Load (List ℕ)
  unfolding ensure_enough_bits read_bits
  load_bits_to_slice num_bits slice = do ensure_enough_bits num_bits; read_bits num_bits slice

  unfoldable pub load_bits : ℕ → Load (List ℕ)
  unfolding load_bits_to_slice
  load_bits num_bits = load_bits_to_slice num_bits (replicate ((num_bits + 7) / 8) 0)
