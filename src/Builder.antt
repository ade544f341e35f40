-- ===== src/Builder.antt =====
-- src/cell/builder.rs: writing a cell bit by bit.
pub mod Stores
pub mod Uint
pub mod Values
pub mod Cells
pub mod Build
use tonlib_rs.Prelude.{
  ℕ, zero, suc, ◌+◌, ◌-◌, ◌*◌, ◌/◌, ◌%◌, ◌^◌, List, [], ◌∷◌, Bool, true, false, ◌==◌, ltb,
  if◌then◌else◌, get_elem?, bit_and,
}
use tonlib_rs.Prelude.Outcome.{
  cell_builder_error, ok, err, IoResult, done, failed, Action, ◌>>=◌, ◌>>◌, pure, fail, abort, lift,
  index, slice,
}
use tonlib_rs.Libs.{Libs}
use tonlib_rs.Cell.{Cell}

abbrev pub max_cell_bits : ℕ
max_cell_bits = 1023

abbrev pub max_cell_references : ℕ
max_cell_references = 4

-- `CellBuilder`
pub record CellBuilder (libs : Libs) : Type 0 where
  pub bit_writer : libs.bit_writer.Writer
  pub bits_to_write : ℕ
  pub references : List Cell
  pub is_cell_exotic : Bool

module _ (libs : Libs) where
  open libs.bit_writer use {Writer, endian, write_bit, write}
  open libs.big_uint use {bits, to_bytes_be}

  abbrev pub Store : Type 0 → Type 0
  Store A = Action (CellBuilder libs) A

  unfoldable pub new : CellBuilder libs
  new = record { bit_writer = endian; bits_to_write = 0; references = []; is_cell_exotic = false }

  unfoldable pub set_cell_is_exotic : Bool → Store (Unit {0})
  set_cell_is_exotic val b = ok tt (record b { is_cell_exotic = val })

  -- A call of the writer, then `self.bits_to_write += n`.
  count_bits : ℕ → IoResult Writer (Unit {0}) → Store (Unit {0})
  count_bits n (done a w) b =
      ok tt (record b { bit_writer = w; bits_to_write = b.bits_to_write + n })
  count_bits n (failed w) b = err cell_builder_error (record b { bit_writer = w })

  unfoldable pub store_bit : Bool → Store (Unit {0})
  unfolding count_bits
  store_bit val b = count_bits 1 (write_bit val b.bit_writer) b

  -- `store_u8`, `store_u32`, `store_u64`: a value of an unsigned type of the given width;
  -- `bit_len as u32`
  unfoldable pub store_number : ℕ → ℕ → ℕ → Store (Unit {0})
  unfolding count_bits
  store_number width n val b = count_bits n (write width (n % 2 ^ 32) val b.bit_writer) b

  abbrev pub store_u8 : ℕ → ℕ → Store (Unit {0})
  store_u8 n val = store_number 8 n val

  abbrev pub store_u32 : ℕ → ℕ → Store (Unit {0})
  store_u32 n val = store_number 32 n val

  abbrev pub store_u64 : ℕ → ℕ → Store (Unit {0})
  store_u64 n val = store_number 64 n val

  abbrev pub store_byte : ℕ → Store (Unit {0})
  store_byte val = store_u8 8 val

  -- The loops of `store_uint` that write zeros.
  unfoldable pub store_zero_bytes : ℕ → Store (Unit {0})
  unfolding store_number
  store_zero_bytes zero = pure tt
  store_zero_bytes (suc n) = do store_byte 0; store_zero_bytes n

  unfoldable pub store_zero_bits : ℕ → Store (Unit {0})
  unfolding store_bit
  store_zero_bits zero = pure tt
  store_zero_bits (suc n) = do store_bit false; store_zero_bits n

  -- The loop over `high_byte & (1 << (high_bits_cnt - i - 1)) != 0`
  unfoldable pub store_high_bits : ℕ → ℕ → Store (Unit {0})
  unfolding store_bit
  store_high_bits zero byte = pure tt
  store_high_bits (suc k) byte = do
    store_bit (if bit_and byte (2 ^ k) == 0 then false else true)
    store_high_bits k byte

  unfoldable pub store_slice : List ℕ → Store (Unit {0})
  unfolding store_number
  store_slice [] = pure tt
  store_slice (byte ∷ bytes) = do store_byte byte; store_slice bytes

  -- `val_bytes[0]` in its low bits, then the bytes behind it.
  unfoldable pub store_val_bytes : ℕ → List ℕ → Store (Unit {0})
  unfolding store_high_bits store_slice
  store_val_bytes high_bits_cnt [] = abort
  store_val_bytes high_bits_cnt (high_byte ∷ bytes) = do
    store_high_bits high_bits_cnt high_byte
    store_slice bytes

  unfoldable pub store_uint : ℕ → ℕ → Store (Unit {0})
  unfolding store_zero_bytes store_zero_bits store_val_bytes
  store_uint n val =
      let leading_zero_bits = n - bits val in
      let high_bits_cnt = if bits val % 8 == 0 then 8 else bits val % 8 in
      if ltb n (bits val) then fail cell_builder_error else do
        store_zero_bytes (leading_zero_bits / 8)
        store_zero_bits (leading_zero_bits % 8)
        store_val_bytes high_bits_cnt (to_bytes_be val)

  unfoldable pub store_bits : ℕ → List ℕ → Store (Unit {0})
  unfolding store_slice store_number
  store_bits n bytes =
      let full_bytes = n / 8 in
      let last_byte_len = n % 8 in
      do
        full ← lift (slice 0 full_bytes bytes)
        store_slice full
        if last_byte_len == 0 then pure tt else do
          last_byte ← lift (index (get_elem? bytes full_bytes))
          store_u8 last_byte_len (last_byte / 2 ^ (8 - last_byte_len))
