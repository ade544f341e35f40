-- ===== src/RawBoc.antt =====
-- src/cell/raw.rs: a bag of cells with numbers for references, and its serialization.
pub mod Parse
pub mod Codec
pub mod Strip
pub mod Cells
pub mod RoundTrip
mod Header
mod Ends
mod Tag
use tonlib_rs.Prelude.{
  ℕ, zero, suc, ◌+◌, ◌-◌, ◌*◌, ◌/◌, ◌%◌, ◌^◌, List, [], ◌∷◌, Bool, true, false, ◌==◌, if◌then◌else◌,
  length, get_elem?, bit_and, bit_or, Option, none, some,
}
use tonlib_rs.Prelude.Outcome.{
  boc_serialization_error, Result, ok, err, Action, ◌>>=◌, ◌>>◌, pure, lift, index, slice, io,
  result_of,
}
use tonlib_rs.Libs.{Libs}
use tonlib_rs.LevelMask.{bit_length}

-- `RawCell`
pub record RawCell : Type 0 where
  pub data_bytes : List ℕ
  pub bit_len : ℕ
  pub references : List ℕ
  pub is_exotic : Bool
  pub level_mask : ℕ

-- `RawCell::new`
unfoldable pub new : List ℕ → ℕ → List ℕ → ℕ → Bool → RawCell
new d n refs mask exotic = record {
  data_bytes = d;
  bit_len = n;
  references = refs;
  is_exotic = exotic;
  level_mask = bit_and mask 7;
}

-- `RawBagOfCells`
pub record RawBagOfCells : Type 0 where
  pub cells : List RawCell
  pub roots : List ℕ

abbrev pub generic_boc_magic : ℕ
generic_boc_magic = 0xb5ee9c72

-- `as u32`
abbrev pub u32 : ℕ → ℕ
u32 n = n % 2 ^ 32

-- The bytes that hold a `u32`.
unfoldable pub num_bytes : ℕ → ℕ
unfolding bit_length
num_bytes n = (bit_length 32 n + 7) / 8

unfoldable pub raw_cell_size : RawCell → ℕ → ℕ
raw_cell_size c ref_size_bytes =
    let data_len = (c.bit_len + 7) / 8 in
    u32 (2 + u32 data_len + u32 (length c.references) * ref_size_bytes)

unfoldable pub full_size : ℕ → ℕ → List RawCell → ℕ
unfolding raw_cell_size
full_size ref_size_bytes acc [] = acc
full_size ref_size_bytes acc (c ∷ cs) =
    full_size ref_size_bytes (u32 (acc + raw_cell_size c ref_size_bytes)) cs

unfoldable pub refs_byte : RawCell → ℕ
refs_byte c =
    u32 (u32 (length c.references) + (if c.is_exotic then 1 else 0) * 8 + c.level_mask * 32)

unfoldable pub size_byte : RawCell → ℕ
size_byte c = ((c.bit_len + 7) / 8 * 2 - (if c.bit_len % 8 == 0 then 0 else 1)) % 256

-- `cs.to_le_bytes()`
unfoldable pub to_le_bytes : ℕ → List ℕ
to_le_bytes n = n % 256 ∷ n / 2 ^ 8 % 256 ∷ n / 2 ^ 16 % 256 ∷ n / 2 ^ 24 % 256 ∷ []

-- `ok_or_else`
unfoldable pub or_unaligned : Option (List ℕ) → Result (List ℕ)
or_unaligned (some bs) = ok bs
or_unaligned none = err boc_serialization_error

module _ (libs : Libs) where
  open libs.bit_writer use {Writer, endian, write_bit, write, write_bytes, byte_align, writer}
  open libs.digests use {crc32_iscsi}

  abbrev Put : Type 0
  Put = Action Writer (Unit {0})

  abbrev put : ℕ → ℕ → ℕ → Put
  put width bits v = io boc_serialization_error (write width bits v)

  -- The loops over roots and references: `write(8 * size, r as u32)`
  unfoldable pub write_indices : ℕ → List ℕ → Put
  write_indices size [] = pure tt
  write_indices size (r ∷ rs) = do put 32 (8 * size) (u32 r); write_indices size rs

  unfoldable pub write_cell_data : RawCell → Put
  write_cell_data c =
      let padding_bits = c.bit_len % 8 in
      let data_len_bytes = (c.bit_len + 7) / 8 in
      if padding_bits == 0 then io boc_serialization_error (write_bytes c.data_bytes) else (do
        front ← lift (slice 0 (data_len_bytes - 1) c.data_bytes)
        io boc_serialization_error (write_bytes front)
        last_byte ← lift (index (get_elem? c.data_bytes (data_len_bytes - 1)))
        put 8 8 (bit_or last_byte (2 ^ (8 - padding_bits - 1))))

  unfoldable pub write_raw_cell : RawCell → ℕ → Put
  unfolding refs_byte size_byte write_cell_data write_indices
  write_raw_cell c ref_size_bytes = do
    put 32 8 (refs_byte c)
    put 8 8 (size_byte c)
    write_cell_data c
    write_indices ref_size_bytes c.references

  unfoldable pub write_raw_cells : List RawCell → ℕ → Put
  unfolding write_raw_cell
  write_raw_cells [] ref_size_bytes = pure tt
  write_raw_cells (c ∷ cs) ref_size_bytes = do
    write_raw_cell c ref_size_bytes
    write_raw_cells cs ref_size_bytes

  unfoldable pub write_flags : Bool → ℕ → Put
  write_flags has_crc32 num_ref_bytes = do
    io boc_serialization_error (write_bit false)
    io boc_serialization_error (write_bit has_crc32)
    io boc_serialization_error (write_bit false)
    put 8 2 0
    put 32 3 num_ref_bytes

  unfoldable pub write_crc : Bool → Put
  unfolding or_unaligned to_le_bytes
  write_crc false = pure tt
  write_crc true = do
    bytes ← λ w. lift (or_unaligned (writer w)) w
    io boc_serialization_error (write_bytes (to_le_bytes (crc32_iscsi bytes)))

  unfoldable pub write_boc : RawBagOfCells → Bool → Put
  unfolding num_bytes full_size write_flags write_indices write_raw_cells write_crc
  write_boc boc has_crc32 =
      let count = u32 (length boc.cells) in
      let num_ref_bytes = num_bytes count in
      let size = full_size num_ref_bytes 0 boc.cells in
      let num_offset_bytes = num_bytes size in
      do
        put 32 32 generic_boc_magic
        write_flags has_crc32 num_ref_bytes
        put 32 8 num_offset_bytes
        put 32 (8 * num_ref_bytes) count
        put 32 (8 * num_ref_bytes) (u32 (length boc.roots))
        put 32 (8 * num_ref_bytes) 0
        put 32 (8 * num_offset_bytes) size
        write_indices num_ref_bytes boc.roots
        write_raw_cells boc.cells num_ref_bytes
        write_crc has_crc32
        io boc_serialization_error byte_align

  -- `RawBagOfCells::serialize`
  unfoldable pub serialize : RawBagOfCells → Bool → Result (List ℕ)
  unfolding write_boc or_unaligned
  serialize boc has_crc32 =
      let finish : Action Writer (List ℕ) = do
        write_boc boc has_crc32
        λ w. lift (or_unaligned (writer w)) w
      in result_of (finish endian)
