-- ===== src/Cell/Repr.antt =====
-- src/cell.rs: the byte string that is hashed for a cell at a level.
use tonlib_rs.Prelude.{
  ℕ, ◌+◌, ◌-◌, ◌*◌, ◌/◌, ◌%◌, ◌^◌, List, [], ◌∷◌, Option, none, some, ◌==◌, if◌then◌else◌, length,
  get_elem?, take, bit_or,
}
use tonlib_rs.Prelude.Outcome.{
  cell_parser_error, cell_builder_error, Result, ok, err, Action, ◌>>=◌, ◌>>◌, pure, abort, lift,
  index, io, result_of,
}
use tonlib_rs.Libs.{Libs}
use tonlib_rs.LevelMask.{LevelMask, apply}
use tonlib_rs.Cell.{Cell, CellType, is_ordinary}
use tonlib_rs.CellType.{child_depth, child_hash}

-- The arithmetic of both descriptors is that of `u8`.
unfoldable pub get_refs_descriptor : CellType → List Cell → ℕ → ℕ
unfolding is_ordinary
get_refs_descriptor t refs mask =
    let cell_type_var = if is_ordinary t then 0 else 1 in
    (length refs + 8 * cell_type_var + mask * 32) % 256

unfoldable pub get_bits_descriptor : List ℕ → ℕ → ℕ
get_bits_descriptor data' bit_len =
    let partial = if bit_len % 8 == 0 then 0 else 1 in (length data' * 2 + 256 - partial) % 256

-- `last_byte | 1 << (8 - rest_bits - 1)`
unfoldable pub tag_byte : ℕ → ℕ → ℕ
tag_byte byte rest_bits = bit_or byte (2 ^ (8 - rest_bits - 1))

unfoldable pub or_unaligned : Option (List ℕ) → Result (List ℕ)
or_unaligned (some bs) = ok bs
or_unaligned none = err cell_builder_error

module _ (libs : Libs) where
  open libs.bit_writer use {Writer, endian, write, write_bytes, writer}

  unfoldable pub write_data : List ℕ → ℕ → Action Writer (Unit {0})
  unfolding tag_byte
  write_data data' bit_len =
      let data_len = length data' in
      let rest_bits = bit_len % 8 in
      if rest_bits == 0
      then io cell_parser_error (write_bytes data')
      else if data_len == 0
      then abort
      else do
        io cell_parser_error (write_bytes (take (data_len - 1) data'))
        last_byte ← lift (index (get_elem? data' (data_len - 1)))
        io cell_parser_error (write 8 8 (tag_byte last_byte rest_bits))

  unfoldable pub write_ref_depths : List Cell → CellType → ℕ → Action Writer (Unit {0})
  unfolding child_depth
  write_ref_depths [] t level = pure tt
  write_ref_depths (ref ∷ refs) t level = do
    io cell_parser_error (write 16 8 (child_depth t ref level / 256))
    io cell_parser_error (write 16 8 (child_depth t ref level % 256))
    write_ref_depths refs t level

  unfoldable pub write_ref_hashes : List Cell → CellType → ℕ → Action Writer (Unit {0})
  unfolding child_hash
  write_ref_hashes [] t level = pure tt
  write_ref_hashes (ref ∷ refs) t level = do
    io cell_parser_error (write_bytes (child_hash t ref level))
    write_ref_hashes refs t level

  unfoldable pub write_repr :
      List ℕ × ℕ → List ℕ × ℕ → List Cell → LevelMask → ℕ → CellType → Action Writer (Unit {0})
  unfolding write_data write_ref_depths write_ref_hashes get_refs_descriptor get_bits_descriptor
  write_repr (original, original_len) (current, current_len) refs l level t = do
    io cell_parser_error (write 8 8 (get_refs_descriptor t refs (apply l level).mask))
    io cell_parser_error (write 8 8 (get_bits_descriptor original original_len))
    write_data current current_len
    write_ref_depths refs t level
    write_ref_hashes refs t level

  unfoldable pub get_repr_for_data :
      List ℕ × ℕ → List ℕ × ℕ → List Cell → LevelMask → ℕ → CellType → Result (List ℕ)
  unfolding write_repr or_unaligned
  get_repr_for_data original current refs l level t =
      let finish : Action Writer (List ℕ) = do
        write_repr original current refs l level t
        λ w. lift (or_unaligned (writer w)) w
      in result_of (finish endian)
