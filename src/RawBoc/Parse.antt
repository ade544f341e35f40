-- ===== src/RawBoc/Parse.antt =====
-- src/cell/raw.rs: reading a serialized bag of cells.
use tonlib_rs.Prelude.{
  ℕ, zero, suc, ◌+◌, ◌-◌, ◌*◌, ◌/◌, ◌%◌, ◌^◌, List, [], ◌∷◌, Bool, true, false, ◌&&◌, ◌==◌, ltb,
  leb, if◌then◌else◌, length, get_elem?, set, bit_and, bit_or,
}
use tonlib_rs.Prelude.Outcome
use tonlib_rs.Prelude.Outcome.{
  boc_deserialization_error, Result, Action, ◌>>=◌, ◌>>◌, pure, fail, lift, index, io, result_of,
}
use tonlib_rs.Libs.{Libs}
use tonlib_rs.LevelMask.{hash_count}
use tonlib_rs.RawBoc
use tonlib_rs.RawBoc.{RawCell, RawBagOfCells, generic_boc_magic}

-- `result <<= 8; result |= byte` on a `usize`, over the bytes.
unfoldable pub fold_bytes : ℕ → List ℕ → ℕ
fold_bytes result [] = result
fold_bytes result (byte ∷ bytes) = fold_bytes (bit_or (result * 2 ^ 8 % 2 ^ 64) byte) bytes

-- `byte.trailing_zeros()` of a `u8`
unfoldable pub trailing_zeros : ℕ → ℕ → ℕ
trailing_zeros zero byte = 0
trailing_zeros (suc rounds) byte =
    let more = trailing_zeros rounds (byte / 2) in if byte % 2 == 1 then 0 else suc more

-- The data without the completion tag, and the length of the padding.
unfoldable pub strip_tag : List ℕ → Bool → Result (List ℕ × ℕ)
unfolding trailing_zeros
strip_tag bytes full_bytes =
    let last = length bytes - 1 in
    let stripped = Outcome.bind (index (get_elem? bytes last)) (λ byte.
      let num_zeros = trailing_zeros 8 byte in
      if leb 8 num_zeros
      then Result.err boc_deserialization_error
      else Result.ok (set bytes last (bit_and byte (255 - 2 ^ num_zeros)), num_zeros + 1)) in
    if ltb 0 (length bytes) && (if full_bytes then false else true)
    then stripped
    else Result.ok (bytes, 0)

module _ (libs : Libs) where
  open libs.byte_reader use {Reader, endian, read, read_to_vec, skip}

  abbrev pub Get : Type 0 → Type 0
  Get A = Action Reader A

  abbrev get : {A : Type 0} → (Reader → Outcome.IoResult Reader A) → Get A
  get m = io boc_deserialization_error m

  unfoldable pub read_var_size : ℕ → Get ℕ
  unfolding fold_bytes
  read_var_size n = do bytes ← get (read_to_vec n); pure (fold_bytes 0 bytes)

  -- The loops that push `read_var_size(reader, size)?`
  unfoldable pub read_indices : ℕ → ℕ → Get (List ℕ)
  unfolding read_var_size
  read_indices zero size = pure []
  read_indices (suc n) size = do i ← read_var_size size; is ← read_indices n size; pure (i ∷ is)

  unfoldable pub skip_hashes : ℕ → Get (Unit {0})
  unfolding hash_count
  skip_hashes d1 =
      if bit_and d1 16 == 0
      then pure tt
      else get (skip (hash_count (record { mask = d1 / 2 ^ 5 }) * (32 + 2)))

  unfoldable pub read_cell : ℕ → Get RawCell
  unfolding skip_hashes strip_tag read_indices RawBoc.new
  read_cell size = do
    d1 ← get (read 1)
    d2 ← get (read 1)
    skip_hashes d1
    bytes ← get (read_to_vec (d2 / 2 + bit_and d2 1))
    (stripped, padding_len) ← lift (strip_tag bytes (bit_and d2 1 == 0))
    references ← read_indices (bit_and d1 7) size
    pure (
        RawBoc.new stripped (length stripped * 8 - padding_len) references (d1 / 2 ^ 5)
          (if bit_and d1 8 == 0 then false else true))

  unfoldable pub read_cells : ℕ → ℕ → Get (List RawCell)
  unfolding read_cell
  read_cells zero size = pure []
  read_cells (suc n) size = do c ← read_cell size; cs ← read_cells n size; pure (c ∷ cs)

  -- The index, if there is one, is read and dropped.
  unfoldable pub read_index : Bool → ℕ → ℕ → Get (List ℕ)
  unfolding read_indices
  read_index true cells off_bytes = read_indices cells off_bytes
  read_index false cells off_bytes = pure []

  unfoldable pub read_crc : Bool → Get ℕ
  read_crc true = get (read 4)
  read_crc false = pure 0

  unfoldable pub read_body : ℕ → Get RawBagOfCells
  unfolding read_var_size read_indices read_index read_cells read_crc
  read_body header = do
    let size = bit_and header 7
    off_bytes ← get (read 1)
    cells ← read_var_size size
    roots ← read_var_size size
    absent ← read_var_size size
    tot_cells_size ← read_var_size off_bytes
    root_list ← read_indices roots size
    index_list ← read_index (header / 2 ^ 7 % 2 == 1) cells off_bytes
    cell_vec ← read_cells cells size
    crc32c ← read_crc (header / 2 ^ 6 % 2 == 1)
    pure (record { cells = cell_vec; roots = root_list })

  unfoldable pub read_boc : Get RawBagOfCells
  unfolding read_body
  read_boc = do
    magic ← get (read 4)
    if magic == generic_boc_magic
        then (do header ← get (read 1); read_body header)
        else fail boc_deserialization_error

  -- `RawBagOfCells::parse`
  unfoldable pub parse : List ℕ → Result RawBagOfCells
  unfolding read_boc
  parse serial = result_of (read_boc (endian serial))
