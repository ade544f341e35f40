-- ===== src/CellType.antt =====
-- src/cell/cell_type.rs: the kinds of exotic cells, their checks, masks, hashes and depths.
pub mod Resolve
pub mod Bytes
use tonlib_rs.Prelude.{
  ℕ, zero, suc, ◌+◌, ◌-◌, ◌*◌, List, [], ◌∷◌, Option, none, some, Bool, true, false, ◌&&◌, ◌==◌,
  ltb, if◌then◌else◌, length, get_elem?, drop,
}
use tonlib_rs.Prelude.Outcome.{
  TonCellError, cell_builder_error, invalid_exotic_cell_data, Result, ok, err, panic, bind, index,
  slice, IoResult, done, failed,
}
use tonlib_rs.Libs.{Libs}
use tonlib_rs.LevelMask.{LevelMask, level, hash_index, hash_count, apply, apply_or, shift_right}
use tonlib_rs.Cell.{
  Cell, CellType, ordinary, pruned_branch, library, merkle_proof, merkle_update, TonHash, Levels,
  levels, get_depth, get_hash, level_mask_of, is_pruned, is_merkle,
}

unfoldable pub bytes_eq : List ℕ → List ℕ → Bool
bytes_eq [] [] = true
bytes_eq [] (y ∷ ys) = false
bytes_eq (x ∷ xs) [] = false
bytes_eq (x ∷ xs) (y ∷ ys) = x == y && bytes_eq xs ys

-- `return Err(..)` if the test holds
abbrev pub refuse_if : Bool → Result (Unit {0})
refuse_if true = err invalid_exotic_cell_data
refuse_if false = ok tt

infixl 5 ◌>>=◌ ◌>>◌
abbrev ◌>>=◌ {ℓ κ} : {A : Type ℓ} {B : Type κ} → Result A → (A → Result B) → Result B
m >>= f = bind m f

abbrev ◌>>◌ {ℓ κ} : {A : Type ℓ} {B : Type κ} → Result A → Result B → Result B
m >> k = bind m (λ _. k)

exotic_cell_type : ℕ → Result CellType
exotic_cell_type byte =
    if byte == 1
    then ok pruned_branch
    else if byte == 2
    then ok library
    else if byte == 3
    then ok merkle_proof
    else if byte == 4
    then ok merkle_update
    else err invalid_exotic_cell_data

unfoldable pub determine_exotic_cell_type : List ℕ → Result CellType
unfolding exotic_cell_type
determine_exotic_cell_type [] = err invalid_exotic_cell_data
determine_exotic_cell_type (byte ∷ rest) = exotic_cell_type byte

-- `u16::from_be_bytes` of a slice of two bytes
unfoldable pub u16_from_be : List ℕ → Result ℕ
u16_from_be (hi ∷ lo ∷ []) = ok (hi * 256 + lo)
u16_from_be _ = err invalid_exotic_cell_data

unfoldable pub is_config_proof : CellType → ℕ → Bool
unfolding is_pruned
is_config_proof t bit_len = is_pruned t && bit_len == 280

unfoldable pub pruned_level_mask : CellType → List ℕ → ℕ → Result LevelMask
unfolding is_config_proof
pruned_level_mask t data' bit_len = do
  refuse_if (ltb (length data') 5)
  if is_config_proof t bit_len
      then ok (record { mask = 1 })
      else do mask_byte ← index (get_elem? data' 1); ok (record { mask = mask_byte })

-- `(2 + hash_count * (TON_HASH_BYTES + DEPTH_BYTES)) * 8`
unfoldable pub pruned_size : LevelMask → ℕ
unfolding hash_count level apply
pruned_size l = (2 + hash_count (apply l (level l - 1)) * (32 + 2)) * 8

unfoldable pub validate_exotic_pruned : CellType → List ℕ → ℕ → List Cell → Result (Unit {0})
unfolding is_config_proof pruned_level_mask pruned_size
validate_exotic_pruned t data' bit_len refs = do
  refuse_if (ltb 0 (length refs))
  refuse_if (ltb bit_len 16)
  if is_config_proof t bit_len then ok tt else do
    l ← pruned_level_mask t data' bit_len
    refuse_if (level l == 0)
    refuse_if (ltb 3 (level l))
    refuse_if (if bit_len == pruned_size l then false else true)

unfoldable pub validate_library : ℕ → Result (Unit {0})
validate_library bit_len = refuse_if (if bit_len == (1 + 32) * 8 then false else true)

-- The depth and the hash of level 0 of a reference against those that the data states.
unfoldable pub check_depth : ℕ → Cell → Result (Unit {0})
unfolding get_depth
check_depth depth ref = refuse_if (if depth == get_depth ref 0 then false else true)

unfoldable pub check_hash : List ℕ → Cell → Result (Unit {0})
unfolding get_hash bytes_eq
check_hash hash ref = refuse_if (if bytes_eq hash (get_hash ref 0) then false else true)

unfoldable pub validate_merkle_proof : List ℕ → ℕ → List Cell → Result (Unit {0})
unfolding u16_from_be check_depth check_hash
validate_merkle_proof data' bit_len refs = do
  refuse_if (if bit_len == (1 + 32 + 2) * 8 then false else true)
  refuse_if (if length refs == 1 then false else true)
  proof_hash ← slice 1 33 data'
  depth_bytes ← slice 33 35 data'
  proof_depth ← u16_from_be depth_bytes
  ref ← index (get_elem? refs 0)
  check_depth proof_depth ref
  check_hash proof_hash ref

unfoldable pub validate_merkle_update : List ℕ → ℕ → List Cell → Result (Unit {0})
unfolding u16_from_be check_depth check_hash
validate_merkle_update data' bit_len refs = do
  refuse_if (if bit_len == 8 + 2 * (256 + 16) then false else true)
  refuse_if (if length refs == 2 then false else true)
  proof_hash1 ← slice 1 33 data'
  proof_hash2 ← slice 33 65 data'
  depth_bytes1 ← slice 65 67 data'
  depth_bytes2 ← slice 67 69 data'
  proof_depth1 ← u16_from_be depth_bytes1
  proof_depth2 ← u16_from_be depth_bytes2
  ref1 ← index (get_elem? refs 0)
  ref2 ← index (get_elem? refs 1)
  check_depth proof_depth1 ref1
  check_hash proof_hash1 ref1
  check_depth proof_depth2 ref2
  check_hash proof_hash2 ref2

unfoldable pub validate : CellType → List ℕ → ℕ → List Cell → Result (Unit {0})
unfolding validate_exotic_pruned validate_library validate_merkle_proof validate_merkle_update
validate ordinary data' bit_len refs = ok tt
validate pruned_branch data' bit_len refs = validate_exotic_pruned pruned_branch data' bit_len refs
validate library data' bit_len refs = validate_library bit_len
validate merkle_proof data' bit_len refs = validate_merkle_proof data' bit_len refs
validate merkle_update data' bit_len refs = validate_merkle_update data' bit_len refs

unfoldable pub fold_masks : LevelMask → List Cell → LevelMask
unfolding apply_or level_mask_of
fold_masks l [] = l
fold_masks l (ref ∷ refs) = fold_masks (apply_or l (level_mask_of ref)) refs

unfoldable pub level_mask : CellType → List ℕ → ℕ → List Cell → Result LevelMask
unfolding fold_masks pruned_level_mask shift_right
level_mask ordinary data' bit_len refs = ok (fold_masks (record { mask = 0 }) refs)
level_mask pruned_branch data' bit_len refs = pruned_level_mask pruned_branch data' bit_len
level_mask library data' bit_len refs = ok (record { mask = 0 })
level_mask merkle_proof data' bit_len refs = do
  ref ← index (get_elem? refs 0)
  ok (shift_right (level_mask_of ref))
level_mask merkle_update data' bit_len refs = do
  ref1 ← index (get_elem? refs 0)
  ref2 ← index (get_elem? refs 1)
  ok (shift_right (apply_or (level_mask_of ref1) (level_mask_of ref2)))

unfoldable pub child_depth : CellType → Cell → ℕ → ℕ
unfolding is_merkle get_depth
child_depth t child level =
    if is_merkle t then get_depth child (level + 1) else get_depth child level

unfoldable pub child_hash : CellType → Cell → ℕ → TonHash
unfolding is_merkle get_hash
child_hash t child level = if is_merkle t then get_hash child (level + 1) else get_hash child level
