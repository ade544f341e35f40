-- ===== src/Cell.antt =====
-- src/cell.rs: the cell, its fields and its getters. A cell holds its references directly: the
-- reference counts of `Arc` are not observable.
pub mod Repr
pub mod New
pub mod Data
pub mod Described
pub mod Ordinary
pub mod Heights
pub mod Trees
pub mod Standard
pub mod Equal
use tonlib_rs.Prelude.{
  ℕ, zero, suc, List, [], ◌∷◌, Option, none, some, Bool, true, false, ◌==◌, if◌then◌else◌, length,
  get_elem?, min,
}
use tonlib_rs.Prelude.Outcome.{TonCellError, Result, ok, err, invalid_index, cell_parser_error}
use tonlib_rs.LevelMask.{LevelMask}

-- `TonHash = [u8; 32]`
abbrev pub TonHash : Type 0
TonHash = List ℕ

abbrev pub max_level : ℕ
max_level = 3

-- `enum CellType` of src/cell/cell_type.rs
pub data CellType : Type 0 where
  ordinary pruned_branch library merkle_proof merkle_update : CellType

-- `[T; 4]`, one entry a level.
pub data Levels (A : Type 0) : Type 0 where
  levels : A → A → A → A → Levels A

unfoldable pub at_level : {A : Type 0} → Levels A → ℕ → A
at_level (levels a b c d) zero = a
at_level (levels a b c d) (suc zero) = b
at_level (levels a b c d) (suc (suc zero)) = c
at_level (levels a b c d) (suc (suc (suc n))) = d

mutual
  -- `Cell { data, bit_len, references, cell_type, level_mask, hashes, depths }`
  pub data Cell : Type 0 where
    cell : List ℕ → ℕ → Refs → CellType → LevelMask → Levels TonHash → Levels ℕ → Cell

  -- `Vec<ArcCell>`
  pub data Refs : Type 0 where
    nil : Refs
    cons : Cell → Refs → Refs

unfoldable pub to_list : Refs → List Cell
to_list nil = []
to_list (cons c rs) = c ∷ to_list rs

unfoldable pub of_list : List Cell → Refs
of_list [] = nil
of_list (c ∷ cs) = cons c (of_list cs)

unfoldable pub data_of : Cell → List ℕ
data_of (cell d n rs t m h p) = d

unfoldable pub bit_len : Cell → ℕ
bit_len (cell d n rs t m h p) = n

unfoldable pub references : Cell → List Cell
unfolding to_list
references (cell d n rs t m h p) = to_list rs

unfoldable pub cell_type : Cell → CellType
cell_type (cell d n rs t m h p) = t

unfoldable pub level_mask_of : Cell → LevelMask
level_mask_of (cell d n rs t m h p) = m

unfoldable pub get_level_mask : Cell → ℕ
unfolding level_mask_of
get_level_mask c = (level_mask_of c).mask

-- `self.depths[level.min(3)]`
unfoldable pub get_depth : Cell → ℕ → ℕ
unfolding at_level
get_depth (cell d n rs t m h p) level = at_level p (min level 3)

unfoldable pub get_hash : Cell → ℕ → TonHash
unfolding at_level
get_hash (cell d n rs t m h p) level = at_level h (min level 3)

unfoldable pub cell_depth : Cell → ℕ
unfolding get_depth
cell_depth c = get_depth c max_level

unfoldable pub cell_hash : Cell → TonHash
unfolding get_hash
cell_hash c = get_hash c max_level

unfoldable pub is_ordinary : CellType → Bool
is_ordinary ordinary = true
is_ordinary _ = false

unfoldable pub is_pruned : CellType → Bool
is_pruned pruned_branch = true
is_pruned _ = false

unfoldable pub is_merkle : CellType → Bool
is_merkle merkle_proof = true
is_merkle merkle_update = true
is_merkle _ = false

-- `self.cell_type != CellType::Ordinary`
unfoldable pub is_exotic : Cell → Bool
unfolding cell_type is_ordinary
is_exotic c = if is_ordinary (cell_type c) then false else true

found : {A : Type 0} → TonCellError → Option A → Result A
found e (some a) = ok a
found e none = err e

unfoldable pub reference : Cell → ℕ → Result Cell
unfolding references found
reference c idx = found (invalid_index idx (length (references c))) (get_elem? (references c) idx)

unfoldable pub expect_reference_count : Cell → ℕ → Result (Unit {0})
unfolding references
expect_reference_count c expected_refs =
    if length (references c) == expected_refs then ok tt else err cell_parser_error
