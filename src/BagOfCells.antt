-- ===== src/BagOfCells.antt =====
-- src/cell/bag_of_cells.rs: a bag of cells with the cells themselves as roots, and its parser.
pub mod Index
pub mod Entries
pub mod Order
pub mod Verify
pub mod Levels
pub mod Reached
pub mod Sort
pub mod Numbered
pub mod Positions
pub mod Rebuild
pub mod RoundTrip
use tonlib_rs.Prelude.{
  ℕ, suc, ◌+◌, ◌-◌, List, [], ◌∷◌, ◌++◌, Bool, ◌==◌, ltb, leb, if◌then◌else◌, length, get_elem?,
  Option, none, some,
}
use tonlib_rs.Prelude.Outcome.{
  boc_deserialization_error, cell_parser_error, Result, ok, err, panic, bind, index,
}
use tonlib_rs.Libs.{Libs}
use tonlib_rs.Cell.{Cell}
use tonlib_rs.Cell.New
use tonlib_rs.RawBoc.{RawCell, RawBagOfCells}
use tonlib_rs.RawBoc.Parse as Raw

-- `BagOfCells`
pub record BagOfCells : Type 0 where
  pub roots : List Cell

unfoldable pub new : List Cell → BagOfCells
new roots = record { roots = roots }

unfoldable pub from_root : Cell → BagOfCells
from_root root = record { roots = root ∷ [] }

unfoldable pub add_root : BagOfCells → Cell → BagOfCells
add_root boc root = record { roots = boc.roots ++ (root ∷ []) }

unfoldable pub num_roots : BagOfCells → ℕ
num_roots boc = length boc.roots

or_missing : Option Cell → Result Cell
or_missing (some c) = ok c
or_missing none = err boc_deserialization_error

unfoldable pub root : BagOfCells → ℕ → Result Cell
unfolding or_missing
root boc idx = or_missing (get_elem? boc.roots idx)

unfoldable pub single_root : BagOfCells → Result Cell
single_root boc =
    if length boc.roots == 1 then index (get_elem? boc.roots 0) else err cell_parser_error

-- `cells[num_cells - 1 - r]`; the difference underflows where `r` is too large.
unfoldable pub cell_at : ℕ → List Cell → ℕ → Result Cell
cell_at num_cells cells r =
    if ltb r num_cells then index (get_elem? cells (num_cells - 1 - r)) else panic

-- The loop over `raw_cell.references`
unfoldable pub take_references : ℕ → ℕ → List Cell → List ℕ → Result (List Cell)
unfolding cell_at
take_references num_cells cell_index cells [] = ok []
take_references num_cells cell_index cells (r ∷ rs) =
    let taken =
      bind (cell_at num_cells cells r)
        (λ c. bind (take_references num_cells cell_index cells rs) (λ cs. ok (c ∷ cs))) in
    if leb r cell_index then err boc_deserialization_error else taken

unfoldable pub at_roots : ℕ → List Cell → List ℕ → Result (List Cell)
unfolding cell_at
at_roots num_cells cells [] = ok []
at_roots num_cells cells (r ∷ rs) =
    bind (cell_at num_cells cells r) λ c. bind (at_roots num_cells cells rs) λ cs. ok (c ∷ cs)

-- `.map_boc_deserialization_error()`
abbrev pub as_deserialization : Result Cell → Result Cell
as_deserialization (ok c) = ok c
as_deserialization (err e) = err boc_deserialization_error
as_deserialization panic = panic

module _ (libs : Libs) where
  -- The loop over the cells from the last to the first: the cells behind `cell_index` are read first.
  unfoldable pub parse_cells : ℕ → ℕ → List RawCell → Result (List Cell)
  unfolding take_references
  parse_cells num_cells cell_index [] = ok []
  parse_cells num_cells cell_index (raw ∷ raws) =
      bind (parse_cells num_cells (suc cell_index) raws) λ cells.
        bind (take_references num_cells cell_index cells raw.references) λ references.
          bind
            (as_deserialization (New.new libs raw.data_bytes raw.bit_len references raw.is_exotic))
            λ c. ok (cells ++ (c ∷ []))

  -- What `parse` does with the raw bag.
  unfoldable pub from_raw : RawBagOfCells → Result BagOfCells
  unfolding parse_cells at_roots
  from_raw raw = bind (parse_cells (length raw.cells) 0 raw.cells) λ cells.
      bind (at_roots (length raw.cells) cells raw.roots) λ roots. ok (record { roots = roots })

  unfoldable pub parse : List ℕ → Result BagOfCells
  unfolding from_raw
  parse serial = bind (Raw.parse libs serial) from_raw
