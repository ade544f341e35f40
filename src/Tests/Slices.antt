-- ===== src/Tests/Slices.antt =====
-- A slice of a cell with one reference.
use tonlib_rs.Prelude.{◌≤◌, ◌≡◌, ap, length, arith}
use tonlib_rs.Cell.{bit_len, references}
use tonlib_rs.Cell.Ordinary.{plain_cell}
use tonlib_rs.Slice.{CellSlice}
use tonlib_rs.Slice.Bounds.{Part, new-reference}
use tonlib_rs.Tests.BagsOfCells.{parent_cell, parent_references}

four_bits : 3 ≤ bit_len parent_cell
unfolding plain_cell bit_len
four_bits = omega arith

one_reference : length (references parent_cell) ≡ 1
one_reference = ap length parent_references

new-reference_example : (s : CellSlice) × Part parent_cell 1 3 0 1 s
new-reference_example =
    new-reference parent_cell 1 3 0 1 (omega arith) four_bits (omega arith)
      (omega (arith, one_reference)) (omega (arith, one_reference))
