-- ===== src/Tests/BagsOfCells.antt =====
-- A bag of two cells, numbered, serialized and read back.
use tonlib_rs.Prelude.{
  ℕ, some, replicate, ◌^◌, ◌*◌, ◌<◌, ◌≡◌, refl, sym, ap, ◌∙◌, List, [], ◌∷◌, true, length, inl, inr,
  ◌⊎◌, arith, subst,
}
use mathlib.Core.List.{Memᴰ}
use mathlib.Core.List.Memᴰ
use tonlib_rs.Prelude.Outcome.{Result}
use tonlib_rs.Cell.{
  Cell, cell_hash, references, of_list, to_list, get_hash, at_level, data_of, bit_len, is_exotic,
  cell_type, is_ordinary,
}
use tonlib_rs.Cell.Ordinary.{plain_cell, new-plain_cell, plain_cell-IsPlain}
use tonlib_rs.RawBoc.{RawBagOfCells, num_bytes}
use tonlib_rs.LevelMask.{bit_length}
use tonlib_rs.BagOfCells.{BagOfCells, from_raw, parse}
use tonlib_rs.BagOfCells.Index.{
  Indexed, Iteration, convert_to_raw_boc, serialize, build_and_verify_index, index_of,
}
use tonlib_rs.BagOfCells.Numbered.{
  Reaches, top, down, Distinct, Index, build_and_verify_index_ends, numbering, references_after,
}
use tonlib_rs.BagOfCells.Rebuild.{Made, IsProper, from_raw-convert_to_raw_boc}
use tonlib_rs.BagOfCells.RoundTrip.{Counts, parse-serialize_cells}
use tonlib_rs.Tests.Crates.{crates}
use tonlib_rs.Tests.Cells.{empty_cell}
use tonlib_rs.Tests.RawBocs.{only_byte}
use tonlib_rs.Cell.Described.{repr}
use tonlib_rs.Cell.Data.{data_repr}
use tonlib_rs.CellType
use tonlib_rs.CellType.{bytes_eq}

-- `values()` in the order of insertion.
abbrev in_order : Iteration
in_order = record {
  values = λ m. m;
  mem-values = λ m e. (λ x. x, λ x. x);
  length-values = λ m. refl;
}

abbrev pub parent_cell : Cell
parent_cell = plain_cell crates (0xa0 ∷ []) 4 (empty_cell ∷ [])

abbrev two_cells : BagOfCells
two_cells = record { roots = parent_cell ∷ [] }

pub parent_references : references parent_cell ≡ empty_cell ∷ []
unfolding plain_cell of_list to_list references
parent_references = refl

pub child_references : references empty_cell ≡ []
unfolding plain_cell of_list to_list references
child_references = refl

reached : (c : Cell) → Reaches two_cells.roots c → (c ≡ parent_cell) ⊎ (c ≡ empty_cell)
reached c (top mem) = inl (Memᴰ.eq_of_singleton mem)
reached c (down {c = d} p mem) = elim (reached d p) [
  | inl e ↦ inr (Memᴰ.eq_of_singleton (subst (Memᴰ c) (ap references e ∙ parent_references) mem))
  | inr e ↦ absurd (Memᴰ.not-nil (subst (Memᴰ c) (ap references e ∙ child_references) mem))
]

parent_hash : cell_hash parent_cell ≡ replicate 32 37
unfolding plain_cell cell_hash get_hash at_level repr data_repr CellType.child_hash
parent_hash = refl

child_hash : cell_hash empty_cell ≡ replicate 32 2
unfolding plain_cell cell_hash get_hash at_level repr data_repr
child_hash = refl

hashes_differ : cell_hash parent_cell ≡ cell_hash empty_cell → ⊥
hashes_differ e = absurd (omega (arith, ap (λ h. head_of h) (sym parent_hash ∙ e ∙ child_hash)))
  where
    head_of : List ℕ → ℕ
    head_of [] = 0
    head_of (x ∷ xs) = x

two_cells-Distinct : Distinct two_cells.roots
two_cells-Distinct a b p q e = elim (reached a p) [
  | inl x ↦ elim (reached b q) [
    | inl y ↦ x ∙ sym y
    | inr y ↦ absurd (hashes_differ (ap cell_hash (sym x) ∙ e ∙ ap cell_hash y))
  ]
  | inr x ↦ elim (reached b q) [
    | inl y ↦ absurd (hashes_differ (sym (ap cell_hash (sym x) ∙ e ∙ ap cell_hash y)))
    | inr y ↦ x ∙ sym y
  ]
]

parent-Made : Made crates parent_cell
unfolding plain_cell data_of bit_len references to_list of_list is_exotic cell_type is_ordinary
parent-Made =
    new-plain_cell crates (0xa0 ∷ []) 4 (empty_cell ∷ []) (omega arith) refl
      (plain_cell-IsPlain crates [] 0 [], tt)

pub child-Made : Made crates empty_cell
unfolding plain_cell data_of bit_len references to_list of_list is_exotic cell_type is_ordinary
child-Made = new-plain_cell crates [] 0 [] tt refl tt

two_cells-Made : (c : Cell) → Reaches two_cells.roots c → Made crates c
two_cells-Made c p = elim (reached c p) [
  | inl e ↦ subst (Made crates) (sym e) parent-Made
  | inr e ↦ subst (Made crates) (sym e) child-Made
]

parent-IsProper : IsProper parent_cell
unfolding plain_cell data_of bit_len references to_list of_list
parent-IsProper = record {
  bytes = omega arith;
  data_length = omega arith;
  bits_bound = omega arith;
  padding = λ front b nz e. let p = only_byte 0xa0 b front e in rw p refl;
  references_bound = omega arith;
}

pub child-IsProper : IsProper empty_cell
unfolding plain_cell data_of bit_len references to_list of_list
child-IsProper = record {
  bytes = tt;
  data_length = omega arith;
  bits_bound = omega arith;
  padding = λ front b nz e. absurd (nz refl);
  references_bound = omega arith;
}

two_cells-IsProper : (c : Cell) → Reaches two_cells.roots c → IsProper c
two_cells-IsProper c p = elim (reached c p) [
  | inl e ↦ subst IsProper (sym e) parent-IsProper
  | inr e ↦ subst IsProper (sym e) child-IsProper
]

-- The index of the bag.
abbrev two_indexed : List Indexed
two_indexed =
    record { cell = parent_cell; index = 0 } ∷ record { cell = empty_cell; index = 1 } ∷ []

two_cells_indexed : build_and_verify_index in_order two_cells.roots ≡ Result.ok two_indexed
unfolding build_and_verify_index plain_cell cell_hash get_hash at_level repr bytes_eq references
    to_list of_list data_repr CellType.child_hash
two_cells_indexed = refl

two_cells-Counts : Counts in_order two_cells
unfolding num_bytes bit_length
two_cells-Counts = record {
  cell_count = λ m e.
      subst (λ n. n < 2 ^ 32) (ap length (ok_same (sym two_cells_indexed ∙ e))) (omega arith);
  root_count = λ m e.
      subst (λ n. 1 < 2 ^ (8 * num_bytes n)) (ap length (ok_same (sym two_cells_indexed ∙ e)))
        (omega arith);
}
  where
    ok_same : {x y : List Indexed} → Result.ok x ≡ Result.ok y → x ≡ y
    ok_same e = cc

child_edge : Memᴰ empty_cell (references parent_cell)
child_edge = subst (Memᴰ empty_cell) (sym parent_references) (Memᴰ.head refl)

parse-serialize_cells_example :
    (bytes : List ℕ) × (serialize in_order crates two_cells true ≡ Result.ok bytes)
    × (parse crates bytes ≡ Result.ok two_cells)
parse-serialize_cells_example =
    parse-serialize_cells crates in_order two_cells true two_cells-Distinct two_cells-Made
      two_cells-IsProper two_cells-Counts

from_raw-convert_to_raw_boc_example :
    (raw : RawBagOfCells) × (convert_to_raw_boc in_order two_cells ≡ Result.ok raw)
    × (from_raw crates raw ≡ Result.ok two_cells)
from_raw-convert_to_raw_boc_example =
    from_raw-convert_to_raw_boc crates in_order two_cells two_cells-Distinct two_cells-Made

build_and_verify_index_ends_example :
    (m : List Indexed) × (build_and_verify_index in_order two_cells.roots ≡ Result.ok m)
    × Index two_cells.roots m
build_and_verify_index_ends_example =
    build_and_verify_index_ends two_cells.roots two_cells-Distinct in_order

references_after_example :
    (i j : ℕ) × (index_of (numbering two_indexed) (cell_hash parent_cell) ≡ some i)
    × (index_of (numbering two_indexed) (cell_hash empty_cell) ≡ some j)
    × (i < j)
references_after_example =
    references_after two_cells.roots two_cells-Distinct in_order two_indexed parent_cell empty_cell
      two_cells_indexed (top (Memᴰ.head refl)) child_edge
