-- ===== src/Tests/Cells.antt =====
-- Cells and what is hashed of them, at concrete values.
use tonlib_rs.Prelude.{ℕ, ◌<◌, ◌≤◌, ◌^◌, ◌≡◌, refl, List, [], ◌∷◌, ◌++◌, false, arith}
use tonlib_rs.Prelude.Bits.{unpack}
use tonlib_rs.Prelude.Outcome.{Result, ok}
use tonlib_rs.Cell.{Cell, merkle_proof, get_depth, get_hash, at_level}
use tonlib_rs.Cell.New
use tonlib_rs.Cell.New.{depth_at}
use tonlib_rs.Cell.Repr.{get_repr_for_data}
use tonlib_rs.Cell.Standard.{
  IsSeen, d1, d2, seen_depths, seen_hashes, tagged_bits, get_repr_for_data-standard,
}
use tonlib_rs.Cell.Ordinary.{plain_cell, new-plain_cell, plain_cell-IsPlain}
use tonlib_rs.Cell.Heights.{seen_level}
use tonlib_rs.Cell.Trees.{Forest, leaf, node, Stands, layers, grow, grow-Stands}
use tonlib_rs.LevelMask.{LevelMask, level}
use tonlib_rs.LevelMask.Laws.{level-least}
use tonlib_rs.Tests.Crates.{crates}

abbrev pub empty_cell : Cell
empty_cell = plain_cell crates [] 0 []

new-plain_cell_example :
    New.new crates (0xa0 ∷ []) 4 (empty_cell ∷ []) false
    ≡ Result.ok (plain_cell crates (0xa0 ∷ []) 4 (empty_cell ∷ []))
new-plain_cell_example =
    new-plain_cell crates (0xa0 ∷ []) 4 (empty_cell ∷ []) (omega arith) refl
      (plain_cell-IsPlain crates [] 0 [], tt)

abbrev mask_five : LevelMask
mask_five = record { mask = 5 }

-- A cell of four bits over the empty cell.
abbrev two_layers : Forest
two_layers = node (0xa0 ∷ []) 4 (node [] 0 leaf leaf) leaf

grow-Stands_example : (cs : List Cell) × (grow crates two_layers ≡ ok cs) × Stands two_layers cs
unfolding layers
grow-Stands_example =
    grow-Stands crates two_layers ((omega arith, tt), refl, (tt, refl, tt, tt), tt) (omega arith)

empty_IsSeen : IsSeen 1 empty_cell
unfolding plain_cell get_depth get_hash at_level depth_at
empty_IsSeen = record {
  depth_u16 = omega arith;
  hash_bytes = (plain_cell-IsPlain crates [] 0 []).hash_bytes;
}

-- A Merkle cell sees its reference at the next level.
get_repr_for_data-standard_example :
    (content : List ℕ) × (get_repr_for_data crates
        (0xa0 ∷ [], 4)
        (0xa0 ∷ [], 4)
        (empty_cell ∷ [])
        mask_five
        0
        merkle_proof
      ≡ Result.ok (
          d1 merkle_proof (empty_cell ∷ []) mask_five 0
          ∷ d2 4
          ∷ (content ++ (seen_depths 1 (empty_cell ∷ []) ++ seen_hashes 1 (empty_cell ∷ [])))))
    × (unpack content ≡ tagged_bits 4 (unpack (0xa0 ∷ [])))
unfolding seen_level
get_repr_for_data-standard_example =
    get_repr_for_data-standard crates (0xa0 ∷ []) 4 (0xa0 ∷ []) 4 (empty_cell ∷ []) mask_five 0
      merkle_proof refl (omega arith) (omega arith, tt) refl (omega arith) (empty_IsSeen, tt)
      (omega arith) (omega arith)

level-least_example : (5 < 2 ^ level mask_five) × ((k : ℕ) → 5 < 2 ^ k → level mask_five ≤ k)
level-least_example = level-least mask_five (omega arith)
