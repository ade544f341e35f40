-- ===== src/Cell/Equal.antt =====
-- The derived `PartialEq` and `Default` of `Cell` in src/cell.rs, and `DEFAULT_CELL_HASH` of
-- src/types.rs.
use tonlib_rs.Prelude.{ℕ, [], ◌∷◌, Bool, true, false, ◌==◌, ◌&&◌}
use tonlib_rs.CellType.{bytes_eq}
use tonlib_rs.Cell.{
  Cell, cell, Refs, nil, cons, CellType, ordinary, pruned_branch, library, merkle_proof,
  merkle_update, Levels, levels, TonHash,
}

type_eq : CellType → CellType → Bool
type_eq ordinary ordinary = true
type_eq pruned_branch pruned_branch = true
type_eq library library = true
type_eq merkle_proof merkle_proof = true
type_eq merkle_update merkle_update = true
type_eq _ _ = false

levels_eq : {A : Type 0} → (A → A → Bool) → Levels A → Levels A → Bool
levels_eq eq (levels a b c d) (levels a' b' c' d') = eq a a' && (eq b b' && (eq c c' && eq d d'))

number_eq : ℕ → ℕ → Bool
number_eq a b = a == b

unfoldable mutual
  unfolding type_eq levels_eq number_eq bytes_eq

  pub cell_eq : Cell → Cell → Bool
  cell_eq (cell d n rs t m h p) (cell d' n' rs' t' m' h' p') =
      bytes_eq d d'
      && (n == n'
          && (refs_eq rs rs'
              && (type_eq t t'
                  && (m.mask == m'.mask && (levels_eq bytes_eq h h' && levels_eq number_eq p p')))))

  pub refs_eq : Refs → Refs → Bool
  refs_eq nil nil = true
  refs_eq (cons c rs) (cons c' rs') = cell_eq c c' && refs_eq rs rs'
  refs_eq _ _ = false

-- `DEFAULT_CELL_HASH`
abbrev pub default_cell_hash : TonHash
default_cell_hash =
    150 ∷ 162 ∷ 150 ∷ 210 ∷ 36 ∷ 242 ∷ 133 ∷ 198 ∷ 123 ∷ 238 ∷ 147 ∷ 195 ∷ 15 ∷ 138 ∷ 48 ∷ 145 ∷ 87
    ∷ 240 ∷ 218 ∷ 163 ∷ 93 ∷ 197 ∷ 184 ∷ 126 ∷ 65 ∷ 11 ∷ 120 ∷ 99 ∷ 10 ∷ 9 ∷ 207 ∷ 199 ∷ []

-- `Cell::default()`, and `EMPTY_ARC_CELL`
unfoldable pub empty_cell : Cell
empty_cell =
    let h = default_cell_hash in
    cell [] 0 nil ordinary (record { mask = 0 }) (levels h h h h) (levels 0 0 0 0)
