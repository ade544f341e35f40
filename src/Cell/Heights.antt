-- ===== src/Cell/Heights.antt =====
-- The depth that `calculate_hashes_and_depths` of src/cell.rs gives to a cell at a level.
use tonlib_rs.Prelude.{ℕ, max, ◌+◌, ◌^◌, ◌<◌, ◌≡◌, refl, ◌∙◌, List, [], ◌∷◌, All, arith}
use tonlib_rs.Cell.{
  Cell, CellType, ordinary, pruned_branch, library, merkle_proof, merkle_update, get_depth,
  get_hash, is_merkle,
}
use tonlib_rs.CellType.{child_depth, child_hash}
use tonlib_rs.Cell.New.{depth_at, fold_depths}

-- The level at which a cell sees its references: a Merkle cell takes off one level.
unfoldable pub seen_level : CellType → ℕ → ℕ
seen_level ordinary level = level
seen_level pruned_branch level = level
seen_level library level = level
seen_level merkle_proof level = level + 1
seen_level merkle_update level = level + 1

pub child_depth-seen_level :
    (t : CellType) (c : Cell) (level : ℕ) → child_depth t c level ≡ get_depth c (seen_level t level)
unfolding child_depth is_merkle seen_level
child_depth-seen_level ordinary c level = refl
child_depth-seen_level pruned_branch c level = refl
child_depth-seen_level library c level = refl
child_depth-seen_level merkle_proof c level = refl
child_depth-seen_level merkle_update c level = refl

pub child_hash-seen_level :
    (t : CellType) (c : Cell) (level : ℕ) → child_hash t c level ≡ get_hash c (seen_level t level)
unfolding child_hash is_merkle seen_level
child_hash-seen_level ordinary c level = refl
child_hash-seen_level pruned_branch c level = refl
child_hash-seen_level library c level = refl
child_hash-seen_level merkle_proof c level = refl
child_hash-seen_level merkle_update c level = refl

-- The greatest depth of the cells at a level, and that of a cell above them.
unfoldable pub greatest : ℕ → List Cell → ℕ
greatest level [] = 0
greatest level (c ∷ cs) = max (get_depth c level) (greatest level cs)

unfoldable pub height : ℕ → List Cell → ℕ
unfolding greatest
height level [] = 0
height level (c ∷ cs) = greatest level (c ∷ cs) + 1

fold_depths-greatest :
    (t : CellType) (level acc : ℕ) (cs : List Cell)
    → fold_depths t level acc cs ≡ max acc (greatest (seen_level t level) cs)
unfolding fold_depths greatest
fold_depths-greatest t level acc [] = ground arith
fold_depths-greatest t level acc (c ∷ cs) =
    fold_depths-greatest t level (max acc (child_depth t c level)) cs
    ∙ rw (child_depth-seen_level t c level) (ground arith)

greatest-lt :
    (level : ℕ) (cs : List Cell)
    → All (λ c. get_depth c level + 1 < 2 ^ 16) cs
    → greatest level cs + 1 < 2 ^ 16
unfolding greatest
greatest-lt level [] h = omega arith
greatest-lt level (c ∷ cs) h =
    let rest = greatest-lt level cs h.1 in let first = h.0 in ground arith

pub depth_at-height :
    (t : CellType) (level : ℕ) (refs : List Cell)
    → All (λ c. get_depth c (seen_level t level) + 1 < 2 ^ 16) refs
    → depth_at t level refs ≡ height (seen_level t level) refs
unfolding depth_at height
depth_at-height t level [] h = refl
depth_at-height t level (c ∷ cs) h =
    let e = fold_depths-greatest t level 0 (c ∷ cs) in
    let lt = greatest-lt (seen_level t level) (c ∷ cs) h in omega (arith, e, lt)
