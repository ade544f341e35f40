-- ===== src/Cell/New.antt =====
-- src/cell.rs: `Cell::new`, with the hashes and depths of the significant levels.
use tonlib_rs.Prelude.{
  ℕ, zero, suc, ◌+◌, ◌-◌, ◌%◌, ◌^◌, List, [], ◌∷◌, ◌++◌, Option, none, some, Bool, true, false,
  ◌==◌, ltb, if◌then◌else◌, get_elem?, max,
}
use tonlib_rs.Prelude.Outcome.{internal_error, Result, ok, err, bind}
use tonlib_rs.Libs.{Libs}
use tonlib_rs.LevelMask.{LevelMask, level, hash_count, is_significant}
use tonlib_rs.Cell.{Cell, cell, CellType, ordinary, TonHash, Levels, is_pruned, of_list}
use tonlib_rs.Cell.Repr.{get_repr_for_data}
use tonlib_rs.CellType.{determine_exotic_cell_type, validate, level_mask, child_depth}
use tonlib_rs.CellType.Resolve.{resolve_hashes_and_depths}

-- `(i..).filter(|i| level_mask.is_significant(i))` over `count` levels from `i` on
unfoldable pub significant_levels : LevelMask → ℕ → ℕ → List ℕ
unfolding is_significant
significant_levels l i zero = []
significant_levels l i (suc count) =
    let more = significant_levels l (i + 1) count in if is_significant l i then i ∷ more else more

unfoldable pub fold_depths : CellType → ℕ → ℕ → List Cell → ℕ
unfolding child_depth
fold_depths t level acc [] = acc
fold_depths t level acc (ref ∷ refs) = fold_depths t level (max acc (child_depth t ref level)) refs

-- The depth is a `u16`.
unfoldable pub depth_at : CellType → ℕ → List Cell → ℕ
unfolding fold_depths
depth_at t level [] = 0
depth_at t level (ref ∷ refs) = (fold_depths t level 0 (ref ∷ refs) + 1) % 2 ^ 16

unfoldable pub previous_data : Option TonHash → Result (List ℕ × ℕ)
previous_data (some hash) = ok (hash, 256)
previous_data none = err internal_error

unfoldable pub determine_type : List ℕ → Bool → Result CellType
unfolding determine_exotic_cell_type
determine_type data' true = determine_exotic_cell_type data'
determine_type data' false = ok ordinary

module _ (libs : Libs) where
  open libs.digests use {sha256}

  -- The loop over the significant levels; `hash_i` counts them.
  unfoldable pub hash_loop :
      CellType
      → List ℕ
      → ℕ
      → List Cell
      → LevelMask
      → ℕ
      → List ℕ
      → ℕ
      → List TonHash
      → List ℕ
      → Result (List TonHash × List ℕ)
  unfolding depth_at get_repr_for_data previous_data
  hash_loop t data' bit_len refs l offset [] hash_i hashes depths = ok (hashes, depths)
  hash_loop t data' bit_len refs l offset (level_i ∷ more) hash_i hashes depths =
      let skipped = hash_loop t data' bit_len refs l offset more (hash_i + 1) hashes depths in
      let current =
        if hash_i == offset
        then ok (data', bit_len)
        else previous_data (get_elem? hashes (hash_i - offset - 1)) in
      let hashed = bind current λ cur.
        bind (get_repr_for_data libs (data', bit_len) cur refs l level_i t) λ repr.
          hash_loop t data' bit_len refs l offset more (hash_i + 1) (hashes ++ (sha256 repr ∷ []))
            (depths ++ (depth_at t level_i refs ∷ [])) in
      if ltb hash_i offset then skipped else hashed

  unfoldable pub calculate_hashes_and_depths :
      CellType → List ℕ → ℕ → List Cell → LevelMask → Result (Levels TonHash × Levels ℕ)
  unfolding hash_loop significant_levels resolve_hashes_and_depths
  calculate_hashes_and_depths t data' bit_len refs l =
      let total = hash_count l in
      let count = if is_pruned t then 1 else total in
      bind
        (hash_loop t data' bit_len refs l (total - count) (significant_levels l 0 (level l + 1)) 0
          [] [])
        λ r. resolve_hashes_and_depths libs t r.0 r.1 data' bit_len l

  -- `Cell::new`
  unfoldable pub new : List ℕ → ℕ → List Cell → Bool → Result Cell
  unfolding determine_type calculate_hashes_and_depths of_list
  new data' bit_len refs is_exotic = bind (determine_type data' is_exotic) λ t.
      bind (validate t data' bit_len refs) λ _. bind (level_mask t data' bit_len refs) λ l.
        bind (calculate_hashes_and_depths t data' bit_len refs l)
          λ r. ok (cell data' bit_len (of_list refs) t l r.0 r.1)
