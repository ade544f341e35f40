-- ===== src/Cell/Ordinary.antt =====
-- `Cell::new` of src/cell.rs for an ordinary cell whose references all have level 0.
use tonlib_rs.Prelude.{ℕ, ◌+◌, ◌/◌, ◌^◌, ◌<◌, ◌≡◌, refl, List, [], ◌∷◌, false, length, All, arith}
use tonlib_rs.Prelude.Bits.{IsByte}
use tonlib_rs.Prelude.Outcome.{Result}
use tonlib_rs.Libs.{Libs}
use tonlib_rs.LevelMask.{
  LevelMask, apply, apply_or, hash_count, hash_index, level, is_significant, count_ones, bit_length,
}
use tonlib_rs.Cell.{
  Cell, cell, ordinary, levels, of_list, level_mask_of, get_hash, get_depth, at_level, is_pruned,
}
use tonlib_rs.CellType.{child_depth, child_hash, validate, level_mask, fold_masks}
use tonlib_rs.CellType.Resolve.{resolve_hashes_and_depths, resolve_at}
use tonlib_rs.Cell.New.{
  new, calculate_hashes_and_depths, hash_loop, significant_levels, depth_at, determine_type,
}
use tonlib_rs.Cell.Described.{IsChild, repr, get_repr_for_data_lem}

-- The mask of level 0.
abbrev pub no_levels : LevelMask
no_levels = record { mask = 0 }

-- A cell of level 0, with a `u16` depth and a hash of 32 bytes.
pub record IsPlain (c : Cell) : Type 0 where
  pub mask_eq : level_mask_of c ≡ no_levels
  pub depth_u16 : get_depth c 0 < 2 ^ 16
  pub hash_bytes : All IsByte (get_hash c 0)
  pub hash_length : length (get_hash c 0) ≡ 32

children : (cs : List Cell) → All IsPlain cs → All (IsChild ordinary 0) cs
unfolding child_depth child_hash
children [] h = tt
children (c ∷ cs) h =
    (record { depth_u16 = h.0.depth_u16; hash_bytes = h.0.hash_bytes }, children cs h.1)

fold_masks-plain : (cs : List Cell) → All IsPlain cs → fold_masks no_levels cs ≡ no_levels
unfolding fold_masks apply_or
fold_masks-plain [] h = refl
fold_masks-plain (c ∷ cs) h = rw h.0.mask_eq (fold_masks-plain cs h.1)

depth_at-u16 : (cs : List Cell) → depth_at ordinary 0 cs < 2 ^ 16
unfolding depth_at
depth_at-u16 [] = omega arith
depth_at-u16 (c ∷ cs) = omega arith

module _ (libs : Libs) where
  open libs.digests use {sha256}

  -- The cell that the constructor is to return: its one hash is that of the representation, and its
  -- one depth is one more than the greatest of the references.
  unfoldable pub plain_cell : List ℕ → ℕ → List Cell → Cell
  unfolding repr depth_at of_list
  plain_cell data' n refs =
      let h = sha256 (repr (data', n) (data', n) refs no_levels 0 ordinary) in
      let d = depth_at ordinary 0 refs in
      cell data' n (of_list refs) ordinary no_levels (levels h h h h) (levels d d d d)

  loop_plain :
      (data' : List ℕ) (n : ℕ) (refs : List Cell)
      → All IsByte data'
      → length data' ≡ (n + 7) / 8
      → All IsPlain refs
      → hash_loop libs ordinary data' n refs no_levels 0 (0 ∷ []) 0 [] []
        ≡ Result.ok (
          sha256 (repr (data', n) (data', n) refs no_levels 0 ordinary) ∷ [],
          depth_at ordinary 0 refs ∷ [],
        )
  unfolding hash_loop
  loop_plain data' n refs hd hl hr =
      rw
        (get_repr_for_data_lem libs data' n data' n refs no_levels 0 ordinary hd hl
          (children refs hr))
        refl

  resolve_plain :
      (data' : List ℕ) (n : ℕ) (h : List ℕ) (d : ℕ)
      → resolve_hashes_and_depths libs ordinary (h ∷ []) (d ∷ []) data' n no_levels
        ≡ Result.ok (levels h h h h, levels d d d d)
  unfolding resolve_hashes_and_depths resolve_at hash_index count_ones apply is_pruned
  resolve_plain data' n h d = refl

  calculate_plain :
      (data' : List ℕ) (n : ℕ) (refs : List Cell) (h : List ℕ) (d : ℕ)
      → hash_loop libs ordinary data' n refs no_levels 0 (0 ∷ []) 0 [] []
        ≡ Result.ok (h ∷ [], d ∷ [])
      → calculate_hashes_and_depths libs ordinary data' n refs no_levels
        ≡ Result.ok (levels h h h h, levels d d d d)
  unfolding calculate_hashes_and_depths hash_count hash_index count_ones level bit_length
      significant_levels is_significant is_pruned
  calculate_plain data' n refs h d e = rw e (resolve_plain data' n h d)

  -- `Cell::new` of an ordinary cell, for data of just the bytes that its bits need and references
  -- of level 0 with `u16` depths and hashes of 32 bytes, returns the cell whose hash at every level
  -- is the SHA-256 of its representation and whose depth is that of `plain_cell`.
  pub new-plain_cell :
      (data' : List ℕ) (n : ℕ) (refs : List Cell)
      → All IsByte data'
      → length data' ≡ (n + 7) / 8
      → All IsPlain refs
      → new libs data' n refs false ≡ Result.ok (plain_cell data' n refs)
  unfolding new plain_cell determine_type validate level_mask
  new-plain_cell data' n refs hd hl hr =
      rw (fold_masks-plain refs hr)
        (rw (calculate_plain data' n refs _ _ (loop_plain data' n refs hd hl hr)) refl)

  -- This cell is again of level 0, with a `u16` depth and a hash of 32 bytes.
  pub plain_cell-IsPlain :
      (data' : List ℕ) (n : ℕ) (refs : List Cell) → IsPlain (plain_cell data' n refs)
  unfolding plain_cell level_mask_of get_depth get_hash at_level
  plain_cell-IsPlain data' n refs = record {
    mask_eq = refl;
    depth_u16 = depth_at-u16 refs;
    hash_bytes = libs.digests.sha256-IsByte _;
    hash_length = libs.digests.length-sha256 _;
  }
