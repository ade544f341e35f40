-- ===== src/CellType/Resolve.antt =====
-- src/cell/cell_type.rs: the hashes and depths that a pruned branch carries, and the four entries
-- that a cell keeps.
use tonlib_rs.Prelude.{ℕ, zero, suc, List, [], ◌∷◌, ◌==◌, if◌then◌else◌, length, get_elem?}
use tonlib_rs.Prelude.Outcome.{
  cell_builder_error, Result, ok, bind, index, slice, Action, ◌>>=◌, pure, io, result_of,
}
use tonlib_rs.Libs.{Libs}
use tonlib_rs.LevelMask.{LevelMask, level, hash_index, apply}
use tonlib_rs.Cell.{CellType, TonHash, Levels, levels, is_pruned}
use tonlib_rs.CellType.{is_config_proof}

-- `struct Pruned`
pub record Pruned : Type 0 where
  pub hash : TonHash
  pub depth : ℕ

unfoldable pub zip_pruned : List TonHash → List ℕ → List Pruned
zip_pruned (h ∷ hs) (d ∷ ds) = record { hash = h; depth = d } ∷ zip_pruned hs ds
zip_pruned _ _ = []

module _ (libs : Libs) where
  open libs.byte_reader use {Reader, endian, read, read_to_vec}

  unfoldable pub read_hashes : ℕ → Action Reader (List TonHash)
  read_hashes zero = pure []
  read_hashes (suc n) = do
    hash ← io cell_builder_error (read_to_vec 32)
    hashes ← read_hashes n
    pure (hash ∷ hashes)

  unfoldable pub read_depths : ℕ → Action Reader (List ℕ)
  read_depths zero = pure []
  read_depths (suc n) = do
    depth ← io cell_builder_error (read 2)
    depths ← read_depths n
    pure (depth ∷ depths)

  unfoldable pub pruned : CellType → List ℕ → ℕ → LevelMask → Result (List Pruned)
  unfolding read_hashes read_depths zip_pruned
  pruned t data' bit_len l =
      let current_index = if is_config_proof t bit_len then 1 else 2 in
      let read_all : Action Reader (List Pruned) = do
        hashes ← read_hashes (level l)
        depths ← read_depths (level l)
        pure (zip_pruned hashes depths)
      in bind (slice current_index (length data') data')
        (λ tail. result_of (read_all (endian tail)))

  -- One round of the loop `for i in 0..4`.
  unfoldable pub resolve_at :
      CellType → List TonHash → List ℕ → List ℕ → ℕ → LevelMask → ℕ → Result (TonHash × ℕ)
  unfolding pruned
  resolve_at t hashes depths data' bit_len l i =
      let hash_index_i = hash_index (apply l i) in
      let own =
        bind (index (get_elem? hashes 0))
          (λ h. bind (index (get_elem? depths 0)) (λ d. ok (h, d))) in
      let stored =
        bind (pruned t data' bit_len l)
          (λ ps. bind (index (get_elem? ps hash_index_i)) (λ p. ok (p.hash, p.depth))) in
      let computed =
        bind (index (get_elem? hashes hash_index_i))
          (λ h. bind (index (get_elem? depths hash_index_i)) (λ d. ok (h, d))) in
      if is_pruned t then (if hash_index_i == hash_index l then own else stored) else computed

  unfoldable pub resolve_hashes_and_depths :
      CellType → List TonHash → List ℕ → List ℕ → ℕ → LevelMask → Result (Levels TonHash × Levels ℕ)
  unfolding resolve_at
  resolve_hashes_and_depths t hashes depths data' bit_len l =
      let at = resolve_at t hashes depths data' bit_len l in
      bind (at 0) λ r0. bind (at 1) λ r1.
        bind (at 2)
          λ r2. bind (at 3) λ r3. ok (levels r0.0 r1.0 r2.0 r3.0, levels r0.1 r1.1 r2.1 r3.1)
