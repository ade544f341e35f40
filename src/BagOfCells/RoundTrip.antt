-- ===== src/BagOfCells/RoundTrip.antt =====
-- `BagOfCells::serialize` and `BagOfCells::parse` of src/cell/bag_of_cells.rs, one after the other.
use tonlib_rs.Prelude.{ℕ, ◌*◌, ◌^◌, ◌<◌, ◌≡◌, refl, sym, ◌∙◌, List, Bool, length, subst}
use tonlib_rs.Prelude.Outcome.{Result}
use tonlib_rs.Libs.{Libs}
use tonlib_rs.Cell.{Cell}
use tonlib_rs.RawBoc.{RawBagOfCells, num_bytes}
use tonlib_rs.RawBoc.RoundTrip.{IsRawBoc, num_bytes_fit, parse-serialize}
use tonlib_rs.BagOfCells.{BagOfCells, from_raw, parse}
use tonlib_rs.BagOfCells.Index.{
  Indexed, Iteration, convert_to_raw_boc, serialize, build_and_verify_index,
}
use tonlib_rs.BagOfCells.Numbered.{Reaches, Distinct, build_and_verify_index_ends}
use tonlib_rs.BagOfCells.Rebuild.{Made, IsProper, All-lt, rebuilt}
use tonlib_rs.BagOfCells.Sort.{length-sort}

-- The counts fit the sizes that the format has for them.
pub record Counts (order : Iteration) (boc : BagOfCells) : Type 0 where
  pub cell_count :
      (m : List Indexed) → build_and_verify_index order boc.roots ≡ Result.ok m → length m < 2 ^ 32
  pub root_count :
      (m : List Indexed)
      → build_and_verify_index order boc.roots ≡ Result.ok m
      → length boc.roots < 2 ^ (8 * num_bytes (length m))

module _ (libs : Libs) (order : Iteration) (boc : BagOfCells) where
  -- The raw bag of a bag of proper cells, and what is made of it.
  record Converted : Type 0 where
    raw : RawBagOfCells
    raw_eq : convert_to_raw_boc order boc ≡ Result.ok raw
    raw_proper : IsRawBoc raw
    back_eq : from_raw libs raw ≡ Result.ok boc

  converted :
      Distinct boc.roots
      → ((c : Cell) → Reaches boc.roots c → Made libs c)
      → ((c : Cell) → Reaches boc.roots c → IsProper c)
      → Counts order boc
      → Converted
  unfolding convert_to_raw_boc
  converted distinct made proper counts =
      let (m, e, ix) = build_and_verify_index_ends boc.roots distinct order in
      let r = rebuilt libs boc.roots distinct made m ix in
      let size : length r.raws ≡ length m = r.raws_count ∙ length-sort m in
      let few : length r.raws < 2 ^ 32 =
        subst (λ n. n < 2 ^ 32) (sym size) (counts.cell_count m e) in
      let fit = num_bytes_fit (length r.raws) few in
      let fit' = subst (λ n. n < 2 ^ (8 * num_bytes (length r.raws))) r.raws_count fit in
      record {
        raw = record { cells = r.raws; roots = r.root_indices };
        raw_eq = rw e (rw r.raws_eq (rw r.roots_eq refl));
        raw_proper = record {
          cell_count = few;
          root_count = rw (r.roots_count, size) (counts.root_count m e);
          roots_fit = All-lt _ _ r.root_indices fit' r.roots_below;
          cells_proper = r.proper (num_bytes (length r.raws)) fit' proper;
        };
        back_eq = r.back_eq;
      }

  -- A bag whose reachable cells are proper, made by `Cell::new` and told apart by their hashes is
  -- serialized, with and without a checksum, and `parse` reads the bytes back as exactly that bag,
  -- as long as there are fewer than 2 ^ 32 cells and the number of roots fits the size that the
  -- number of cells gives. Proper: at most 1023 bits in the bytes that they need, zeros behind
  -- them, at most four references.
  pub parse-serialize_cells :
      (has_crc32 : Bool)
      → Distinct boc.roots
      → ((c : Cell) → Reaches boc.roots c → Made libs c)
      → ((c : Cell) → Reaches boc.roots c → IsProper c)
      → Counts order boc
      → (bytes : List ℕ) × (serialize order libs boc has_crc32 ≡ Result.ok bytes)
        × (parse libs bytes ≡ Result.ok boc)
  unfolding serialize parse
  parse-serialize_cells has_crc32 distinct made proper counts =
      let c = converted distinct made proper counts in
      let (bytes, written, read) = parse-serialize libs c.raw has_crc32 c.raw_proper in
      (bytes, rw c.raw_eq written, rw read c.back_eq)
