-- ===== src/RawBoc/RoundTrip.antt =====
-- A serialized bag of cells is read back as the same bag.
use tonlib_rs.Prelude.{
  ℕ, ◌+◌, ◌*◌, ◌^◌, ◌≤◌, ◌<◌, ◌≡◌, refl, sym, ◌∙◌, List, [], ◌∷◌, ◌++◌, append-nil, append_assoc,
  Bool, length, All, All-append, arith,
}
use tonlib_rs.Prelude.Bits.{IsByte, unpack}
use tonlib_rs.Prelude.Outcome.{boc_deserialization_error, Result, io}
use tonlib_rs.Libs.{Libs}
use tonlib_rs.Libs.Writes.{writer-unpack}
use tonlib_rs.Libs.Reads.{Gets, Gets-pure, Gets-bind}
use tonlib_rs.LevelMask.Laws.{lt-pow-bit_length, bit_length-le}
use tonlib_rs.RawBoc.{
  RawCell, RawBagOfCells, put, u32, num_bytes, full_size, generic_boc_magic, write_flags,
  write_indices, write_raw_cells, write_boc, serialize, raw_cell_size,
}
use tonlib_rs.RawBoc.Parse.{
  read_body, read_boc, read_var_size, read_indices, read_index, read_cells, parse,
}
use tonlib_rs.RawBoc.Codec.{Codec, Codec-number, Codec-var_size, Codec-indices}
use tonlib_rs.RawBoc.Cells.{IsRawCell, Codec-raw_cells}
use tonlib_rs.RawBoc.Header.{header, header_fields, Codec-flags}
use tonlib_rs.RawBoc.Ends.{
  Ends, Ends-then, Ends-crc, Gets-crc, crc_bytes, crc_bytes-IsByte, whole_bytes,
}
use native.Mathlib.Nat.{pow-le-pow_right, mod-eq_of_lt, lt_of_lt_of_le, one-le-pow}

-- The counts and the indices fit the sizes that `serialize` computes, and each cell is a proper one.
pub record IsRawBoc (boc : RawBagOfCells) : Type 0 where
  pub cell_count : length boc.cells < 2 ^ 32
  pub root_count : length boc.roots < 2 ^ (8 * num_bytes (length boc.cells))
  pub roots_fit : All (λ r. r < 2 ^ (8 * num_bytes (length boc.cells))) boc.roots
  pub cells_proper : All (IsRawCell (num_bytes (length boc.cells))) boc.cells

pub num_bytes-le : (v : ℕ) → num_bytes v ≤ 4
unfolding num_bytes
num_bytes-le v = omega (arith, bit_length-le 32 v)

pub num_bytes_fit : (v : ℕ) → v < 2 ^ 32 → v < 2 ^ (8 * num_bytes v)
unfolding num_bytes
num_bytes_fit v h =
    lt_of_lt_of_le (lt-pow-bit_length 32 v h) (pow-le-pow_right {n = 2} (omega arith) (omega arith))

full_size-lt : (size acc : ℕ) (cs : List RawCell) → acc < 2 ^ 32 → full_size size acc cs < 2 ^ 32
unfolding full_size
full_size-lt size acc [] h = h
full_size-lt size acc (c ∷ cs) h =
    full_size-lt size (u32 (acc + raw_cell_size c size)) cs (omega arith)

module _ (libs : Libs) (boc : RawBagOfCells) (has_crc32 : Bool) where
  abbrev size : ℕ
  size = num_bytes (length boc.cells)

  abbrev total : ℕ
  total = full_size size 0 boc.cells

  -- The fields of the serialization, each written and read.
  record Parts : Type 0 where
    magic :
        Codec libs
          (put libs 32 32 generic_boc_magic)
          (io boc_deserialization_error (libs.byte_reader.read 4))
          generic_boc_magic
    flags :
        Codec libs
          (write_flags libs has_crc32 size)
          (io boc_deserialization_error (libs.byte_reader.read 1))
          (header has_crc32 size)
    off_bytes :
        Codec libs
          (put libs 32 8 (num_bytes total))
          (io boc_deserialization_error (libs.byte_reader.read 1))
          (num_bytes total)
    cells :
        Codec libs
          (put libs 32 (8 * size) (length boc.cells))
          (read_var_size libs size)
          (length boc.cells)
    roots :
        Codec libs
          (put libs 32 (8 * size) (length boc.roots))
          (read_var_size libs size)
          (length boc.roots)
    absent : Codec libs (put libs 32 (8 * size) 0) (read_var_size libs size) 0
    tot_cells_size :
        Codec libs
          (put libs 32 (8 * num_bytes total) total)
          (read_var_size libs (num_bytes total))
          total
    root_list :
        Codec libs
          (write_indices libs size boc.roots)
          (read_indices libs (length boc.roots) size)
          boc.roots
    cell_data :
        Codec libs
          (write_raw_cells libs boc.cells size)
          (read_cells libs (length boc.cells) size)
          boc.cells

  parts : IsRawBoc boc → Parts
  parts h =
      let s4 = num_bytes-le (length boc.cells) in
      let t4 = num_bytes-le total in
      record {
        magic = Codec-number libs 32 32 4 generic_boc_magic refl (omega arith) (omega arith);
        flags = Codec-flags libs has_crc32 size s4;
        off_bytes =
            Codec-number libs 32 8 1 (num_bytes total) refl (omega arith) (omega (arith, t4));
        cells =
            Codec-var_size libs size (length boc.cells) s4
              (num_bytes_fit (length boc.cells) h.cell_count);
        roots = Codec-var_size libs size (length boc.roots) s4 h.root_count;
        absent = Codec-var_size libs size 0 s4 (one-le-pow (8 * size) 2 (omega arith));
        tot_cells_size =
            Codec-var_size libs (num_bytes total) total t4
              (num_bytes_fit total (full_size-lt size 0 boc.cells (omega arith)));
        root_list = Codec-indices libs size boc.roots s4 h.roots_fit;
        cell_data = Codec-raw_cells libs size boc.cells s4 h.cells_proper;
      }

  -- Everything before the checksum.
  abbrev body : Parts → List ℕ
  body p =
      ((((((((p.magic.bytes ++ p.flags.bytes) ++ p.off_bytes.bytes) ++ p.cells.bytes)
                ++ p.roots.bytes)
              ++ p.absent.bytes)
            ++ p.tot_cells_size.bytes)
          ++ p.root_list.bytes)
        ++ p.cell_data.bytes)

  abbrev output : Parts → List ℕ
  output p = body p ++ crc_bytes libs has_crc32 (body p)

  body-IsByte : (p : Parts) → All IsByte (body p)
  body-IsByte p =
      let both = λ (xs ys : List ℕ) (hx : All IsByte xs) (hy : All IsByte ys).
        All-append IsByte xs ys hx hy in
      both _ _
        (both _ _
          (both _ _
            (both _ _
              (both _ _
                (both _ _
                  (both _ _ (both _ _ p.magic.are_bytes p.flags.are_bytes) p.off_bytes.are_bytes)
                  p.cells.are_bytes)
                p.roots.are_bytes)
              p.absent.are_bytes)
            p.tot_cells_size.are_bytes)
          p.root_list.are_bytes)
        p.cell_data.are_bytes

  Ends-write_boc :
      IsRawBoc boc → (p : Parts) → Ends libs (write_boc libs boc has_crc32) [] (output p)
  unfolding write_boc
  Ends-write_boc h p =
      let s4 = num_bytes-le (length boc.cells) in
      let cw : u32 (length boc.cells) ≡ length boc.cells = mod-eq_of_lt h.cell_count in
      let rw' : u32 (length boc.roots) ≡ length boc.roots = mod-eq_of_lt (
        lt_of_lt_of_le h.root_count
          (pow-le-pow_right {n = 2} (omega arith) {i = 8 * size} {j = 32} (omega (arith, s4)))) in
      rw (cw, rw')
        (Ends-then libs _ _ _ p.magic.bytes _ p.magic.puts (
          Ends-then libs _ _ _ p.flags.bytes _ p.flags.puts (
            Ends-then libs _ _ _ p.off_bytes.bytes _ p.off_bytes.puts (
              Ends-then libs _ _ _ p.cells.bytes _ p.cells.puts (
                Ends-then libs _ _ _ p.roots.bytes _ p.roots.puts (
                  Ends-then libs _ _ _ p.absent.bytes _ p.absent.puts (
                    Ends-then libs _ _ _ p.tot_cells_size.bytes _ p.tot_cells_size.puts (
                      Ends-then libs _ _ _ p.root_list.bytes _ p.root_list.puts (
                        Ends-then libs _ _ _ p.cell_data.bytes _ p.cell_data.puts
                          (Ends-crc libs has_crc32 (body p) (body-IsByte p)))))))))))

  -- The same bytes, in the order in which they are read.
  abbrev input : Parts → List ℕ
  input p =
      p.magic.bytes
      ++ (p.flags.bytes
          ++ (p.off_bytes.bytes
              ++ (p.cells.bytes
                  ++ (p.roots.bytes
                      ++ (p.absent.bytes
                          ++ (p.tot_cells_size.bytes
                              ++ (p.root_list.bytes
                                  ++ (p.cell_data.bytes
                                      ++ (crc_bytes libs has_crc32 (body p) ++ [])))))))))

  input-output : (p : Parts) → input p ≡ output p
  input-output p = simp (append_assoc, append-nil)

  Gets-read_body :
      (p : Parts)
      → Gets libs.byte_reader
          (read_body libs (header has_crc32 size))
          (p.off_bytes.bytes
            ++ (p.cells.bytes
                ++ (p.roots.bytes
                    ++ (p.absent.bytes
                        ++ (p.tot_cells_size.bytes
                            ++ (p.root_list.bytes
                                ++ (p.cell_data.bytes
                                    ++ (crc_bytes libs has_crc32 (body p) ++ []))))))))
          boc
  unfolding read_body read_index
  Gets-read_body p =
      let (fits, low, no_index, crc_flag) =
        header_fields has_crc32 size (num_bytes-le (length boc.cells)) in
      let (v, crc) = Gets-crc libs has_crc32 (body p) in
      let br = libs.byte_reader in
      rw (low, no_index, crc_flag)
        (Gets-bind br _ _ _ _ p.off_bytes.gets (
          Gets-bind br _ _ _ _ p.cells.gets (
            Gets-bind br _ _ _ _ p.roots.gets (
              Gets-bind br _ _ _ _ p.absent.gets (
                Gets-bind br _ _ _ _ p.tot_cells_size.gets (
                  Gets-bind br _ _ _ _ p.root_list.gets (
                    Gets-bind br _ _ _ _ p.cell_data.gets
                      (Gets-bind br _ _ _ _ crc (Gets-pure br boc)))))))))

  Gets-read_boc : (p : Parts) → Gets libs.byte_reader (read_boc libs) (input p) boc
  unfolding read_boc
  Gets-read_boc p =
      Gets-bind libs.byte_reader _ _ _ _ p.magic.gets
        (Gets-bind libs.byte_reader _ _ _ _ p.flags.gets (Gets-read_body p))

  serialize-output :
      IsRawBoc boc → (p : Parts) → serialize libs boc has_crc32 ≡ Result.ok (output p)
  unfolding serialize
  serialize-output h p =
      let (w, e, v) =
        (Ends-write_boc h p).run libs.bit_writer.endian
          (libs.bit_writer.written-endian ∙ unfold unpack in refl) in
      let out_bytes =
        All-append IsByte (body p) (crc_bytes libs has_crc32 (body p)) (body-IsByte p)
          (crc_bytes-IsByte libs has_crc32 (body p)) in
      let given =
        writer-unpack libs.bit_writer w (output p) out_bytes v (whole_bytes libs (output p) w v) in
      rw e (rw given refl)

  parse-output : (p : Parts) → parse libs (output p) ≡ Result.ok boc
  unfolding parse
  parse-output p =
      let start =
        libs.byte_reader.rest-endian (output p)
        ∙ sym (input-output p)
        ∙ sym (append-nil (input p)) in
      let (r, e, v) = (Gets-read_boc p).run (libs.byte_reader.endian (output p)) [] start in
      rw e refl

  -- A proper bag of cells is serialized, with and without a checksum, and `parse` reads the bytes
  -- back as exactly that bag. Proper: fewer than 2 ^ 32 cells; the number of roots and every root
  -- and reference fit the size that the number of cells gives; each cell has at most 1023 bits in
  -- the bytes that they need, zeros behind them, at most four references and a mask below 8.
  pub parse-serialize :
      IsRawBoc boc
      → (bytes : List ℕ) × (serialize libs boc has_crc32 ≡ Result.ok bytes)
        × (parse libs bytes ≡ Result.ok boc)
  parse-serialize h = (output (parts h), serialize-output h (parts h), parse-output (parts h))
