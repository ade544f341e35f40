-- ===== src/RawBoc/Cells.antt =====
-- One cell of a serialized bag: the two descriptor bytes, the data and the references.
use tonlib_rs.Prelude.{
  ℕ, ◌+◌, ◌-◌, ◌*◌, ◌/◌, ◌%◌, ◌^◌, ◌≤◌, ◌<◌, ◌≡◌, ◌≢◌, refl, sym, ap, subst, ◌∙◌, List, [], ◌∷◌,
  ◌++◌, Bool, true, false, ◌==◌, if◌then◌else◌, length, All, All-append, arith, bit_and, ==_iff,
}
use tonlib_rs.Prelude.Bits.{IsByte, unpack, unpack-append}
use tonlib_rs.Prelude.Words.{bit_and_mask, bit_and-pow}
use tonlib_rs.Prelude.Outcome.{
  boc_serialization_error, boc_deserialization_error, Result, ◌>>=◌, ◌>>◌, pure, io, lift,
}
use tonlib_rs.Libs.{Libs}
use tonlib_rs.Libs.Writes.{Puts, Puts-then, Puts-lift, Puts-write, Puts-write_bytes}
use tonlib_rs.Libs.Reads.{Gets-read_to_vec}
use tonlib_rs.RawBoc
use tonlib_rs.RawBoc.{
  RawCell, Put, put, write_raw_cell, write_cell_data, write_raw_cells, write_indices, refs_byte,
  size_byte, u32,
}
use tonlib_rs.RawBoc.Parse.{Get, read_cell, read_cells, read_indices, skip_hashes, strip_tag}
use tonlib_rs.RawBoc.Tag.{tagged, TagHolds, tag_lem}
use tonlib_rs.RawBoc.Strip.{
  split_last, All-last, length-snoc, slice_front, index_last, strip_partial, strip_full,
}
use tonlib_rs.RawBoc.Codec.{
  Codec, Codec-pure, Codec-bind, Codec-eq, Codec-map, Codec-number, Codec-indices,
}

-- What `RawCell::new` and the cells that it is given grant: at most 1023 bits in just as many
-- bytes as they need, zeros behind them, and references that `size` bytes can hold.
pub record IsRawCell (size : ℕ) (c : RawCell) : Type 0 where
  pub bytes : All IsByte c.data_bytes
  pub data_length : length c.data_bytes ≡ (c.bit_len + 7) / 8
  pub bits_bound : c.bit_len ≤ 1023
  pub padding :
      (front : List ℕ) (b : ℕ)
      → c.bit_len % 8 ≢ 0
      → c.data_bytes ≡ front ++ (b ∷ [])
      → b % 2 ^ (8 - c.bit_len % 8) ≡ 0
  pub references_bound : length c.references ≤ 4
  pub references_fit : All (λ r. r < 2 ^ (8 * size)) c.references
  pub mask_bound : c.level_mask < 8

-- The first descriptor byte and its fields.
record RefsByte (d1 : ℕ) (c : RawCell) : Type 0 where
  is_byte : d1 < 256
  ref_num : bit_and d1 7 ≡ length c.references
  exotic : (if bit_and d1 8 == 0 then false else true) ≡ c.is_exotic
  no_hashes : bit_and d1 16 ≡ 0
  mask : bit_and (d1 / 2 ^ 5) 7 ≡ c.level_mask

refs_byte_fields :
    (n m : ℕ) (x : Bool) (d1 : ℕ)
    → n ≤ 4
    → m < 8
    → d1 ≡ u32 (u32 n + (if x then 1 else 0) * 8 + m * 32)
    → (d1 < 256)
      × (bit_and d1 7 ≡ n)
      × ((if bit_and d1 8 == 0 then false else true) ≡ x)
      × (bit_and d1 16 ≡ 0)
      × (bit_and (d1 / 2 ^ 5) 7 ≡ m)
refs_byte_fields n m true d1 hn hm e = (
  omega arith,
  bit_and_mask 3 d1 ∙ omega arith,
  ground (arith, bit_and-pow 3 d1),
  bit_and-pow 4 d1 ∙ omega arith,
  bit_and_mask 3 (d1 / 2 ^ 5) ∙ omega arith,
)
refs_byte_fields n m false d1 hn hm e = (
  omega arith,
  bit_and_mask 3 d1 ∙ omega arith,
  ground (arith, bit_and-pow 3 d1),
  bit_and-pow 4 d1 ∙ omega arith,
  bit_and_mask 3 (d1 / 2 ^ 5) ∙ omega arith,
)

refs_byte_lem : (size : ℕ) (c : RawCell) → IsRawCell size c → RefsByte (refs_byte c) c
unfolding refs_byte
refs_byte_lem size c h =
    let (p, q, r, s, t) =
      refs_byte_fields (length c.references) c.level_mask c.is_exotic _ h.references_bound
        h.mask_bound refl in
    record { is_byte = p; ref_num = q; exotic = r; no_hashes = s; mask = t }

record SizeByte (d2 : ℕ) (c : RawCell) : Type 0 where
  is_byte : d2 < 256
  data_size : d2 / 2 + bit_and d2 1 ≡ length c.data_bytes
  full : (bit_and d2 1 == 0) ≡ (c.bit_len % 8 == 0)

size_byte_lem : (size : ℕ) (c : RawCell) → IsRawCell size c → SizeByte (size_byte c) c
unfolding size_byte
size_byte_lem size c h =
    let len = h.data_length in
    let bound = h.bits_bound in
    let d2 = ((c.bit_len + 7) / 8 * 2 - (if c.bit_len % 8 == 0 then 0 else 1)) % 256 in
    record {
      is_byte = omega arith;
      data_size = ground (arith, bit_and_mask 1 d2, len, bound);
      full = ground (arith, bit_and_mask 1 d2, len, bound);
    }

module _ (libs : Libs) where
  put_bytes : List ℕ → Put libs
  put_bytes bs = io boc_serialization_error (libs.bit_writer.write_bytes bs)

  get_bytes : ℕ → Get libs (List ℕ)
  get_bytes n = io boc_deserialization_error (libs.byte_reader.read_to_vec n)

  -- The data as it is written; it is read back as the same bytes, and then without the tag.
  record Tagged (c : RawCell) (full : Bool) : Type 0 where
    out : List ℕ
    padding_len : ℕ
    codec :
        Codec libs
          (write_cell_data libs c)
          (io boc_deserialization_error (libs.byte_reader.read_to_vec (length c.data_bytes)))
          out
    strip : strip_tag out full ≡ Result.ok (c.data_bytes, padding_len)
    bits : length c.data_bytes * 8 - padding_len ≡ c.bit_len

  bytes-Codec :
      (w : Put libs) (bs : List ℕ) (n : ℕ)
      → All IsByte bs
      → length bs ≡ n
      → Puts libs.bit_writer w (unpack bs)
      → Codec libs w (io boc_deserialization_error (libs.byte_reader.read_to_vec n)) bs
  bytes-Codec w bs n hb hn hp = record {
    bytes = bs;
    are_bytes = hb;
    puts = hp;
    gets = Gets-read_to_vec libs.byte_reader boc_deserialization_error n bs hn;
  }

  Tagged-full :
      (size : ℕ) (c : RawCell) → IsRawCell size c → (c.bit_len % 8 == 0) ≡ true → Tagged c true
  unfolding write_cell_data
  Tagged-full size c h e = record {
    out = c.data_bytes;
    padding_len = 0;
    codec =
        bytes-Codec _ c.data_bytes _ h.bytes refl
          (rw e (Puts-write_bytes libs.bit_writer boc_serialization_error c.data_bytes h.bytes));
    strip = strip_full c.data_bytes;
    bits = let z = (==_iff (c.bit_len % 8) 0).0 e in omega (arith, h.data_length);
  }

  Puts-byte : (v : ℕ) → v < 256 → Puts libs.bit_writer (put libs 8 8 v) (unpack (v ∷ []))
  unfolding unpack
  Puts-byte v h = Puts-write libs.bit_writer boc_serialization_error 8 8 v (omega arith) h

  Puts-partial :
      (c : RawCell) (front : List ℕ) (b : ℕ)
      → (c.bit_len % 8 == 0) ≡ false
      → c.data_bytes ≡ front ++ (b ∷ [])
      → (c.bit_len + 7) / 8 - 1 ≡ length front
      → All IsByte front
      → TagHolds b (c.bit_len % 8)
      → Puts libs.bit_writer
          (write_cell_data libs c)
          (unpack (front ++ (tagged b (c.bit_len % 8) ∷ [])))
  unfolding write_cell_data
  Puts-partial c front b e d n hf t =
      rw (e, unpack-append)
        (rw d (
          Puts-lift libs.bit_writer _ _ _ front (slice_front front b _ n) (
            Puts-then libs.bit_writer _ _ (unpack front) (unpack (tagged b (c.bit_len % 8) ∷ []))
              (Puts-write_bytes libs.bit_writer boc_serialization_error front hf)
              (Puts-lift libs.bit_writer _ _ _ b (index_last front b _ n)
                (Puts-byte (tagged b (c.bit_len % 8)) t.is_byte)))))

  Tagged-snoc :
      (size : ℕ) (c : RawCell) (front : List ℕ) (b : ℕ)
      → IsRawCell size c
      → (c.bit_len % 8 == 0) ≡ false
      → c.bit_len % 8 ≢ 0
      → c.data_bytes ≡ front ++ (b ∷ [])
      → length c.data_bytes ≡ length front + 1
      → All IsByte front
      → TagHolds b (c.bit_len % 8)
      → Tagged c false
  Tagged-snoc size c front b h e nz d len hf t = record {
    out = front ++ (tagged b (c.bit_len % 8) ∷ []);
    padding_len = 8 - c.bit_len % 8 - 1 + 1;
    codec =
        bytes-Codec _ _ _
          (All-append IsByte front (tagged b (c.bit_len % 8) ∷ []) hf (t.is_byte, tt))
          (length-snoc front (tagged b (c.bit_len % 8)) ∙ sym len)
          (Puts-partial c front b e d (omega (arith, len, h.data_length)) hf t);
    strip =
        strip_partial front b (c.bit_len % 8) (omega arith) t
        ∙ ap (λ x. Result.ok (x, 8 - c.bit_len % 8 - 1 + 1)) (sym d);
    bits = omega (arith, h.data_length, nz);
  }

  Tagged-partial :
      (size : ℕ) (c : RawCell) → IsRawCell size c → (c.bit_len % 8 == 0) ≡ false → Tagged c false
  Tagged-partial size c h e =
      let nz : c.bit_len % 8 ≢ 0 = λ z. ground (arith, e, z) in
      let (front, b, d) = split_last c.data_bytes (omega (arith, h.data_length, nz)) in
      let len : length c.data_bytes ≡ length front + 1 = ap length d ∙ length-snoc front b in
      let (hf, hb) = All-last front b (subst (λ t. All IsByte t) d h.bytes) in
      Tagged-snoc size c front b h e nz d len hf
        (tag_lem b (c.bit_len % 8) hb (omega (arith, nz)) (omega arith) (h.padding front b nz d))

  Tagged-data :
      (size : ℕ) (c : RawCell) (full : Bool)
      → IsRawCell size c
      → (c.bit_len % 8 == 0) ≡ full
      → Tagged c full
  Tagged-data size c true h e = Tagged-full size c h e
  Tagged-data size c false h e = Tagged-partial size c h e

  -- What `read_cell` does behind the two descriptor bytes.
  abbrev read_tail : ℕ → ℕ → ℕ → Get libs RawCell
  read_tail size d1 d2 = do
    skip_hashes libs d1
    bytes ← io boc_deserialization_error (libs.byte_reader.read_to_vec (d2 / 2 + bit_and d2 1))
    (stripped, padding_len) ← lift (strip_tag bytes (bit_and d2 1 == 0))
    references ← read_indices libs (bit_and d1 7) size
    pure (
        RawBoc.new stripped (length stripped * 8 - padding_len) references (d1 / 2 ^ 5)
          (if bit_and d1 8 == 0 then false else true))

  -- The cell is put together from its parts.
  new_lem :
      (c : RawCell) (d1 padding_len : ℕ)
      → RefsByte d1 c
      → length c.data_bytes * 8 - padding_len ≡ c.bit_len
      → RawBoc.new c.data_bytes
          (length c.data_bytes * 8 - padding_len)
          c.references
          (d1 / 2 ^ 5)
          (if bit_and d1 8 == 0 then false else true)
        ≡ c
  unfolding RawBoc.new
  new_lem c d1 padding_len r e = rw (e, r.exotic, r.mask) refl

  skip_none : (d1 : ℕ) → bit_and d1 16 ≡ 0 → skip_hashes libs d1 ≡ pure tt
  unfolding skip_hashes
  skip_none d1 e = rw e refl

  Codec-tail :
      (size d1 d2 : ℕ) (c : RawCell) (full : Bool)
      → size ≤ 4
      → IsRawCell size c
      → RefsByte d1 c
      → SizeByte d2 c
      → (c.bit_len % 8 == 0) ≡ full
      → Codec libs
          (write_cell_data libs c >> write_indices libs size c.references)
          (read_tail size d1 d2)
          c
  Codec-tail size d1 d2 c full hs h r z e =
      let t = Tagged-data size c full h e in
      let whole = new_lem c d1 t.padding_len r t.bits in
      rw (skip_none d1 r.no_hashes, z.data_size, z.full, e)
        (Codec-bind libs _ _ _ _ t.codec (
          rw (t.strip, r.ref_num)
            (Codec-eq libs _ _ whole (
              Codec-map libs _ _
                (λ refs.
                  RawBoc.new c.data_bytes (length c.data_bytes * 8 - t.padding_len) refs
                    (d1 / 2 ^ 5) (if bit_and d1 8 == 0 then false else true))
                (Codec-indices libs size c.references hs h.references_fit)))))

  pub Codec-raw_cell :
      (size : ℕ) (c : RawCell)
      → size ≤ 4
      → IsRawCell size c
      → Codec libs (write_raw_cell libs c size) (read_cell libs size) c
  unfolding write_raw_cell read_cell
  Codec-raw_cell size c hs h =
      let r = refs_byte_lem size c h in
      let z = size_byte_lem size c h in
      Codec-bind libs _ _ _ _ (Codec-number libs 32 8 1 (refs_byte c) refl (omega arith) r.is_byte)
        (Codec-bind libs _ _ _ (λ d2. read_tail size (refs_byte c) d2)
          (Codec-number libs 8 8 1 (size_byte c) refl (omega arith) z.is_byte)
          (Codec-tail size (refs_byte c) (size_byte c) c _ hs h r z refl))

  pub Codec-raw_cells :
      (size : ℕ) (cs : List RawCell)
      → size ≤ 4
      → All (IsRawCell size) cs
      → Codec libs (write_raw_cells libs cs size) (read_cells libs (length cs) size) cs
  unfolding write_raw_cells read_cells
  Codec-raw_cells size [] hs h = Codec-pure libs []
  Codec-raw_cells size (c ∷ cs) hs h =
      Codec-bind libs _ _ _ _ (Codec-raw_cell size c hs h.0)
        (Codec-map libs _ _ (λ more. c ∷ more) (Codec-raw_cells size cs hs h.1))
