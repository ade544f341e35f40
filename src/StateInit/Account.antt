-- ===== src/StateInit/Account.antt =====
-- The cell that src/cell/state_init.rs builds, and its hash.
use tonlib_rs.Prelude.{
  ℕ, ◌<◌, ◌≤◌, ◌≡◌, refl, sym, ap, ◌∙◌, List, [], ◌∷◌, ◌++◌, append-nil, Option, none, some, Bool,
  false, length, length-append, length-replicate, replicate, All, arith,
}
use tonlib_rs.Prelude.Bits.{
  IsByte, from_bits, from_bits-lt, to_bits-from_bits, unpack, to_bits, length-unpack,
}
use tonlib_rs.Prelude.Bytes.{unpack-injective}
use tonlib_rs.Prelude.Outcome.{Result}
use tonlib_rs.Libs.{Libs}
use tonlib_rs.Cell.{Cell, ordinary, cell_hash, get_hash, at_level}
use tonlib_rs.Cell.Described.{repr}
use tonlib_rs.Cell.Ordinary.{IsPlain, plain_cell, no_levels}
use tonlib_rs.Builder
use tonlib_rs.Builder.Stores.{Stores-store_bit, Stores-pure}
use tonlib_rs.Trips.References.{
  maybe_refs, Fills, Fills-bits, Fills-then, Fills-Stores, Fills-store_reference,
}
use tonlib_rs.Trips.Cells.{close}
use tonlib_rs.StateInit.{
  StateInitBuilder, is_some, store_optional, store_state_init, build, new, create_account_id,
}

-- The five flags.
abbrev pub flags : StateInitBuilder → List Bool
flags s = s.split_depth ∷ s.tick_tock ∷ is_some s.code ∷ is_some s.data_ref ∷ s.library ∷ []

-- The byte of the flags, from the high bit on.
unfoldable pub flags_byte : StateInitBuilder → ℕ
unfolding from_bits
flags_byte s = from_bits (flags s ++ replicate 3 false)

abbrev pub children : StateInitBuilder → List Cell
children s = maybe_refs s.code ++ maybe_refs s.data_ref

length-maybe_refs : (o : Option Cell) → length (maybe_refs o) ≤ 1
length-maybe_refs none = omega arith
length-maybe_refs (some c) = omega arith

same_byte :
    (s : StateInitBuilder) (vec : List ℕ) (z : ℕ)
    → All IsByte vec
    → unpack vec ≡ flags s ++ replicate z false
    → z ≡ 3
    → vec ≡ flags_byte s ∷ []
unfolding flags_byte
same_byte s vec z bytes e three =
    let xs = flags s ++ replicate 3 false in
    let byte : from_bits xs < 256 = from_bits-lt xs in
    let back : to_bits 8 (from_bits xs) ≡ xs =
      to_bits-from_bits xs 0 (from_bits xs) (omega arith) in
    unpack-injective vec (from_bits xs ∷ []) bytes (byte, tt)
      (e
        ∙ ap (λ n. flags s ++ replicate n false) three
        ∙ sym (unfold unpack in (append-nil (to_bits 8 (from_bits xs)) ∙ back)))

module _ (libs : Libs) where
  open libs.digests use {sha256}

  Fills-store_optional : (o : Option Cell) → Fills libs (store_optional libs o) [] (maybe_refs o)
  unfolding store_optional
  Fills-store_optional none = Fills-Stores libs _ [] (Stores-pure libs)
  Fills-store_optional (some c) = Fills-store_reference libs c

  Fills-store_state_init :
      (s : StateInitBuilder) → Fills libs (store_state_init libs s) (flags s) (children s)
  unfolding store_state_init
  Fills-store_state_init s =
      Fills-bits libs _ _ (s.split_depth ∷ []) _ _ (Stores-store_bit libs s.split_depth) (
        Fills-bits libs _ _ (s.tick_tock ∷ []) _ _ (Stores-store_bit libs s.tick_tock) (
          Fills-bits libs _ _ (is_some s.code ∷ []) _ _ (Stores-store_bit libs (is_some s.code)) (
            Fills-bits libs _ _ (is_some s.data_ref ∷ []) _ _
              (Stores-store_bit libs (is_some s.data_ref))
              (Fills-bits libs _ _ (s.library ∷ []) [] (children s)
                (Stores-store_bit libs s.library)
                (Fills-then libs _ _ [] [] (maybe_refs s.code) (maybe_refs s.data_ref)
                  (Fills-store_optional s.code) (Fills-store_optional s.data_ref))))))

  -- A state init whose code and data, if any, have level 0 is built to the ordinary cell of five
  -- bits, the flags in one byte from the high bit on, with the code and the data as references.
  pub build-plain_cell_flags :
      (s : StateInitBuilder)
      → All IsPlain (children s)
      → build libs s ≡ Result.ok (plain_cell libs (flags_byte s ∷ []) 5 (children s))
  unfolding build Builder.new
  build-plain_cell_flags s plain =
      let few : length (children s) ≤ 4 = omega (
        arith,
        length-append (maybe_refs s.code) (maybe_refs s.data_ref),
        length-maybe_refs s.code,
        length-maybe_refs s.data_ref,
      ) in
      let (b, e, filled) = (Fills-store_state_init s).run (Builder.new libs) (omega (arith, few)) in
      let c = close libs b (flags s) (children s) filled (omega arith) few plain in
      let three : c.zeros ≡ 3 = omega (
        arith,
        c.length_eq,
        ap length c.unpack_eq,
        length-unpack c.data_bytes,
        length-append (flags s) (replicate c.zeros false),
        length-replicate c.zeros false,
      ) in
      let vec = same_byte s c.data_bytes c.zeros c.bytes c.unpack_eq three in
      rw e c.build_eq ∙ ap Result.ok (c.made_eq ∙ ap (λ t. plain_cell libs t 5 (children s)) vec)

  -- The account id of a code and a data cell of level 0 is the SHA-256 of the representation of
  -- the cell with the byte 0x30, of which five bits are in use, and these two references.
  pub create_account_id_lem :
      (code data' : Cell)
      → IsPlain code
      → IsPlain data'
      → create_account_id libs code data'
        ≡ Result.ok
            (sha256 (repr (0x30 ∷ [], 5) (0x30 ∷ [], 5) (code ∷ data' ∷ []) no_levels 0 ordinary))
  unfolding create_account_id new plain_cell cell_hash get_hash at_level flags_byte
  create_account_id_lem code data' hc hd =
      rw (build-plain_cell_flags (new code data') (hc, (hd, tt))) refl
