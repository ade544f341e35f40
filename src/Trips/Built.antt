-- ===== src/Trips/Built.antt =====
-- The bits of a built cell, as a parser on it sees them: `build` of src/cell/builder.rs and
-- `CellParser::new` of src/cell/parser.rs.
use tonlib_rs.Prelude.{
  ℕ, ◌≤◌, [], ap, subst, append-nil, ◌++◌, ◌≡◌, refl, sym, ◌∙◌, List, length, All, Bool, false,
  replicate, arith,
}
use tonlib_rs.Libs.{Libs}
use tonlib_rs.Cell.{Cell, data_of, bit_len, references, of_list, to_list}
use tonlib_rs.Cell.Ordinary.{IsPlain, plain_cell, new-plain_cell}
use tonlib_rs.Cell.New
use tonlib_rs.Builder
use tonlib_rs.Builder.Cells.{build}
use tonlib_rs.Prelude.Outcome.{ok, lift}
use tonlib_rs.Trips.{RoundTrip}
use tonlib_rs.Builder.{CellBuilder}
use tonlib_rs.Builder.Build.{Packed, build_lem}
use tonlib_rs.Parser
use tonlib_rs.Parser.Loads.{Ahead}

module _ (libs : Libs) where
  open libs.bit_writer use {written}

  -- A parser on the packed bytes of a builder and the number of its bits has just the bits
  -- written ahead.
  pub new-Ahead :
      (b : CellBuilder libs) (vec : List ℕ) (refs : List Cell)
      → Packed libs b vec
      → Ahead libs (Parser.new libs (length (written b.bit_writer)) vec refs) (written b.bit_writer)
  unfolding Parser.new
  new-Ahead b vec refs h = record {
    pad = replicate h.zeros false;
    rest_eq = libs.bit_reader.rest-endian vec h.bytes ∙ h.unpack_eq;
    size_eq = omega (arith, libs.bit_reader.consumed-endian vec);
  }

  new-Ahead_bits :
      (b : CellBuilder libs) (vec : List ℕ) (bs : List Bool)
      → written b.bit_writer ≡ bs
      → Packed libs b vec
      → Ahead libs (Parser.new libs (length bs) vec []) (bs ++ [])
  new-Ahead_bits b vec bs e h =
      subst (λ t. Ahead libs (Parser.new libs (length bs) vec []) t) (sym (append-nil bs))
        (subst (λ t. Ahead libs (Parser.new libs (length t) vec []) t) e (new-Ahead b vec [] h))

  same_cell :
      (vec : List ℕ) (n m : ℕ) (refs refs' : List Cell) (exotic : Bool)
      → n ≡ m
      → refs ≡ refs'
      → exotic ≡ false
      → New.new libs vec n refs exotic ≡ New.new libs vec m refs' false
  same_cell vec n m refs refs' exotic e f g = rw (e, f, g) refl

  -- A builder of an ordinary cell with at most 1023 bits and at most four references of level 0
  -- builds the cell of its bits, packed, and its references.
  pub build-plain_cell :
      (b : CellBuilder libs) (bs : List Bool) (refs : List Cell)
      → written b.bit_writer ≡ bs
      → b.references ≡ refs
      → b.is_cell_exotic ≡ false
      → length bs ≤ 1023
      → length refs ≤ 4
      → All IsPlain refs
      → (vec : List ℕ) × (b' : CellBuilder libs) × Packed libs b vec
        × (build libs b ≡ ok (plain_cell libs vec (length bs) refs) b')
  build-plain_cell b bs refs e f g h k plain =
      let size : length (written b.bit_writer) ≡ length bs = ap length e in
      let few : length b.references ≡ length refs = ap length f in
      let (vec, w, packed, built) = build_lem libs b (omega (arith, size)) (omega (arith, few)) in
      let b' = record b { bit_writer = w } in
      let made =
        same_cell vec _ (length bs) b.references refs b.is_cell_exotic size f g
        ∙ new-plain_cell libs vec (length bs) refs packed.bytes
            (omega (arith, packed.length_eq, size)) plain in
      (vec, b', packed, built ∙ ap (λ r. lift r b') made)

  -- What a value's way through a built cell gives: the builder holds its bits, `build` makes a
  -- cell of them, and a parser on the bytes of that cell reads the value and leaves nothing.
  pub record Through {A : Type 0} (store : Builder.Store libs (Unit {0}))
      (load : Parser.Load libs A) (a : A) (n : ℕ) : Type 0 where
    pub filled : CellBuilder libs
    pub closed : CellBuilder libs
    pub data_bytes : List ℕ
    pub left : Parser.CellParser libs
    pub store_eq : store (Builder.new libs) ≡ ok tt filled
    pub packed : Packed libs filled data_bytes
    pub build_eq : build libs filled ≡ ok (plain_cell libs data_bytes n []) closed
    pub load_eq : load (Parser.parser libs (plain_cell libs data_bytes n [])) ≡ ok a left
    pub left-Ahead : Ahead libs left []

  parser_plain :
      (vec : List ℕ) (n : ℕ)
      → Parser.parser libs (plain_cell libs vec n []) ≡ Parser.new libs n vec []
  unfolding Parser.parser plain_cell data_of bit_len references of_list to_list
  parser_plain vec n = refl

  -- A value that makes the round trip with at most 1023 bits makes it through a built cell.
  pub build-RoundTrip :
      {A : Type 0} (store : Builder.Store libs (Unit {0})) (load : Parser.Load libs A) (a : A)
      → (trip : RoundTrip libs store load a) → length trip.bits ≤ 1023
      → Through store load a (length trip.bits)
  unfolding Builder.new
  build-RoundTrip store load a trip h =
      let (b, e, wrote) = trip.stores.run (Builder.new libs) in
      let held : written b.bit_writer ≡ trip.bits =
        wrote.written_eq ∙ rw libs.bit_writer.written-endian refl in
      let (vec, closed, packed, built) =
        build-plain_cell b trip.bits [] held wrote.references_eq wrote.exotic_eq h (omega arith)
          tt in
      let (p, read, after) = trip.loads.run _ [] (new-Ahead_bits b vec trip.bits held packed) in
      record {
        filled = b;
        closed = closed;
        data_bytes = vec;
        left = p;
        store_eq = e;
        packed = packed;
        build_eq = built;
        load_eq = rw (parser_plain vec (length trip.bits)) read;
        left-Ahead = after.ahead;
      }
