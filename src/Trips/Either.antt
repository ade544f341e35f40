-- ===== src/Trips/Either.antt =====
-- `store_either_cell_or_cell_ref` of src/cell/builder.rs and `load_either_cell_or_cell_ref` of
-- src/cell/parser.rs.
use tonlib_rs.Prelude.{
  ℕ, ◌-◌, ◌≤◌, ◌<◌, ◌≡◌, sym, ap, subst, ◌∙◌, List, [], ◌∷◌, append-nil, true, false, arith, ge→ltb,
  lt→ltb,
}
use tonlib_rs.Prelude.Outcome.{after, lift, Result}
use tonlib_rs.Libs.{Libs}
use tonlib_rs.Cell.{Cell, data_of, bit_len, references}
use tonlib_rs.Cell.New
use tonlib_rs.BagOfCells.Rebuild.{IsProper}
use tonlib_rs.Builder.{CellBuilder}
use tonlib_rs.Builder.Cells.{
  store_either_cell_or_cell_ref, store_cell, store_references, remaining_bits,
}
use tonlib_rs.Builder.Stores.{Stores-store_bit, Stores-pure}
use tonlib_rs.Parser
use tonlib_rs.Parser.Values.{load_either_cell_or_cell_ref}
use tonlib_rs.Parser.Loads.{Ahead, remaining_bits-Ahead, Loads-load_bit}
use tonlib_rs.Trips.References.{
  Fills, FillsFrom, Fills-bits, Fills-then, Fills-Stores, Fills-store_reference, Takes, Takes-bits,
  Takes-next_reference, TakesAll,
}
use tonlib_rs.Trips.Whole.{parts, bits_of, length-bits_of, Stores-store_cell_data, Loads-load_bits}

module _ (libs : Libs) where
  room_left :
      (b : CellBuilder libs) (n : ℕ)
      → b.bits_to_write ≡ n
      → n ≤ 1023
      → remaining_bits libs b ≡ 1023 - n
  unfolding remaining_bits
  room_left b n e h = omega (arith, e, h)

  -- A cell that is too long for the room becomes a reference.
  pub FillsFrom-either_ref :
      (n : ℕ) (c : Cell)
      → n ≤ 1023
      → 1023 - n ≤ bit_len c
      → FillsFrom libs n (store_either_cell_or_cell_ref libs c) (true ∷ []) (c ∷ [])
  unfolding store_either_cell_or_cell_ref
  FillsFrom-either_ref n c h long = record {
    run = λ b e room.
        let test = ge→ltb (bit_len c) (1023 - n) long in
        let both =
          Fills-bits libs _ _ (true ∷ []) [] (c ∷ []) (Stores-store_bit libs true)
            (Fills-store_reference libs c) in
        let (b', e', f) = both.run b room in (b', rw (room_left b n e h, test) e', f);
  }

  pub Takes-either_ref :
      (c : Cell) → Takes libs (load_either_cell_or_cell_ref libs) (true ∷ []) (c ∷ []) c
  unfolding load_either_cell_or_cell_ref
  Takes-either_ref c =
      Takes-bits libs _ _ (true ∷ []) [] (c ∷ []) (Loads-load_bit libs true)
        (Takes-next_reference libs c)

  Fills-store_references : (cs : List Cell) → Fills libs (store_references libs cs) [] cs
  unfolding store_references
  Fills-store_references [] = Fills-Stores libs _ [] (Stores-pure libs)
  Fills-store_references (c ∷ cs) =
      Fills-then libs _ _ [] [] (c ∷ []) cs (Fills-store_reference libs c)
        (Fills-store_references cs)

  -- The bits and the references of a proper cell are copied by `store_cell`.
  pub Fills-store_cell :
      (c : Cell) (h : IsProper c)
      → Fills libs (store_cell libs c) (bits_of (parts c h)) (references c)
  unfolding store_cell
  Fills-store_cell c h =
      subst (λ t. Fills libs (store_cell libs c) t (references c))
        (append-nil (bits_of (parts c h)))
        (Fills-bits libs _ _ (bits_of (parts c h)) [] (references c)
          (Stores-store_cell_data libs c h) (Fills-store_references (references c)))

  -- A cell that fits is written in place.
  pub FillsFrom-either_cell :
      (n : ℕ) (c : Cell) (h : IsProper c)
      → n ≤ 1023
      → bit_len c < 1023 - n
      → FillsFrom libs n
          (store_either_cell_or_cell_ref libs c)
          (false ∷ bits_of (parts c h))
          (references c)
  unfolding store_either_cell_or_cell_ref
  FillsFrom-either_cell n c h hn short = record {
    run = λ b e room.
        let test = lt→ltb (bit_len c) (1023 - n) short in
        let both =
          Fills-bits libs _ _ (false ∷ []) (bits_of (parts c h)) (references c)
            (Stores-store_bit libs false) (Fills-store_cell c h) in
        let (b', e', f) = both.run b room in (b', rw (room_left b n e hn, test) e', f);
  }

  -- A proper cell in place, made by `Cell::new` of no references, is read as it was.
  pub TakesAll-either_cell :
      (c : Cell) (h : IsProper c)
      → New.new libs (data_of c) (bit_len c) [] false ≡ Result.ok c
      → TakesAll libs (load_either_cell_or_cell_ref libs) (false ∷ bits_of (parts c h)) [] c
  unfolding load_either_cell_or_cell_ref
  TakesAll-either_cell c h made = record {
    run = λ p ahead e.
        let bits = bits_of (parts c h) in
        let (p1, e1, w1) = (Loads-load_bit libs false).run p bits ahead in
        let left : Parser.remaining_bits libs p1 ≡ bit_len c =
          remaining_bits-Ahead libs p1 bits w1.ahead ∙ length-bits_of (parts c h) in
        let (p2, e2, w2) =
          (Loads-load_bits libs (parts c h)).run p1 []
            (subst (λ t. Ahead libs p1 t) (sym (append-nil bits)) w1.ahead) in
        (
          p2,
          rw e1 (
              ap
                (λ n.
                  after (Parser.load_bits libs n p1)
                    (λ bytes. lift (New.new libs bytes n [] false)))
                left
              ∙ ap (λ o. after o (λ bytes. lift (New.new libs bytes (bit_len c) [] false))) e2
              ∙ ap (λ r. lift r p2) made),
          record {
            ahead = w2.ahead;
            more_eq = rw (w2.references_eq, w2.next_ref_eq, w1.references_eq, w1.next_ref_eq) e;
          },
        );
  }
