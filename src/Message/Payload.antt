-- ===== src/Message/Payload.antt =====
-- The payload that `store_either_cell_or_cell_ref` puts at the end of the messages of
-- src/message/jetton.
use tonlib_rs.Prelude.{
  ℕ, ◌+◌, ◌-◌, subst, Bool, true, false, ◌≤◌, ◌<◌, ◌≡◌, List, [], ◌∷◌, Option, none, some, length,
  All, arith,
}
use tonlib_rs.Libs.{Libs}
use tonlib_rs.Prelude.Outcome.{Result}
use tonlib_rs.Cell.{Cell, bit_len, data_of, references}
use tonlib_rs.Cell.New
use tonlib_rs.BagOfCells.Rebuild.{IsProper}
use tonlib_rs.Builder.Cells.{store_either_cell_or_cell_ref}
use tonlib_rs.Parser.Values.{load_either_cell_or_cell_ref}
use tonlib_rs.Trips.Whole.{parts, bits_of, length-bits_of}
use tonlib_rs.Trips.Either.{
  FillsFrom-either_cell, FillsFrom-either_ref, Takes-either_ref, TakesAll-either_cell,
}
use tonlib_rs.Cell.Ordinary.{IsPlain}
use tonlib_rs.Trips.References.{maybe_refs, FillsFrom, TakesAll, TakesAll-Takes}

-- A payload behind `n` bits of a message: in place where it fits, with no references and as
-- `Cell::new` makes it, or behind a reference, of level 0, where it does not.
pub data IsPayload (libs : Libs) (n : ℕ) (c : Cell) : Type 0 where
  in_place :
      (proper : IsProper c) (short : bit_len c < 1023 - n) (none_below : references c ≡ [])
      (made : New.new libs (data_of c) (bit_len c) [] false ≡ Result.ok c)
      → IsPayload libs n c
  behind : (long : 1023 - n ≤ bit_len c) (plain : IsPlain c) → IsPayload libs n c

pub length-maybe_refs : (o : Option Cell) → length (maybe_refs o) ≤ 1
length-maybe_refs (some c) = omega arith
length-maybe_refs none = omega arith

module _ (libs : Libs) where
  -- The bits and the references of a payload, written and read.
  pub record Payload (n : ℕ) (c : Cell) : Type 0 where
    pub payload_bits : List Bool
    pub payload_refs : List Cell
    pub fills : FillsFrom libs n (store_either_cell_or_cell_ref libs c) payload_bits payload_refs
    pub takes : TakesAll libs (load_either_cell_or_cell_ref libs) payload_bits payload_refs c
    pub size : n + length payload_bits ≤ 1023
    pub few : length payload_refs ≤ 1
    pub plain : All IsPlain payload_refs

  pub payload : (n : ℕ) (c : Cell) → n < 1023 → IsPayload libs n c → Payload n c
  payload n c room (in_place proper short none_below made) = record {
    payload_bits = false ∷ bits_of (parts c proper);
    payload_refs = [];
    fills =
        subst
          (λ rs.
            FillsFrom libs n (store_either_cell_or_cell_ref libs c)
              (false ∷ bits_of (parts c proper)) rs)
          none_below (FillsFrom-either_cell libs n c proper (omega (arith, room)) short);
    takes = TakesAll-either_cell libs c proper made;
    size = omega (arith, length-bits_of (parts c proper), short);
    few = omega arith;
    plain = tt;
  }
  payload n c room (behind long plain) = record {
    payload_bits = true ∷ [];
    payload_refs = c ∷ [];
    fills = FillsFrom-either_ref libs n c (omega (arith, room)) long;
    takes = TakesAll-Takes libs _ (true ∷ []) (c ∷ []) c (Takes-either_ref libs c);
    size = omega (arith, room);
    few = omega arith;
    plain = (plain, tt);
  }
