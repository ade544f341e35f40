-- ===== src/Message/Fields.antt =====
-- The opcode and the query id in front of the messages of src/message/jetton, and the cell around
-- their fields.
use tonlib_rs.Prelude.{
  ℕ, ◌+◌, ◌≤◌, ◌<◌, ◌^◌, ◌≡◌, refl, subst, List, [], ◌++◌, append-nil, append_assoc, Bool, length,
  length-append, All, arith, drop, ==_refl,
}
use tonlib_rs.Prelude.Bits.{to_bits, length-to_bits}
use tonlib_rs.Prelude.Outcome.{◌>>◌}
use tonlib_rs.Libs.{Libs}
use tonlib_rs.Cell.{Cell}
use tonlib_rs.Cell.Ordinary.{IsPlain}
use tonlib_rs.Builder
use tonlib_rs.Builder.{Store}
use tonlib_rs.Builder.Stores.{Stores-store_number}
use tonlib_rs.Parser
use tonlib_rs.Parser.{CellParser, Load}
use tonlib_rs.Parser.Loads.{Ahead, Loads, Loads-bind, Loads-pure}
use tonlib_rs.Trips.{Loads-number}
use tonlib_rs.Trips.References.{FillsFrom, FillsFrom-bits, Reads}
use tonlib_rs.Trips.Cells.{close}
use tonlib_rs.Message.{MessageResult, built, parsed, load_header}

-- The bits of the opcode and of the query id, before the other fields.
abbrev pub header_bits : ℕ → ℕ → List Bool → List Bool
header_bits opcode query_id bs = to_bits 32 opcode ++ (to_bits 64 query_id ++ bs)

length-header_bits : (o q : ℕ) (bs : List Bool) → length (header_bits o q bs) ≡ 96 + length bs
length-header_bits o q bs = omega (
  arith,
  length-append (to_bits 32 o) (to_bits 64 q ++ bs),
  length-append (to_bits 64 q) bs,
  length-to_bits 32 o,
  length-to_bits 64 q,
)

module _ (libs : Libs) where
  Loads-load_header :
      (o q : ℕ)
      → o < 2 ^ 32
      → q < 2 ^ 64
      → Loads libs (load_header libs) (header_bits o q []) (o, q)
  Loads-load_header o q ho hq =
      Loads-bind libs _ _ (to_bits 32 o) _
        (Loads-number libs 32 (omega arith) 32 o (omega arith) ho)
        (Loads-bind libs _ _ (to_bits 64 q) []
          (Loads-number libs 64 (omega arith) 64 q (omega arith) hq) (Loads-pure libs (o, q)))

  -- The parser of a message on what the header and the fields wrote.
  parsed-Reads :
      {A : Type 0} (o q : ℕ) (fields : ℕ → Load libs A) (bs : List Bool) (rs : List Cell) (a : A)
      (c : Cell)
      → o < 2 ^ 32
      → q < 2 ^ 64
      → Reads libs (fields q) bs rs a
      → Ahead libs (Parser.parser libs c) (header_bits o q bs)
      → drop (Parser.parser libs c).next_ref (Parser.parser libs c).references ≡ rs
      → parsed libs o fields c ≡ MessageResult.ok a
  unfolding parsed
  parsed-Reads o q fields bs rs a c ho hq h ahead more =
      let split : header_bits o q bs ≡ header_bits o q [] ++ bs = simp (append_assoc, append-nil) in
      let (p, e, w) =
        (Loads-load_header o q ho hq).run (Parser.parser libs c) bs
          (subst (λ t. Ahead libs (Parser.parser libs c) t) split ahead) in
      let (p', e') = h.run p w.ahead (rw (w.references_eq, w.next_ref_eq) more) in
      rw e (rw (==_refl o) (rw e' refl))

  -- A message of the fields `bs` and `rs` behind an opcode and a query id is built to a cell that
  -- is parsed as what the fields are read as.
  pub parsed-built :
      {A : Type 0} (o q : ℕ) (store : Store libs (Unit {0})) (fields : ℕ → Load libs A)
      (bs : List Bool) (rs : List Cell) (a : A)
      → o < 2 ^ 32
      → q < 2 ^ 64
      → FillsFrom libs 96 store bs rs
      → Reads libs (fields q) bs rs a
      → length bs ≤ 927
      → length rs ≤ 4
      → All IsPlain rs
      → (c : Cell) × (built libs
            (Builder.store_u32 libs 32 o >> (Builder.store_u64 libs 64 q >> store))
          ≡ MessageResult.ok c)
        × (parsed libs o fields c ≡ MessageResult.ok a)
  unfolding Builder.new
  parsed-built o q store fields bs rs a ho hq fills reads size few plain =
      let all =
        FillsFrom-bits libs 0 _ _ (to_bits 32 o) (to_bits 64 q ++ bs) rs
          (Stores-store_number libs 32 (omega arith) 32 o (omega arith) ho)
          (FillsFrom-bits libs (0 + length (to_bits 32 o)) _ _ (to_bits 64 q) bs rs
            (Stores-store_number libs 64 (omega arith) 64 q (omega arith) hq)
            (subst (λ n. FillsFrom libs n store bs rs)
              (omega (arith, length-to_bits 32 o, length-to_bits 64 q)) fills)) in
      let (b, e, filled) = all.run (Builder.new libs) refl (omega (arith, few)) in
      let c =
        close libs b (header_bits o q bs) rs filled (omega (arith, size, length-header_bits o q bs))
          few plain in
      (
        c.made,
        rw e (rw c.build_eq refl),
        parsed-Reads o q fields bs rs a c.made ho hq reads c.ahead c.refs_eq,
      )
