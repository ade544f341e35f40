-- ===== src/Message/Carried.antt =====
-- The message that src/message/transfer.rs builds, read field by field.
use tonlib_rs.Prelude.{
  ℕ, ◌≤◌, ◌≡◌, refl, List, [], ◌∷◌, ◌++◌, Option, none, some, Bool, true, false, length,
  length-append, All, All-append, arith,
}
use tonlib_rs.Prelude.Bits.{to_bits, length-to_bits}
use tonlib_rs.Prelude.Outcome.{ok, ◌>>=◌, ◌>>◌, pure}
use tonlib_rs.Libs.{Libs}
use tonlib_rs.Cell.{Cell}
use tonlib_rs.Cell.Ordinary.{IsPlain}
use tonlib_rs.Address.{TonAddress, null, IsAddress}
use tonlib_rs.Builder
use tonlib_rs.Builder.{Store}
use tonlib_rs.Builder.Stores.{Stores-store_bit, Stores-store_number, Stores-pure}
use tonlib_rs.Parser
use tonlib_rs.Parser.{Load, CellParser}
use tonlib_rs.Parser.Values.{load_address, load_coins, load_maybe_cell_ref, ensure_empty}
use tonlib_rs.Parser.Loads.{Loads-load_bit}
use tonlib_rs.Builder.Values.{store_coins, store_address}
use tonlib_rs.Trips.{RoundTrip, coins_trip, coins_size-le, Loads-number}
use tonlib_rs.Trips.Addresses.{low_workchain, address_trip, address_size-le}
use tonlib_rs.Trips.References.{
  maybe_refs, Takes, Fills, Fills-bits, Fills-then, Fills-Stores, Fills-store_reference, Reads,
  Reads-bits, Reads-bind, Reads-last, Reads-ensure_empty, Takes-load_maybe_cell_ref, TakesAll-Takes,
}
use tonlib_rs.Trips.Cells.{close}
use tonlib_rs.Message.{MessageResult}
use tonlib_rs.Message.Payload.{length-maybe_refs}
use tonlib_rs.Message.Transfer.{TransferMessage, store_transfer, build, is_some, store_optional}

-- The fields of an internal message, as the comments of `build` name them.
pub record InternalMessage : Type 0 where
  pub bit0 : Bool
  pub ihr_disabled : Bool
  pub bounce : Bool
  pub bounced : Bool
  pub src_addr : TonAddress
  pub dest_addr : TonAddress
  pub value : ℕ
  pub currency_coll : Bool
  pub ihr_fees : ℕ
  pub fwd_fees : ℕ
  pub created_lt : ℕ
  pub created_at : ℕ
  pub state_init : Option Cell
  pub data_ref : Option Cell

-- The message that carries a transfer: no IHR, bounceable and not bounced, from no address, with no
-- extra currencies, no fees and no times.
abbrev pub transfer_fields : TransferMessage → InternalMessage
transfer_fields m = record {
  bit0 = false;
  ihr_disabled = true;
  bounce = true;
  bounced = false;
  src_addr = null;
  dest_addr = low_workchain m.dest;
  value = m.value;
  currency_coll = false;
  ihr_fees = 0;
  fwd_fees = 0;
  created_lt = 0;
  created_at = 0;
  state_init = m.state_init;
  data_ref = m.data_ref;
}

module _ (libs : Libs) where
  open libs.big_uint use {bits}

  -- The fields of a message in the order in which `build` lays them out. The state init and the body
  -- are one bit each, with a reference behind it where the bit is set; `wrap_signed_body` of
  -- src/wallet.rs lays out a state init with a second bit, for a reference.
  unfoldable pub read_transfer : Load libs InternalMessage
  unfolding Parser.load_bit Parser.load_number load_address load_coins load_maybe_cell_ref
      ensure_empty
  read_transfer = do
    bit0 ← Parser.load_bit libs
    ihr_disabled ← Parser.load_bit libs
    bounce ← Parser.load_bit libs
    bounced ← Parser.load_bit libs
    src_addr ← load_address libs
    dest_addr ← load_address libs
    value ← load_coins libs
    currency_coll ← Parser.load_bit libs
    ihr_fees ← load_coins libs
    fwd_fees ← load_coins libs
    created_lt ← Parser.load_u64 libs 64
    created_at ← Parser.load_u32 libs 32
    state_init ← load_maybe_cell_ref libs
    data' ← load_maybe_cell_ref libs
    ensure_empty libs
    pure (record {
      bit0 = bit0;
      ihr_disabled = ihr_disabled;
      bounce = bounce;
      bounced = bounced;
      src_addr = src_addr;
      dest_addr = dest_addr;
      value = value;
      currency_coll = currency_coll;
      ihr_fees = ihr_fees;
      fwd_fees = fwd_fees;
      created_lt = created_lt;
      created_at = created_at;
      state_init = state_init;
      data_ref = data';
    })

  -- A bit that says whether there is a reference, and the reference.
  Fills-optional : (o : Option Cell) → Fills libs (store_optional libs o) [] (maybe_refs o)
  Fills-optional none = Fills-Stores libs _ [] (Stores-pure libs)
  Fills-optional (some c) = Fills-store_reference libs c

  Takes-optional :
      (o : Option Cell) → Takes libs (load_maybe_cell_ref libs) (is_some o ∷ []) (maybe_refs o) o
  Takes-optional none = Takes-load_maybe_cell_ref libs none
  Takes-optional (some c) = Takes-load_maybe_cell_ref libs (some c)

  abbrev zero_coins : RoundTrip libs (store_coins libs 0) (load_coins libs) 0
  zero_coins = (coins_trip libs 0 (omega (arith, libs.big_uint.bits-zero))).0

  length-zero_coins : length zero_coins.bits ≤ 124
  length-zero_coins = omega (
    arith,
    (coins_trip libs 0 (omega (arith, libs.big_uint.bits-zero))).1,
    coins_size-le libs 0 (omega (arith, libs.big_uint.bits-zero)),
  )

  null-IsAddress : IsAddress null
  null-IsAddress = record {
    workchain_i32 = omega arith;
    hash_bytes = omega arith;
    hash_length = omega arith;
  }

  abbrev source : RoundTrip libs (store_address libs null) (load_address libs) null
  source = (address_trip libs null null-IsAddress).0

  pub record IsCarried (m : TransferMessage) : Type 0 where
    pub dest_ok : IsAddress m.dest
    pub value_bits : bits m.value ≤ 120
    pub state_init_plain : All IsPlain (maybe_refs m.state_init)
    pub data_plain : All IsPlain (maybe_refs m.data_ref)

  module _ (m : TransferMessage) (h : IsCarried m) where
    abbrev dest :
        RoundTrip libs (store_address libs m.dest) (load_address libs) (low_workchain m.dest)
    dest = (address_trip libs m.dest h.dest_ok).0

    abbrev coins : RoundTrip libs (store_coins libs m.value) (load_coins libs) m.value
    coins = (coins_trip libs m.value h.value_bits).0

    -- The bits behind the value.
    abbrev tail_bits : List Bool
    tail_bits =
        false
        ∷ (zero_coins.bits
            ++ (zero_coins.bits
                ++ (to_bits 64 0
                    ++ (to_bits 32 0 ++ (is_some m.state_init ∷ is_some m.data_ref ∷ [])))))

    abbrev all_bits : List Bool
    all_bits =
        false ∷ true ∷ true ∷ false ∷ (source.bits ++ (dest.bits ++ (coins.bits ++ tail_bits)))

    abbrev refs : List Cell
    refs = maybe_refs m.state_init ++ maybe_refs m.data_ref

    Fills-store_transfer : Fills libs (store_transfer libs m) all_bits refs
    unfolding store_transfer
    Fills-store_transfer =
        let bit = λ (b : Bool). Stores-store_bit libs b in
        let put =
          λ (k : Store libs (Unit {0})) (b : Bool) (ys : List Bool) (rs : List Cell)
              (t : Fills libs k ys rs).
            Fills-bits libs (Builder.store_bit libs b) k (b ∷ []) ys rs (bit b) t in
        put _ false _ refs (
          put _ true _ refs (
            put _ true _ refs (
              put _ false _ refs (
                Fills-bits libs _ _ source.bits _ refs source.stores (
                  Fills-bits libs _ _ dest.bits _ refs dest.stores (
                    Fills-bits libs _ _ coins.bits _ refs coins.stores (
                      put _ false _ refs (
                        Fills-bits libs _ _ zero_coins.bits _ refs zero_coins.stores (
                          Fills-bits libs _ _ zero_coins.bits _ refs zero_coins.stores (
                            Fills-bits libs _ _ (to_bits 64 0) _ refs
                              (Stores-store_number libs 64 (omega arith) 64 0 (omega arith)
                                (omega arith))
                              (Fills-bits libs _ _ (to_bits 32 0) _ refs
                                (Stores-store_number libs 32 (omega arith) 32 0 (omega arith)
                                  (omega arith))
                                (put _ (is_some m.state_init) (is_some m.data_ref ∷ []) refs (
                                  Fills-then libs _ _ [] (is_some m.data_ref ∷ [])
                                    (maybe_refs m.state_init) (maybe_refs m.data_ref)
                                    (Fills-optional m.state_init)
                                    (put _ (is_some m.data_ref) [] (maybe_refs m.data_ref)
                                      (Fills-optional m.data_ref)))))))))))))))

    Reads-read_transfer : Reads libs read_transfer all_bits refs (transfer_fields m)
    unfolding read_transfer
    Reads-read_transfer =
        let skip = λ (b : Bool). Loads-load_bit libs b in
        Reads-bits libs _ _ (false ∷ []) _ refs (skip false) (
          Reads-bits libs _ _ (true ∷ []) _ refs (skip true) (
            Reads-bits libs _ _ (true ∷ []) _ refs (skip true) (
              Reads-bits libs _ _ (false ∷ []) _ refs (skip false) (
                Reads-bits libs _ _ source.bits _ refs source.loads (
                  Reads-bits libs _ _ dest.bits _ refs dest.loads (
                    Reads-bits libs _ _ coins.bits _ refs coins.loads (
                      Reads-bits libs _ _ (false ∷ []) _ refs (skip false) (
                        Reads-bits libs _ _ zero_coins.bits _ refs zero_coins.loads (
                          Reads-bits libs _ _ zero_coins.bits _ refs zero_coins.loads (
                            Reads-bits libs _ _ (to_bits 64 0) _ refs
                              (Loads-number libs 64 (omega arith) 64 0 (omega arith) (omega arith))
                              (Reads-bits libs _ _ (to_bits 32 0) _ refs
                                (Loads-number libs 32 (omega arith) 32 0 (omega arith)
                                  (omega arith))
                                (Reads-bind libs _ _ (is_some m.state_init ∷ [])
                                  (is_some m.data_ref ∷ []) (maybe_refs m.state_init)
                                  (maybe_refs m.data_ref) (Takes-optional m.state_init)
                                  (Reads-last libs _ _ (is_some m.data_ref ∷ [])
                                    (maybe_refs m.data_ref)
                                    (TakesAll-Takes libs _ _ _ m.data_ref
                                      (Takes-optional m.data_ref))
                                    (Reads-ensure_empty libs _))))))))))))))

    length-all_bits : length all_bits ≤ 1023
    length-all_bits =
        let flags = is_some m.state_init ∷ is_some m.data_ref ∷ [] in
        omega (
          arith,
          length-zero_coins,
          (address_trip libs null null-IsAddress).1,
          address_size-le null,
          (address_trip libs m.dest h.dest_ok).1,
          address_size-le m.dest,
          (coins_trip libs m.value h.value_bits).1,
          coins_size-le libs m.value h.value_bits,
          length-append source.bits (dest.bits ++ (coins.bits ++ tail_bits)),
          length-append dest.bits (coins.bits ++ tail_bits),
          length-append coins.bits tail_bits,
          length-append zero_coins.bits
              (zero_coins.bits ++ (to_bits 64 0 ++ (to_bits 32 0 ++ flags))),
          length-append zero_coins.bits (to_bits 64 0 ++ (to_bits 32 0 ++ flags)),
          length-append (to_bits 64 0) (to_bits 32 0 ++ flags),
          length-append (to_bits 32 0) flags,
          length-to_bits 64 0,
          length-to_bits 32 0,
        )

    -- A transfer message to an address of 32 bytes, of at most 120 bits of coins, with a state init
    -- and a body of level 0, if any, is built to a cell; the calls of `CellParser` for the fields of
    -- an internal message, in the order in which `build` lays them out, read that cell as exactly
    -- the flags 0, 1, 1, 0, the null source, the destination, with the low byte of its workchain,
    -- the value, no extra currencies, zero fees and times, the state init and the body, one bit in
    -- front of each of the two, and leave no bits.
    pub read_transfer-build :
        (c : Cell) × (p : CellParser libs) × (build libs m ≡ MessageResult.ok c)
        × (read_transfer (Parser.parser libs c) ≡ ok (transfer_fields m) p)
    unfolding build Builder.new
    read_transfer-build =
        let few : length refs ≤ 4 = omega (
          arith,
          length-append (maybe_refs m.state_init) (maybe_refs m.data_ref),
          length-maybe_refs m.state_init,
          length-maybe_refs m.data_ref,
        ) in
        let plain =
          All-append IsPlain (maybe_refs m.state_init) (maybe_refs m.data_ref) h.state_init_plain
            h.data_plain in
        let (b, e, filled) = Fills-store_transfer.run (Builder.new libs) (omega (arith, few)) in
        let c = close libs b all_bits refs filled length-all_bits few plain in
        let (p, read) = Reads-read_transfer.run (Parser.parser libs c.made) c.ahead c.refs_eq in
        (c.made, p, rw e (rw c.build_eq refl), read)
