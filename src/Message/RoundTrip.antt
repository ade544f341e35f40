-- ===== src/Message/RoundTrip.antt =====
-- The jetton messages of src/message/jetton, built and parsed.
use tonlib_rs.Prelude.{ℕ, ◌+◌, ◌≤◌, ◌<◌, ◌^◌, ◌≡◌, [], ◌∷◌, ◌++◌, length-append, All, arith}
use tonlib_rs.Libs.{Libs}
use tonlib_rs.Cell.{Cell}
use tonlib_rs.Cell.Ordinary.{IsPlain}
use tonlib_rs.Address.{IsAddress}
use tonlib_rs.Trips.{coins_trip, coins_size, coins_size-le}
use tonlib_rs.Trips.Addresses.{low_workchain, address_trip, address_size, address_size-le}
use tonlib_rs.Trips.References.{
  maybe_bit, maybe_refs, Fills-bits, FillsFrom-Fills, Fills-store_maybe_cell_ref, Reads-bits,
  Reads-last, TakesAll-Takes, Reads-ensure_empty, Takes-load_maybe_cell_ref,
}
use tonlib_rs.Message.{MessageResult}
use tonlib_rs.Message.Jetton.{
  JettonTransferNotificationMessage, JettonBurnMessage, store_burn, build_burn, load_burn,
  parse_burn, jetton_burn,
}
use tonlib_rs.Message.Fields.{parsed-built}
use tonlib_rs.Message.Payload.{IsPayload, length-maybe_refs}

module _ (libs : Libs) where
  open libs.big_uint use {bits}

  -- What the types of the fields grant, an amount that fits its form, and a payload of level 0.
  pub record IsBurn (m : JettonBurnMessage) : Type 0 where
    pub query_id_u64 : m.query_id < 2 ^ 64
    pub amount_bits : bits m.amount ≤ 120
    pub destination_ok : IsAddress m.response_destination
    pub payload_plain : All IsPlain (maybe_refs m.custom_payload)

  -- A burn message of a `u64` query id, an amount of at most 120 bits, an address of 32 bytes and a
  -- payload of level 0, if any, is built to a cell, and `parse` reads that cell as the message, with
  -- the low byte of the workchain of the response destination in place of its workchain.
  pub parse_burn-build_burn :
      (m : JettonBurnMessage)
      → IsBurn m
      → (c : Cell) × (build_burn libs m ≡ MessageResult.ok c)
        × (parse_burn libs c
            ≡ MessageResult.ok
                (record m { response_destination = low_workchain m.response_destination }))
  unfolding build_burn parse_burn store_burn load_burn
  parse_burn-build_burn m h =
      let (coins, coins_len) = coins_trip libs m.amount h.amount_bits in
      let (address, address_len) = address_trip libs m.response_destination h.destination_ok in
      let o = m.custom_payload in
      parsed-built libs jetton_burn m.query_id _ _
        (coins.bits ++ (address.bits ++ (maybe_bit o ∷ []))) (maybe_refs o) _ (omega arith)
        h.query_id_u64
        (FillsFrom-Fills libs 96 _ _ _ (
          Fills-bits libs _ _ coins.bits _ _ coins.stores (
            Fills-bits libs _ _ address.bits _ _ address.stores
              (Fills-store_maybe_cell_ref libs o))))
        (Reads-bits libs _ _ coins.bits _ _ coins.loads (
          Reads-bits libs _ _ address.bits _ _ address.loads (
            Reads-last libs _ _ (maybe_bit o ∷ []) (maybe_refs o)
              (TakesAll-Takes libs _ _ _ o (Takes-load_maybe_cell_ref libs o))
              (Reads-ensure_empty libs _))))
        (omega (
          arith,
          coins_len,
          address_len,
          coins_size-le libs m.amount h.amount_bits,
          address_size-le m.response_destination,
          length-append coins.bits (address.bits ++ (maybe_bit o ∷ [])),
          length-append address.bits (maybe_bit o ∷ []),
        ))
        (omega (arith, length-maybe_refs o)) h.payload_plain

  -- The number of bits in front of the payload of a transfer notification.
  abbrev pub notification_bits : JettonTransferNotificationMessage → ℕ
  notification_bits m = 96 + coins_size libs m.amount + address_size m.sender

  pub record IsNotification (m : JettonTransferNotificationMessage) : Type 0 where
    pub query_id_u64 : m.query_id < 2 ^ 64
    pub amount_bits : bits m.amount ≤ 120
    pub sender_ok : IsAddress m.sender
    pub payload_ok : IsPayload libs (notification_bits m) m.forward_payload
