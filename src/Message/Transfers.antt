-- ===== src/Message/Transfers.antt =====
-- The jetton transfer of src/message/jetton/jetton_transfer.rs, built and parsed.
use tonlib_rs.Prelude.{true, ℕ, ◌+◌, ◌≤◌, ◌<◌, ◌^◌, ◌≡◌, All}
use tonlib_rs.Libs.{Libs}
use tonlib_rs.Cell.{Cell}
use tonlib_rs.Cell.Ordinary.{IsPlain}
use tonlib_rs.Address.{IsAddress}
use tonlib_rs.Trips.{coins_size}
use tonlib_rs.Trips.Addresses.{low_workchain, address_size}
use tonlib_rs.Trips.References.{maybe_refs}
use tonlib_rs.Message.{MessageResult, forward_ton_amount_is_negative}
use tonlib_rs.Message.Jetton.{JettonTransferMessage, build_jetton_transfer, parse_jetton_transfer}
use tonlib_rs.Cell.Equal.{cell_eq, empty_cell}
use tonlib_rs.Message.Payload.{IsPayload}

module _ (libs : Libs) where
  open libs.big_uint use {bits}

  -- The number of bits in front of the payload of a transfer.
  abbrev pub transfer_bits : JettonTransferMessage → ℕ
  transfer_bits m =
      96
      + coins_size libs m.amount
      + address_size m.destination
      + address_size m.response_destination
      + 1
      + coins_size libs m.forward_ton_amount

  pub record IsTransfer (m : JettonTransferMessage) : Type 0 where
    pub query_id_u64 : m.query_id < 2 ^ 64
    pub amount_bits : bits m.amount ≤ 120
    pub destination_ok : IsAddress m.destination
    pub response_ok : IsAddress m.response_destination
    pub custom_plain : All IsPlain (maybe_refs m.custom_payload)
    pub forward_bits : bits m.forward_ton_amount ≤ 120
    pub payload_ok : IsPayload libs (transfer_bits m) m.forward_payload

  -- What comes of a transfer. `refused` is `ForwardTonAmountIsNegative`, for an amount of 0 together
  -- with the empty payload; in every other case the transfer is built, and parsed again.
  pub data Sent (m : JettonTransferMessage) : Type 0 where
    refused :
        (amount_eq : m.forward_ton_amount ≡ 0)
        (payload_eq : cell_eq m.forward_payload empty_cell ≡ true)
        (refused_eq : build_jetton_transfer libs m
          ≡ MessageResult.err forward_ton_amount_is_negative)
        → Sent m
    sent :
        (c : Cell) (built_eq : build_jetton_transfer libs m ≡ MessageResult.ok c)
        (parsed_eq : parse_jetton_transfer libs c
          ≡ MessageResult.ok (record m {
            destination = low_workchain m.destination;
            response_destination = low_workchain m.response_destination;
          }))
        → Sent m
