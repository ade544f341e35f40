-- ===== src/Message/Jetton.antt =====
-- src/message/jetton.rs and its three messages: burn, transfer and transfer notification.

use tonlib_rs.Prelude.{ℕ, Option, none, ◌==◌, ◌&&◌, if◌then◌else◌}
use tonlib_rs.Prelude.Outcome.{◌>>=◌, ◌>>◌, pure}
use tonlib_rs.Libs.{Libs}
use tonlib_rs.Cell.{Cell}
use tonlib_rs.Cell.Equal.{cell_eq, empty_cell}
use tonlib_rs.Address.{TonAddress, null}
use tonlib_rs.Builder
use tonlib_rs.Builder.{Store}
use tonlib_rs.Builder.Values.{store_coins, store_address}
use tonlib_rs.Builder.Cells.{store_maybe_cell_ref, store_either_cell_or_cell_ref}
use tonlib_rs.Parser.{Load}
use tonlib_rs.Parser.Values.{
  load_coins, load_address, load_maybe_cell_ref, load_either_cell_or_cell_ref, ensure_empty,
}
use tonlib_rs.Message.{MessageResult, forward_ton_amount_is_negative, built, parsed}

abbrev pub jetton_transfer : ℕ
jetton_transfer = 0x0f8a7ea5

abbrev pub jetton_transfer_notification : ℕ
jetton_transfer_notification = 0x7362d09c

abbrev pub jetton_burn : ℕ
jetton_burn = 0x595f07bc

-- `JettonBurnMessage`
pub record JettonBurnMessage : Type 0 where
  pub query_id : ℕ
  pub amount : ℕ
  pub response_destination : TonAddress
  pub custom_payload : Option Cell

-- `JettonTransferNotificationMessage`
pub record JettonTransferNotificationMessage : Type 0 where
  pub query_id : ℕ
  pub amount : ℕ
  pub sender : TonAddress
  pub forward_payload : Cell

-- `JettonTransferMessage`
pub record JettonTransferMessage : Type 0 where
  pub query_id : ℕ
  pub amount : ℕ
  pub destination : TonAddress
  pub response_destination : TonAddress
  pub custom_payload : Option Cell
  pub forward_ton_amount : ℕ
  pub forward_payload : Cell

unfoldable pub new_burn : ℕ → JettonBurnMessage
new_burn amount = record {
  query_id = 0;
  amount = amount;
  response_destination = null;
  custom_payload = none;
}

unfoldable pub new_notification : TonAddress → ℕ → JettonTransferNotificationMessage
unfolding empty_cell
new_notification sender amount = record {
  query_id = 0;
  amount = amount;
  sender = sender;
  forward_payload = empty_cell;
}

unfoldable pub new_transfer : TonAddress → ℕ → JettonTransferMessage
unfolding empty_cell
new_transfer destination amount = record {
  query_id = 0;
  amount = amount;
  destination = destination;
  response_destination = null;
  custom_payload = none;
  forward_ton_amount = 0;
  forward_payload = empty_cell;
}

module _ (libs : Libs) where
  unfoldable pub store_burn : JettonBurnMessage → Store libs (Unit {0})
  unfolding Builder.store_number store_coins store_address store_maybe_cell_ref
  store_burn m = do
    Builder.store_u32 libs 32 jetton_burn
    Builder.store_u64 libs 64 m.query_id
    store_coins libs m.amount
    store_address libs m.response_destination
    store_maybe_cell_ref libs m.custom_payload

  unfoldable pub build_burn : JettonBurnMessage → MessageResult Cell
  unfolding store_burn
  build_burn m = built libs (store_burn m)

  unfoldable pub load_burn : ℕ → Load libs JettonBurnMessage
  unfolding load_coins load_address load_maybe_cell_ref ensure_empty
  load_burn query_id = do
    amount ← load_coins libs
    response_destination ← load_address libs
    custom_payload ← load_maybe_cell_ref libs
    ensure_empty libs
    pure (record {
      query_id = query_id;
      amount = amount;
      response_destination = response_destination;
      custom_payload = custom_payload;
    })

  unfoldable pub parse_burn : Cell → MessageResult JettonBurnMessage
  unfolding load_burn parsed
  parse_burn c = parsed libs jetton_burn load_burn c

  unfoldable pub store_notification : JettonTransferNotificationMessage → Store libs (Unit {0})
  unfolding Builder.store_number store_coins store_address store_either_cell_or_cell_ref
  store_notification m = do
    Builder.store_u32 libs 32 jetton_transfer_notification
    Builder.store_u64 libs 64 m.query_id
    store_coins libs m.amount
    store_address libs m.sender
    store_either_cell_or_cell_ref libs m.forward_payload

  unfoldable pub build_notification : JettonTransferNotificationMessage → MessageResult Cell
  unfolding store_notification
  build_notification m = built libs (store_notification m)

  unfoldable pub load_notification : ℕ → Load libs JettonTransferNotificationMessage
  unfolding load_coins load_address load_either_cell_or_cell_ref ensure_empty
  load_notification query_id = do
    amount ← load_coins libs
    sender ← load_address libs
    forward_payload ← load_either_cell_or_cell_ref libs
    ensure_empty libs
    pure (record {
      query_id = query_id;
      amount = amount;
      sender = sender;
      forward_payload = forward_payload;
    })

  unfoldable pub parse_notification : Cell → MessageResult JettonTransferNotificationMessage
  unfolding load_notification parsed
  parse_notification c = parsed libs jetton_transfer_notification load_notification c

  unfoldable pub store_jetton_transfer : JettonTransferMessage → Store libs (Unit {0})
  unfolding Builder.store_number store_coins store_address store_maybe_cell_ref
      store_either_cell_or_cell_ref
  store_jetton_transfer m = do
    Builder.store_u32 libs 32 jetton_transfer
    Builder.store_u64 libs 64 m.query_id
    store_coins libs m.amount
    store_address libs m.destination
    store_address libs m.response_destination
    store_maybe_cell_ref libs m.custom_payload
    store_coins libs m.forward_ton_amount
    store_either_cell_or_cell_ref libs m.forward_payload

  unfoldable pub build_jetton_transfer : JettonTransferMessage → MessageResult Cell
  unfolding store_jetton_transfer cell_eq empty_cell
  build_jetton_transfer m =
      if m.forward_ton_amount == 0 && cell_eq m.forward_payload empty_cell
      then MessageResult.err forward_ton_amount_is_negative
      else built libs (store_jetton_transfer m)

  unfoldable pub load_jetton_transfer : ℕ → Load libs JettonTransferMessage
  unfolding load_coins load_address load_maybe_cell_ref load_either_cell_or_cell_ref ensure_empty
  load_jetton_transfer query_id = do
    amount ← load_coins libs
    destination ← load_address libs
    response_destination ← load_address libs
    custom_payload ← load_maybe_cell_ref libs
    forward_ton_amount ← load_coins libs
    forward_payload ← load_either_cell_or_cell_ref libs
    ensure_empty libs
    pure (record {
      query_id = query_id;
      amount = amount;
      destination = destination;
      response_destination = response_destination;
      custom_payload = custom_payload;
      forward_ton_amount = forward_ton_amount;
      forward_payload = forward_payload;
    })

  unfoldable pub parse_jetton_transfer : Cell → MessageResult JettonTransferMessage
  unfolding load_jetton_transfer parsed
  parse_jetton_transfer c = parsed libs jetton_transfer load_jetton_transfer c
