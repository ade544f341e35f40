-- ===== src/Message/Transfer.antt =====
-- src/message/transfer.rs: the internal message that carries a transfer.
use tonlib_rs.Prelude.{ℕ, Option, none, some, Bool, true, false}
use tonlib_rs.Prelude.Outcome.{◌>>◌, pure}
use tonlib_rs.Libs.{Libs}
use tonlib_rs.Cell.{Cell}
use tonlib_rs.Address.{TonAddress, null}
use tonlib_rs.Builder
use tonlib_rs.Builder.{Store}
use tonlib_rs.Builder.Values.{store_coins, store_address}
use tonlib_rs.Builder.Cells.{store_reference}
use tonlib_rs.Message.{MessageResult, built}

-- `TransferMessage`
pub record TransferMessage : Type 0 where
  pub dest : TonAddress
  pub value : ℕ
  pub state_init : Option Cell
  pub data_ref : Option Cell

unfoldable pub new : TonAddress → ℕ → TransferMessage
new dest value = record { dest = dest; value = value; state_init = none; data_ref = none }

unfoldable pub with_state_init : TransferMessage → Cell → TransferMessage
with_state_init m state_init = record m { state_init = some state_init }

unfoldable pub with_data : TransferMessage → Cell → TransferMessage
with_data m data' = record m { data_ref = some data' }

abbrev pub is_some : Option Cell → Bool
is_some (some c) = true
is_some none = false

module _ (libs : Libs) where
  -- `if let Some(cell) = ... { builder.store_reference(cell)?; }`
  abbrev pub store_optional : Option Cell → Store libs (Unit {0})
  store_optional (some c) = store_reference libs c
  store_optional none = pure tt

  unfoldable pub store_transfer : TransferMessage → Store libs (Unit {0})
  unfolding Builder.store_bit Builder.store_number store_address store_coins store_reference
  store_transfer m = do
    Builder.store_bit libs false
    Builder.store_bit libs true
    Builder.store_bit libs true
    Builder.store_bit libs false
    store_address libs null
    store_address libs m.dest
    store_coins libs m.value
    Builder.store_bit libs false
    store_coins libs 0
    store_coins libs 0
    Builder.store_u64 libs 64 0
    Builder.store_u32 libs 32 0
    Builder.store_bit libs (is_some m.state_init)
    store_optional m.state_init
    Builder.store_bit libs (is_some m.data_ref)
    store_optional m.data_ref

  unfoldable pub build : TransferMessage → MessageResult Cell
  unfolding store_transfer
  build m = built libs (store_transfer m)
