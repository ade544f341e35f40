-- ===== src/Message/Setters.antt =====
-- The `with_` methods of the messages in src/message/jetton.
use tonlib_rs.Prelude.{ℕ, some}
use tonlib_rs.Cell.{Cell}
use tonlib_rs.Address.{TonAddress}
use tonlib_rs.Message.Jetton.{
  JettonBurnMessage, JettonTransferNotificationMessage, JettonTransferMessage,
}

unfoldable pub burn_with_query_id : JettonBurnMessage → ℕ → JettonBurnMessage
burn_with_query_id m query_id = record m { query_id = query_id }

unfoldable pub burn_with_response_destination : JettonBurnMessage → TonAddress → JettonBurnMessage
burn_with_response_destination m a = record m { response_destination = a }

unfoldable pub burn_with_custom_payload : JettonBurnMessage → Cell → JettonBurnMessage
burn_with_custom_payload m c = record m { custom_payload = some c }

unfoldable pub notification_with_query_id :
    JettonTransferNotificationMessage → ℕ → JettonTransferNotificationMessage
notification_with_query_id m query_id = record m { query_id = query_id }

unfoldable pub notification_with_forward_payload :
    JettonTransferNotificationMessage → Cell → JettonTransferNotificationMessage
notification_with_forward_payload m c = record m { forward_payload = c }

unfoldable pub transfer_with_query_id : JettonTransferMessage → ℕ → JettonTransferMessage
transfer_with_query_id m query_id = record m { query_id = query_id }

unfoldable pub transfer_with_response_destination :
    JettonTransferMessage → TonAddress → JettonTransferMessage
transfer_with_response_destination m a = record m { response_destination = a }

unfoldable pub transfer_with_custom_payload : JettonTransferMessage → Cell → JettonTransferMessage
transfer_with_custom_payload m c = record m { custom_payload = some c }

unfoldable pub transfer_with_forward_payload :
    JettonTransferMessage → ℕ → Cell → JettonTransferMessage
transfer_with_forward_payload m amount c = record m {
  forward_ton_amount = amount;
  forward_payload = c;
}
