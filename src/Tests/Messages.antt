-- ===== src/Tests/Messages.antt =====
-- Messages and a state init at concrete values.
use tonlib_rs.Prelude.{◌≤◌, ◌≡◌, [], ◌∷◌, none, some, false, true, arith}
use tonlib_rs.Prelude.Outcome.{Result, ok}
use tonlib_rs.Cell.{Cell, ordinary}
use tonlib_rs.Cell.Described.{repr}
use tonlib_rs.Cell.Ordinary.{plain_cell, plain_cell-IsPlain, no_levels}
use tonlib_rs.Parser
use tonlib_rs.Parser.{CellParser}
use tonlib_rs.Trips.Addresses.{low_workchain}
use tonlib_rs.Message.{MessageResult}
use tonlib_rs.Message.Transfer
use tonlib_rs.Message.Transfer.{TransferMessage}
use tonlib_rs.Message.Carried.{read_transfer, transfer_fields, read_transfer-build}
use tonlib_rs.Message.Jetton.{
  JettonBurnMessage, JettonTransferNotificationMessage, JettonTransferMessage, build_burn,
  parse_burn,
}
use tonlib_rs.Message.RoundTrip.{parse_burn-build_burn}
use tonlib_rs.StateInit.{StateInitBuilder, create_account_id, build}
use tonlib_rs.StateInit.Account.{build-plain_cell_flags, create_account_id_lem, flags_byte}
use tonlib_rs.Tests.Crates.{crates}
use tonlib_rs.Tests.Numbers.{bits}
use tonlib_rs.Tests.Cells
use tonlib_rs.Tests.Trips.{masterchain, masterchain-IsAddress}

amount_fits : crates.big_uint.bits 5000 ≤ 120
unfolding bits
amount_fits = omega arith

abbrev burn : JettonBurnMessage
burn = record {
  query_id = 7;
  amount = 5000;
  response_destination = masterchain;
  custom_payload = some Cells.empty_cell;
}

parse_burn-build_burn_example :
    (c : Cell) × (build_burn crates burn ≡ MessageResult.ok c)
    × (parse_burn crates c
        ≡ MessageResult.ok (record {
          query_id = 7;
          amount = 5000;
          response_destination = low_workchain masterchain;
          custom_payload = some Cells.empty_cell;
        }))
parse_burn-build_burn_example = parse_burn-build_burn crates burn (record {
  query_id_u64 = omega arith;
  amount_bits = amount_fits;
  destination_ok = masterchain-IsAddress;
  payload_plain = (plain_cell-IsPlain crates [] 0 [], tt);
})

abbrev notification : JettonTransferNotificationMessage
notification = record {
  query_id = 7;
  amount = 5000;
  sender = masterchain;
  forward_payload = Cells.empty_cell;
}

abbrev transfer : JettonTransferMessage
transfer = record {
  query_id = 7;
  amount = 5000;
  destination = masterchain;
  response_destination = masterchain;
  custom_payload = none;
  forward_ton_amount = 5000;
  forward_payload = Cells.empty_cell;
}

abbrev carried : TransferMessage
carried = record {
  dest = masterchain;
  value = 5000;
  state_init = none;
  data_ref = some Cells.empty_cell;
}

read_transfer-build_example :
    (c : Cell) × (p : CellParser crates) × (Transfer.build crates carried ≡ MessageResult.ok c)
    × (read_transfer crates (Parser.parser crates c) ≡ ok (transfer_fields carried) p)
read_transfer-build_example = read_transfer-build crates carried (record {
  dest_ok = masterchain-IsAddress;
  value_bits = amount_fits;
  state_init_plain = tt;
  data_plain = (plain_cell-IsPlain crates [] 0 [], tt);
})

abbrev only_code : StateInitBuilder
only_code = record {
  code = some Cells.empty_cell;
  data_ref = none;
  split_depth = false;
  tick_tock = true;
  library = false;
}

build-plain_cell_flags_example :
    build crates only_code ≡ Result.ok (plain_cell crates (0x60 ∷ []) 5 (Cells.empty_cell ∷ []))
unfolding flags_byte
build-plain_cell_flags_example =
    build-plain_cell_flags crates only_code (plain_cell-IsPlain crates [] 0 [], tt)

create_account_id_lem_example :
    create_account_id crates Cells.empty_cell Cells.empty_cell
    ≡ Result.ok (
        crates.digests.sha256 (
          repr
            (0x30 ∷ [], 5)
            (0x30 ∷ [], 5)
            (Cells.empty_cell ∷ Cells.empty_cell ∷ [])
            no_levels
            0
            ordinary))
create_account_id_lem_example =
    create_account_id_lem crates Cells.empty_cell Cells.empty_cell
      (plain_cell-IsPlain crates [] 0 []) (plain_cell-IsPlain crates [] 0 [])
