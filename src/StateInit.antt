-- ===== src/StateInit.antt =====
-- src/cell/state_init.rs: the initial state of a contract, and the account id that is its hash.
pub mod Account
use tonlib_rs.Prelude.{ℕ, Option, none, some, Bool, true, false}
use tonlib_rs.Prelude.Outcome.{Result, bind, result_of, ◌>>=◌, ◌>>◌, pure}
use tonlib_rs.Libs.{Libs}
use tonlib_rs.Cell.{Cell, TonHash, cell_hash}
use tonlib_rs.Builder
use tonlib_rs.Builder.{Store}
use tonlib_rs.Builder.Cells
use tonlib_rs.Builder.Cells.{store_reference}

-- `StateInitBuilder`
pub record StateInitBuilder : Type 0 where
  pub code : Option Cell
  pub data_ref : Option Cell
  pub split_depth : Bool
  pub tick_tock : Bool
  pub library : Bool

unfoldable pub new : Cell → Cell → StateInitBuilder
new code data' = record {
  code = some code;
  data_ref = some data';
  split_depth = false;
  tick_tock = false;
  library = false;
}

unfoldable pub with_split_depth : StateInitBuilder → Bool → StateInitBuilder
with_split_depth s split_depth = record s { split_depth = split_depth }

unfoldable pub with_tick_tock : StateInitBuilder → Bool → StateInitBuilder
with_tick_tock s tick_tock = record s { tick_tock = tick_tock }

unfoldable pub with_library : StateInitBuilder → Bool → StateInitBuilder
with_library s library = record s { library = library }

abbrev pub is_some : Option Cell → Bool
is_some (some c) = true
is_some none = false

module _ (libs : Libs) where
  -- `if let Some(cell) = ... { builder.store_reference(cell)?; }`
  unfoldable pub store_optional : Option Cell → Store libs (Unit {0})
  unfolding store_reference
  store_optional (some c) = store_reference libs c
  store_optional none = pure tt

  unfoldable pub store_state_init : StateInitBuilder → Store libs (Unit {0})
  unfolding Builder.store_bit store_optional
  store_state_init s = do
    Builder.store_bit libs s.split_depth
    Builder.store_bit libs s.tick_tock
    Builder.store_bit libs (is_some s.code)
    Builder.store_bit libs (is_some s.data_ref)
    Builder.store_bit libs s.library
    store_optional s.code
    store_optional s.data_ref

  -- `StateInitBuilder::build`
  unfoldable pub build : StateInitBuilder → Result Cell
  unfolding store_state_init
  build s = result_of ((store_state_init s >> Cells.build libs) (Builder.new libs))

  -- `StateInit::create_account_id`
  unfoldable pub create_account_id : Cell → Cell → Result TonHash
  unfolding build new
  create_account_id code data' = bind (build (new code data')) λ c. Result.ok (cell_hash c)
