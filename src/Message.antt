-- ===== src/Message.antt =====
-- src/message.rs and src/message/error.rs: the errors of the messages, and how the errors of cells
-- become them.
pub mod Transfer
pub mod Jetton
pub mod Setters
pub mod Fields
pub mod Payload
pub mod RoundTrip
pub mod Transfers
pub mod Carried
use tonlib_rs.Prelude.{ℕ, Option, ◌==◌, if◌then◌else◌, some}
use tonlib_rs.Prelude.Outcome.{TonCellError, Result, Outcome, ◌>>=◌, ◌>>◌, pure, result_of}
use tonlib_rs.Libs.{Libs}
use tonlib_rs.Cell.{Cell}
use tonlib_rs.Builder
use tonlib_rs.Builder.Cells.{build}
use tonlib_rs.Parser
use tonlib_rs.Parser.{Load}

-- `InvalidMessage`, without its text
pub record InvalidMessage : Type 0 where
  pub opcode : Option ℕ
  pub query_id : Option ℕ

-- `TonMessageError`
pub data TonMessageError : Type 0 where
  forward_ton_amount_is_negative nacl_cryptographic_error : TonMessageError
  ton_cell_error : TonCellError → TonMessageError
  invalid_message : InvalidMessage → TonMessageError

pub data MessageResult (A : Type 0) : Type 0 where
  ok : A → MessageResult A
  err : TonMessageError → MessageResult A
  panic : MessageResult A

-- `?` on the result of a cell call
abbrev pub from_cell : {A B : Type 0} → Result A → (A → MessageResult B) → MessageResult B
from_cell (Result.ok a) f = f a
from_cell (Result.err e) f = MessageResult.err (ton_cell_error e)
from_cell Result.panic f = MessageResult.panic

abbrev pub from_call : {S A B : Type 0} → Outcome S A → (A → S → MessageResult B) → MessageResult B
from_call (Outcome.ok a s) f = f a s
from_call (Outcome.err e s) f = MessageResult.err (ton_cell_error e)
from_call Outcome.panic f = MessageResult.panic

module _ (libs : Libs) where
  -- `CellBuilder::new()`, the calls of a message, and `Ok(builder.build()?)`
  abbrev pub built : Builder.Store libs (Unit {0}) → MessageResult Cell
  built store = from_cell (result_of ((store >> build libs) (Builder.new libs))) MessageResult.ok

  abbrev pub load_header : Load libs (ℕ × ℕ)
  load_header = do
    opcode ← Parser.load_u32 libs 32
    query_id ← Parser.load_u64 libs 64
    pure (opcode, query_id)

  -- The opcode and the query id, the test of the opcode, and the other fields.
  unfoldable pub parsed : {A : Type 0} → ℕ → (ℕ → Load libs A) → Cell → MessageResult A
  unfolding Parser.load_number
  parsed expected fields c = from_call (load_header (Parser.parser libs c)) λ h p.
      if h.0 == expected
      then from_call (fields h.1 p) (λ a q. MessageResult.ok a)
      else MessageResult.err (invalid_message (record { opcode = some h.0; query_id = some h.1 }))
