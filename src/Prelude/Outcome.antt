-- ===== src/Prelude/Outcome.antt =====
-- cell/error.rs: the errors of the cell code, and the ways in which a call ends.
-- The texts that the source puts into an error are left out; the variants and their numbers are kept.
use Prim.Native.Nat.{ℕ, ◌-◌}
use mathlib.Core.Bool.{◌&&◌}
use mathlib.Core.List.{List}
use mathlib.Core.Option.{Option, none, some}
use tonlib_rs.Prelude.Tests.{leb, if◌then◌else◌}
use tonlib_rs.Prelude.Lists.{length, take, drop}

-- `TonCellError`
pub data TonCellError : Type 0 where
  boc_deserialization_error boc_serialization_error : TonCellError
  cell_builder_error cell_parser_error internal_error : TonCellError
  invalid_index : ℕ → ℕ → TonCellError
  invalid_address_type : ℕ → TonCellError
  invalid_exotic_cell_type : Option ℕ → TonCellError
  invalid_exotic_cell_data : TonCellError
  non_empty_reader : ℕ → ℕ → TonCellError

-- A call that reads only: it returns, fails with an error, or panics (an index out of bounds or
-- an arithmetic overflow).
pub data Result {ℓ} (A : Type ℓ) : Type ℓ where
  ok : A → Result A
  err : TonCellError → Result A
  panic : Result A

-- A call on a `&mut self` of type `S`: what was written before an error stays written.
pub data Outcome {ℓ} (S : Type ℓ) (A : Type ℓ) : Type ℓ where
  ok : A → S → Outcome S A
  err : TonCellError → S → Outcome S A
  panic : Outcome S A

-- A call of the bit and byte streams: `std::io::Result` with the stream after the call.
pub data IoResult {ℓ} (S : Type ℓ) (A : Type ℓ) : Type ℓ where
  done : A → S → IoResult S A
  failed : S → IoResult S A

abbrev pub bind {ℓ κ} : {A : Type ℓ} {B : Type κ} → Result A → (A → Result B) → Result B
bind (Result.ok a) f = f a
bind (Result.err e) f = Result.err e
bind Result.panic f = Result.panic

abbrev pub Action {ℓ} : Type ℓ → Type ℓ → Type ℓ
Action S A = S → Outcome S A

abbrev pub after {ℓ} : {S A B : Type ℓ} → Outcome S A → (A → Action S B) → Outcome S B
after (Outcome.ok a s) f = f a s
after (Outcome.err e s) f = Outcome.err e s
after Outcome.panic f = Outcome.panic

infixl 5 ◌>>=◌ ◌>>◌
abbrev pub ◌>>=◌ {ℓ} : {S A B : Type ℓ} → Action S A → (A → Action S B) → Action S B
◌>>=◌ m f s = after (m s) f

abbrev pub ◌>>◌ {ℓ} : {S A B : Type ℓ} → Action S A → Action S B → Action S B
m >> k = m >>= λ _. k

abbrev pub pure {ℓ} : {S A : Type ℓ} → A → Action S A
pure a s = Outcome.ok a s

abbrev pub fail {ℓ} : {S A : Type ℓ} → TonCellError → Action S A
fail e s = Outcome.err e s

abbrev pub abort {ℓ} : {S A : Type ℓ} → Action S A
abort s = Outcome.panic

abbrev pub gets {ℓ} : {S A : Type ℓ} → (S → A) → Action S A
gets f s = Outcome.ok (f s) s

-- A pure call inside an action.
abbrev pub lift {ℓ} : {S A : Type ℓ} → Result A → Action S A
lift (Result.ok a) s = Outcome.ok a s
lift (Result.err e) s = Outcome.err e s
lift Result.panic s = Outcome.panic

-- `vec[i]`
abbrev pub index {ℓ} : {A : Type ℓ} → Option A → Result A
index (some a) = Result.ok a
index none = Result.panic

-- `&vec[from..to]`
abbrev pub slice {ℓ} : {A : Type ℓ} → ℕ → ℕ → List A → Result (List A)
slice from to xs =
    if leb from to && leb to (length xs)
    then Result.ok (take (to - from) (drop from xs))
    else Result.panic

-- `.map_..._error()?` on a call of a stream
abbrev pub settle {ℓ} : {S A : Type ℓ} → TonCellError → IoResult S A → Outcome S A
settle e (done a s) = Outcome.ok a s
settle e (failed s) = Outcome.err e s

abbrev pub io {ℓ} : {S A : Type ℓ} → TonCellError → (S → IoResult S A) → Action S A
io e m s = settle e (m s)

-- The result of a call on a stream that is dropped afterwards.
abbrev pub result_of {ℓ} : {S A : Type ℓ} → Outcome S A → Result A
result_of (Outcome.ok a s) = Result.ok a
result_of (Outcome.err e s) = Result.err e
result_of Outcome.panic = Result.panic
