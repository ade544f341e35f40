-- ===== src/TransactionsCache.antt =====
-- src/contract/latest_transactions_cache.rs: the cache of the newest transactions of an account.
-- A logical time is an `i64` that is never negative, and so is a time; both are natural numbers.
pub mod Chain
pub mod Batch
pub mod Rounds
pub mod Sync
pub mod Newest
use tonlib_rs.Prelude.{
  ℕ, zero, suc, ◌+◌, ◌-◌, ◌*◌, ◌/◌, List, [], ◌∷◌, ◌++◌, Option, none, some, Bool, true, false, not,
  ◌&&◌, ◌||◌, ◌==◌, ltb, leb, if◌then◌else◌, length, replicate, take,
}
use tonlib_rs.CellType.{bytes_eq}

-- `InternalTransactionId` of src/tl/types.rs
pub record InternalTransactionId : Type 0 where
  pub lt : ℕ
  pub hash : List ℕ

-- `NULL_TRANSACTION_ID`
abbrev pub null_transaction_id : InternalTransactionId
null_transaction_id = record { lt = 0; hash = replicate 32 0 }

-- `RawTransaction`, of which the cache reads the id and the time and keeps the rest.
pub record RawTransaction : Type 0 where
  pub transaction_id : InternalTransactionId
  pub utime : ℕ
  pub data_bytes : List ℕ

pub data TonClientError : Type 0 where
  tonlib_error : ℕ → TonClientError
  other_error : TonClientError

-- What `get_raw_transactions_v2` returns: `RawTransactions`, or an error.
pub data Reply : Type 0 where
  answer : List RawTransaction → InternalTransactionId → Reply
  failed : TonClientError → Reply

-- The client: what it returns for the n-th call, an id to start from and a count.
abbrev pub Client : Type 0
Client = ℕ → InternalTransactionId → ℕ → Reply

pub data TonContractError : Type 0 where
  illegal_argument internal_error : TonContractError
  client_error : TonClientError → TonContractError

pub data CacheResult (A : Type 0) : Type 0 where
  ok : A → CacheResult A
  err : TonContractError → CacheResult A
  panic : CacheResult A

-- `Inner`
pub record Inner : Type 0 where
  pub transactions : List RawTransaction

unfoldable pub front_id : List RawTransaction → InternalTransactionId
front_id [] = null_transaction_id
front_id (tx ∷ txs) = tx.transaction_id

unfoldable pub get_latest_synced_tx_id : Inner → InternalTransactionId
unfolding front_id
get_latest_synced_tx_id inner = front_id inner.transactions

-- `!=` on ids
unfoldable pub is_not_synced_to_tx_id : Inner → InternalTransactionId → Bool
unfolding get_latest_synced_tx_id bytes_eq
is_not_synced_to_tx_id inner target =
    let latest = get_latest_synced_tx_id inner in
    not (latest.lt == target.lt && bytes_eq latest.hash target.hash)

-- `Duration::from_secs(utime) < min`; durations are in nanoseconds.
unfoldable pub is_older_than : ℕ → Option ℕ → Bool
is_older_than utime (some min_utime) = ltb (utime * 1000000000) min_utime
is_older_than utime none = false

unfoldable pub fill_txs : Inner → ℕ → List RawTransaction
fill_txs inner limit = take limit inner.transactions

-- `while txs.len() > capacity { txs.pop_back() }`, a round for each transaction at most.
unfoldable pub pop_back : List RawTransaction → List RawTransaction
pop_back [] = []
pop_back (tx ∷ []) = []
pop_back (tx ∷ ty ∷ txs) = tx ∷ pop_back (ty ∷ txs)

unfoldable pub trim : ℕ → ℕ → List RawTransaction → List RawTransaction
unfolding pop_back
trim zero capacity txs = txs
trim (suc rounds) capacity txs =
    let popped = trim rounds capacity (pop_back txs) in
    if ltb capacity (length txs) then popped else txs

-- The variables of the loop of `load_new_txs`, and the number of calls made.
pub record Loading : Type 0 where
  pub loaded : List RawTransaction
  pub finished : Bool
  pub next_to_load : InternalTransactionId
  pub batch_size : ℕ
  pub calls : ℕ

-- What a round of the loop ends with: `continue`, `break` or `return Err`.
pub data Next : Type 0 where
  again : Loading → Next
  break : List RawTransaction → Next
  give_up : TonContractError → Next

module _ (client : Client) (soft_limit : Bool) (capacity : ℕ) (synced_lt : ℕ)
    (min_utime : Option ℕ) where
  -- `for tx in txs.transactions`: the loaded transactions, and whether the loop is finished.
  unfoldable pub take_txs : List RawTransaction → List RawTransaction → List RawTransaction × Bool
  unfolding is_older_than
  take_txs loaded [] = (loaded, false)
  take_txs loaded (tx ∷ txs) =
      let rest = take_txs (loaded ++ (tx ∷ [])) txs in
      if leb capacity (length loaded) || leb tx.transaction_id.lt synced_lt
      then (loaded, true)
      else if is_older_than tx.utime min_utime
      then (loaded, true)
      else rest

  abbrev pub halved : Loading → Next
  halved s =
      if s.batch_size / 2 == 0
      then break s.loaded
      else again (record s { batch_size = s.batch_size / 2; calls = s.calls + 1 })

  abbrev pub on_error : TonClientError → Loading → Next
  on_error (tonlib_error code) s = if code == 500 then halved s else break s.loaded
  on_error other_error s = break s.loaded

  unfoldable pub on_reply : Loading → Reply → Next
  unfolding take_txs
  on_reply s (answer txs previous) =
      let r = take_txs s.loaded txs in
      again
        (record s { loaded = r.0; finished = r.1; next_to_load = previous; calls = s.calls + 1 })
  on_reply s (failed e) = if soft_limit then on_error e s else give_up (client_error e)

  -- `!finished && next_to_load.lt != 0 && next_to_load.lt > synced_tx_id.lt`
  unfoldable pub wanted : Loading → Bool
  wanted s = not s.finished && (not (s.next_to_load.lt == 0) && ltb synced_lt s.next_to_load.lt)

  abbrev pub proceed :
      (Loading → Option (CacheResult (List RawTransaction)))
      → Next
      → Option (CacheResult (List RawTransaction))
  proceed loop (again s) = loop s
  proceed loop (break loaded) = some (ok loaded)
  proceed loop (give_up e) = some (err e)

  unfoldable pub load_loop : ℕ → Loading → Option (CacheResult (List RawTransaction))
  unfolding on_reply wanted
  load_loop zero s = if wanted s then none else some (ok s.loaded)
  load_loop (suc fuel) s =
      let more =
        proceed (load_loop fuel) (on_reply s (client s.calls s.next_to_load s.batch_size)) in
      if wanted s then more else some (ok s.loaded)

-- The loaded transactions go to the front, and the oldest ones leave at the back.
unfoldable pub add_loaded : Inner → ℕ → List RawTransaction → Inner
unfolding trim
add_loaded inner capacity loaded =
    let txs = loaded ++ inner.transactions in
    record { transactions = trim (length txs) capacity txs }

-- The result of the loop; the fuel is enough, so there is no `panic` for want of it.
abbrev pub settled : Inner → ℕ → Option (CacheResult (List RawTransaction)) → CacheResult Inner
settled inner capacity (some (ok loaded)) = ok (add_loaded inner capacity loaded)
settled inner capacity (some (err e)) = err e
settled inner capacity (some panic) = panic
settled inner capacity none = panic

-- `current_time - duration`, which panics below zero
unfoldable pub min_time : ℕ → Option ℕ → CacheResult (Option ℕ)
min_time now none = ok none
min_time now (some limit) = if ltb now limit then panic else ok (some (now - limit))

abbrev pub with_min_time :
    {A : Type 0} → CacheResult (Option ℕ) → (Option ℕ → CacheResult A) → CacheResult A
with_min_time (ok m) f = f m
with_min_time (err e) f = err e
with_min_time panic f = panic

module _ (client : Client) (soft_limit : Bool) (capacity : ℕ) where
  abbrev pub start : InternalTransactionId → Loading
  start target = record {
    loaded = [];
    finished = false;
    next_to_load = target;
    batch_size = 16;
    calls = 0;
  }

  -- `load_new_txs`, at a time of the clock, with the age limit in nanoseconds.
  unfoldable pub load_new_txs : ℕ → Option ℕ → Inner → InternalTransactionId → CacheResult Inner
  unfolding get_latest_synced_tx_id load_loop min_time
  load_new_txs now tx_age_limit inner target =
      let synced = get_latest_synced_tx_id inner in
      let load = with_min_time (min_time now tx_age_limit) λ min_utime. settled inner capacity (
        load_loop client soft_limit capacity synced.lt min_utime (target.lt + 17) (start target)) in
      if leb target.lt synced.lt then ok inner else load

  abbrev pub filled : ℕ → CacheResult Inner → CacheResult (List RawTransaction × Inner)
  filled limit (ok inner) = ok (fill_txs inner limit, inner)
  filled limit (err e) = err e
  filled limit panic = panic

  -- `get`, with the id that `get_latest_tx_id` returned
  unfoldable pub get :
      ℕ → Option ℕ → Inner → ℕ → InternalTransactionId → CacheResult (List RawTransaction × Inner)
  unfolding is_not_synced_to_tx_id load_new_txs
  get now tx_age_limit inner limit target =
      let loaded =
        if is_not_synced_to_tx_id inner target
        then load_new_txs now tx_age_limit inner target
        else ok inner in
      if ltb capacity limit then err illegal_argument else filled limit loaded

  unfoldable pub get_all :
      ℕ → Option ℕ → Inner → InternalTransactionId → CacheResult (List RawTransaction × Inner)
  unfolding get
  get_all now tx_age_limit inner target = get now tx_age_limit inner capacity target
