-- ===== src/Tests/Caches.antt =====
-- The cache of transactions with clients that answer and clients that fail.
use tonlib_rs.Prelude.{
  ℕ, zero, suc, ◌≡◌, refl, ap, List, [], ◌∷◌, ◌++◌, none, true, false, inr, length, length-append,
  arith,
}
use tonlib_rs.TransactionsCache.{
  RawTransaction, Inner, Client, answer, failed, other_error, CacheResult, null_transaction_id,
  load_new_txs, get, front_id, add_loaded,
}
use tonlib_rs.TransactionsCache.Chain.{Serves}
use tonlib_rs.TransactionsCache.Newest.{History, Synced, Got, load_new_txs_lem, get_newest}

abbrev transaction : ℕ → RawTransaction
transaction n = record { transaction_id = record { lt = n; hash = [] }; utime = n; data_bytes = [] }

-- An account with one transaction, and a client that knows it.
abbrev one : RawTransaction
one = transaction 5

abbrev knows_one : Client
knows_one n id count = answer (one ∷ []) null_transaction_id

only :
    (front : List RawTransaction) (tx : RawTransaction) (rest : List RawTransaction)
    → one ∷ [] ≡ front ++ (tx ∷ rest)
    → rest ≡ []
only [] tx [] e = refl
only [] tx (r ∷ rest) e = absurd (omega (arith, ap (λ (t : List RawTransaction). length t) e))
only (x ∷ front) tx rest e =
    absurd
      (omega (arith, ap (λ (t : List RawTransaction). length t) e, length-append front (tx ∷ rest)))

only_head :
    (front : List RawTransaction) (tx : RawTransaction) (rest : List RawTransaction)
    → one ∷ [] ≡ front ++ (tx ∷ rest)
    → one ≡ tx
only_head [] tx rest e = cc
only_head (x ∷ front) tx rest e =
    absurd
      (omega (arith, ap (λ (t : List RawTransaction). length t) e, length-append front (tx ∷ rest)))

one-Serves : Serves knows_one (one ∷ [])
unfolding front_id
one-Serves n batch front tx rest e = inr (
  [],
  [],
  ap (λ t. answer (t ∷ []) null_transaction_id) (only_head front tx rest e),
  only front tx rest e,
)

one-History : History knows_one (one ∷ []) []
one-History = record { bound = 6; falling = (omega arith, omega arith, tt); serves = one-Serves }

abbrev empty_cache : Inner
empty_cache = record { transactions = [] }

load_new_txs_lem_example :
    Synced knows_one true 3
      (one ∷ [])
      []
      (load_new_txs knows_one true 3 0 none empty_cache (one.transaction_id))
unfolding front_id
load_new_txs_lem_example =
    load_new_txs_lem knows_one true 3 0 (one ∷ []) [] one-History (omega arith)

get_newest_example :
    Got knows_one 3 2
      (one ∷ [])
      []
      (get knows_one false 3 0 none empty_cache 2 (one.transaction_id))
unfolding front_id
get_newest_example = get_newest knows_one false 3 0 (one ∷ []) [] one-History (omega arith) 2 refl

-- A client that answers the first call with the newest transaction, and fails on the second one.
abbrev fails_later : Client
fails_later zero id count = answer (transaction 3 ∷ []) (record { lt = 2; hash = [] })
fails_later (suc n) id count = failed other_error

-- Under the soft limit the cache goes from the first transaction to the third one,
gap_appears :
    load_new_txs fails_later true 3 0 none
      (record { transactions = transaction 1 ∷ [] })
      (record { lt = 3; hash = [] })
    ≡ CacheResult.ok (record { transactions = transaction 3 ∷ transaction 1 ∷ [] })
unfolding load_new_txs front_id add_loaded
gap_appears = refl

-- and the second one is not asked for again.
gap_stays :
    (client : Client)
    → load_new_txs client true 3 0 none
        (record { transactions = transaction 3 ∷ transaction 1 ∷ [] })
        (record { lt = 3; hash = [] })
      ≡ CacheResult.ok (record { transactions = transaction 3 ∷ transaction 1 ∷ [] })
unfolding load_new_txs front_id
gap_stays client = refl
