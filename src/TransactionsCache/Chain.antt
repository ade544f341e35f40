-- ===== src/TransactionsCache/Chain.antt =====
-- The chain of transactions of an account, and what the cache of
-- src/contract/latest_transactions_cache.rs relies on when it asks for a part of it.
use tonlib_rs.Prelude.{
  ℕ, zero, suc, ◌<◌, ◌≤◌, ◌≡◌, refl, subst, List, [], ◌∷◌, ◌++◌, ◌⊎◌, inl, inr, arith,
}
use tonlib_rs.TransactionsCache.{RawTransaction, Client, TonClientError, front_id, answer, failed}

abbrev pub lt_of : RawTransaction → ℕ
lt_of tx = tx.transaction_id.lt

-- The logical times are positive, fall from each transaction to the next, and stay below a bound.
abbrev pub Falling : ℕ → List RawTransaction → Type 0
Falling bound [] = Unit {0}
Falling bound (tx ∷ txs) = 0 < lt_of tx × lt_of tx < bound × Falling (lt_of tx) txs

-- A call that starts at a transaction of the chain either fails, or returns this transaction and
-- some that follow it, and the id of the one behind them, or the null id at the end of the chain.
abbrev pub Serves : Client → List RawTransaction → Type 0
Serves client chain =
    (n batch : ℕ) (front : List RawTransaction) (tx : RawTransaction) (rest : List RawTransaction)
    → chain ≡ front ++ (tx ∷ rest)
    → ((e : TonClientError) × (client n tx.transaction_id batch ≡ failed e))
      ⊎ ((txs after : List RawTransaction) × (client n tx.transaction_id batch
            ≡ answer (tx ∷ txs) (front_id after))
          × (rest ≡ txs ++ after))

-- A call that failed: the transactions `done` of `new` are loaded, and the client returns the
-- error `e` when it is asked for the next one.
pub record Stuck (client : Client) (new done : List RawTransaction) (e : TonClientError)
    : Type 0 where
  pub tx : RawTransaction
  pub rest : List RawTransaction
  pub call : ℕ
  pub batch : ℕ
  pub new_eq : new ≡ done ++ (tx ∷ rest)
  pub failed_eq : client call tx.transaction_id batch ≡ failed e

pub Falling-append :
    (bound : ℕ) (xs ys : List RawTransaction)
    → Falling bound (xs ++ ys)
    → (b : ℕ) × (b ≤ bound) × Falling b ys
Falling-append bound [] ys h = (bound, omega arith, h)
Falling-append bound (x ∷ xs) ys h =
    let (b, le, f) = Falling-append (lt_of x) xs ys h.2 in
    let lt = h.1 in (b, omega (arith, le, lt), f)

-- The id at the front of what falls below a bound is below it.
pub front_id-lt :
    (bound : ℕ) (ys : List RawTransaction) → 0 < bound → Falling bound ys → (front_id ys).lt < bound
unfolding front_id
front_id-lt bound [] pos h = pos
front_id-lt bound (y ∷ ys) pos h = h.1

zero_or : (n : ℕ) → (n ≡ 0) ⊎ (0 < n)
zero_or zero = inl refl
zero_or (suc n) = inr (omega arith)

front_zero : (zs : List RawTransaction) → Falling 0 zs → (front_id zs).lt ≡ 0
unfolding front_id
front_zero [] k = refl
front_zero (z ∷ zs) k = absurd (let l = k.1 in omega (arith, l))

-- A transaction in front of `ys` is newer than the first one of `ys`.
pub front_id-later :
    (bound : ℕ) (x : RawTransaction) (xs ys : List RawTransaction)
    → Falling bound (x ∷ (xs ++ ys))
    → (front_id ys).lt < lt_of x
front_id-later bound x xs ys h =
    let (b, le, f) = Falling-append (lt_of x) xs ys h.2 in
    let pos = h.0 in
    elim (zero_or b) [
      | inl e ↦ omega (arith, front_zero ys (subst (λ t. Falling t ys) e f), pos)
      | inr some_room ↦ omega (arith, front_id-lt b ys some_room f, le)
    ]
