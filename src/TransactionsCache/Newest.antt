-- ===== src/TransactionsCache/Newest.antt =====
-- The cache of src/contract/latest_transactions_cache.rs after `load_new_txs` and `get`.
use tonlib_rs.Prelude.{
  ℕ, zero, suc, ◌+◌, ◌<◌, ◌≤◌, ◌≡◌, refl, sym, ap, subst, ◌∙◌, List, [], ◌∷◌, ◌++◌, inl, inr, none,
  some, length, take, take_all, All, arith, Bool, true, false, not, ltb, leb, leb→le, ltb→lt,
  ltb→ge, Bool-cases,
}
use tonlib_rs.TransactionsCache.{
  RawTransaction, InternalTransactionId, Inner, Client, TonClientError, client_error,
  illegal_argument, CacheResult, front_id, get_latest_synced_tx_id, is_not_synced_to_tx_id,
  load_new_txs, add_loaded, trim, pop_back, min_time, start, get, fill_txs, filled, settled,
}
use tonlib_rs.CellType.Bytes.{both_true, same_number}
use tonlib_rs.TransactionsCache.Chain.{lt_of, Falling, Serves, Stuck, front_id-later}
use tonlib_rs.TransactionsCache.Rounds.{Ending, complete, partial, refused}
use tonlib_rs.TransactionsCache.Sync.{loop_ends}

abbrev inner_of : List RawTransaction → Inner
inner_of txs = record { transactions = txs }

length-pop_back :
    (tx : RawTransaction) (txs : List RawTransaction) → length (pop_back (tx ∷ txs)) ≡ length txs
unfolding pop_back
length-pop_back tx [] = refl
length-pop_back tx (ty ∷ txs) = ap suc (length-pop_back ty txs)

take-pop_back :
    (n : ℕ) (txs : List RawTransaction) → n < length txs → take n (pop_back txs) ≡ take n txs
unfolding pop_back
take-pop_back zero txs h = refl
take-pop_back (suc n) [] h = absurd (omega (arith, h))
take-pop_back (suc n) (tx ∷ []) h = absurd (omega (arith, h))
take-pop_back (suc n) (tx ∷ ty ∷ txs) h =
    ap (λ t. tx ∷ t) (take-pop_back n (ty ∷ txs) (omega (arith, h)))

trim-take :
    (rounds capacity : ℕ) (txs : List RawTransaction)
    → length txs ≤ capacity + rounds
    → trim rounds capacity txs ≡ take capacity txs
unfolding trim
trim-take zero capacity txs h = sym (take_all capacity txs (omega (arith, h)))
trim-take (suc rounds) capacity txs h = elim (Bool-cases (ltb capacity (length txs))) [
  | inl over ↦ rw over (
      trim-take rounds capacity (pop_back txs) (popped txs (ltb→lt capacity (length txs) over) h)
      ∙ take-pop_back capacity txs (ltb→lt capacity (length txs) over))
  | inr within ↦ rw within (sym (take_all capacity txs (ltb→ge capacity (length txs) within)))
]
  where
    popped :
        (us : List RawTransaction)
        → capacity < length us
        → length us ≤ capacity + suc rounds
        → length (pop_back us) ≤ capacity + rounds
    popped [] low k = absurd (omega (arith, low))
    popped (u ∷ us) low k = omega (arith, k, length-pop_back u us)

take_left : (n : ℕ) (xs ys : List RawTransaction) → take n (take n xs ++ ys) ≡ take n (xs ++ ys)
take_left zero xs ys = refl
take_left (suc n) [] ys = refl
take_left (suc n) (x ∷ xs) ys = ap (λ t. x ∷ t) (take_left n xs ys)

take_less : (n m : ℕ) (ys : List RawTransaction) → n ≤ m → take n (take m ys) ≡ take n ys
take_less zero m ys h = refl
take_less (suc n) zero ys h = absurd (omega (arith, h))
take_less (suc n) (suc m) [] h = refl
take_less (suc n) (suc m) (y ∷ ys) h = ap (λ t. y ∷ t) (take_less n m ys (omega (arith, h)))

take_right :
    (n m : ℕ) (xs ys : List RawTransaction) → n ≤ m → take n (xs ++ take m ys) ≡ take n (xs ++ ys)
take_right n m [] ys h = take_less n m ys h
take_right zero m (x ∷ xs) ys h = refl
take_right (suc n) m (x ∷ xs) ys h = ap (λ t. x ∷ t) (take_right n m xs ys (omega (arith, h)))

newer_than :
    (bound : ℕ) (new old : List RawTransaction)
    → Falling bound (new ++ old)
    → All (λ t. (front_id old).lt < lt_of t) new
newer_than bound [] old h = tt
newer_than bound (t ∷ new) old h =
    (front_id-later bound t new old h, newer_than (lt_of t) new old h.2)

front_id-take : (n : ℕ) (txs : List RawTransaction) → 0 < n → front_id (take n txs) ≡ front_id txs
unfolding front_id
front_id-take zero txs h = absurd (omega (arith, h))
front_id-take (suc n) [] h = refl
front_id-take (suc n) (tx ∷ txs) h = refl

-- What `load_new_txs` makes of a cache of the newest transactions: the same of the longer chain;
-- those new ones in front of the old ones that a failed call left, under the soft limit; or the
-- error of that call, without it.
pub data Synced (client : Client) (soft_limit : Bool) (capacity : ℕ) (new old : List RawTransaction)
    : CacheResult Inner → Type 0 where
  up_to_date :
      Synced client soft_limit capacity new old
        (CacheResult.ok (record { transactions = take capacity (new ++ old) }))
  behind :
      (done : List RawTransaction) (e : TonClientError)
      → soft_limit ≡ true
      → length done ≤ capacity
      → Stuck client new done e
      → Synced client soft_limit capacity new old
          (CacheResult.ok (record { transactions = take capacity (done ++ old) }))
  error :
      (done : List RawTransaction) (e : TonClientError)
      → soft_limit ≡ false
      → Stuck client new done e
      → Synced client soft_limit capacity new old (CacheResult.err (client_error e))

module _ (client : Client) (soft_limit : Bool) (capacity : ℕ) (new old : List RawTransaction) where
  abbrev cached : Inner
  cached = record { transactions = take capacity old }

  add_loaded_lem :
      (loaded : List RawTransaction)
      → add_loaded cached capacity loaded ≡ record { transactions = take capacity (loaded ++ old) }
  unfolding add_loaded
  add_loaded_lem loaded =
      ap (λ (t : List RawTransaction). inner_of t)
        (trim-take (length (loaded ++ take capacity old)) capacity (loaded ++ take capacity old)
            (omega arith)
          ∙ take_right capacity capacity loaded old (omega arith))

  Synced-Ending :
      (r : CacheResult (List RawTransaction))
      → Ending client soft_limit capacity new r
      → Synced client soft_limit capacity new old (settled cached capacity (some r))
  Synced-Ending r complete =
      subst (λ i. Synced client soft_limit capacity new old (CacheResult.ok i))
        (sym (
          add_loaded_lem (take capacity new)
          ∙ ap (λ (t : List RawTransaction). inner_of t) (take_left capacity new old)))
        up_to_date
  Synced-Ending r (partial done e soft h stuck) =
      subst (λ i. Synced client soft_limit capacity new old (CacheResult.ok i))
        (sym (add_loaded_lem done)) (behind done e soft h stuck)
  Synced-Ending r (refused done e hard stuck) = error done e hard stuck

no_news :
    (bound : ℕ) (new old : List RawTransaction)
    → Falling bound (new ++ old)
    → (front_id (new ++ old)).lt ≤ (front_id old).lt
    → new ≡ []
unfolding front_id
no_news bound [] old h le = refl
no_news bound (t ∷ new) old h le = absurd (omega (arith, front_id-later bound t new old h, le))

-- What the theorems assume: the chain of the account is `new` in front of `old`, its logical times
-- are positive and fall, and the client serves it.
pub record History (client : Client) (new old : List RawTransaction) : Type 0 where
  pub bound : ℕ
  pub falling : Falling bound (new ++ old)
  pub serves : Serves client (new ++ old)

-- What `get` returns: the newest transactions, with a cache that is up to date; the error of a call
-- of the client that failed; or a refusal of more transactions than the cache holds.
pub data Got (client : Client) (capacity limit : ℕ) (new old : List RawTransaction)
    : CacheResult (List RawTransaction × Inner) → Type 0 where
  newest :
      limit ≤ capacity
      → Got client capacity limit new old (
          CacheResult.ok
            (take limit (new ++ old), record { transactions = take capacity (new ++ old) }))
  failed_call :
      (done : List RawTransaction) (e : TonClientError)
      → limit ≤ capacity
      → Stuck client new done e
      → Got client capacity limit new old (CacheResult.err (client_error e))
  too_many : capacity < limit → Got client capacity limit new old (CacheResult.err illegal_argument)

not-false : (b : Bool) → not b ≡ false → b ≡ true
not-false true h = refl
not-false false h = cc

module _ (client : Client) (soft_limit : Bool) (capacity now : ℕ) (new old : List RawTransaction)
    (history : History client new old) (room : 0 < capacity) where
  abbrev cache : Inner
  cache = record { transactions = take capacity old }

  synced : (get_latest_synced_tx_id cache).lt ≡ (front_id old).lt
  unfolding get_latest_synced_tx_id
  synced = ap (λ (i : InternalTransactionId). i.lt) (front_id-take capacity old room)

  nothing_new : new ≡ [] → Synced client soft_limit capacity new old (CacheResult.ok cache)
  nothing_new e =
      subst (λ n. Synced client soft_limit capacity n old (CacheResult.ok cache)) (sym e) up_to_date

  -- A cache of the newest transactions, asked for those in front of them, without an age limit, is
  -- brought up to date, so that it holds the newest transactions again, as many as fit, unless a
  -- call of the client for new transactions fails. Then, under the soft limit, the new ones that are
  -- loaded before this call stand in front of the old ones, and without it the result is the error of
  -- the call. The logical times of the chain are positive and fall, and the client serves the chain
  -- or fails.
  pub load_new_txs_lem :
      Synced client soft_limit capacity new old
        (load_new_txs client soft_limit capacity now none cache (front_id (new ++ old)))
  unfolding load_new_txs min_time
  load_new_txs_lem =
      elim (Bool-cases (leb (front_id (new ++ old)).lt (get_latest_synced_tx_id cache).lt)) [
        | inl late ↦ rw late (
            nothing_new (
              no_news history.bound new old history.falling (
                omega (
                  arith,
                  leb→le (front_id (new ++ old)).lt (get_latest_synced_tx_id cache).lt late,
                  synced,
                ))))
        | inr early ↦
            let (r, e, ending) =
              loop_ends client soft_limit capacity new old history.serves
                ((front_id (new ++ old)).lt + 17) [] new
                (start client soft_limit capacity (front_id (new ++ old)))
                (record {
                  new_eq = refl;
                  loaded_eq = refl;
                  unfinished = refl;
                  next_eq = refl;
                  room = omega arith;
                  bound = history.bound;
                  falling = history.falling;
                  newer = newer_than history.bound new old history.falling;
                })
                (omega arith) in
            rw (early, synced) (rw e (Synced-Ending client soft_limit capacity new old r ending))
      ]

  got :
      (limit : ℕ) (r : CacheResult Inner)
      → soft_limit ≡ false
      → limit ≤ capacity
      → Synced client soft_limit capacity new old r
      → Got client capacity limit new old (filled client soft_limit capacity limit r)
  unfolding fill_txs
  got limit r hard h up_to_date =
      subst
        (λ t.
          Got client capacity limit new old
            (CacheResult.ok (t, inner_of (take capacity (new ++ old)))))
        (sym (take_less limit capacity (new ++ old) h)) (newest h)
  got limit r hard h (behind done e soft le stuck) = absurd (both soft_limit hard soft)
    where
      both : (b : Bool) → b ≡ false → b ≡ true → ⊥
      both b x y = cc
  got limit r hard h (error done e hard' stuck) = failed_call done e h stuck

  in_step : is_not_synced_to_tx_id cache (front_id (new ++ old)) ≡ false → new ≡ []
  unfolding is_not_synced_to_tx_id
  in_step h =
      let (same_lt, same_hash) = both_true _ _ (not-false _ h) in
      let times =
        same_number (get_latest_synced_tx_id cache).lt (front_id (new ++ old)).lt same_lt in
      no_news history.bound new old history.falling (omega (arith, times, synced))

  -- Without the soft limit and without an age limit, `get` of at most as many transactions as the
  -- cache holds returns the newest ones of the chain, with a cache of the newest transactions, or the
  -- error of the client where a call for new transactions failed; `get` of more is an illegal
  -- argument. The logical times of the chain are positive and fall, the client serves the chain or
  -- fails, and the cache was that of the newest transactions of an earlier chain.
  pub get_newest :
      (limit : ℕ)
      → soft_limit ≡ false
      → Got client capacity limit new old
          (get client soft_limit capacity now none cache limit (front_id (new ++ old)))
  unfolding get
  get_newest limit hard = elim (Bool-cases (ltb capacity limit)) [
    | inl over ↦ rw over (too_many (ltb→lt capacity limit over))
    | inr within ↦
        let h = ltb→ge capacity limit within in
        elim (Bool-cases (is_not_synced_to_tx_id cache (front_id (new ++ old)))) [
          | inl stale ↦ rw (within, stale) (got limit _ hard h load_new_txs_lem)
          | inr fresh ↦ rw (within, fresh) (got limit _ hard h (nothing_new (in_step fresh)))
        ]
  ]
