-- ===== src/TransactionsCache/Batch.antt =====
-- The inner loop of `load_new_txs` in src/contract/latest_transactions_cache.rs.
use tonlib_rs.Prelude.{
  ℕ, ◌<◌, ◌≤◌, ◌≡◌, refl, sym, ap, subst, ◌∙◌, List, [], ◌∷◌, ◌++◌, append-nil, append_assoc, inl,
  inr, length, length-append, take, take-append, take_all, arith, none, Bool, true, false, leb,
  leb→le, Bool-cases, All, lt→leb, le→leb,
}
use tonlib_rs.TransactionsCache.{RawTransaction, Client, take_txs, front_id, is_older_than}
use tonlib_rs.TransactionsCache.Chain.{lt_of}

module _ (capacity : ℕ) (old : List RawTransaction) where
  -- After a part of an answer: either the first `capacity` new transactions are loaded, or all of
  -- the part is, and it is new.
  pub data Taken (done txs rest : List RawTransaction) (r : List RawTransaction × Bool)
      : Type 0 where
    full :
        (finished_eq : r.1 ≡ true) (loaded_eq : r.0 ≡ take capacity (done ++ rest))
        → Taken done txs rest r
    all :
        (rest' : List RawTransaction) (finished_eq : r.1 ≡ false) (loaded_eq : r.0 ≡ done ++ txs)
        (rest_eq : rest ≡ txs ++ rest') (room : length (done ++ txs) ≤ capacity)
        → Taken done txs rest r

  take_exact :
      (xs ys : List RawTransaction)
      → length xs ≤ capacity
      → capacity ≤ length xs
      → xs ≡ take capacity (xs ++ ys)
  take_exact xs ys h k =
      let e : length xs ≡ capacity = omega (arith, h, k) in
      sym (ap (λ n. take n (xs ++ ys)) (sym e) ∙ take-append xs ys)

  take_short : (xs : List RawTransaction) → length xs ≤ capacity → xs ≡ take capacity (xs ++ [])
  take_short xs h = sym (ap (take capacity) (append-nil xs) ∙ take_all capacity xs h)

  module _ (client : Client) (soft_limit : Bool) (synced_lt : ℕ)
      (synced_eq : synced_lt ≡ (front_id old).lt) where
    abbrev run : List RawTransaction → List RawTransaction → List RawTransaction × Bool
    run = take_txs client soft_limit capacity synced_lt none

    Taken-more :
        (done xs rest : List RawTransaction) (x : RawTransaction) (r : List RawTransaction × Bool)
        → Taken (done ++ (x ∷ [])) xs rest r
        → Taken done (x ∷ xs) (x ∷ rest) r
    Taken-more done xs rest x r (full f l) =
        full f (l ∙ ap (take capacity) (append_assoc done (x ∷ []) rest))
    Taken-more done xs rest x r (all rest' f l e room) =
        all rest' f (l ∙ append_assoc done (x ∷ []) xs) (ap (λ t. x ∷ t) e)
          (subst (λ t. length t ≤ capacity) (append_assoc done (x ∷ []) xs) room)

    same_head : (a b : RawTransaction) (us vs : List RawTransaction) → a ∷ us ≡ b ∷ vs → a ≡ b
    same_head a b us vs e = cc

    same_tail : (a b : RawTransaction) (us vs : List RawTransaction) → a ∷ us ≡ b ∷ vs → us ≡ vs
    same_tail a b us vs e = cc

    not_full : (n : ℕ) → leb capacity n ≡ false → n < capacity
    not_full n h = ground (arith, h)

    -- With room left and old transactions next, the batch is finished.
    at_old :
        (x : RawTransaction) (xs after done : List RawTransaction)
        → old ≡ x ∷ (xs ++ after)
        → length done ≤ capacity
        → Taken done (x ∷ xs) [] (run done (x ∷ xs))
    unfolding take_txs front_id
    at_old x xs after done e room =
        let known : leb (lt_of x) synced_lt ≡ true =
          le→leb (lt_of x) synced_lt (omega (arith, synced_eq, ap (λ t. (front_id t).lt) e)) in
        elim (Bool-cases (leb capacity (length done))) [
          | inl fullness ↦ rw fullness (full refl (take_short done room))
          | inr space ↦ rw (space, known) (full refl (take_short done room))
        ]

    -- With room left and a new transaction next, it is loaded.
    at_new :
        (x : RawTransaction) (xs done rest : List RawTransaction)
        → synced_lt < lt_of x
        → length done ≤ capacity
        → (length done < capacity → Taken (done ++ (x ∷ [])) xs rest (run (done ++ (x ∷ [])) xs))
        → Taken done (x ∷ xs) (x ∷ rest) (run done (x ∷ xs))
    unfolding take_txs is_older_than
    at_new x xs done rest newer room rec = elim (Bool-cases (leb capacity (length done))) [
      | inl fullness ↦
          rw fullness
            (full refl (take_exact done (x ∷ rest) room (leb→le capacity (length done) fullness)))
      | inr space ↦
          let fresh = lt→leb (lt_of x) synced_lt newer in
          rw (space, fresh) (Taken-more done xs rest x _ (rec (not_full (length done) space)))
    ]

    pub taken :
        (txs after done rest : List RawTransaction)
        → rest ++ old ≡ txs ++ after
        → length done ≤ capacity
        → All (λ t. synced_lt < lt_of t) rest
        → Taken done txs rest (run done txs)
    unfolding take_txs
    taken [] after done rest e room newer =
        all rest refl (sym (append-nil done)) refl
          (subst (λ t. length t ≤ capacity) (sym (append-nil done)) room)
    taken (x ∷ xs) after done [] e room newer = at_old x xs after done e room
    taken (x ∷ xs) after done (t ∷ rest) e room newer =
        let same = same_head t x (rest ++ old) (xs ++ after) e in
        let tails = same_tail t x (rest ++ old) (xs ++ after) e in
        let fresh = subst (λ u. synced_lt < lt_of u) same newer.0 in
        subst (λ u. Taken done (x ∷ xs) (u ∷ rest) (run done (x ∷ xs))) (sym same)
          (at_new x xs done rest fresh room (λ below.
            taken xs after (done ++ (x ∷ [])) rest tails
              (omega (arith, length-append done (x ∷ []), below)) newer.1))
