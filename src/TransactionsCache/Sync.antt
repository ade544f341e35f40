-- ===== src/TransactionsCache/Sync.antt =====
-- `load_new_txs` of src/contract/latest_transactions_cache.rs: what is in the cache after it.
use tonlib_rs.Prelude.{
  ℕ, zero, suc, ◌+◌, ◌/◌, ◌<◌, ◌≤◌, ◌≡◌, ◌≢◌, refl, sym, ap, subst, ◌∙◌, List, [], ◌∷◌, ◌++◌,
  append_assoc, inl, inr, Option, none, some, length, if◌then◌else◌, take, All, arith, Bool, false,
  Bool-cases,
}
use tonlib_rs.TransactionsCache.{
  RawTransaction, InternalTransactionId, Client, Reply, answer, failed, TonClientError, CacheResult,
  Loading, Next, on_reply, on_error, proceed, give_up, client_error, take_txs, front_id,
}
use tonlib_rs.TransactionsCache.Chain.{
  lt_of, Falling, Falling-append, Serves, Stuck, front_id-later,
}
use tonlib_rs.TransactionsCache.Batch.{Taken, full, all, taken}
use tonlib_rs.TransactionsCache.Rounds.{
  complete, refused, At, Ends, Ends-done, at_end, loop, synced_lt, loop_stops, finished_stops,
  not_wanted, is_wanted_lem, step, halve, At-halve, after_error, cancel_front, same_rest, All-right,
}

module _ (client : Client) (soft_limit : Bool) (capacity : ℕ) (new old : List RawTransaction)
    (serves : Serves client (new ++ old)) where
  abbrev State : List RawTransaction → List RawTransaction → Loading → Type 0
  State done rest s = At client soft_limit capacity new old done rest s

  abbrev Finishes : ℕ → Loading → Type 0
  Finishes fuel s = Ends client soft_limit capacity new old fuel s

  -- The state after an answer that is wholly new.
  abbrev advance : Loading → List RawTransaction → InternalTransactionId → Loading
  advance s loaded previous = record s {
    loaded = loaded;
    finished = false;
    next_to_load = previous;
    calls = s.calls + 1;
  }

  At-advance :
      (done txs rest' rest after : List RawTransaction) (t : RawTransaction) (s : Loading)
      (loaded : List RawTransaction)
      → State done (t ∷ rest) s
      → rest ++ old ≡ txs ++ after
      → loaded ≡ done ++ (t ∷ txs)
      → t ∷ rest ≡ (t ∷ txs) ++ rest'
      → length (done ++ (t ∷ txs)) ≤ capacity
      → State (done ++ (t ∷ txs)) rest' (advance s loaded (front_id after))
  At-advance done txs rest' rest after t s loaded at e l split room =
      let tails = same_rest t rest (txs ++ rest') split in
      let behind : after ≡ rest' ++ old =
        cancel_front txs after (rest' ++ old)
          (sym e ∙ ap (λ u. u ++ old) tails ∙ append_assoc txs rest' old) in
      let (b, le, falls) = Falling-append at.bound (t ∷ txs) (rest' ++ old) (
        subst (λ u. Falling at.bound u)
          (ap (λ u. u ++ old) split ∙ append_assoc (t ∷ txs) rest' old) at.falling) in
      record {
        new_eq = at.new_eq ∙ ap (λ u. done ++ u) split ∙ sym (append_assoc done (t ∷ txs) rest');
        loaded_eq = l;
        unfinished = refl;
        next_eq = ap front_id behind;
        room = room;
        bound = b;
        falling = falls;
        newer = All-right _ (t ∷ txs) rest' (
            subst (λ u. All (λ v. synced_lt client soft_limit capacity new old < lt_of v) u) split
              at.newer);
      }

  older :
      (done txs rest' rest : List RawTransaction) (t : RawTransaction) (s : Loading)
      → State done (t ∷ rest) s
      → t ∷ rest ≡ (t ∷ txs) ++ rest'
      → (front_id (rest' ++ old)).lt < lt_of t
  older done txs rest' rest t s at split = front_id-later at.bound t txs (rest' ++ old) (
      subst (λ u. Falling at.bound u) (ap (λ u. u ++ old) split ∙ append_assoc (t ∷ txs) rest' old)
        at.falling)

  abbrev reaction : Loading → Reply → Next
  reaction s reply =
      on_reply client soft_limit capacity (synced_lt client soft_limit capacity new old) none s
        reply

  abbrev go_on : ℕ → Next → Option (CacheResult (List RawTransaction))
  go_on fuel next =
      proceed client soft_limit capacity (synced_lt client soft_limit capacity new old) none
        (loop client soft_limit capacity new old fuel) next

  -- A round in which the call fails.
  round_failed :
      (fuel : ℕ) (done rest : List RawTransaction) (s : Loading) (e : TonClientError)
      → State done rest s
      → Stuck client new done e
      → loop client soft_limit capacity new old (suc fuel) s ≡ go_on fuel (reaction s (failed e))
      → (s.batch_size / 2 ≢ 0 → Finishes fuel (halve client soft_limit capacity new old s))
      → Finishes (suc fuel) s
  unfolding on_reply
  round_failed fuel done rest s e at stuck called k = elim (Bool-cases soft_limit) [
    | inl soft ↦
        after_error client soft_limit capacity new old fuel s e done rest at stuck soft
          (called
            ∙ ap
                (λ b. go_on fuel (
                  if b
                  then on_error client soft_limit capacity
                      (synced_lt client soft_limit capacity new old) none e s
                  else give_up (client_error e)))
                soft)
          k
    | inr hard ↦ (
      CacheResult.err (client_error e),
      called
          ∙ ap
              (λ b. go_on fuel (
                if b
                then on_error client soft_limit capacity
                    (synced_lt client soft_limit capacity new old) none e s
                else give_up (client_error e)))
              hard,
      refused done e hard stuck,
    )
  ]

  -- The state after an answer.
  abbrev replied : Loading → List RawTransaction × Bool → InternalTransactionId → Loading
  replied s r previous = record s {
    loaded = r.0;
    finished = r.1;
    next_to_load = previous;
    calls = s.calls + 1;
  }

  -- A round in which the call is answered.
  round_answered :
      (fuel : ℕ) (done txs after rest : List RawTransaction) (t : RawTransaction) (s : Loading)
      (r : List RawTransaction × Bool)
      → State done (t ∷ rest) s
      → rest ++ old ≡ txs ++ after
      → loop client soft_limit capacity new old (suc fuel) s
        ≡ loop client soft_limit capacity new old fuel (replied s r (front_id after))
      → ((rest' : List RawTransaction)
          → State (done ++ (t ∷ txs)) rest' (advance s r.0 (front_id after))
          → (front_id after).lt < lt_of t
          → Finishes fuel (advance s r.0 (front_id after)))
      → Taken capacity old done (t ∷ txs) (t ∷ rest) r
      → Finishes (suc fuel) s
  round_answered fuel done txs after rest t s r at e called k (full f l) = (
    CacheResult.ok (take capacity new),
    called
        ∙ finished_stops client soft_limit capacity new old fuel (replied s r (front_id after)) f
        ∙ ap (λ u. some (CacheResult.ok u)) (l ∙ ap (take capacity) (sym at.new_eq)),
    complete,
  )
  round_answered fuel done txs after rest t s r at e called k (all rest' f l split room) =
      let tails = same_rest t rest (txs ++ rest') split in
      let behind : after ≡ rest' ++ old =
        cancel_front txs after (rest' ++ old)
          (sym e ∙ ap (λ u. u ++ old) tails ∙ append_assoc txs rest' old) in
      let at' = At-advance done txs rest' rest after t s r.0 at e l split room in
      let earlier =
        subst (λ u. (front_id u).lt < lt_of t) (sym behind)
          (older done txs rest' rest t s at split) in
      let (x, ends, ending) = k rest' at' earlier in
      (
        x,
        called
            ∙ ap
                (λ b.
                  loop client soft_limit capacity new old fuel
                    (replied s (r.0, b) (front_id after)))
                f
            ∙ ends,
        ending,
      )

  after_answer :
      (fuel : ℕ) (s : Loading) (txs done : List RawTransaction) (previous : InternalTransactionId)
      → s.loaded ≡ done
      → go_on fuel (reaction s (answer txs previous))
        ≡ loop client soft_limit capacity new old fuel (
            replied s
              (take_txs client soft_limit capacity
                (synced_lt client soft_limit capacity new old)
                none
                done
                txs)
              previous)
  unfolding on_reply
  after_answer fuel s txs done previous e =
      ap
        (λ u. loop client soft_limit capacity new old fuel (
          replied s
            (take_txs client soft_limit capacity (synced_lt client soft_limit capacity new old) none
              u txs)
            previous))
        e

  half_less : (n : ℕ) → n / 2 ≢ 0 → n / 2 < n
  half_less n h = ground (arith, h)

  -- The loop ends from every state, with fuel above the logical time and the batch size.
  pub loop_ends :
      (fuel : ℕ) (done rest : List RawTransaction) (s : Loading)
      → State done rest s
      → s.next_to_load.lt + s.batch_size < fuel
      → Finishes fuel s
  unfolding front_id
  loop_ends zero done rest s at h = absurd (omega (arith, h))
  loop_ends (suc fuel) done [] s at h =
      Ends-done client soft_limit capacity new old (suc fuel) s
        (at.loaded_eq ∙ at_end client soft_limit capacity new old done at.new_eq at.room)
        (loop_stops client soft_limit capacity new old (suc fuel) s (
          not_wanted client soft_limit capacity new old s
            (omega (arith, ap (λ (i : InternalTransactionId). i.lt) at.next_eq))))
  loop_ends (suc fuel) done (t ∷ rest) s at h =
      let next : s.next_to_load ≡ t.transaction_id = at.next_eq in
      let time : s.next_to_load.lt ≡ lt_of t = ap (λ (i : InternalTransactionId). i.lt) next in
      let newer = at.newer.0 in
      let go =
        is_wanted_lem client soft_limit capacity new old s at.unfinished
          (omega (arith, time, newer)) in
      let called = λ (reply : Reply) (c : client s.calls t.transaction_id s.batch_size ≡ reply).
        step client soft_limit capacity new old fuel s reply go
          (ap (λ i. client s.calls i s.batch_size) next ∙ c) in
      let chain = ap (λ u. u ++ old) at.new_eq ∙ append_assoc done (t ∷ rest) old in
      elim (serves s.calls s.batch_size done t (rest ++ old) chain) [
        | inl failure ↦
            let (e, c) = failure in
            let stuck : Stuck client new done e = record {
              tx = t;
              rest = rest;
              call = s.calls;
              batch = s.batch_size;
              new_eq = at.new_eq;
              failed_eq = c;
            } in
            round_failed fuel done (t ∷ rest) s e at stuck (called (failed e) c) (λ some_left.
              loop_ends fuel done (t ∷ rest) (halve client soft_limit capacity new old s)
                (At-halve client soft_limit capacity new old done (t ∷ rest) s at)
                (omega (arith, h, half_less s.batch_size some_left)))
        | inr answered ↦
            let (txs, after, c, e) = answered in
            let batch =
              taken capacity old client soft_limit (synced_lt client soft_limit capacity new old)
                refl (t ∷ txs) after done (t ∷ rest) (ap (λ u. t ∷ u) e) at.room at.newer in
            let r =
              take_txs client soft_limit capacity (synced_lt client soft_limit capacity new old)
                none done (t ∷ txs) in
            round_answered fuel done txs after rest t s r at e
              (called (answer (t ∷ txs) (front_id after)) c
                ∙ after_answer fuel s (t ∷ txs) done (front_id after) at.loaded_eq)
              (λ rest' at' earlier.
                loop_ends fuel (done ++ (t ∷ txs)) rest' (advance s r.0 (front_id after)) at'
                  (omega (arith, h, time, earlier)))
              batch
      ]
