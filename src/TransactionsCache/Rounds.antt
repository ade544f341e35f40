-- ===== src/TransactionsCache/Rounds.antt =====
-- The rounds of the loop of `load_new_txs` in src/contract/latest_transactions_cache.rs.
use tonlib_rs.Prelude.{
  ℕ, zero, suc, ◌+◌, ◌/◌, ◌<◌, ◌≤◌, ◌≡◌, ◌≢◌, refl, sym, ap, subst, ◌∙◌, List, [], ◌∷◌, ◌++◌,
  append-nil, inl, inr, Option, none, some, length, take, take_all, All, arith, Bool, true, false,
  ◌==◌, lt→ltb, ge→ltb, ne→==, Bool-cases,
}
use tonlib_rs.TransactionsCache.{
  RawTransaction, Client, Reply, TonClientError, tonlib_error, other_error, client_error,
  CacheResult, Loading, on_reply, on_error, proceed, wanted, load_loop, front_id,
}
use tonlib_rs.TransactionsCache.Chain.{lt_of, Falling, Stuck}

-- How the loop ends: with the newest transactions that are not in the cache, as many as fit; with
-- those in front of a call that failed, under the soft limit; or with the error of that call,
-- without it.
pub data Ending (client : Client) (soft_limit : Bool) (capacity : ℕ) (new : List RawTransaction)
    : CacheResult (List RawTransaction) → Type 0 where
  complete : Ending client soft_limit capacity new (CacheResult.ok (take capacity new))
  partial :
      (done : List RawTransaction) (e : TonClientError)
      → soft_limit ≡ true
      → length done ≤ capacity
      → Stuck client new done e
      → Ending client soft_limit capacity new (CacheResult.ok done)
  refused :
      (done : List RawTransaction) (e : TonClientError)
      → soft_limit ≡ false
      → Stuck client new done e
      → Ending client soft_limit capacity new (CacheResult.err (client_error e))

pub cancel_front : (xs ys zs : List RawTransaction) → xs ++ ys ≡ xs ++ zs → ys ≡ zs
cancel_front [] ys zs e = e
cancel_front (x ∷ xs) ys zs e = cancel_front xs ys zs (tails x xs e)
  where
    tails :
        (a : RawTransaction) (us : List RawTransaction)
        → a ∷ (us ++ ys) ≡ a ∷ (us ++ zs)
        → us ++ ys ≡ us ++ zs
    tails a us e = cc

zero_not : (n : ℕ) → n ≡ 0 → (n == 0) ≡ false → ⊥
zero_not n e h = ground (arith, e, h)

pub same_rest : (t : RawTransaction) (us vs : List RawTransaction) → t ∷ us ≡ t ∷ vs → us ≡ vs
same_rest t us vs e = cc

pub All-right :
    (P : RawTransaction → Type 0) (xs ys : List RawTransaction) → All P (xs ++ ys) → All P ys
All-right P [] ys h = h
All-right P (x ∷ xs) ys h = All-right P xs ys h.1

module _ (client : Client) (soft_limit : Bool) (capacity : ℕ) (new old : List RawTransaction) where
  abbrev pub synced_lt : ℕ
  synced_lt = (front_id old).lt

  -- The state of the loop: what is loaded is the front of the new transactions.
  pub record At (done rest : List RawTransaction) (s : Loading) : Type 0 where
    pub new_eq : new ≡ done ++ rest
    pub loaded_eq : s.loaded ≡ done
    pub unfinished : s.finished ≡ false
    pub next_eq : s.next_to_load ≡ front_id (rest ++ old)
    pub room : length done ≤ capacity
    pub bound : ℕ
    pub falling : Falling bound (rest ++ old)
    pub newer : All (λ t. synced_lt < lt_of t) rest

  -- Everything new is loaded.
  pub at_end :
      (done : List RawTransaction)
      → new ≡ done ++ []
      → length done ≤ capacity
      → done ≡ take capacity new
  at_end done e room =
      let same = e ∙ append-nil done in
      sym same ∙ sym (take_all capacity new (subst (λ t. length t ≤ capacity) (sym same) room))

  abbrev pub Loop : Type 0
  Loop = ℕ → Loading → Option (CacheResult (List RawTransaction))

  abbrev pub loop : Loop
  loop = load_loop client soft_limit capacity synced_lt none

  abbrev pub is_wanted : Loading → Bool
  is_wanted = wanted client soft_limit capacity synced_lt none

  pub loop_stops :
      (fuel : ℕ) (s : Loading) → is_wanted s ≡ false → loop fuel s ≡ some (CacheResult.ok s.loaded)
  unfolding load_loop
  loop_stops zero s h = rw h refl
  loop_stops (suc fuel) s h = rw h refl

  pub finished_stops :
      (fuel : ℕ) (s : Loading) → s.finished ≡ true → loop fuel s ≡ some (CacheResult.ok s.loaded)
  finished_stops fuel s e = loop_stops fuel s (unfold wanted in rw e refl)

  pub not_wanted : (s : Loading) → s.next_to_load.lt ≤ synced_lt → is_wanted s ≡ false
  unfolding wanted
  not_wanted s h = let late = ge→ltb synced_lt s.next_to_load.lt h in rw late (ground arith)

  pub is_wanted_lem :
      (s : Loading) → s.finished ≡ false → synced_lt < s.next_to_load.lt → is_wanted s ≡ true
  unfolding wanted
  is_wanted_lem s e h =
      let nz = ne→== s.next_to_load.lt 0 (λ z. absurd (omega (arith, z, h))) in
      rw (e, nz, lt→ltb synced_lt s.next_to_load.lt h) refl

  pub step :
      (fuel : ℕ) (s : Loading) (reply : Reply)
      → is_wanted s ≡ true
      → client s.calls s.next_to_load s.batch_size ≡ reply
      → loop (suc fuel) s
        ≡ proceed client soft_limit capacity synced_lt none
            (loop fuel)
            (on_reply client soft_limit capacity synced_lt none s reply)
  unfolding load_loop
  step fuel s reply w c = rw (w, c) refl

  -- How the loop ends from a state on.
  abbrev pub Ends : ℕ → Loading → Type 0
  Ends fuel s =
      (r : CacheResult (List RawTransaction)) × (loop fuel s ≡ some r)
      × Ending client soft_limit capacity new r

  pub Ends-done :
      (fuel : ℕ) (s : Loading)
      → s.loaded ≡ take capacity new
      → loop fuel s ≡ some (CacheResult.ok s.loaded)
      → Ends fuel s
  Ends-done fuel s e h =
      (CacheResult.ok (take capacity new), h ∙ ap (λ t. some (CacheResult.ok t)) e, complete)

  -- A round that breaks off with what is loaded.
  Ends-break :
      (fuel : ℕ) (s : Loading) (e : TonClientError) (done rest : List RawTransaction)
      → At done rest s
      → Stuck client new done e
      → soft_limit ≡ true
      → loop (suc fuel) s ≡ some (CacheResult.ok s.loaded)
      → Ends (suc fuel) s
  Ends-break fuel s e done rest at stuck soft h = (
    CacheResult.ok done,
    h ∙ ap (λ t. some (CacheResult.ok t)) at.loaded_eq,
    partial done e soft at.room stuck,
  )

  -- The state after an error of the client, under the soft limit.
  abbrev pub halve : Loading → Loading
  halve s = record s { batch_size = s.batch_size / 2; calls = s.calls + 1 }

  pub At-halve :
      (done rest : List RawTransaction) (s : Loading) → At done rest s → At done rest (halve s)
  At-halve done rest s at = record {
    new_eq = at.new_eq;
    loaded_eq = at.loaded_eq;
    unfinished = at.unfinished;
    next_eq = at.next_eq;
    room = at.room;
    bound = at.bound;
    falling = at.falling;
    newer = at.newer;
  }

  pub after_error :
      (fuel : ℕ) (s : Loading) (e : TonClientError) (done rest : List RawTransaction)
      → At done rest s
      → Stuck client new done e
      → soft_limit ≡ true
      → loop (suc fuel) s
        ≡ proceed client soft_limit capacity synced_lt none
            (loop fuel)
            (on_error client soft_limit capacity synced_lt none e s)
      → (s.batch_size / 2 ≢ 0 → Ends fuel (halve s))
      → Ends (suc fuel) s
  after_error fuel s (tonlib_error code) done rest at stuck soft h k =
      elim (Bool-cases (code == 500)) [
        | inl server ↦ elim (Bool-cases (s.batch_size / 2 == 0)) [
          | inl small ↦
              Ends-break fuel s (tonlib_error code) done rest at stuck soft
                (h ∙ rw (server, small) refl)
          | inr some_left ↦
              let (r, e, ending) = k (λ z. absurd (zero_not (s.batch_size / 2) z some_left)) in
              (r, h ∙ rw (server, some_left) e, ending)
        ]
        | inr other ↦
            Ends-break fuel s (tonlib_error code) done rest at stuck soft (h ∙ rw other refl)
      ]
  after_error fuel s other_error done rest at stuck soft h k =
      Ends-break fuel s other_error done rest at stuck soft h
