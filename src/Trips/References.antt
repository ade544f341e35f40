-- ===== src/Trips/References.antt =====
-- Calls of `CellBuilder` of src/cell/builder.rs that add references, and the calls of
-- `CellParser` of src/cell/parser.rs that take them.
use tonlib_rs.Prelude.{
  ℕ, zero, suc, ◌+◌, ◌≤◌, ◌≡◌, refl, sym, ap, subst, ◌∙◌, List, [], ◌∷◌, ◌++◌, append-nil,
  append_assoc, Bool, true, false, Option, none, some, length, length-append, drop, get_elem?,
  arith, ge→ltb,
}
use tonlib_rs.Prelude.Outcome.{ok, ◌>>=◌, ◌>>◌, pure}
use tonlib_rs.Libs.{Libs}
use tonlib_rs.Cell.{Cell}
use tonlib_rs.Builder.{CellBuilder, Store}
use tonlib_rs.Builder.Cells.{store_reference, store_maybe_cell_ref}
use tonlib_rs.Builder.Stores.{Stores, Stores-store_bit}
use tonlib_rs.Parser.{CellParser, Load}
use tonlib_rs.Parser.Values.{next_reference, load_maybe_cell_ref, ensure_empty}
use tonlib_rs.Parser.Loads.{Ahead, remaining_bits-Ahead, Loads, Loads-load_bit, Loads-pure}

abbrev pub maybe_refs : Option Cell → List Cell
maybe_refs (some c) = c ∷ []
maybe_refs none = []

abbrev pub maybe_bit : Option Cell → Bool
maybe_bit (some c) = true
maybe_bit none = false

module _ (libs : Libs) where
  open libs.bit_writer use {written}

  -- `b'` is `b` with the bits `bs` and the references `rs` behind what it held.
  pub record Filled (b b' : CellBuilder libs) (bs : List Bool) (rs : List Cell) : Type 0 where
    pub written_eq : written b'.bit_writer ≡ written b.bit_writer ++ bs
    pub count_eq : b'.bits_to_write ≡ b.bits_to_write + length bs
    pub references_eq : b'.references ≡ b.references ++ rs
    pub exotic_eq : b'.is_cell_exotic ≡ b.is_cell_exotic

  -- On every builder with room for the references the call appends exactly `bs` and `rs`.
  pub record Fills (m : Store libs (Unit {0})) (bs : List Bool) (rs : List Cell) : Type 0 where
    pub run :
        (b : CellBuilder libs)
        → length b.references + length rs ≤ 4
        → (b' : CellBuilder libs) × (m b ≡ ok tt b') × Filled b b' bs rs

  pub Fills-Stores : (m : Store libs (Unit {0})) (bs : List Bool) → Stores libs m bs → Fills m bs []
  Fills-Stores m bs h = record {
    run = λ b room.
        let (b', e, w) = h.run b in
        (
          b',
          e,
          record {
            written_eq = w.written_eq;
            count_eq = w.count_eq;
            references_eq = w.references_eq ∙ sym (append-nil b.references);
            exotic_eq = w.exotic_eq;
          },
        );
  }

  pub Fills-then :
      (m k : Store libs (Unit {0})) (xs ys : List Bool) (rs ss : List Cell)
      → Fills m xs rs
      → Fills k ys ss
      → Fills (m >> k) (xs ++ ys) (rs ++ ss)
  Fills-then m k xs ys rs ss hm hk = record {
    run = λ b room.
        let room' : length b.references + length rs ≤ 4 =
          omega (arith, room, length-append rs ss) in
        let (b1, e1, w1) = hm.run b room' in
        let more : length b1.references + length ss ≤ 4 = omega (
          arith,
          room,
          length-append rs ss,
          ap length w1.references_eq,
          length-append b.references rs,
        ) in
        let (b2, e2, w2) = hk.run b1 more in
        (
          b2,
          rw e1 e2,
          record {
            written_eq =
                w2.written_eq ∙ rw w1.written_eq (append_assoc (written b.bit_writer) xs ys);
            count_eq = omega (arith, w1.count_eq, w2.count_eq, length-append xs ys);
            references_eq =
                w2.references_eq ∙ rw w1.references_eq (append_assoc b.references rs ss);
            exotic_eq = w2.exotic_eq ∙ w1.exotic_eq;
          },
        );
  }

  -- A call that only writes bits, then another.
  pub Fills-bits :
      (m k : Store libs (Unit {0})) (xs ys : List Bool) (rs : List Cell)
      → Stores libs m xs
      → Fills k ys rs
      → Fills (m >> k) (xs ++ ys) rs
  Fills-bits m k xs ys rs hm hk = Fills-then m k xs ys [] rs (Fills-Stores m xs hm) hk

  pub Fills-store_reference : (c : Cell) → Fills (store_reference libs c) [] (c ∷ [])
  unfolding store_reference
  Fills-store_reference c = record {
    run = λ b room.
        let fits = ge→ltb 4 (length b.references + 1) (omega (arith, room)) in
        (
          record b { references = b.references ++ (c ∷ []) },
          rw fits refl,
          record {
            written_eq = sym (append-nil (written b.bit_writer));
            count_eq = omega arith;
            references_eq = refl;
            exotic_eq = refl;
          },
        );
  }

  -- The same on builders that count `n` bits: what is written may depend on the room that is left.
  pub record FillsFrom (n : ℕ) (m : Store libs (Unit {0})) (bs : List Bool) (rs : List Cell)
      : Type 0 where
    pub run :
        (b : CellBuilder libs)
        → b.bits_to_write ≡ n
        → length b.references + length rs ≤ 4
        → (b' : CellBuilder libs) × (m b ≡ ok tt b') × Filled b b' bs rs

  pub FillsFrom-Fills :
      (n : ℕ) (m : Store libs (Unit {0})) (bs : List Bool) (rs : List Cell)
      → Fills m bs rs
      → FillsFrom n m bs rs
  FillsFrom-Fills n m bs rs h = record { run = λ b e room. h.run b room }

  pub FillsFrom-then :
      (n : ℕ) (m k : Store libs (Unit {0})) (xs ys : List Bool) (rs ss : List Cell)
      → FillsFrom n m xs rs
      → FillsFrom (n + length xs) k ys ss
      → FillsFrom n (m >> k) (xs ++ ys) (rs ++ ss)
  FillsFrom-then n m k xs ys rs ss hm hk = record {
    run = λ b count room.
        let room' : length b.references + length rs ≤ 4 =
          omega (arith, room, length-append rs ss) in
        let (b1, e1, w1) = hm.run b count room' in
        let more : length b1.references + length ss ≤ 4 = omega (
          arith,
          room,
          length-append rs ss,
          ap length w1.references_eq,
          length-append b.references rs,
        ) in
        let (b2, e2, w2) = hk.run b1 (w1.count_eq ∙ ap (λ t. t + length xs) count) more in
        (
          b2,
          rw e1 e2,
          record {
            written_eq =
                w2.written_eq ∙ rw w1.written_eq (append_assoc (written b.bit_writer) xs ys);
            count_eq = omega (arith, w1.count_eq, w2.count_eq, length-append xs ys);
            references_eq =
                w2.references_eq ∙ rw w1.references_eq (append_assoc b.references rs ss);
            exotic_eq = w2.exotic_eq ∙ w1.exotic_eq;
          },
        );
  }

  pub FillsFrom-bits :
      (n : ℕ) (m k : Store libs (Unit {0})) (xs ys : List Bool) (rs : List Cell)
      → Stores libs m xs
      → FillsFrom (n + length xs) k ys rs
      → FillsFrom n (m >> k) (xs ++ ys) rs
  FillsFrom-bits n m k xs ys rs hm hk =
      FillsFrom-then n m k xs ys [] rs (FillsFrom-Fills n m xs [] (Fills-Stores m xs hm)) hk

  -- What `p'` has ahead after a call: the bits `ys` and the references `more`.
  pub record Took (p p' : CellParser libs) (ys : List Bool) (more : List Cell) : Type 0 where
    pub ahead : Ahead libs p' ys
    pub more_eq : drop p'.next_ref p'.references ≡ more

  -- Where `xs` and `rs` come next, the call takes exactly these and returns `a`.
  pub record Takes {A : Type 0} (m : Load libs A) (xs : List Bool) (rs : List Cell) (a : A)
      : Type 0 where
    pub run :
        (p : CellParser libs) (ys : List Bool) (more : List Cell)
        → Ahead libs p (xs ++ ys)
        → drop p.next_ref p.references ≡ rs ++ more
        → (p' : CellParser libs) × (m p ≡ ok a p') × Took p p' ys more

  pub Takes-Loads :
      {A : Type 0} (m : Load libs A) (xs : List Bool) (a : A) → Loads libs m xs a → Takes m xs [] a
  Takes-Loads m xs a h = record {
    run = λ p ys more q e.
        let (p', r, w) = h.run p ys q in
        (p', r, record { ahead = w.ahead; more_eq = rw (w.references_eq, w.next_ref_eq) e });
  }

  pub Takes-bind :
      {A B : Type 0} (m : Load libs A) (f : A → Load libs B) (xs ys : List Bool) (rs ss : List Cell)
      {a : A} {b : B}
      → Takes m xs rs a
      → Takes (f a) ys ss b
      → Takes (m >>= f) (xs ++ ys) (rs ++ ss) b
  Takes-bind m f xs ys rs ss {a} {b} hm hf = record {
    run = λ p zs more h e.
        let (p1, e1, w1) =
          hm.run p (ys ++ zs) (ss ++ more) (rw append_assoc at h) (e ∙ append_assoc rs ss more) in
        let (p2, e2, w2) = hf.run p1 zs more w1.ahead w1.more_eq in
        (p2, rw e1 e2, record { ahead = w2.ahead; more_eq = w2.more_eq });
  }

  pub Takes-bits :
      {A B : Type 0} (m : Load libs A) (f : A → Load libs B) (xs ys : List Bool) (rs : List Cell)
      {a : A} {b : B}
      → Loads libs m xs a
      → Takes (f a) ys rs b
      → Takes (m >>= f) (xs ++ ys) rs b
  Takes-bits m f xs ys rs {a} {b} hm hf = Takes-bind m f xs ys [] rs (Takes-Loads m xs a hm) hf

  drop_head :
      {A : Type 0} (n : ℕ) (xs ys : List A) (c : A) → drop n xs ≡ c ∷ ys → get_elem? xs n ≡ some c
  drop_head zero [] ys c e = cc
  drop_head zero (x ∷ xs) ys c e = cc
  drop_head (suc n) [] ys c e = cc
  drop_head (suc n) (x ∷ xs) ys c e = drop_head n xs ys c e

  drop_tail :
      {A : Type 0} (n : ℕ) (xs ys : List A) (c : A) → drop n xs ≡ c ∷ ys → drop (suc n) xs ≡ ys
  drop_tail zero [] ys c e = cc
  drop_tail zero (x ∷ xs) ys c e = cc
  drop_tail (suc n) [] ys c e = cc
  drop_tail (suc n) (x ∷ xs) ys c e = drop_tail n xs ys c e

  pub Takes-next_reference : (c : Cell) → Takes (next_reference libs) [] (c ∷ []) c
  unfolding next_reference
  Takes-next_reference c = record {
    run = λ p ys more h e.
        let next : suc p.next_ref ≡ p.next_ref + 1 = omega arith in
        (
          record p { next_ref = p.next_ref + 1 },
          rw (drop_head p.next_ref p.references more c e) refl,
          record {
            ahead = record { pad = h.pad; rest_eq = h.rest_eq; size_eq = h.size_eq };
            more_eq =
                subst (λ n. drop n p.references ≡ more) next
                  (drop_tail p.next_ref p.references more c e);
          },
        );
  }

  -- Bits and references that make the way through a builder and a parser.
  pub record CellTrip {A : Type 0} (store : Store libs (Unit {0})) (load : Load libs A) (a : A)
      : Type 0 where
    pub bits : List Bool
    pub refs : List Cell
    pub fills : Fills store bits refs
    pub takes : Takes load bits refs a

  pub Fills-store_maybe_cell_ref :
      (o : Option Cell) → Fills (store_maybe_cell_ref libs o) (maybe_bit o ∷ []) (maybe_refs o)
  unfolding store_maybe_cell_ref
  Fills-store_maybe_cell_ref (some c) =
      Fills-bits _ _ (true ∷ []) [] (c ∷ []) (Stores-store_bit libs true) (Fills-store_reference c)
  Fills-store_maybe_cell_ref none = Fills-Stores _ (false ∷ []) (Stores-store_bit libs false)

  pub Takes-load_maybe_cell_ref :
      (o : Option Cell) → Takes (load_maybe_cell_ref libs) (maybe_bit o ∷ []) (maybe_refs o) o
  unfolding load_maybe_cell_ref
  Takes-load_maybe_cell_ref (some c) =
      Takes-bits _ _ (true ∷ []) [] (c ∷ []) (Loads-load_bit libs true) (
        Takes-bind _ _ [] [] (c ∷ []) [] (Takes-next_reference c)
          (Takes-Loads _ [] (some c) (Loads-pure libs (some c))))
  Takes-load_maybe_cell_ref none =
      Takes-bits _ _ (false ∷ []) [] [] (Loads-load_bit libs false)
        (Takes-Loads _ [] none (Loads-pure libs none))

  -- Where `xs` and `rs` are all that is ahead, the call returns `a`.
  pub record Reads {A : Type 0} (m : Load libs A) (xs : List Bool) (rs : List Cell) (a : A)
      : Type 0 where
    pub run :
        (p : CellParser libs)
        → Ahead libs p xs
        → drop p.next_ref p.references ≡ rs
        → (p' : CellParser libs) × (m p ≡ ok a p')

  pub Reads-bind :
      {A B : Type 0} (m : Load libs A) (f : A → Load libs B) (xs ys : List Bool) (rs ss : List Cell)
      {a : A} {b : B}
      → Takes m xs rs a
      → Reads (f a) ys ss b
      → Reads (m >>= f) (xs ++ ys) (rs ++ ss) b
  Reads-bind m f xs ys rs ss {a} {b} hm hf = record {
    run = λ p h e.
        let (p1, e1, w1) = hm.run p ys ss h e in
        let (p2, e2) = hf.run p1 w1.ahead w1.more_eq in (p2, rw e1 e2);
  }

  pub Reads-bits :
      {A B : Type 0} (m : Load libs A) (f : A → Load libs B) (xs ys : List Bool) (rs : List Cell)
      {a : A} {b : B}
      → Loads libs m xs a
      → Reads (f a) ys rs b
      → Reads (m >>= f) (xs ++ ys) rs b
  Reads-bits m f xs ys rs {a} {b} hm hf = Reads-bind m f xs ys [] rs (Takes-Loads m xs a hm) hf

  -- `ensure_empty` at the end.
  pub Reads-ensure_empty : {A : Type 0} (a : A) → Reads (ensure_empty libs >> pure a) [] [] a
  unfolding ensure_empty
  Reads-ensure_empty a = record { run = λ p h e. (p, rw (remaining_bits-Ahead libs p [] h) refl) }

  -- Where `xs` and `rs` are all that is ahead, the call takes all of it and returns `a`.
  pub record TakesAll {A : Type 0} (m : Load libs A) (xs : List Bool) (rs : List Cell) (a : A)
      : Type 0 where
    pub run :
        (p : CellParser libs)
        → Ahead libs p xs
        → drop p.next_ref p.references ≡ rs
        → (p' : CellParser libs) × (m p ≡ ok a p') × Took p p' [] []

  pub TakesAll-Takes :
      {A : Type 0} (m : Load libs A) (xs : List Bool) (rs : List Cell) (a : A)
      → Takes m xs rs a
      → TakesAll m xs rs a
  TakesAll-Takes m xs rs a h = record {
    run = λ p ahead e. h.run p [] [] (rw append-nil ahead) (e ∙ sym (append-nil rs));
  }

  -- The last field, before the parser is to be empty.
  pub Reads-last :
      {A B : Type 0} (m : Load libs A) (f : A → Load libs B) (xs : List Bool) (rs : List Cell)
      {a : A} {b : B}
      → TakesAll m xs rs a
      → Reads (f a) [] [] b
      → Reads (m >>= f) xs rs b
  Reads-last m f xs rs {a} {b} hm hf = record {
    run = λ p h e.
        let (p1, e1, w1) = hm.run p h e in
        let (p2, e2) = hf.run p1 w1.ahead w1.more_eq in (p2, rw e1 e2);
  }
