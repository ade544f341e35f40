-- ===== src/Parser/Loads.antt =====
-- What it is to read a bit string: a small logic for the calls of `CellParser`.
use tonlib_rs.Prelude.{
  ◌^◌, ◌%◌, ℕ, ◌+◌, ◌≤◌, ◌<◌, ◌≡◌, refl, ◌∙◌, List, [], ◌∷◌, ◌++◌, Bool, length, length-append,
  append_assoc, All, arith, ge→ltb, lt→ltb,
}
use tonlib_rs.Prelude.Bits.{IsByte, from_bits, unpack, length-unpack}
use tonlib_rs.Prelude.Outcome.{ok, err, cell_parser_error, ◌>>=◌, ◌>>◌, pure}
use tonlib_rs.Libs.{Libs}
use tonlib_rs.Parser.{
  CellParser, Load, remaining_bits, on_reader, ensure_enough_bits, load_bit, load_number,
}

module _ (libs : Libs) where
  open libs.bit_reader use {
    Reader, rest, consumed, read, read_bit, read_bytes, skip, position_in_bits,
    position_in_bits_lem, read_lem, read_bit_lem, read_bytes_lem, skip_lem,
  }

  -- The bits that the cell still holds for the parser; padding may stand behind them.
  pub record Ahead (p : CellParser libs) (bs : List Bool) : Type 0 where
    pub pad : List Bool
    pub rest_eq : rest p.bit_reader ≡ bs ++ pad
    pub size_eq : p.bit_len ≡ consumed p.bit_reader + length bs

  -- `p'` is `p` with only `ys` left to read; the references are where they were.
  pub record After (p p' : CellParser libs) (ys : List Bool) : Type 0 where
    pub ahead : Ahead p' ys
    pub references_eq : p'.references ≡ p.references
    pub next_ref_eq : p'.next_ref ≡ p.next_ref

  -- Where `xs` comes next, the call takes exactly `xs` and returns `a`.
  pub record Loads {A : Type 0} (m : Load libs A) (xs : List Bool) (a : A) : Type 0 where
    pub run :
        (p : CellParser libs) (ys : List Bool)
        → Ahead p (xs ++ ys)
        → (p' : CellParser libs) × (m p ≡ ok a p') × After p p' ys

  pub remaining_bits-Ahead :
      (p : CellParser libs) (bs : List Bool) → Ahead p bs → remaining_bits libs p ≡ length bs
  unfolding remaining_bits
  remaining_bits-Ahead p bs h = rw (position_in_bits_lem p.bit_reader) (ground (arith, h.size_eq))

  pub ensure_enough_bits_pass :
      (n : ℕ) (p : CellParser libs) (bs : List Bool)
      → Ahead p bs
      → n ≤ length bs
      → ensure_enough_bits libs n p ≡ ok tt p
  unfolding ensure_enough_bits
  ensure_enough_bits_pass n p bs h hn =
      rw (ge→ltb (remaining_bits libs p) n (omega (arith, remaining_bits-Ahead p bs h)))

  -- A check that asks for more than there is refuses.
  pub ensure_enough_bits_short :
      (n : ℕ) (p : CellParser libs) (bs : List Bool)
      → Ahead p bs
      → length bs < n
      → ensure_enough_bits libs n p ≡ err cell_parser_error p
  unfolding ensure_enough_bits
  ensure_enough_bits_short n p bs h hn =
      rw (lt→ltb (remaining_bits libs p) n (omega (arith, remaining_bits-Ahead p bs h)))

  pub Loads-pure : {A : Type 0} (a : A) → Loads (pure a) [] a
  Loads-pure a = record {
    run = λ p ys h. (p, refl, record { ahead = h; references_eq = refl; next_ref_eq = refl });
  }

  pub Loads-bind :
      {A B : Type 0} (m : Load libs A) (f : A → Load libs B) (xs ys : List Bool) {a : A} {b : B}
      → Loads m xs a
      → Loads (f a) ys b
      → Loads (m >>= f) (xs ++ ys) b
  Loads-bind m f xs ys {a} {b} hm hf = record {
    run = λ p zs h.
        let (p1, e1, w1) = hm.run p (ys ++ zs) (rw append_assoc at h) in
        let (p2, e2, w2) = hf.run p1 zs w1.ahead in
        (
          p2,
          rw e1 e2,
          record {
            ahead = w2.ahead;
            references_eq = w2.references_eq ∙ w1.references_eq;
            next_ref_eq = w2.next_ref_eq ∙ w1.next_ref_eq;
          },
        );
  }

  -- A check that passes takes nothing.
  pub Loads-ensure :
      {A : Type 0} (n : ℕ) (k : Load libs A) (xs : List Bool) {a : A}
      → n ≤ length xs
      → Loads k xs a
      → Loads (ensure_enough_bits libs n >> k) xs a
  Loads-ensure n k xs {a} hn hk = record {
    run = λ p ys h.
        let (p', e', w) = hk.run p ys h in
        let pass = ensure_enough_bits_pass n p (xs ++ ys) h (omega (arith, length-append xs ys)) in
        (p', rw pass e', w);
  }

  pub Loads-read :
      (width : ℕ) (xs : List Bool) (n : ℕ)
      → length xs ≡ n
      → n ≤ width
      → Loads (on_reader libs (read width n)) xs (from_bits xs)
  unfolding on_reader
  Loads-read width xs n e hw = record {
    run = λ p ys h.
        let (r, e1, e2, e3) =
          read_lem width n p.bit_reader xs (ys ++ h.pad) hw (h.rest_eq ∙ append_assoc xs ys h.pad)
            e in
        (
          record p { bit_reader = r },
          rw e1 refl,
          record {
            ahead = record {
              pad = h.pad;
              rest_eq = e2;
              size_eq = omega (arith, h.size_eq, e3, length-append xs ys);
            };
            references_eq = refl;
            next_ref_eq = refl;
          },
        );
  }

  pub Loads-read_bit : (b : Bool) → Loads (on_reader libs read_bit) (b ∷ []) b
  unfolding on_reader
  Loads-read_bit b = record {
    run = λ p ys h.
        let (r, e1, e2, e3) = read_bit_lem p.bit_reader b (ys ++ h.pad) h.rest_eq in
        (
          record p { bit_reader = r },
          rw e1 refl,
          record {
            ahead = record { pad = h.pad; rest_eq = e2; size_eq = omega (arith, h.size_eq, e3) };
            references_eq = refl;
            next_ref_eq = refl;
          },
        );
  }

  pub Loads-read_bytes :
      (n : ℕ) (bs : List ℕ)
      → All IsByte bs
      → length bs ≡ n
      → Loads (on_reader libs (read_bytes n)) (unpack bs) bs
  unfolding on_reader
  Loads-read_bytes n bs hb e = record {
    run = λ p ys h.
        let (r, e1, e2, e3) =
          read_bytes_lem n p.bit_reader bs (ys ++ h.pad) hb
            (h.rest_eq ∙ append_assoc (unpack bs) ys h.pad) e in
        (
          record p { bit_reader = r },
          rw e1 refl,
          record {
            ahead = record {
              pad = h.pad;
              rest_eq = e2;
              size_eq =
                  omega (arith, h.size_eq, e3, length-append (unpack bs) ys, length-unpack bs);
            };
            references_eq = refl;
            next_ref_eq = refl;
          },
        );
  }

  pub Loads-load_bit : (b : Bool) → Loads (load_bit libs) (b ∷ []) b
  unfolding load_bit
  Loads-load_bit b = Loads-ensure 1 _ (b ∷ []) (omega arith) (Loads-read_bit b)

  pub Loads-load_number :
      (width : ℕ)
      → width ≤ 64
      → (n : ℕ) (xs : List Bool) → length xs ≡ n
      → n ≤ width
      → Loads (load_number libs width n) xs (from_bits xs)
  unfolding load_number
  Loads-load_number width small n xs e hw =
      let same : n % 2 ^ 32 ≡ n = omega (arith, small, hw) in
      Loads-ensure n _ xs (omega arith) (rw same (Loads-read width xs n e hw))
