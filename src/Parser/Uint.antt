-- ===== src/Parser/Uint.antt =====
-- `load_uint` of src/cell/parser.rs against the value of the bits that it reads.
use tonlib_rs.Prelude.{
  ℕ, zero, suc, ◌+◌, ◌-◌, ◌*◌, ◌/◌, ◌^◌, ◌≤◌, ◌<◌, ◌≡◌, refl, ap, subst, ◌∙◌, List, [], ◌∷◌, ◌++◌,
  append-nil, append_assoc, Bool, ltb, if◌then◌else◌, length, take, drop, take-append-drop,
  length-take, length-drop, arith, Bool-cases, inl, inr, ltb→ge, ltb→lt,
}
use tonlib_rs.Prelude.Bits.{from_bits, from_bits-append, from_bits-lt}
use tonlib_rs.Prelude.Outcome.{err, panic, cell_parser_error, ◌>>=◌, pure}
use tonlib_rs.Libs.{Libs}
use native.Mathlib.Nat.{lt_of_lt_of_le, pow-le-pow_right}
use tonlib_rs.Parser.{CellParser, load_uint, load_words, all_words, high_word_bits, load_number}
use tonlib_rs.Parser.Loads.{
  Ahead, Loads, Loads-pure, Loads-bind, Loads-ensure, Loads-load_number, ensure_enough_bits_pass,
  ensure_enough_bits_short,
}

module _ (libs : Libs) where
  open libs.big_uint use {from_digits, from_digits-nil, from_digits-cons}

  -- The words read so far stand for the bits `front`.
  Loads-load_words :
      (k : ℕ) (words : List ℕ) (front xs : List Bool)
      → from_digits words ≡ from_bits front
      → length xs ≡ 32 * k
      → (out : List ℕ) × Loads libs (load_words libs k words) xs out
        × (from_digits out ≡ from_bits (front ++ xs))
  unfolding load_words
  Loads-load_words zero words front [] e h = (words, Loads-pure libs words, rw append-nil e)
  Loads-load_words zero words front (x ∷ xs) e h = absurd (omega arith)
  Loads-load_words (suc k) words front xs e h =
      let len32 : length (take 32 xs) ≡ 32 = omega (arith, length-take 32 xs) in
      let word = from_bits (take 32 xs) in
      let fits : word < 2 ^ 32 = rw len32 at (from_bits-lt (take 32 xs)) in
      let value : from_digits (word ∷ words) ≡ from_bits (front ++ take 32 xs) =
        from_digits-cons word words fits
        ∙ omega (
          arith,
          from_bits-append front (take 32 xs),
          ap (λ (t : ℕ). from_bits front * 2 ^ t) len32,
          ap (λ (t : ℕ). 2 ^ 32 * t) e,
        ) in
      let (out, reads, result) =
        Loads-load_words k (word ∷ words) (front ++ take 32 xs) (drop 32 xs) value
          (omega (arith, length-drop 32 xs)) in
      let parts = take-append-drop 32 xs in
      (
        out,
        subst (λ t. Loads libs (load_words libs (suc k) words) t out) parts
            (Loads-bind libs _ _ (take 32 xs) (drop 32 xs)
              (Loads-load_number libs 32 (omega arith) 32 (take 32 xs) len32 (omega arith)) reads),
        result
            ∙ ap from_bits
                (append_assoc front (take 32 xs) (drop 32 xs) ∙ ap (λ t. front ++ t) parts),
      )

  -- `load_uint` takes any positive number of bits and returns their value.
  pub load_uint_value :
      (n : ℕ) (xs : List Bool)
      → length xs ≡ n
      → 0 < n
      → Loads libs (load_uint libs n) xs (from_bits xs)
  unfolding load_uint all_words
  load_uint_value n xs e h =
      let k = (n + 31) / 32 - 1 in
      let hb = high_word_bits n in
      let words_eq : (n + 31) / 32 ≡ suc k = omega arith in
      let hb_le : hb ≤ 32 = ground arith in
      let hb_n : n ≡ hb + 32 * k = ground arith in
      let high = from_bits (take hb xs) in
      let len : length (take hb xs) ≡ hb = omega (arith, length-take hb xs) in
      let fits : high < 2 ^ 32 =
        lt_of_lt_of_le (rw len at (from_bits-lt (take hb xs)))
          (pow-le-pow_right (omega arith) hb_le) in
      let first : from_digits (high ∷ []) ≡ high =
        from_digits-cons high [] fits ∙ omega (arith, from_digits-nil) in
      let (out, reads, result) =
        Loads-load_words k (high ∷ []) (take hb xs) (drop hb xs) first
          (omega (arith, length-drop hb xs)) in
      let parts : take hb xs ++ (drop hb xs ++ []) ≡ xs =
        ap (λ t. take hb xs ++ t) (append-nil (drop hb xs)) ∙ take-append-drop hb xs in
      let value : from_digits out ≡ from_bits xs = result ∙ ap from_bits (take-append-drop hb xs) in
      rw words_eq (
        Loads-ensure libs n _ xs (omega arith) (
          subst
            (λ t.
              Loads libs
                (load_number libs 32 hb >>= λ w.
                  (all_words libs (suc k) w >>= λ ws. pure (from_digits ws)))
                t (from_bits xs))
            parts
            (Loads-bind libs _ _ (take hb xs) (drop hb xs ++ [])
              (Loads-load_number libs 32 (omega arith) hb (take hb xs) len hb_le)
              (Loads-bind libs _ _ (drop hb xs) [] reads
                (rw value (Loads-pure libs (from_bits xs)))))))

  zero_short :
      (p : CellParser libs) (bs : List Bool)
      → Ahead libs p bs
      → length bs < 32
      → load_uint libs 0 p ≡ err cell_parser_error p
  unfolding load_uint load_number
  zero_short p bs h hs =
      rw (ensure_enough_bits_pass libs 0 p bs h (omega arith))
        (rw (ensure_enough_bits_short libs 32 p bs h hs) refl)

  zero_panics :
      (p : CellParser libs) (bs : List Bool)
      → Ahead libs p bs
      → 32 ≤ length bs
      → load_uint libs 0 p ≡ panic
  unfolding load_uint all_words
  zero_panics p bs h he =
      let parts = take-append-drop 32 bs in
      let reads =
        Loads-load_number libs 32 (omega arith) 32 (take 32 bs) (omega (arith, length-take 32 bs))
          (omega arith) in
      let (p', e, w) = reads.run p (drop 32 bs) (rw parts h) in
      rw (ensure_enough_bits_pass libs 0 p bs h (omega arith)) (rw e refl)

  -- With no bits asked for, 32 bits are read all the same, and the store of the word is out of
  -- bounds.
  pub load_uint-zero :
      (p : CellParser libs) (bs : List Bool)
      → Ahead libs p bs
      → load_uint libs 0 p ≡ (if ltb (length bs) 32 then err cell_parser_error p else panic)
  load_uint-zero p bs h = elim (Bool-cases (ltb (length bs) 32)) [
    | inl short ↦ rw short (zero_short p bs h (ltb→lt (length bs) 32 short))
    | inr enough ↦ rw enough (zero_panics p bs h (ltb→ge (length bs) 32 enough))
  ]
