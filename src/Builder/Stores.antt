-- ===== src/Builder/Stores.antt =====
-- What it is to write a bit string: a small logic for the calls of `CellBuilder`.
use tonlib_rs.Prelude.{
  ◌%◌, ℕ, zero, suc, ◌+◌, ◌^◌, ◌≤◌, ◌<◌, ◌≡◌, refl, sym, ◌∙◌, List, [], ◌∷◌, ◌++◌, append-nil,
  append_assoc, Bool, false, length, length-append, replicate, All, arith,
}
use tonlib_rs.Prelude.Bits.{IsByte, to_bits, length-to_bits, unpack}
use tonlib_rs.Prelude.Outcome.{ok, Result, lift, ◌>>=◌, ◌>>◌, pure}
use tonlib_rs.Libs.{Libs}
use tonlib_rs.Builder.{
  CellBuilder, Store, store_bit, store_number, store_slice, store_zero_bytes, store_zero_bits,
}

module _ (libs : Libs) where
  open libs.bit_writer use {written, write_bit_lem, write_lem, write_excess}

  -- `b'` is `b` with the bits `bs` behind what was written.
  pub record Wrote (b b' : CellBuilder libs) (bs : List Bool) : Type 0 where
    pub written_eq : written b'.bit_writer ≡ written b.bit_writer ++ bs
    pub count_eq : b'.bits_to_write ≡ b.bits_to_write + length bs
    pub references_eq : b'.references ≡ b.references
    pub exotic_eq : b'.is_cell_exotic ≡ b.is_cell_exotic

  -- On every builder the call succeeds and appends exactly `bs`.
  pub record Stores (m : Store libs (Unit {0})) (bs : List Bool) : Type 0 where
    pub run : (b : CellBuilder libs) → (b' : CellBuilder libs) × (m b ≡ ok tt b') × Wrote b b' bs

  pub Wrote-refl : (b : CellBuilder libs) → Wrote b b []
  Wrote-refl b = record {
    written_eq = sym (append-nil (written b.bit_writer));
    count_eq = omega arith;
    references_eq = refl;
    exotic_eq = refl;
  }

  pub Wrote-trans :
      (b b' b'' : CellBuilder libs) (xs ys : List Bool)
      → Wrote b b' xs
      → Wrote b' b'' ys
      → Wrote b b'' (xs ++ ys)
  Wrote-trans b b' b'' xs ys h k = record {
    written_eq = k.written_eq ∙ rw h.written_eq (append_assoc (written b.bit_writer) xs ys);
    count_eq = omega (arith, h.count_eq, k.count_eq, length-append xs ys);
    references_eq = k.references_eq ∙ h.references_eq;
    exotic_eq = k.exotic_eq ∙ h.exotic_eq;
  }

  pub Stores-pure : Stores (pure tt) []
  Stores-pure = record { run = λ b. (b, refl, Wrote-refl b) }

  pub Stores-then :
      (m k : Store libs (Unit {0})) (xs ys : List Bool)
      → Stores m xs
      → Stores k ys
      → Stores (m >> k) (xs ++ ys)
  Stores-then m k xs ys hm hk = record {
    run = λ b.
        let (b1, e1, w1) = hm.run b in
        let (b2, e2, w2) = hk.run b1 in (b2, rw e1 e2, Wrote-trans b b1 b2 xs ys w1 w2);
  }

  -- A pure call that returns.
  pub Stores-lift :
      {A : Type 0} (r : Result A) (f : A → Store libs (Unit {0})) (bs : List Bool) (a : A)
      → r ≡ Result.ok a
      → Stores (f a) bs
      → Stores (lift r >>= f) bs
  Stores-lift r f bs a e h = rw e h

  pub Stores-store_bit : (val : Bool) → Stores (store_bit libs val) (val ∷ [])
  unfolding store_bit
  Stores-store_bit val = record {
    run = λ b.
        let (w, e1, e2) = write_bit_lem val b.bit_writer in
        (
          record b { bit_writer = w; bits_to_write = b.bits_to_write + 1 },
          rw e1 refl,
          record { written_eq = e2; count_eq = refl; references_eq = refl; exotic_eq = refl },
        );
  }

  pub Stores-store_number :
      (width : ℕ)
      → width ≤ 64
      → (n val : ℕ) → n ≤ width
      → val < 2 ^ n
      → Stores (store_number libs width n val) (to_bits n val)
  unfolding store_number
  Stores-store_number width small n val hn hv = record {
    run = λ b.
        let same : n % 2 ^ 32 ≡ n = omega (arith, small, hn) in
        let (w, e1, e2) = write_lem width n val b.bit_writer hn hv in
        (
          record b { bit_writer = w; bits_to_write = b.bits_to_write + n },
          rw (same, e1) refl,
          record {
            written_eq = e2;
            count_eq = omega (arith, length-to_bits n val);
            references_eq = refl;
            exotic_eq = refl;
          },
        );
  }

  pub Stores-store_slice : (bs : List ℕ) → All IsByte bs → Stores (store_slice libs bs) (unpack bs)
  unfolding store_slice unpack
  Stores-store_slice [] h = Stores-pure
  Stores-store_slice (b ∷ bs) h =
      Stores-then _ _ (to_bits 8 b) (unpack bs)
        (Stores-store_number 8 (omega arith) 8 b (omega arith) h.0) (Stores-store_slice bs h.1)

  pub Stores-store_zero_bits : (n : ℕ) → Stores (store_zero_bits libs n) (replicate n false)
  unfolding store_zero_bits
  Stores-store_zero_bits zero = Stores-pure
  Stores-store_zero_bits (suc n) =
      Stores-then _ _ (false ∷ []) (replicate n false) (Stores-store_bit false)
        (Stores-store_zero_bits n)

  pub Stores-store_zero_bytes : (n : ℕ) → Stores (store_zero_bytes libs n) (unpack (replicate n 0))
  unfolding store_zero_bytes unpack
  Stores-store_zero_bytes zero = Stores-pure
  Stores-store_zero_bytes (suc n) =
      Stores-then _ _ (to_bits 8 0) (unpack (replicate n 0))
        (Stores-store_number 8 (omega arith) 8 0 (omega arith) (omega arith))
        (Stores-store_zero_bytes n)
