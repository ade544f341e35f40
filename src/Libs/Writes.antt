-- ===== src/Libs/Writes.antt =====
-- Calls of a `BitWriter` that append a known bit string.
use tonlib_rs.Prelude.{
  ℕ, ◌≤◌, ◌<◌, ◌^◌, ◌≡◌, refl, sym, ap, ◌∙◌, List, [], ◌∷◌, ◌++◌, append-nil, append_assoc, Bool,
  All, length, ◌%◌, some,
}
use tonlib_rs.Prelude.Bits.{IsByte, to_bits, unpack}
use tonlib_rs.Prelude.Bytes.{unpack-injective}
use tonlib_rs.Prelude.Outcome.{TonCellError, Action, Result, ok, ◌>>=◌, ◌>>◌, pure, lift, io}
use tonlib_rs.Libs.Streams.{BitWriter}

module _ (bw : BitWriter) where
  open bw use {
    Writer, written, write, write_bit, write_bytes, byte_align, write_lem, write_bit_lem,
    write_bytes_lem, byte_align_aligned, writer, writer_aligned,
  }

  pub record Puts (m : Action Writer (Unit {0})) (xs : List Bool) : Type 0 where
    pub run : (w : Writer) → (w' : Writer) × (m w ≡ ok tt w') × (written w' ≡ written w ++ xs)

  pub Puts-pure : Puts (pure tt) []
  Puts-pure = record { run = λ w. (w, refl, sym (append-nil (written w))) }

  pub Puts-then :
      (m k : Action Writer (Unit {0})) (xs ys : List Bool)
      → Puts m xs
      → Puts k ys
      → Puts (m >> k) (xs ++ ys)
  Puts-then m k xs ys hm hk = record {
    run = λ w.
        let (w1, e1, v1) = hm.run w in
        let (w2, e2, v2) = hk.run w1 in (w2, rw e1 e2, v2 ∙ rw v1 (append_assoc (written w) xs ys));
  }

  pub Puts-lift :
      {A : Type 0} (r : Result A) (f : A → Action Writer (Unit {0})) (xs : List Bool) (a : A)
      → r ≡ Result.ok a
      → Puts (f a) xs
      → Puts (lift r >>= f) xs
  Puts-lift r f xs a e h = rw e h

  pub Puts-write :
      (e : TonCellError) (width bits v : ℕ)
      → bits ≤ width
      → v < 2 ^ bits
      → Puts (io e (write width bits v)) (to_bits bits v)
  Puts-write e width bits v hb hv = record {
    run = λ w. let (w', e', v') = write_lem width bits v w hb hv in (w', rw e' refl, v');
  }

  pub Puts-write_bit : (e : TonCellError) (b : Bool) → Puts (io e (write_bit b)) (b ∷ [])
  Puts-write_bit e b = record {
    run = λ w. let (w', e', v') = write_bit_lem b w in (w', rw e' refl, v');
  }

  pub Puts-write_bytes :
      (e : TonCellError) (bs : List ℕ) → All IsByte bs → Puts (io e (write_bytes bs)) (unpack bs)
  Puts-write_bytes e bs h = record {
    run = λ w. let (w', e', v') = write_bytes_lem bs w h in (w', rw e' refl, v');
  }

  -- A writer that holds whole bytes gives those bytes.
  pub writer-unpack :
      (w : Writer) (bs : List ℕ)
      → All IsByte bs
      → written w ≡ unpack bs
      → length (written w) % 8 ≡ 0
      → writer w ≡ some bs
  writer-unpack w bs hb e h =
      let (out, e', u, hout) = writer_aligned w h in
      e' ∙ ap some (unpack-injective out bs hout hb (u ∙ e))
