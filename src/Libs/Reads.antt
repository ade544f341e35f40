-- ===== src/Libs/Reads.antt =====
-- Calls of a `ByteReader` that take a known run of bytes.
use tonlib_rs.Prelude.{ℕ, ◌≡◌, refl, List, [], ◌++◌, append_assoc, All, length}
use tonlib_rs.Prelude.Bits.{IsByte, from_bits, unpack}
use tonlib_rs.Prelude.Outcome.{TonCellError, Action, Result, ok, ◌>>=◌, pure, lift, io}
use tonlib_rs.Libs.Streams.{ByteReader}

module _ (br : ByteReader) where
  open br use {Reader, rest, read, read_to_vec, skip, read_lem, read_to_vec_lem, skip_lem}

  pub record Gets {A : Type 0} (m : Action Reader A) (bs : List ℕ) (a : A) : Type 0 where
    pub run :
        (r : Reader) (ys : List ℕ)
        → rest r ≡ bs ++ ys
        → (r' : Reader) × (m r ≡ ok a r') × (rest r' ≡ ys)

  pub Gets-pure : {A : Type 0} (a : A) → Gets (pure a) [] a
  Gets-pure a = record { run = λ r ys h. (r, refl, h) }

  pub Gets-bind :
      {A B : Type 0} (m : Action Reader A) (f : A → Action Reader B) (xs ys : List ℕ) {a : A}
      {b : B}
      → Gets m xs a
      → Gets (f a) ys b
      → Gets (m >>= f) (xs ++ ys) b
  Gets-bind m f xs ys hm hf = record {
    run = λ r zs h.
        let (r1, e1, v1) = hm.run r (ys ++ zs) (rw append_assoc at h) in
        let (r2, e2, v2) = hf.run r1 zs v1 in (r2, rw e1 e2, v2);
  }

  pub Gets-lift :
      {A B : Type 0} (x : Result A) (f : A → Action Reader B) (bs : List ℕ) (a : A) {b : B}
      → x ≡ Result.ok a
      → Gets (f a) bs b
      → Gets (lift x >>= f) bs b
  Gets-lift x f bs a e h = rw e h

  pub Gets-read :
      (e : TonCellError) (n : ℕ) (bs : List ℕ)
      → All IsByte bs
      → length bs ≡ n
      → Gets (io e (read n)) bs (from_bits (unpack bs))
  Gets-read e n bs hb hn = record {
    run = λ r ys h. let (r', e', v') = read_lem n r bs ys hb h hn in (r', rw e' refl, v');
  }

  pub Gets-read_to_vec :
      (e : TonCellError) (n : ℕ) (bs : List ℕ) → length bs ≡ n → Gets (io e (read_to_vec n)) bs bs
  Gets-read_to_vec e n bs hn = record {
    run = λ r ys h. let (r', e', v') = read_to_vec_lem n r bs ys h hn in (r', rw e' refl, v');
  }
