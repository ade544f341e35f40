-- ===== src/RawBoc/Codec.antt =====
-- Pieces of a serialized bag of cells: what is written is what is read.
use tonlib_rs.Prelude.{
  ℕ, zero, suc, ◌*◌, ◌/◌, ◌%◌, ◌^◌, ◌≤◌, ◌<◌, ◌≡◌, refl, ap, subst, ◌∙◌, List, [], ◌∷◌, ◌++◌,
  append-nil, length, All, All-append, arith, bit_or,
}
use tonlib_rs.Prelude.Bits.{IsByte, from_bits, from_bits-to_bits, unpack, unpack-append}
use tonlib_rs.Prelude.Bytes.{be_bytes, length-be_bytes, be_bytes-IsByte, unpack-be_bytes, pow_eight}
use tonlib_rs.Prelude.Words.{bit_or_low}
use tonlib_rs.Prelude.Outcome.{
  boc_serialization_error, boc_deserialization_error, ◌>>=◌, ◌>>◌, pure, io,
}
use tonlib_rs.Libs.{Libs}
use tonlib_rs.Libs.Writes.{Puts, Puts-pure, Puts-then, Puts-write}
use tonlib_rs.Libs.Reads.{Gets, Gets-pure, Gets-bind, Gets-read, Gets-read_to_vec}
use tonlib_rs.RawBoc.{Put, put, write_indices, u32}
use tonlib_rs.RawBoc.Parse.{Get, fold_bytes, read_var_size, read_indices}
use native.Mathlib.Nat.{pow-le-pow_right, mod-eq_of_lt, lt_of_lt_of_le}

fold_bytes-snoc :
    (acc : ℕ) (xs : List ℕ) (b : ℕ)
    → fold_bytes acc (xs ++ (b ∷ [])) ≡ bit_or (fold_bytes acc xs * 2 ^ 8 % 2 ^ 64) b
unfolding fold_bytes
fold_bytes-snoc acc [] b = refl
fold_bytes-snoc acc (x ∷ xs) b = fold_bytes-snoc (bit_or (acc * 2 ^ 8 % 2 ^ 64) x) xs b

-- `usize` holds the value of up to eight bytes.
pub fold_bytes-be_bytes : (n v : ℕ) → n ≤ 8 → v < 2 ^ (8 * n) → fold_bytes 0 (be_bytes n v) ≡ v
unfolding be_bytes fold_bytes
fold_bytes-be_bytes zero v hn hv = omega arith
fold_bytes-be_bytes (suc n) v hn hv =
    let p = pow_eight n in
    let small : v / 256 < 2 ^ (8 * n) = omega (arith, p) in
    let top : 2 ^ (8 * suc n) ≤ 2 ^ 64 =
      pow-le-pow_right {n = 2} (omega arith) {i = 8 * suc n} {j = 64} (omega arith) in
    let fits : v / 256 * 2 ^ 8 % 2 ^ 64 ≡ v / 256 * 2 ^ 8 = omega (arith, top, hv) in
    fold_bytes-snoc 0 (be_bytes n (v / 256)) (v % 256)
    ∙ rw (fold_bytes-be_bytes n (v / 256) (omega arith) small, fits)
        (bit_or_low 8 (v / 256) (v % 256) (omega arith) ∙ omega arith)

module _ (libs : Libs) where
  -- `w` writes some bytes, and `g` reads just those bytes as `a`.
  pub record Codec {A : Type 0} (w : Put libs) (g : Get libs A) (a : A) : Type 0 where
    pub bytes : List ℕ
    pub are_bytes : All IsByte bytes
    pub puts : Puts libs.bit_writer w (unpack bytes)
    pub gets : Gets libs.byte_reader g bytes a

  pub Codec-pure : {A : Type 0} (a : A) → Codec (pure tt) (pure a) a
  Codec-pure a = record {
    bytes = [];
    are_bytes = tt;
    puts = unfold unpack in Puts-pure libs.bit_writer;
    gets = Gets-pure libs.byte_reader a;
  }

  pub Codec-bind :
      {A B : Type 0} (w1 w2 : Put libs) (g1 : Get libs A) (g2 : A → Get libs B) {a : A} {b : B}
      → Codec w1 g1 a
      → Codec w2 (g2 a) b
      → Codec (w1 >> w2) (g1 >>= g2) b
  Codec-bind w1 w2 g1 g2 c1 c2 = record {
    bytes = c1.bytes ++ c2.bytes;
    are_bytes = All-append IsByte c1.bytes c2.bytes c1.are_bytes c2.are_bytes;
    puts = rw unpack-append (Puts-then libs.bit_writer w1 w2 _ _ c1.puts c2.puts);
    gets = Gets-bind libs.byte_reader g1 g2 _ _ c1.gets c2.gets;
  }

  pub Codec-eq :
      {A : Type 0} (w : Put libs) (g : Get libs A) {a b : A} → a ≡ b → Codec w g a → Codec w g b
  Codec-eq w g e c = subst (λ x. Codec w g x) e c

  -- A value that the writer has no counterpart for.
  pub Codec-map :
      {A B : Type 0} (w : Put libs) (g : Get libs A) (f : A → B) {a : A}
      → Codec w g a
      → Codec w (g >>= λ x. pure (f x)) (f a)
  Codec-map w g f {a} c = record {
    bytes = c.bytes;
    are_bytes = c.are_bytes;
    puts = c.puts;
    gets =
        subst (λ t. Gets libs.byte_reader (g >>= λ x. pure (f x)) t (f a)) (append-nil c.bytes)
          (Gets-bind libs.byte_reader g (λ x. pure (f x)) c.bytes [] c.gets
            (Gets-pure libs.byte_reader (f a)));
  }

  -- A fixed number of bytes, `write(8 * n, v)` and `read::<uN>()`.
  pub Codec-number :
      (width bits n v : ℕ)
      → bits ≡ 8 * n
      → bits ≤ width
      → v < 2 ^ bits
      → Codec (put libs width bits v) (io boc_deserialization_error (libs.byte_reader.read n)) v
  Codec-number width bits n v e hw hv =
      let digits = unpack-be_bytes n v bits e in
      record {
        bytes = be_bytes n v;
        are_bytes = be_bytes-IsByte n v;
        puts = rw digits (Puts-write libs.bit_writer boc_serialization_error width bits v hw hv);
        gets =
            subst
              (λ t.
                Gets libs.byte_reader (io boc_deserialization_error (libs.byte_reader.read n))
                  (be_bytes n v) t)
              (ap from_bits digits ∙ from_bits-to_bits bits v hv)
              (Gets-read libs.byte_reader boc_deserialization_error n (be_bytes n v)
                (be_bytes-IsByte n v) (length-be_bytes n v));
      }

  -- A number of a size that the header gives.
  pub Codec-var_size :
      (size v : ℕ)
      → size ≤ 4
      → v < 2 ^ (8 * size)
      → Codec (put libs 32 (8 * size) v) (read_var_size libs size) v
  unfolding read_var_size
  Codec-var_size size v hs hv =
      let digits = unpack-be_bytes size v (8 * size) refl in
      let read =
        Gets-read_to_vec libs.byte_reader boc_deserialization_error size (be_bytes size v)
          (length-be_bytes size v) in
      let value = fold_bytes-be_bytes size v (omega arith) hv in
      record {
        bytes = be_bytes size v;
        are_bytes = be_bytes-IsByte size v;
        puts =
            rw digits
              (Puts-write libs.bit_writer boc_serialization_error 32 (8 * size) v (omega arith) hv);
        gets =
            subst (λ t. Gets libs.byte_reader (read_var_size libs size) t v)
              (append-nil (be_bytes size v))
              (Gets-bind libs.byte_reader _ (λ bytes. pure (fold_bytes 0 bytes)) (be_bytes size v)
                [] read (rw value (Gets-pure libs.byte_reader v)));
      }

  pub Codec-indices :
      (size : ℕ) (rs : List ℕ)
      → size ≤ 4
      → All (λ r. r < 2 ^ (8 * size)) rs
      → Codec (write_indices libs size rs) (read_indices libs (length rs) size) rs
  unfolding write_indices read_indices
  Codec-indices size [] hs h = Codec-pure []
  Codec-indices size (r ∷ rs) hs h =
      let word : u32 r ≡ r = mod-eq_of_lt (
        lt_of_lt_of_le h.0
          (pow-le-pow_right {n = 2} (omega arith) {i = 8 * size} {j = 32} (omega arith))) in
      rw word (
        Codec-bind _ _ _ _ (Codec-var_size size r hs h.0)
          (Codec-map _ _ (λ is. r ∷ is) (Codec-indices size rs hs h.1)))
