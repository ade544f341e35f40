-- ===== src/Libs/Streams.antt =====
-- bitstream_io 2.2 over byte vectors, big endian: `BitWriter<Vec<u8>, BigEndian>`,
-- `BitReader<Cursor<&[u8]>, BigEndian>` and `ByteReader<Cursor<&[u8]>, BigEndian>`.
use tonlib_rs.Prelude.{
  ℕ, ◌+◌, ◌*◌, ◌%◌, ◌^◌, ◌≤◌, ◌<◌, ◌≡◌, ◌≢◌, List, [], ◌∷◌, ◌++◌, Bool, Option, none, some, ◌==◌,
  length, All,
}
use tonlib_rs.Prelude.Bits.{IsByte, to_bits, from_bits, unpack}
use tonlib_rs.Prelude.Outcome.{IoResult, done, failed}

pub record BitWriter : Type 1 where
  pub Writer : Type 0
  -- `BitWriter::endian(Vec::new(), BigEndian)`
  pub endian : Writer
  pub write_bit : Bool → Writer → IoResult Writer (Unit {0})
  -- `write(bits, value)` of a value whose type has the given width
  pub write : ℕ → ℕ → ℕ → Writer → IoResult Writer (Unit {0})
  pub write_bytes : List ℕ → Writer → IoResult Writer (Unit {0})
  pub byte_aligned : Writer → Bool
  pub byte_align : Writer → IoResult Writer (Unit {0})
  pub writer : Writer → Option (List ℕ)
  -- The bits written so far; the laws below speak of them.
  pub written : Writer → List Bool
  pub written-endian : written endian ≡ []
  pub write_bit_lem :
      (b : Bool) (w : Writer)
      → (w' : Writer) × (write_bit b w ≡ done tt w') × (written w' ≡ written w ++ (b ∷ []))
  pub write_lem :
      (width bits v : ℕ) (w : Writer)
      → bits ≤ width
      → v < 2 ^ bits
      → (w' : Writer) × (write width bits v w ≡ done tt w')
        × (written w' ≡ written w ++ to_bits bits v)
  pub write_excess :
      (width bits v : ℕ) (w : Writer)
      → 2 ^ bits ≤ v
      → (w' : Writer) × (write width bits v w ≡ failed w') × (written w' ≡ written w)
  pub write_bytes_lem :
      (bs : List ℕ) (w : Writer)
      → All IsByte bs
      → (w' : Writer) × (write_bytes bs w ≡ done tt w') × (written w' ≡ written w ++ unpack bs)
  pub byte_aligned_lem : (w : Writer) → byte_aligned w ≡ (length (written w) % 8 == 0)
  pub byte_align_aligned :
      (w : Writer)
      → length (written w) % 8 ≡ 0
      → (w' : Writer) × (byte_align w ≡ done tt w') × (written w' ≡ written w)
  pub writer_aligned :
      (w : Writer)
      → length (written w) % 8 ≡ 0
      → (bs : List ℕ) × (writer w ≡ some bs) × (unpack bs ≡ written w) × All IsByte bs
  pub writer_unaligned : (w : Writer) → length (written w) % 8 ≢ 0 → writer w ≡ none

pub record BitReader : Type 1 where
  pub Reader : Type 0
  -- `BitReader::endian(Cursor::new(data), BigEndian)`
  pub endian : List ℕ → Reader
  pub position_in_bits : Reader → Option ℕ
  pub read_bit : Reader → IoResult Reader Bool
  -- `read(bits)` into a type of the given width
  pub read : ℕ → ℕ → Reader → IoResult Reader ℕ
  -- `read_bytes` into a buffer of the given length
  pub read_bytes : ℕ → Reader → IoResult Reader (List ℕ)
  pub skip : ℕ → Reader → IoResult Reader (Unit {0})
  -- The bits not read yet, and the number of bits read.
  pub rest : Reader → List Bool
  pub consumed : Reader → ℕ
  pub rest-endian : (bs : List ℕ) → All IsByte bs → rest (endian bs) ≡ unpack bs
  pub consumed-endian : (bs : List ℕ) → consumed (endian bs) ≡ 0
  pub position_in_bits_lem : (r : Reader) → position_in_bits r ≡ some (consumed r)
  pub read_bit_lem :
      (r : Reader) (b : Bool) (ys : List Bool)
      → rest r ≡ b ∷ ys
      → (r' : Reader) × (read_bit r ≡ done b r') × (rest r' ≡ ys) × (consumed r' ≡ consumed r + 1)
  pub read_lem :
      (width bits : ℕ) (r : Reader) (xs ys : List Bool)
      → bits ≤ width
      → rest r ≡ xs ++ ys
      → length xs ≡ bits
      → (r' : Reader) × (read width bits r ≡ done (from_bits xs) r')
        × (rest r' ≡ ys)
        × (consumed r' ≡ consumed r + bits)
  pub read_bytes_lem :
      (n : ℕ) (r : Reader) (bs : List ℕ) (ys : List Bool)
      → All IsByte bs
      → rest r ≡ unpack bs ++ ys
      → length bs ≡ n
      → (r' : Reader) × (read_bytes n r ≡ done bs r')
        × (rest r' ≡ ys)
        × (consumed r' ≡ consumed r + 8 * n)
  pub skip_lem :
      (n : ℕ) (r : Reader) (xs ys : List Bool)
      → rest r ≡ xs ++ ys
      → length xs ≡ n
      → (r' : Reader) × (skip n r ≡ done tt r') × (rest r' ≡ ys) × (consumed r' ≡ consumed r + n)

pub record ByteReader : Type 1 where
  pub Reader : Type 0
  -- `ByteReader::endian(Cursor::new(serial), BigEndian)`
  pub endian : List ℕ → Reader
  -- `read::<uN>()` of a number of the given count of bytes
  pub read : ℕ → Reader → IoResult Reader ℕ
  -- `read_to_vec(n)`, and `read::<[u8; n]>()`
  pub read_to_vec : ℕ → Reader → IoResult Reader (List ℕ)
  pub skip : ℕ → Reader → IoResult Reader (Unit {0})
  -- The bytes not read yet.
  pub rest : Reader → List ℕ
  pub rest-endian : (bs : List ℕ) → rest (endian bs) ≡ bs
  pub read_lem :
      (n : ℕ) (r : Reader) (bs ys : List ℕ)
      → All IsByte bs
      → rest r ≡ bs ++ ys
      → length bs ≡ n
      → (r' : Reader) × (read n r ≡ done (from_bits (unpack bs)) r') × (rest r' ≡ ys)
  pub read_to_vec_lem :
      (n : ℕ) (r : Reader) (bs ys : List ℕ)
      → rest r ≡ bs ++ ys
      → length bs ≡ n
      → (r' : Reader) × (read_to_vec n r ≡ done bs r') × (rest r' ≡ ys)
  pub skip_lem :
      (n : ℕ) (r : Reader) (bs ys : List ℕ)
      → rest r ≡ bs ++ ys
      → length bs ≡ n
      → (r' : Reader) × (skip n r ≡ done tt r') × (rest r' ≡ ys)
  pub read_short :
      (n : ℕ) (r : Reader) → length (rest r) < n → (r' : Reader) × (read n r ≡ failed r')
  pub read_to_vec_short :
      (n : ℕ) (r : Reader) → length (rest r) < n → (r' : Reader) × (read_to_vec n r ≡ failed r')
