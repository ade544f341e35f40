-- ===== src/Libs.antt =====
-- The crates that the cell code calls and this repository does not hold: bitstream_io (BitWriter,
-- BitReader, ByteReader), num_bigint (BigUint), sha2 and crc. Each is a record of the operations that
-- the code uses and of the documented behaviour that the proofs rely on; every definition that
-- calls a crate takes the record `Libs`.
pub mod Streams
pub mod Writes
pub mod Reads
use Streams.{BitWriter, BitReader, ByteReader}
use tonlib_rs.Prelude.{ℕ, ◌+◌, ◌-◌, ◌*◌, ◌/◌, ◌^◌, ◌≤◌, ◌<◌, ◌≡◌, ◌≢◌, List, [], ◌∷◌, length, All}
use tonlib_rs.Prelude.Bits.{IsByte, unpack, from_bits}

-- num_bigint::BigUint; a value is the natural number that it stands for.
pub record BigUint : Type 0 where
  -- `bits()`, `to_bytes_be()`, `BigUint::from_bytes_be`
  pub bits : ℕ → ℕ
  pub to_bytes_be : ℕ → List ℕ
  pub from_bytes_be : List ℕ → ℕ
  -- `BigUint::new`: base 2 ^ 32 digits, lowest first
  pub from_digits : List ℕ → ℕ
  pub bits-zero : bits 0 ≡ 0
  pub bits-lt : (v : ℕ) → v < 2 ^ bits v
  pub bits-least : (v n : ℕ) → v < 2 ^ n → bits v ≤ n
  pub to_bytes_be-zero : to_bytes_be 0 ≡ 0 ∷ []
  pub to_bytes_be-IsByte : (v : ℕ) → All IsByte (to_bytes_be v)
  pub length-to_bytes_be : (v : ℕ) → v ≢ 0 → length (to_bytes_be v) ≡ (bits v + 7) / 8
  pub from_bits-to_bytes_be : (v : ℕ) → from_bits (unpack (to_bytes_be v)) ≡ v
  pub from_bytes_be_lem : (bs : List ℕ) → All IsByte bs → from_bytes_be bs ≡ from_bits (unpack bs)
  pub from_digits-nil : from_digits [] ≡ 0
  pub from_digits-cons :
      (d : ℕ) (ds : List ℕ) → d < 2 ^ 32 → from_digits (d ∷ ds) ≡ d + 2 ^ 32 * from_digits ds

-- `Sha256::new_with_prefix(repr).finalize()` and the two CRCs.
pub record Digests : Type 0 where
  pub sha256 : List ℕ → List ℕ
  pub crc32_iscsi : List ℕ → ℕ
  pub crc16_xmodem : List ℕ → ℕ
  pub length-sha256 : (bs : List ℕ) → length (sha256 bs) ≡ 32
  pub sha256-IsByte : (bs : List ℕ) → All IsByte (sha256 bs)
  pub crc32_iscsi-lt : (bs : List ℕ) → crc32_iscsi bs < 2 ^ 32
  pub crc16_xmodem-lt : (bs : List ℕ) → crc16_xmodem bs < 2 ^ 16

pub record Libs : Type 1 where
  pub bit_writer : BitWriter
  pub bit_reader : BitReader
  pub byte_reader : ByteReader
  pub big_uint : BigUint
  pub digests : Digests
