-- ===== src/Address.antt =====
-- src/address.rs: the address of an account.
pub mod Codec
use tonlib_rs.Prelude.{ℕ, ◌^◌, ◌<◌, ◌≡◌, List, Bool, ◌&&◌, ◌==◌, replicate, length, All}
use tonlib_rs.Prelude.Bits.{IsByte}
use tonlib_rs.CellType.{bytes_eq}

-- `TonAddress { workchain: i32, hash_part: [u8; 32] }`; an `i32` is its bit pattern, below 2 ^ 32.
pub record TonAddress : Type 0 where
  pub workchain : ℕ
  pub hash_part : List ℕ

-- `TonAddress::NULL`
abbrev pub null : TonAddress
null = record { workchain = 0; hash_part = replicate 32 0 }

-- `==` on addresses
unfoldable pub address_eq : TonAddress → TonAddress → Bool
unfolding bytes_eq
address_eq a b = a.workchain == b.workchain && bytes_eq a.hash_part b.hash_part

-- What the types `i32` and `[u8; 32]` grant.
pub record IsAddress (a : TonAddress) : Type 0 where
  pub workchain_i32 : a.workchain < 2 ^ 32
  pub hash_bytes : All IsByte a.hash_part
  pub hash_length : length a.hash_part ≡ 32
