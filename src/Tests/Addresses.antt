-- ===== src/Tests/Addresses.antt =====
-- The bytes of an address, at a concrete value.
use tonlib_rs.Prelude.{◌≡◌, refl, true, false, replicate, arith}
use tonlib_rs.Address.{TonAddress, IsAddress}
use tonlib_rs.Address.Codec.{
  parsed, to_base64_src, from_base64_src, sign_byte, from_base64_src-to_base64_src,
}
use tonlib_rs.Tests.Crates.{crates}

-- The workchain -1.
abbrev masterchain : TonAddress
masterchain = record { workchain = 4294967295; hash_part = replicate 32 7 }

masterchain-IsAddress : IsAddress masterchain
masterchain-IsAddress = record {
  workchain_i32 = omega arith;
  hash_bytes = omega arith;
  hash_length = refl;
}

from_base64_src-to_base64_src_example :
    from_base64_src crates (to_base64_src crates masterchain true false)
    ≡ parsed (masterchain, true, false)
unfolding sign_byte
from_base64_src-to_base64_src_example =
    from_base64_src-to_base64_src crates masterchain true false masterchain-IsAddress
