-- ===== src/Builder/Values.antt =====
-- src/cell/builder.rs: signed integers, coins and addresses.
use tonlib_rs.Prelude.{
  ℕ, ◌+◌, ◌-◌, ◌*◌, ◌/◌, ◌%◌, ◌^◌, List, [], ◌∷◌, ◌++◌, map, false, ◌==◌, ltb, if◌then◌else◌,
  length, replicate, bit_and, bit_xor,
}
use tonlib_rs.Prelude.Outcome.{
  cell_builder_error, Result, ok, err, panic, ◌>>=◌, ◌>>◌, fail, lift, bind,
}
use tonlib_rs.Libs.{Libs}
use tonlib_rs.Address.{TonAddress, null, address_eq}
use tonlib_rs.Parser.{BigInt}
use tonlib_rs.Builder

module _ (libs : Libs) where
  open libs.big_uint use {bits, to_bytes_be, from_bytes_be}

  abbrev Store : Type 0 → Type 0
  Store A = Builder.Store libs A

  -- `inverted_val_bytes[0] &= 0xff >> leading_zeros`
  unfoldable pub mask_first : ℕ → List ℕ → Result (List ℕ)
  mask_first leading_zeros [] = panic
  mask_first leading_zeros (b ∷ bs) = ok (bit_and b (255 / 2 ^ leading_zeros) ∷ bs)

  unfoldable pub extend_and_invert_bits : ℕ → ℕ → Result ℕ
  unfolding mask_first
  extend_and_invert_bits bits_cnt src =
      let src_bytes = to_bytes_be src in
      let cnt = (bits_cnt + 7) / 8 in
      let inverted = replicate (cnt - length src_bytes) 255 ++ map (λ b. bit_xor 255 b) src_bytes in
      if ltb bits_cnt (bits src)
      then err cell_builder_error
      else if ltb cnt (length src_bytes)
      then panic
      else bind (mask_first (cnt * 8 - bits_cnt) (to_bytes_be (from_bytes_be inverted + 1)))
          λ bytes. ok (from_bytes_be bytes)

  -- `bit_len - 1` is that of `usize`.
  unfoldable pub store_int : ℕ → BigInt → Store (Unit {0})
  unfolding Builder.store_number Builder.store_uint extend_and_invert_bits
  store_int n val =
      let bit_len' = (n + 2 ^ 64 - 1) % 2 ^ 64 in
      if ltb bit_len' (bits val.magnitude)
      then fail cell_builder_error
      else if val.negative
      then (do
        Builder.store_byte libs 1
        inverted ← lift (extend_and_invert_bits bit_len' val.magnitude)
        Builder.store_uint libs bit_len' inverted)
      else (do Builder.store_byte libs 0; Builder.store_uint libs bit_len' val.magnitude)

  unfoldable pub store_coins : ℕ → Store (Unit {0})
  unfolding Builder.store_number Builder.store_uint
  store_coins val =
      let num_bytes = (bits val + 7) / 8 in
      if val == 0 then Builder.store_u8 libs 4 0 else (do
        Builder.store_u8 libs 4 (num_bytes % 256)
        Builder.store_uint libs (num_bytes * 8) val)

  unfoldable pub store_raw_address : TonAddress → Store (Unit {0})
  unfolding Builder.store_number Builder.store_bit Builder.store_slice
  store_raw_address val = do
    Builder.store_u8 libs 2 2
    Builder.store_bit libs false
    Builder.store_u8 libs 8 (val.workchain % 256)
    Builder.store_slice libs val.hash_part

  unfoldable pub store_address : TonAddress → Store (Unit {0})
  unfolding Builder.store_number store_raw_address address_eq
  store_address val =
      if address_eq val null then Builder.store_u8 libs 2 0 else store_raw_address val
