-- ===== src/Address/Codec.antt =====
-- src/address.rs: the 36 bytes that stand behind the base64 form of an address.
use tonlib_rs.Prelude.{
  ℕ, zero, suc, ◌+◌, ◌-◌, ◌*◌, ◌/◌, ◌%◌, ◌^◌, ◌<◌, ◌≡◌, refl, sym, ap, ◌∙◌, List, [], ◌∷◌, ◌++◌,
  Bool, true, false, Option, none, some, ◌==◌, ltb, if◌then◌else◌, length, take, drop, arith,
  ==_refl, bit_or, bit_and,
}
use tonlib_rs.Prelude.Words.{bit_or_low, bit_and_mask}
use tonlib_rs.Libs.{Libs}
use tonlib_rs.Address.{TonAddress, IsAddress}

-- `Result<_, TonAddressParseError>` of `from_base64_src`, with the two errors told apart;
-- `not_36_bytes` stands for the lists that `&[u8; 36]` excludes.
pub data Parsed (A : Type 0) : Type 0 where
  parsed : A → Parsed A
  wrong_tag_byte crc_mismatch not_36_bytes : Parsed A

-- `(non_production, non_bounceable)` as a tag byte.
unfoldable pub tag_of : Bool → Bool → ℕ
tag_of false false = 0x11
tag_of false true = 0x51
tag_of true false = 0x91
tag_of true true = 0xd1

unfoldable pub flags_of : ℕ → Option (Bool × Bool)
flags_of tag =
    if tag == 0x11
    then some (false, false)
    else if tag == 0x51
    then some (false, true)
    else if tag == 0x91
    then some (true, false)
    else if tag == 0xd1
    then some (true, true)
    else none

-- `byte as i8 as i32`
unfoldable pub sign_byte : ℕ → ℕ
sign_byte byte = if ltb byte 128 then byte else byte + (2 ^ 32 - 256)

module _ (libs : Libs) where
  open libs.digests use {crc16_xmodem, crc16_xmodem-lt}

  -- The buffer after the call; `hash_part` has 32 bytes.
  unfoldable pub to_base64_src : TonAddress → Bool → Bool → List ℕ
  unfolding tag_of
  to_base64_src a non_bounceable non_production =
      let front = tag_of non_production non_bounceable ∷ bit_and a.workchain 255 ∷ a.hash_part in
      let crc = crc16_xmodem front in front ++ (bit_and (crc / 2 ^ 8) 255 ∷ bit_and crc 255 ∷ [])

  unfoldable pub check_crc :
      Bool × Bool → ℕ → List ℕ → ℕ → ℕ → ℕ → Parsed (TonAddress × Bool × Bool)
  unfolding sign_byte
  check_crc (non_production, non_bounceable) byte hash_part calc_crc high low =
      if calc_crc == bit_or (high * 2 ^ 8) low
      then parsed (
        record { workchain = sign_byte byte; hash_part = hash_part },
        non_bounceable,
        non_production,
      )
      else crc_mismatch

  unfoldable pub with_flags :
      Option (Bool × Bool) → ℕ → List ℕ → ℕ → ℕ → ℕ → Parsed (TonAddress × Bool × Bool)
  unfolding check_crc
  with_flags none byte hash_part calc_crc high low = wrong_tag_byte
  with_flags (some flags) byte hash_part calc_crc high low =
      check_crc flags byte hash_part calc_crc high low

  unfoldable pub with_crc : ℕ → ℕ → List ℕ → List ℕ → Parsed (TonAddress × Bool × Bool)
  unfolding with_flags flags_of
  with_crc tag byte hash_part (high ∷ low ∷ []) =
      with_flags (flags_of tag) byte hash_part (crc16_xmodem (tag ∷ byte ∷ hash_part)) high low
  with_crc tag byte hash_part _ = not_36_bytes

  unfoldable pub from_base64_src : List ℕ → Parsed (TonAddress × Bool × Bool)
  unfolding with_crc
  from_base64_src (tag ∷ byte ∷ bytes) = with_crc tag byte (take 32 bytes) (drop 32 bytes)
  from_base64_src _ = not_36_bytes

  flags_of-tag_of : (p b : Bool) → flags_of (tag_of p b) ≡ some (p, b)
  unfolding flags_of tag_of
  flags_of-tag_of false false = refl
  flags_of-tag_of false true = refl
  flags_of-tag_of true false = refl
  flags_of-tag_of true true = refl

  crc_bytes :
      (crc : ℕ) → crc < 2 ^ 16 → bit_or (bit_and (crc / 2 ^ 8) 255 * 2 ^ 8) (bit_and crc 255) ≡ crc
  crc_bytes crc h =
      rw (bit_and_mask 8 (crc / 2 ^ 8), bit_and_mask 8 crc)
        (bit_or_low 8 (crc / 2 ^ 8 % 2 ^ 8) (crc % 2 ^ 8) (omega arith) ∙ omega arith)

  drop_hash : (xs ys : List ℕ) (n : ℕ) → length xs ≡ n → drop n (xs ++ ys) ≡ ys
  drop_hash [] ys n e = rw (sym e) refl
  drop_hash (x ∷ xs) ys zero e = absurd (omega (arith, e))
  drop_hash (x ∷ xs) ys (suc n) e = drop_hash xs ys n (omega (arith, e))

  take_hash : (xs ys : List ℕ) (n : ℕ) → length xs ≡ n → take n (xs ++ ys) ≡ xs
  take_hash [] ys n e = rw (sym e) refl
  take_hash (x ∷ xs) ys zero e = absurd (omega (arith, e))
  take_hash (x ∷ xs) ys (suc n) e = ap (λ t. x ∷ t) (take_hash xs ys n (omega (arith, e)))

  -- The 36 bytes of an address of an `i32` workchain and 32 bytes are read back with both flags,
  -- the hash, and the sign extension of the low byte of the workchain in place of the workchain.
  pub from_base64_src-to_base64_src :
      (a : TonAddress) (non_bounceable non_production : Bool)
      → IsAddress a
      → from_base64_src (to_base64_src a non_bounceable non_production)
        ≡ parsed (
          record { workchain = sign_byte (a.workchain % 2 ^ 8); hash_part = a.hash_part },
          non_bounceable,
          non_production,
        )
  unfolding from_base64_src to_base64_src with_crc with_flags check_crc
  from_base64_src-to_base64_src a b p h =
      let crc = crc16_xmodem (tag_of p b ∷ bit_and a.workchain 255 ∷ a.hash_part) in
      let tail = bit_and (crc / 2 ^ 8) 255 ∷ bit_and crc 255 ∷ [] in
      rw (take_hash a.hash_part tail 32 h.hash_length, drop_hash a.hash_part tail 32 h.hash_length)
        (rw (flags_of-tag_of p b) (
          rw (crc_bytes crc (crc16_xmodem-lt _))
            (rw (==_refl crc) (rw (bit_and_mask 8 a.workchain) refl))))
