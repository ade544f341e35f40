-- ===== src/Builder/Uint.antt =====
-- `store_uint` of src/cell/builder.rs against the plain binary digits of the number.
use tonlib_rs.Prelude.{
  ℕ, zero, suc, ◌+◌, ◌-◌, ◌*◌, ◌/◌, ◌%◌, ◌^◌, ◌≤◌, ◌<◌, ◌≡◌, ◌≢◌, refl, sym, ap, ◌∙◌, List, [], ◌∷◌,
  ◌++◌, append_assoc, true, false, ◌==◌, if◌then◌else◌, length, replicate, replicate-add, All,
  arith, bit_and, ge→ltb,
}
use tonlib_rs.Prelude.Bits.{
  IsByte, odd, to_bits, to_bits-append, to_bits-from_bits, to_bits_pad, from_bits, from_bits-append,
  from_bits-to_bits, from_bits-lt, unpack, length-unpack, unpack-replicate_zero,
}
use tonlib_rs.Prelude.Words.{bit_and-pow}
use tonlib_rs.Prelude.Outcome.{◌>>◌}
use tonlib_rs.Libs.{Libs}
use tonlib_rs.Builder.{
  store_uint, store_high_bits, store_val_bytes, store_zero_bits, store_zero_bytes,
}
use tonlib_rs.Builder.Stores.{
  Stores, Stores-then, Stores-pure, Stores-store_bit, Stores-store_slice, Stores-store_zero_bits,
  Stores-store_zero_bytes,
}
use native.Mathlib.Nat.{one-le-pow, div-eq_of_lt-le}

-- `byte & (1 << k) != 0` is the digit `k`.
digit_test : (byte k : ℕ) → (if bit_and byte (2 ^ k) == 0 then false else true) ≡ odd (byte / 2 ^ k)
digit_test byte k = rw (bit_and-pow k byte) (split (byte / 2 ^ k % 2) (omega arith))
  where
    split : (d : ℕ) → d < 2 → (if d * 2 ^ k == 0 then false else true) ≡ (d == 1)
    split zero h = ground arith
    split (suc zero) h = ground (arith, one-le-pow k 2)
    split (suc (suc d)) h = absurd (omega arith)

to_bits-top : (k v : ℕ) → to_bits (suc k) v ≡ odd (v / 2 ^ k) ∷ to_bits k v
to_bits-top k v = to_bits-append 1 k v (suc k) (omega arith) ∙ unfold to_bits in refl

module _ (libs : Libs) where
  open libs.big_uint use {
    bits, to_bytes_be, bits-zero, bits-lt, to_bytes_be-zero, to_bytes_be-IsByte, length-to_bytes_be,
    from_bits-to_bytes_be,
  }

  Stores-store_high_bits : (k byte : ℕ) → Stores libs (store_high_bits libs k byte) (to_bits k byte)
  unfolding store_high_bits
  Stores-store_high_bits zero byte = unfold to_bits in Stores-pure libs
  Stores-store_high_bits (suc k) byte =
      rw (digit_test byte k, to_bits-top k byte)
        (Stores-then libs _ _ (odd (byte / 2 ^ k) ∷ []) (to_bits k byte)
          (Stores-store_bit libs (odd (byte / 2 ^ k))) (Stores-store_high_bits k byte))

  -- The high byte in its low bits, and then the bytes, are the digits of the number.
  bytes_digits :
      (k hd n v : ℕ) (tl : List ℕ)
      → n ≡ k + 8 * length tl
      → IsByte hd
      → from_bits (unpack (hd ∷ tl)) ≡ v
      → to_bits n v ≡ to_bits k hd ++ unpack tl
  unfolding unpack
  bytes_digits k hd n v tl e hb ev =
      let len = length-unpack tl in
      let sum : v ≡ hd * 2 ^ length (unpack tl) + from_bits (unpack tl) =
        sym ev
        ∙ from_bits-append (to_bits 8 hd) (unpack tl)
        ∙ rw (from_bits-to_bits 8 hd hb) refl in
      let top : v / 2 ^ length (unpack tl) ≡ hd =
        div-eq_of_lt-le (2 ^ length (unpack tl)) (omega (arith, sum))
          (omega (arith, sum, from_bits-lt (unpack tl))) in
      to_bits-append k (length (unpack tl)) v n (omega (arith, len))
      ∙ rw (top, to_bits-from_bits (unpack tl) hd v sum) refl

  Stores-store_val_bytes :
      (k n v : ℕ) (bytes : List ℕ)
      → All IsByte bytes
      → from_bits (unpack bytes) ≡ v
      → 1 ≤ length bytes
      → n + 8 ≡ k + 8 * length bytes
      → Stores libs (store_val_bytes libs k bytes) (to_bits n v)
  unfolding store_val_bytes
  Stores-store_val_bytes k n v [] hb ev h1 e = absurd (omega arith)
  Stores-store_val_bytes k n v (hd ∷ tl) hb ev h1 e =
      rw (bytes_digits k hd n v tl (omega arith) hb.0 ev) (
        Stores-then libs _ _ (to_bits k hd) (unpack tl) (Stores-store_high_bits k hd)
          (Stores-store_slice libs tl hb.1))

  -- The three parts of `store_uint` when the number fits: zeros, and the digits of `w` bits.
  Stores-padded :
      (lead w k v : ℕ)
      → w + 8 ≡ k + 8 * length (to_bytes_be v)
      → 1 ≤ length (to_bytes_be v)
      → Stores libs
          (store_zero_bytes libs (lead / 8)
            >> (store_zero_bits libs (lead % 8) >> store_val_bytes libs k (to_bytes_be v)))
          (replicate lead false ++ to_bits w v)
  Stores-padded lead w k v e h1 =
      let zeros : replicate lead false
          ≡ unpack (replicate (lead / 8) 0) ++ replicate (lead % 8) false =
        replicate-add (8 * (lead / 8)) (lead % 8) false lead (omega arith)
        ∙ rw (unpack-replicate_zero (lead / 8)) refl in
      rw (zeros, append_assoc)
        (Stores-then libs _ _ _ _ (Stores-store_zero_bytes libs (lead / 8)) (
          Stores-then libs _ _ _ _ (Stores-store_zero_bits libs (lead % 8)) (
            Stores-store_val_bytes k w v (to_bytes_be v) (to_bytes_be-IsByte v)
              (from_bits-to_bytes_be v) h1 e)))

  bits_pos : (v : ℕ) → v ≢ 0 → 1 ≤ bits v
  bits_pos v h = go (bits v) refl
    where
      go : (n : ℕ) → bits v ≡ n → 1 ≤ n
      go zero e = let lt : v < 2 ^ 0 = rw e at (bits-lt v) in absurd (h (omega arith))
      go (suc n) e = omega arith

  -- A number other than 0 that fits is written as its `n` low binary digits.
  pub store_uint-digits :
      (n val : ℕ) → val ≢ 0 → bits val ≤ n → Stores libs (store_uint libs n val) (to_bits n val)
  unfolding store_uint
  store_uint-digits n val h hn =
      let len = length-to_bytes_be val h in
      let pos = bits_pos val h in
      rw
        (
          ge→ltb n (bits val) hn,
          to_bits_pad (n - bits val) (bits val) val n (omega arith) (bits-lt val),
        )
        (Stores-padded (n - bits val) (bits val) _ val (ground (arith, len)) (omega (arith, len)))

  -- Zero takes eight bits more than it was given: its one byte is written behind the padding.
  pub store_uint-zero : (n : ℕ) → Stores libs (store_uint libs n 0) (replicate (n + 8) false)
  unfolding store_uint
  store_uint-zero n =
      let sub : n - 0 ≡ n = omega arith in
      let all : replicate (n + 8) false ≡ replicate n false ++ to_bits 8 0 =
        unfold to_bits in replicate-add n 8 false (n + 8) (omega arith) in
      let one : length (to_bytes_be 0) ≡ 1 = ap length to_bytes_be-zero in
      rw (bits-zero, ge→ltb n 0 (omega arith), sub, all)
        (Stores-padded n 8 8 0 (omega (arith, one)) (omega (arith, one)))
