-- ===== src/Prelude/Bytes.antt =====
-- Byte strings: their bits determine them, and a number as a run of bytes.
use Prim.Native.Nat.{ℕ, zero, suc, ◌+◌, ◌*◌, ◌/◌, ◌%◌, ◌^◌}
use mathlib.Core.Path.{◌≡◌, refl, sym, ap, ap₂, ◌∙◌}
use mathlib.Core.List.{List, [], ◌∷◌, ◌++◌}
use native.Mathlib.Omega.{arith}
use native.Mathlib.Numerals.{towards_suc}
use tonlib_rs.Prelude.Lists.{length, length-append, All, All-append}
use tonlib_rs.Prelude.Bits.{
  IsByte, to_bits, length-to_bits, to_bits-append, to_bits-byte_mod, from_bits, from_bits-to_bits,
  unpack, unpack-append,
}

-- The first bits of a string and the rest.
prefix_eq :
    {A : Type 0} (xs ys zs ws : List A)
    → length xs ≡ length ys
    → xs ++ zs ≡ ys ++ ws
    → (xs ≡ ys) × (zs ≡ ws)
prefix_eq [] [] zs ws h e = (refl, e)
prefix_eq [] (y ∷ ys) zs ws h e = absurd (omega arith)
prefix_eq (x ∷ xs) [] zs ws h e = absurd (omega arith)
prefix_eq (x ∷ xs) (y ∷ ys) zs ws h e =
    let t : xs ++ zs ≡ ys ++ ws = cc in
    let head : x ≡ y = cc in
    let (p, q) = prefix_eq xs ys zs ws (omega arith) t in (ap₂ ◌∷◌ head p, q)

pub unpack-injective :
    (xs ys : List ℕ) → All IsByte xs → All IsByte ys → unpack xs ≡ unpack ys → xs ≡ ys
unfolding unpack
unpack-injective [] [] hx hy e = refl
unpack-injective [] (y ∷ ys) hx hy e =
    absurd (omega (arith, ap length e, length-append (to_bits 8 y) (unpack ys), length-to_bits 8 y))
unpack-injective (x ∷ xs) [] hx hy e =
    absurd (omega (arith, ap length e, length-append (to_bits 8 x) (unpack xs), length-to_bits 8 x))
unpack-injective (x ∷ xs) (y ∷ ys) hx hy e =
    let (p, q) =
      prefix_eq (to_bits 8 x) (to_bits 8 y) (unpack xs) (unpack ys)
        (omega (arith, length-to_bits 8 x, length-to_bits 8 y)) e in
    ap₂ ◌∷◌ (sym (from_bits-to_bits 8 x hx.0) ∙ ap from_bits p ∙ from_bits-to_bits 8 y hy.0)
      (unpack-injective xs ys hx.1 hy.1 q)

-- A number in `n` bytes, highest first.
unfoldable pub be_bytes : ℕ → ℕ → List ℕ
be_bytes zero v = []
be_bytes (suc n) v = be_bytes n (v / 256) ++ (v % 256 ∷ [])

pub length-be_bytes : (n v : ℕ) → length (be_bytes n v) ≡ n
unfolding be_bytes
length-be_bytes zero v = refl
length-be_bytes (suc n) v =
    omega (arith, length-append (be_bytes n (v / 256)) (v % 256 ∷ []), length-be_bytes n (v / 256))

pub be_bytes-IsByte : (n v : ℕ) → All IsByte (be_bytes n v)
unfolding be_bytes
be_bytes-IsByte zero v = tt
be_bytes-IsByte (suc n) v =
    All-append IsByte (be_bytes n (v / 256)) (v % 256 ∷ []) (be_bytes-IsByte n (v / 256))
      (omega arith, tt)

pub unpack-be_bytes : (n v k : ℕ) → k ≡ 8 * n → unpack (be_bytes n v) ≡ to_bits k v
unfolding be_bytes
unpack-be_bytes zero v k e = let z : k ≡ 0 = omega arith in rw z (unfold unpack to_bits in refl)
unpack-be_bytes (suc n) v k e =
    let high : v / 2 ^ 8 ≡ v / 256 = refl in
    unpack-append (be_bytes n (v / 256)) (v % 256 ∷ [])
    ∙ rw (unpack-be_bytes n (v / 256) (8 * n) refl) (
        unfold unpack in rw (to_bits-byte_mod v) (sym (to_bits-append (8 * n) 8 v k (omega arith))))

pub pow_eight : (n : ℕ) → 2 ^ (8 * suc n) ≡ 256 * 2 ^ (8 * n)
pow_eight n =
    let e : 8 * suc n ≡ 8 * n + 8 = omega arith in
    let p : 2 ^ (8 * n + 8) ≡ 256 * 2 ^ (8 * n) = simp towards_suc (omega arith) in rw e p
