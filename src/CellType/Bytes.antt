-- ===== src/CellType/Bytes.antt =====
-- Equality of byte strings, as src/cell/cell_type.rs compares hashes.
use tonlib_rs.Prelude.{
  ℕ, ◌≡◌, refl, List, [], ◌∷◌, Bool, true, false, ◌==◌, ◌&&◌, arith, ==_refl, ◌≢◌,
}
use tonlib_rs.CellType.{bytes_eq}

pub both_true : (a b : Bool) → (a && b) ≡ true → (a ≡ true) × (b ≡ true)
both_true true b e = (refl, e)
both_true false b e = (e, elim (false_true e) [ ])
  where
    false_true : false ≡ true → ⊥
    false_true e = cc

pub same_number : (a b : ℕ) → (a == b) ≡ true → a ≡ b
same_number a b e = ground (arith, e)

pub bytes_eq-true : (xs ys : List ℕ) → bytes_eq xs ys ≡ true → xs ≡ ys
unfolding bytes_eq
bytes_eq-true [] [] e = refl
bytes_eq-true [] (y ∷ ys) e = cc
bytes_eq-true (x ∷ xs) [] e = cc
bytes_eq-true (x ∷ xs) (y ∷ ys) e =
    let (ex, es) = both_true (x == y) (bytes_eq xs ys) e in
    rw (same_number x y ex, bytes_eq-true xs ys es) refl

pub bytes_eq_refl : (xs : List ℕ) → bytes_eq xs xs ≡ true
unfolding bytes_eq
bytes_eq_refl [] = refl
bytes_eq_refl (x ∷ xs) = rw (==_refl x, bytes_eq_refl xs) refl

pub ne→bytes_eq : (xs ys : List ℕ) → xs ≢ ys → bytes_eq xs ys ≡ false
ne→bytes_eq xs ys h = go (bytes_eq xs ys) refl
  where
    go : (b : Bool) → bytes_eq xs ys ≡ b → bytes_eq xs ys ≡ false
    go true e = absurd (h (bytes_eq-true xs ys e))
    go false e = e
