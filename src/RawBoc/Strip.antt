-- ===== src/RawBoc/Strip.antt =====
-- The data of a serialized cell: its last byte, and the tag put on it and taken off.
use tonlib_rs.Prelude.{
  ℕ, ◌+◌, ◌-◌, ◌<◌, ◌≡◌, refl, ap, List, [], ◌∷◌, ◌++◌, true, false, ltb, length, length-append,
  get_elem?, get_elem?-append_length, take-append, set, All, arith, Bool-cases, inl, inr, lt→ltb,
  lt→leb,
}
use tonlib_rs.Prelude.Bits.{IsByte}
use tonlib_rs.Prelude.Outcome.{Result, slice, index}
use tonlib_rs.RawBoc.Parse.{strip_tag}
use tonlib_rs.RawBoc.Tag.{tagged, TagHolds}

pub set-append_last : (xs : List ℕ) (y v : ℕ) → set (xs ++ (y ∷ [])) (length xs) v ≡ xs ++ (v ∷ [])
set-append_last [] y v = refl
set-append_last (x ∷ xs) y v = ap (λ t. x ∷ t) (set-append_last xs y v)

pub split_last :
    (xs : List ℕ) → 0 < length xs → (front : List ℕ) × (b : ℕ) × (xs ≡ front ++ (b ∷ []))
split_last [] h = absurd (omega arith)
split_last (x ∷ []) h = ([], x, refl)
split_last (x ∷ y ∷ ys) h =
    let (front, b, e) = split_last (y ∷ ys) (omega arith) in (x ∷ front, b, ap (λ t. x ∷ t) e)

pub All-last :
    (front : List ℕ) (b : ℕ) → All IsByte (front ++ (b ∷ [])) → All IsByte front × IsByte b
All-last [] b h = (tt, h.0)
All-last (x ∷ xs) b h = let (p, q) = All-last xs b h.1 in ((h.0, p), q)

pub length-snoc : (front : List ℕ) (b : ℕ) → length (front ++ (b ∷ [])) ≡ length front + 1
length-snoc front b = length-append front (b ∷ [])

pub slice_front :
    (front : List ℕ) (b n : ℕ) → n ≡ length front → slice 0 n (front ++ (b ∷ [])) ≡ Result.ok front
slice_front front b n e = rw e (ground (arith, length-snoc front b, take-append front (b ∷ [])))

pub index_last :
    (front : List ℕ) (b n : ℕ)
    → n ≡ length front
    → index (get_elem? (front ++ (b ∷ [])) n) ≡ Result.ok b
index_last front b n e = rw (e, get_elem?-append_length front b []) refl

-- A tagged byte string and its two readings.
pub strip_partial :
    (front : List ℕ) (b r : ℕ)
    → r < 8
    → TagHolds b r
    → strip_tag (front ++ (tagged b r ∷ [])) false ≡ Result.ok (front ++ (b ∷ []), 8 - r - 1 + 1)
unfolding strip_tag
strip_partial front b r hr t =
    let last : length (front ++ (tagged b r ∷ [])) - 1 ≡ length front =
      omega (arith, length-snoc front (tagged b r)) in
    let some_bytes =
      lt→ltb 0 (length (front ++ (tagged b r ∷ [])))
        (omega (arith, length-snoc front (tagged b r))) in
    let found = lt→leb 8 (8 - r - 1) (omega arith) in
    rw some_bytes (
      rw (index_last front (tagged b r) _ last) (
        rw (t.zeros)
          (rw found (rw (t.stripped) (rw (last, set-append_last front (tagged b r) b) refl)))))

pub strip_full : (bs : List ℕ) → strip_tag bs true ≡ Result.ok (bs, 0)
unfolding strip_tag
strip_full bs = elim (Bool-cases (ltb 0 (length bs))) [ inl e ↦ rw e refl | inr e ↦ rw e refl ]
