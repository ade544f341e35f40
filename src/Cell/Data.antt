-- ===== src/Cell/Data.antt =====
-- The bytes that `write_data` of src/cell.rs writes.
use tonlib_rs.Prelude.{
  ℕ, zero, suc, ◌+◌, ◌-◌, ◌/◌, ◌%◌, ◌^◌, ◌<◌, ◌≡◌, refl, ap, List, [], ◌∷◌, ◌++◌, Bool, true, false,
  ◌==◌, ◌&&◌, ltb, length, take-append, All, arith, Bool-cases, inl, inr, bit_or, if◌then◌else◌,
}
use tonlib_rs.Prelude.Bits.{IsByte, unpack, unpack-append}
use tonlib_rs.Prelude.Outcome.{cell_parser_error, io}
use tonlib_rs.Libs.{Libs}
use tonlib_rs.Libs.Writes.{Puts, Puts-then, Puts-lift, Puts-write, Puts-write_bytes}
use tonlib_rs.Cell.Repr.{write_data, tag_byte}
use tonlib_rs.RawBoc.Strip.{split_last, All-last, length-snoc, index_last}

-- The data with a 1 behind the `r` bits in use of its last byte.
unfoldable pub completed : ℕ → List ℕ → List ℕ
unfolding tag_byte
completed r [] = []
completed r (b ∷ []) = tag_byte b r ∷ []
completed r (b ∷ c ∷ bs) = b ∷ completed r (c ∷ bs)

-- Whole bytes are left as they are.
unfoldable pub data_repr : List ℕ → ℕ → List ℕ
unfolding completed
data_repr data' n = if n % 8 == 0 then data' else completed (n % 8) data'

pub completed-snoc :
    (r : ℕ) (front : List ℕ) (b : ℕ)
    → completed r (front ++ (b ∷ [])) ≡ front ++ (tag_byte b r ∷ [])
unfolding completed
completed-snoc r [] b = refl
completed-snoc r (x ∷ []) b = refl
completed-snoc r (x ∷ y ∷ ys) b = ap (λ t. x ∷ t) (completed-snoc r (y ∷ ys) b)

unfoldable pub all_under : ℕ → (ℕ → Bool) → Bool
all_under zero p = true
all_under (suc n) p = p n && all_under n p

pub all_under_at : (n : ℕ) (p : ℕ → Bool) (x : ℕ) → all_under n p ≡ true → x < n → p x ≡ true
unfolding all_under
all_under_at zero p x h lt = elim lt [ ]
all_under_at (suc n) p x h lt = ground (arith, all_under_at n p x)

tag_table : all_under 8 (λ r. all_under 256 (λ b. ltb (bit_or b (2 ^ (8 - r - 1))) 256)) ≡ true
unfolding all_under
tag_table = refl

pub tag_byte-IsByte : (b r : ℕ) → b < 256 → r < 8 → IsByte (tag_byte b r)
unfolding tag_byte
tag_byte-IsByte b r hb hr =
    let row =
      all_under_at 8 (λ r. all_under 256 (λ b. ltb (bit_or b (2 ^ (8 - r - 1))) 256)) r tag_table
        hr in
    let at = all_under_at 256 (λ b. ltb (bit_or b (2 ^ (8 - r - 1))) 256) b row hb in
    ground (arith, at)

completed-IsByte : (r : ℕ) (bs : List ℕ) → r < 8 → All IsByte bs → All IsByte (completed r bs)
unfolding completed
completed-IsByte r [] hr h = tt
completed-IsByte r (b ∷ []) hr h = (tag_byte-IsByte b r h.0 hr, tt)
completed-IsByte r (b ∷ c ∷ bs) hr h = (h.0, completed-IsByte r (c ∷ bs) hr h.1)

pub data_repr-IsByte : (data' : List ℕ) (n : ℕ) → All IsByte data' → All IsByte (data_repr data' n)
unfolding data_repr
data_repr-IsByte data' n h = elim (Bool-cases (n % 8 == 0)) [
  | inl e ↦ rw e h
  | inr e ↦ rw e (completed-IsByte (n % 8) data' (omega arith) h)
]

module _ (libs : Libs) where
  Puts-one :
      (v : ℕ)
      → IsByte v
      → Puts libs.bit_writer (io cell_parser_error (libs.bit_writer.write 8 8 v)) (unpack (v ∷ []))
  unfolding unpack
  Puts-one v h = Puts-write libs.bit_writer cell_parser_error 8 8 v (omega arith) h

  Puts-tagged :
      (front : List ℕ) (b n : ℕ)
      → All IsByte front
      → IsByte b
      → (n % 8 == 0) ≡ false
      → Puts libs.bit_writer
          (write_data libs (front ++ (b ∷ [])) n)
          (unpack (front ++ (tag_byte b (n % 8) ∷ [])))
  unfolding write_data
  Puts-tagged front b n hf hb e =
      let len : length (front ++ (b ∷ [])) ≡ suc (length front) =
        omega (arith, length-snoc front b) in
      let some_data : (suc (length front) == 0) ≡ false = ground arith in
      let last : suc (length front) - 1 ≡ length front = omega arith in
      rw (e, len, some_data, last, take-append front (b ∷ []), unpack-append)
        (Puts-then libs.bit_writer _ _ (unpack front) (unpack (tag_byte b (n % 8) ∷ []))
          (Puts-write_bytes libs.bit_writer cell_parser_error front hf)
          (Puts-lift libs.bit_writer _ _ _ b (index_last front b _ refl)
            (Puts-one (tag_byte b (n % 8)) (tag_byte-IsByte b (n % 8) hb (omega arith)))))

  Puts-full :
      (data' : List ℕ) (n : ℕ)
      → All IsByte data'
      → (n % 8 == 0) ≡ true
      → Puts libs.bit_writer (write_data libs data' n) (unpack (data_repr data' n))
  unfolding write_data data_repr
  Puts-full data' n h e = rw e (Puts-write_bytes libs.bit_writer cell_parser_error data' h)

  Puts-partial :
      (data' : List ℕ) (n : ℕ)
      → All IsByte data'
      → (n % 8 == 0) ≡ false
      → (front : List ℕ) × (b : ℕ) × (data' ≡ front ++ (b ∷ []))
      → Puts libs.bit_writer (write_data libs data' n) (unpack (data_repr data' n))
  unfolding data_repr
  Puts-partial data' n h e (front, b, d) =
      let (hf, hb) = All-last front b (rw d at h) in
      rw (d, e, completed-snoc (n % 8) front b) (Puts-tagged front b n hf hb e)

  -- The data is written with its completion tag.
  pub Puts-write_data :
      (data' : List ℕ) (n : ℕ)
      → All IsByte data'
      → length data' ≡ (n + 7) / 8
      → Puts libs.bit_writer (write_data libs data' n) (unpack (data_repr data' n))
  Puts-write_data data' n h len = elim (Bool-cases (n % 8 == 0)) [
    | inl e ↦ Puts-full data' n h e
    | inr e ↦ Puts-partial data' n h e (split_last data' (ground (arith, len, e)))
  ]
