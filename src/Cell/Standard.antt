-- ===== src/Cell/Standard.antt =====
-- The byte string that `get_repr_for_data` of src/cell.rs hashes, against the standard layout.
use tonlib_rs.Prelude.{
  ℕ, zero, suc, ◌+◌, ◌-◌, ◌*◌, ◌/◌, ◌%◌, ◌^◌, ◌<◌, ◌≤◌, ◌≡◌, refl, ap, ◌∙◌, List, [], ◌∷◌, ◌++◌,
  Bool, true, false, ◌==◌, length, All, arith, if◌then◌else◌, bit_or, bit_and, inl, inr, Bool-cases,
  length-append, append-nil,
}
use native.Mathlib.Nat.{div-add-mod}
use tonlib_rs.Prelude.Bits.{IsByte, to_bits, length-to_bits, unpack, unpack-append, length-unpack}
use tonlib_rs.Prelude.Outcome.{Result}
use tonlib_rs.Libs.{Libs}
use tonlib_rs.LevelMask.{LevelMask, apply}
use tonlib_rs.Cell.{
  Cell, CellType, ordinary, pruned_branch, library, merkle_proof, merkle_update, get_depth,
  get_hash, is_ordinary,
}
use tonlib_rs.Cell.Repr.{get_repr_for_data, get_refs_descriptor, get_bits_descriptor, tag_byte}
use tonlib_rs.Cell.Heights.{seen_level, child_depth-seen_level, child_hash-seen_level}
use tonlib_rs.Cell.Data.{data_repr, completed, completed-snoc, all_under, all_under_at}
use tonlib_rs.Cell.Described.{IsChild, repr, depth_bytes, hash_bytes, get_repr_for_data_lem}
use tonlib_rs.CellType.Bytes.{same_number}
use tonlib_rs.RawBoc.Strip.{split_last, All-last}

-- The bits with a 1 in place `n`.
unfoldable pub with_bit : ℕ → List Bool → List Bool
with_bit n [] = []
with_bit zero (x ∷ xs) = true ∷ xs
with_bit (suc n) (x ∷ xs) = x ∷ with_bit n xs

-- The bits of the data part: whole bytes are as they are, else the bit behind the data is set.
unfoldable pub tagged_bits : ℕ → List Bool → List Bool
unfolding with_bit
tagged_bits n xs = if n % 8 == 0 then xs else with_bit n xs

same_bits : List Bool → List Bool → Bool
same_bits [] [] = true
same_bits (true ∷ xs) (true ∷ ys) = same_bits xs ys
same_bits (false ∷ xs) (false ∷ ys) = same_bits xs ys
same_bits _ _ = false

same_bits-true : (xs ys : List Bool) → same_bits xs ys ≡ true → xs ≡ ys
unfolding same_bits
same_bits-true [] [] e = refl
same_bits-true [] (y ∷ ys) e = absurd (cc)
same_bits-true (true ∷ xs) [] e = absurd (cc)
same_bits-true (false ∷ xs) [] e = absurd (cc)
same_bits-true (true ∷ xs) (true ∷ ys) e = ap (λ t. true ∷ t) (same_bits-true xs ys e)
same_bits-true (false ∷ xs) (false ∷ ys) e = ap (λ t. false ∷ t) (same_bits-true xs ys e)
same_bits-true (true ∷ xs) (false ∷ ys) e = absurd (cc)
same_bits-true (false ∷ xs) (true ∷ ys) e = absurd (cc)

abbrev tag_sets : ℕ → ℕ → Bool
tag_sets r b = same_bits (to_bits 8 (bit_or b (2 ^ (8 - r - 1)))) (with_bit r (to_bits 8 b))

tag_bits_table : all_under 8 (λ r. all_under 256 (λ b. tag_sets r b)) ≡ true
unfolding all_under same_bits to_bits with_bit
tag_bits_table = refl

tag_byte-with_bit :
    (b r : ℕ) → b < 256 → r < 8 → to_bits 8 (tag_byte b r) ≡ with_bit r (to_bits 8 b)
unfolding tag_byte
tag_byte-with_bit b r hb hr =
    let row = all_under_at 8 (λ r. all_under 256 (λ b. tag_sets r b)) r tag_bits_table hr in
    same_bits-true _ _ (all_under_at 256 (λ b. tag_sets r b) b row hb)

with_bit-append :
    (xs ys : List Bool) (r n : ℕ)
    → n ≡ length xs + r
    → 0 < length ys
    → with_bit n (xs ++ ys) ≡ xs ++ with_bit r ys
unfolding with_bit
with_bit-append [] ys r n e h = ap (λ k. with_bit k ys) (omega (arith, e))
with_bit-append (x ∷ xs) ys r zero e h = absurd (omega (arith, e))
with_bit-append (x ∷ xs) ys r (suc n) e h =
    ap (λ t. x ∷ t) (with_bit-append xs ys r n (omega (arith, e)) h)

unpack-one : (b : ℕ) → unpack (b ∷ []) ≡ to_bits 8 b
unfolding unpack
unpack-one b = append-nil (to_bits 8 b)

completed-with_bit :
    (front : List ℕ) (b n : ℕ)
    → b < 256
    → length (front ++ (b ∷ [])) ≡ (n + 7) / 8
    → (n % 8 == 0) ≡ false
    → unpack (completed (n % 8) (front ++ (b ∷ []))) ≡ with_bit n (unpack (front ++ (b ∷ [])))
completed-with_bit front b n hb len e =
    let low : n ≡ length (unpack front) + n % 8 =
      ground (arith, length-unpack front, len, length-append front (b ∷ []), e) in
    let some_bits : 0 < length (to_bits 8 b) = omega (arith, length-to_bits 8 b) in
    rw
      (
        completed-snoc (n % 8) front b,
        unpack-append front (tag_byte b (n % 8) ∷ []),
        unpack-append front (b ∷ []),
        unpack-one (tag_byte b (n % 8)),
        unpack-one b,
        tag_byte-with_bit b (n % 8) hb (omega arith),
        with_bit-append (unpack front) (to_bits 8 b) (n % 8) n low some_bits,
      )
      refl

data_repr-tagged_bits :
    (bs : List ℕ) (n : ℕ)
    → All IsByte bs
    → length bs ≡ (n + 7) / 8
    → unpack (data_repr bs n) ≡ tagged_bits n (unpack bs)
unfolding data_repr tagged_bits
data_repr-tagged_bits bs n h len = elim (Bool-cases (n % 8 == 0)) [
  | inl e ↦ rw e refl
  | inr e ↦
      let (front, b, d) = split_last bs (ground (arith, len, e)) in
      let (hf, hb) = All-last front b (rw d at h) in
      rw (e, d) (completed-with_bit front b n hb (rw d at len) e)
]

-- The descriptors of the standard: the number of references, a flag for an exotic cell and the mask
-- below the level; the bytes that are full and the bytes that are begun.
unfoldable pub exotic_flag : CellType → ℕ
exotic_flag ordinary = 0
exotic_flag pruned_branch = 1
exotic_flag library = 1
exotic_flag merkle_proof = 1
exotic_flag merkle_update = 1

unfoldable pub d1 : CellType → List Cell → LevelMask → ℕ → ℕ
unfolding exotic_flag
d1 t refs l level = length refs + 8 * exotic_flag t + 32 * (l.mask % 2 ^ level)

unfoldable pub d2 : ℕ → ℕ
d2 n = n / 8 + (n + 7) / 8

-- The depths of the references at a level, two bytes each, high byte first, and their hashes.
unfoldable pub seen_depths : ℕ → List Cell → List ℕ
seen_depths level [] = []
seen_depths level (c ∷ cs) =
    get_depth c level / 256 ∷ get_depth c level % 256 ∷ seen_depths level cs

unfoldable pub seen_hashes : ℕ → List Cell → List ℕ
seen_hashes level [] = []
seen_hashes level (c ∷ cs) = get_hash c level ++ seen_hashes level cs

abbrev mask_is_low : ℕ → ℕ → Bool
mask_is_low level m = bit_and m (2 ^ level - 1) == m % 2 ^ level

low_mask_table : all_under 4 (λ k. all_under 8 (λ m. mask_is_low k m)) ≡ true
unfolding all_under
low_mask_table = refl

low_mask :
    (l : LevelMask) (level : ℕ) → l.mask < 8 → level < 4 → (apply l level).mask ≡ l.mask % 2 ^ level
unfolding apply
low_mask l level hm hl =
    let row = all_under_at 4 (λ k. all_under 8 (λ m. mask_is_low k m)) level low_mask_table hl in
    same_number _ _ (all_under_at 8 (λ m. mask_is_low level m) l.mask row hm)

low_mask-lt : (m level : ℕ) → m < 8 → m % 2 ^ level < 8
low_mask-lt m level h = omega (arith, div-add-mod m (2 ^ level), h)

refs_descriptor-d1 :
    (t : CellType) (refs : List Cell) (l : LevelMask) (level : ℕ)
    → length refs ≤ 4
    → l.mask < 8
    → level < 4
    → get_refs_descriptor t refs (apply l level).mask ≡ d1 t refs l level
unfolding get_refs_descriptor d1 is_ordinary
refs_descriptor-d1 t refs l level four hm hl =
    rw (low_mask l level hm hl)
      (by_type t (length refs) (l.mask % 2 ^ level) four (low_mask-lt l.mask level hm))
  where
    by_type :
        (t : CellType) (r m : ℕ)
        → r ≤ 4
        → m < 8
        → (r + 8 * (if is_ordinary t then 0 else 1) + m * 32) % 256 ≡ r + 8 * exotic_flag t + 32 * m
    by_type ordinary r m hr hm = omega (arith, hr, hm)
    by_type pruned_branch r m hr hm = omega (arith, hr, hm)
    by_type library r m hr hm = omega (arith, hr, hm)
    by_type merkle_proof r m hr hm = omega (arith, hr, hm)
    by_type merkle_update r m hr hm = omega (arith, hr, hm)

bits_descriptor-d2 :
    (bs : List ℕ) (n : ℕ) → length bs ≡ (n + 7) / 8 → n ≤ 1023 → get_bits_descriptor bs n ≡ d2 n
unfolding get_bits_descriptor d2
bits_descriptor-d2 bs n len h = rw len (ground (arith, h))

depth_bytes-seen_depths :
    (t : CellType) (level : ℕ) (cs : List Cell)
    → depth_bytes t level cs ≡ seen_depths (seen_level t level) cs
unfolding depth_bytes seen_depths
depth_bytes-seen_depths t level [] = refl
depth_bytes-seen_depths t level (c ∷ cs) =
    rw (child_depth-seen_level t c level, depth_bytes-seen_depths t level cs) refl

hash_bytes-seen_hashes :
    (t : CellType) (level : ℕ) (cs : List Cell)
    → hash_bytes t level cs ≡ seen_hashes (seen_level t level) cs
unfolding hash_bytes seen_hashes
hash_bytes-seen_hashes t level [] = refl
hash_bytes-seen_hashes t level (c ∷ cs) =
    rw (child_hash-seen_level t c level, hash_bytes-seen_hashes t level cs) refl

-- A reference with a `u16` depth and a hash of bytes at a level.
pub record IsSeen (level : ℕ) (c : Cell) : Type 0 where
  pub depth_u16 : get_depth c level < 2 ^ 16
  pub hash_bytes : All IsByte (get_hash c level)

seen_children :
    (t : CellType) (level : ℕ) (cs : List Cell)
    → All (IsSeen (seen_level t level)) cs
    → All (IsChild t level) cs
seen_children t level [] h = tt
seen_children t level (c ∷ cs) h = (
  record {
    depth_u16 = rw (child_depth-seen_level t c level) h.0.depth_u16;
    hash_bytes = rw (child_hash-seen_level t c level) h.0.hash_bytes;
  },
  seen_children t level cs h.1,
)

module _ (libs : Libs) where
  -- `get_repr_for_data` returns the standard representation at a level below 4: the number of
  -- references, 8 for an exotic cell and 32 times the mask below the level; the number of full bytes
  -- and the number of begun bytes of the original data; the current data, with the bit behind it set
  -- where it does not end with a byte; and the depths of the references, high byte first, and their
  -- hashes, those of the next level under a Merkle cell. Both data are of just the bytes that their
  -- bits need, with at most 1023 original bits; there are at most four references, with `u16` depths
  -- and hashes of bytes, and a mask of three bits.
  pub get_repr_for_data-standard :
      (original : List ℕ) (n : ℕ) (current : List ℕ) (m : ℕ) (refs : List Cell) (l : LevelMask)
      (level : ℕ) (t : CellType)
      → length original ≡ (n + 7) / 8
      → n ≤ 1023
      → All IsByte current
      → length current ≡ (m + 7) / 8
      → length refs ≤ 4
      → All (IsSeen (seen_level t level)) refs
      → l.mask < 8
      → level < 4
      → (content : List ℕ) × (get_repr_for_data libs (original, n) (current, m) refs l level t
          ≡ Result.ok (
              d1 t refs l level
              ∷ d2 n
              ∷ (content
                  ++ (seen_depths (seen_level t level) refs
                      ++ seen_hashes (seen_level t level) refs))))
        × (unpack content ≡ tagged_bits m (unpack current))
  unfolding repr
  get_repr_for_data-standard original n current m refs l level t ho hn hd hl four hr hm low = (
    data_repr current m,
    get_repr_for_data_lem libs original n current m refs l level t hd hl
          (seen_children t level refs hr)
        ∙ rw
            (
              refs_descriptor-d1 t refs l level four hm low,
              bits_descriptor-d2 original n ho hn,
              depth_bytes-seen_depths t level refs,
              hash_bytes-seen_hashes t level refs,
            )
            refl,
    data_repr-tagged_bits current m hd hl,
  )
