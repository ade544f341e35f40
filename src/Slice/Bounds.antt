-- ===== src/Slice/Bounds.antt =====
-- The bounds of `CellSlice::new` and `CellSlice::reference` in src/cell/slice.rs.
use tonlib_rs.Prelude.{
  ℕ, zero, suc, ◌+◌, ◌-◌, ◌<◌, ◌≤◌, ◌≡◌, refl, List, [], ◌∷◌, some, length, get_elem?, ge→ltb,
  lt→ltb, arith,
}
use tonlib_rs.Prelude.Outcome.{Result, invalid_index}
use tonlib_rs.Cell.{Cell, bit_len, references}
use tonlib_rs.Slice.{CellSlice, new, reference, found, usize_sub}

get_elem?-some : (cs : List Cell) (i : ℕ) → i < length cs → (c : Cell) × (get_elem? cs i ≡ some c)
get_elem?-some [] i h = absurd (omega (arith, h))
get_elem?-some (c ∷ cs) zero h = (c, refl)
get_elem?-some (c ∷ cs) (suc i) h = get_elem?-some cs i (omega (arith, h))

usize_sub-le : (a b : ℕ) → b ≤ a → a ≤ 4 → usize_sub a b ≡ a - b
usize_sub-le a b h k = omega (arith, h, k)

reference_found :
    (s : CellSlice) (idx count : ℕ) (r : Cell)
    → usize_sub s.end_ref s.start_ref ≡ count
    → idx ≤ count
    → get_elem? (references s.cell) (s.start_ref + idx) ≡ some r
    → reference s idx ≡ Result.ok r
unfolding reference
reference_found s idx count r e h there = rw e (rw (ge→ltb count idx h, there) refl)

module _ (c : Cell) (start_bit end_bit start_ref end_ref : ℕ) where
  -- What a slice of a cell is good for.
  pub record Part (s : CellSlice) : Type 0 where
    pub new_eq : new c start_bit end_bit start_ref end_ref ≡ Result.ok s
    pub within :
        (idx : ℕ)
        → idx < end_ref - start_ref
        → (r : Cell) × (reference s idx ≡ Result.ok r)
          × (get_elem? (references c) (start_ref + idx) ≡ some r)
    pub at_count :
        reference s (end_ref - start_ref)
        ≡ found
            (invalid_index (end_ref - start_ref) (end_ref - start_ref))
            (get_elem? (references c) end_ref)
    pub beyond :
        (idx : ℕ)
        → end_ref - start_ref < idx
        → reference s idx ≡ Result.err (invalid_index idx (end_ref - start_ref))

  -- For offsets in order that stay within a cell of at most four references, `new` gives a slice;
  -- its references below their number are those of the cell from `start_ref` on; the index equal to
  -- that number gives the reference of the cell behind the slice, or an error where the cell has no
  -- more; and an index above that number is an error.
  pub new-reference :
      start_bit ≤ end_bit
      → end_bit ≤ bit_len c
      → start_ref ≤ end_ref
      → end_ref ≤ length (references c)
      → length (references c) ≤ 4
      → (s : CellSlice) × Part s
  unfolding new reference
  new-reference hb he hr hn four =
      let count = usize_sub-le end_ref start_ref hr (omega (arith, hn, four)) in
      let s : CellSlice = record {
        cell = c;
        start_bit = start_bit;
        end_bit = end_bit;
        start_ref = start_ref;
        end_ref = end_ref;
      } in
      (
        s,
        record {
          new_eq =
              rw
                (
                  ge→ltb end_bit start_bit hb,
                  ge→ltb (bit_len c) end_bit he,
                  ge→ltb end_ref start_ref hr,
                  ge→ltb (length (references c)) end_ref hn,
                )
                refl;
          within = λ idx h.
              let (r, e) = get_elem?-some (references c) (start_ref + idx) (omega (arith, h, hn)) in
              (r, reference_found s idx (end_ref - start_ref) r count (omega (arith, h)) e, e);
          at_count =
              let here : start_ref + (end_ref - start_ref) ≡ end_ref = omega (arith, hr) in
              rw (count, here, ge→ltb (end_ref - start_ref) (end_ref - start_ref) (omega arith))
                refl;
          beyond = λ idx h. rw count (rw (lt→ltb (end_ref - start_ref) idx h) refl);
        },
      )
