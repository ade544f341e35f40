-- ===== src/BagOfCells/Verify.antt =====
-- The loop `while verify_order` of src/cell/raw_boc_from_boc.rs ends, with every reference behind
-- the cell that holds it.
use tonlib_rs.Prelude.{
  ℕ, zero, suc, ◌≤◌, ◌<◌, ◌≡◌, refl, sym, ap, ◌∙◌, List, [], ◌∷◌, false, some, Bool-cases, inl, inr,
  arith, subst,
}
use mathlib.Core.List.{Memᴰ}
use mathlib.Core.List.Memᴰ
use tonlib_rs.Cell.{Cell, cell_hash, references}
use tonlib_rs.BagOfCells.Index.{
  Indexed, index_of, cells_of, Order, check_reference, check_references, check_cells, verify,
  height,
}
use tonlib_rs.BagOfCells.Entries.{index_of-some}
use tonlib_rs.BagOfCells.Order.{
  Inv, Fine, Settled, Inv-check_reference, check_reference_unchanged, check_reference-Fine,
  check_reference_keeps, check_reference_settles,
}

Inv-check_references :
    (cs : List Cell) (c : Cell) (rs : List Cell) (s : Order)
    → Inv cs s.entries s.next
    → Inv cs (check_references c rs s).entries (check_references c rs s).next
unfolding check_references
Inv-check_references cs c [] s inv = inv
Inv-check_references cs c (r ∷ rs) s inv =
    Inv-check_references cs c rs (check_reference c r s) (Inv-check_reference cs c r s inv)

Inv-check_cells :
    (cs ds : List Cell) (s : Order)
    → Inv cs s.entries s.next
    → Inv cs (check_cells ds s).entries (check_cells ds s).next
unfolding check_cells
Inv-check_cells cs [] s inv = inv
Inv-check_cells cs (c ∷ ds) s inv =
    Inv-check_cells cs ds (check_references c (references c) s)
      (Inv-check_references cs c (references c) s inv)

-- A round that changes nothing found every reference fine.
references_unchanged :
    (c : Cell) (rs : List Cell) (s : Order)
    → (check_references c rs s).changed ≡ false
    → (check_references c rs s ≡ s) × ((r : Cell) → Memᴰ r rs → Fine s.entries c r)
unfolding check_references
references_unchanged c [] s h = (refl, λ r m. absurd (Memᴰ.not-nil m))
references_unchanged c (r ∷ rs) s h =
    let (e, fine) = references_unchanged c rs (check_reference c r s) h in
    let (e', f) = check_reference_unchanged c r s (sym (ap (λ (t : Order). t.changed) e) ∙ h) in
    (
      e ∙ e',
      λ q m. elim (Memᴰ.cases_cons m) [
        | inl same ↦ subst (Fine s.entries c) (sym same) f
        | inr later ↦ subst (λ (t : Order). Fine t.entries c q) e' (fine q later)
      ],
    )

cells_unchanged :
    (ds : List Cell) (s : Order)
    → (check_cells ds s).changed ≡ false
    → (check_cells ds s ≡ s)
      × ((c r : Cell) → Memᴰ c ds → Memᴰ r (references c) → Fine s.entries c r)
unfolding check_cells
cells_unchanged [] s h = (refl, λ c r m. absurd (Memᴰ.not-nil m))
cells_unchanged (d ∷ ds) s h =
    let (e, fine) = cells_unchanged ds (check_references d (references d) s) h in
    let (e', f) =
      references_unchanged d (references d) s (sym (ap (λ (t : Order). t.changed) e) ∙ h) in
    (
      e ∙ e',
      λ c r m edge. elim (Memᴰ.cases_cons m) [
        | inl same ↦
            subst (λ (t : Cell). Fine s.entries t r) (sym same)
              (f r (subst (λ (t : Cell). Memᴰ r (references t)) same edge))
        | inr later ↦ subst (λ (t : Order). Fine t.entries c r) e' (fine c r later edge)
      ],
    )

-- Where every reference is fine, a round changes nothing.
references-Fine :
    (c : Cell) (rs : List Cell) (s : Order)
    → ((r : Cell) → Memᴰ r rs → Fine s.entries c r)
    → check_references c rs s ≡ s
unfolding check_references
references-Fine c [] s h = refl
references-Fine c (r ∷ rs) s h =
    ap (check_references c rs) (check_reference-Fine c r s (h r (Memᴰ.head refl)))
    ∙ references-Fine c rs s (λ q m. h q (Memᴰ.tail m))

cells-Fine :
    (ds : List Cell) (s : Order)
    → ((c r : Cell) → Memᴰ c ds → Memᴰ r (references c) → Fine s.entries c r)
    → check_cells ds s ≡ s
unfolding check_cells
cells-Fine [] s h = refl
cells-Fine (d ∷ ds) s h =
    ap (check_cells ds) (references-Fine d (references d) s (λ r m. h d r (Memᴰ.head refl) m))
    ∙ cells-Fine ds s (λ c r m. h c r (Memᴰ.tail m))

module _ (N : Cell → Type 0) (inj : (a b : Cell) → N a → N b → cell_hash a ≡ cell_hash b → a ≡ b)
    (closed : (c r : Cell) → N c → Memᴰ r (references c) → N r) where
  -- What holds of a part of a round in which the references of height `top` and more are fine.
  record Round (top : ℕ) (s s' : Order) : Type 0 where
    keeps :
        (u v : Cell)
        → N u
        → Memᴰ v (references u)
        → top ≤ suc (height v)
        → Fine s.entries u v
        → Fine s'.entries u v

  Settled-Round :
      (top : ℕ) (s s' : Order)
      → Round top s s'
      → Settled N inj closed top s.entries
      → Settled N inj closed top s'.entries
  Settled-Round top s s' round settled c r nc edge high =
      round.keeps c r nc edge (omega (arith, high)) (settled c r nc edge high)

  Round-trans : (top : ℕ) (s s' s'' : Order) → Round top s s' → Round top s' s'' → Round top s s''
  Round-trans top s s' s'' f g = record {
    keeps = λ u v nu edge high fine. g.keeps u v nu edge high (f.keeps u v nu edge high fine);
  }

  Round-references :
      (cs : List Cell) (c : Cell) (rs : List Cell) (s : Order) (top : ℕ)
      → Inv cs s.entries s.next
      → Settled N inj closed top s.entries
      → N c
      → ((r : Cell) → Memᴰ r rs → Memᴰ r (references c))
      → Round top s (check_references c rs s)
        × ((r : Cell)
            → Memᴰ r rs
            → top ≤ suc (height r)
            → Fine (check_references c rs s).entries c r)
  unfolding check_references
  Round-references cs c [] s top inv settled nc sub =
      (record { keeps = λ u v nu edge high fine. fine }, λ r m. absurd (Memᴰ.not-nil m))
  Round-references cs c (r ∷ rs) s top inv settled nc sub =
      let edge = sub r (Memᴰ.head refl) in
      let step : Round top s (check_reference c r s) = record {
        keeps = check_reference_keeps N inj closed cs c r s top inv settled nc edge;
      } in
      let settled' = Settled-Round top s (check_reference c r s) step settled in
      let (more, fine) =
        Round-references cs c rs (check_reference c r s) top (Inv-check_reference cs c r s inv)
          settled' nc (λ q m. sub q (Memᴰ.tail m)) in
      (
        Round-trans top s (check_reference c r s) _ step more,
        λ q m high. elim (Memᴰ.cases_cons m) [
          | inl same ↦ more.keeps c q nc (sub q m) high (
              subst (Fine (check_reference c r s).entries c) (sym same)
                (check_reference_settles N inj closed cs c r s inv nc edge))
          | inr later ↦ fine q later high
        ],
      )

  Round-cells :
      (cs ds : List Cell) (s : Order) (top : ℕ)
      → Inv cs s.entries s.next
      → Settled N inj closed top s.entries
      → ((c : Cell) → Memᴰ c ds → N c)
      → Round top s (check_cells ds s)
        × ((c r : Cell)
            → Memᴰ c ds
            → Memᴰ r (references c)
            → top ≤ suc (height r)
            → Fine (check_cells ds s).entries c r)
  unfolding check_cells
  Round-cells cs [] s top inv settled ns =
      (record { keeps = λ u v nu edge high fine. fine }, λ c r m. absurd (Memᴰ.not-nil m))
  Round-cells cs (d ∷ ds) s top inv settled ns =
      let nd = ns d (Memᴰ.head refl) in
      let s1 = check_references d (references d) s in
      let (step, first) = Round-references cs d (references d) s top inv settled nd (λ r m. m) in
      let (more, fine) =
        Round-cells cs ds s1 top (Inv-check_references cs d (references d) s inv)
          (Settled-Round top s s1 step settled) (λ c m. ns c (Memᴰ.tail m)) in
      (
        Round-trans top s s1 _ step more,
        λ c r m edge high. elim (Memᴰ.cases_cons m) [
          | inl same ↦
              let edge' = subst (λ (t : Cell). Memᴰ r (references t)) same edge in
              more.keeps c r (ns c m) edge high
                (subst (λ (t : Cell). Fine s1.entries t r) (sym same) (first r edge' high))
          | inr later ↦ fine c r later edge high
        ],
      )

  -- What the loop leaves: every reference is fine.
  pub record Verified (cs : List Cell) (m : List Indexed) : Type 0 where
    pub next : ℕ
    pub inv : Inv cs m next
    pub fine : (c r : Cell) → Memᴰ c cs → Memᴰ r (references c) → Fine m c r

  -- A cell of the family whose hash has an entry is one of the cells.
  indexed_cell :
      (cs : List Cell) (m : List Indexed) (next : ℕ) (c : Cell) (i : ℕ)
      → Inv cs m next
      → ((d : Cell) → Memᴰ d cs → N d)
      → N c
      → index_of m (cell_hash c) ≡ some i
      → Memᴰ c cs
  indexed_cell cs m next c i inv ns nc p =
      let (e, mem, same, x) = index_of-some m (cell_hash c) i p in
      let there : Memᴰ e.cell cs =
        subst (Memᴰ e.cell) inv.cells_eq (Memᴰ.map (λ (t : Indexed). t.cell) mem) in
      subst (λ (t : Cell). Memᴰ t cs) (inj e.cell c (ns e.cell there) nc same) there

  Settled-down :
      (cs : List Cell) (s : Order) (top : ℕ)
      → Inv cs s.entries s.next
      → ((d : Cell) → Memᴰ d cs → N d)
      → ((c r : Cell)
          → Memᴰ c cs
          → Memᴰ r (references c)
          → suc top ≤ suc (height r)
          → Fine s.entries c r)
      → Settled N inj closed top s.entries
  Settled-down cs s top inv ns fine c r nc edge high i j p q =
      fine c r (indexed_cell cs s.entries s.next c i inv ns nc p) edge (omega (arith, high)) i j p q

  verified :
      (cs : List Cell) (m : List Indexed) (next : ℕ) (s : Order)
      → s ≡ check_cells (cells_of m) (record { entries = m; next = next; changed = false })
      → Inv cs m next
      → s.changed ≡ false
      → Verified cs s.entries
  verified cs m next s e inv h =
      let s0 : Order = record { entries = m; next = next; changed = false } in
      let (same, fine) =
        cells_unchanged (cells_of m) s0 (sym (ap (λ (t : Order). t.changed) e) ∙ h) in
      subst (λ (t : Order). Verified cs t.entries) (sym (e ∙ same))
        (record {
          next = next;
          inv = inv;
          fine =
              subst
                (λ (t : List Cell). (c r : Cell) → Memᴰ c t → Memᴰ r (references c) → Fine m c r)
                inv.cells_eq fine;
        })

  -- The loop ends, within as many rounds as the heights that are not settled, and one more.
  pub verify_ends :
      (cs : List Cell) (top fuel : ℕ) (m : List Indexed) (next : ℕ)
      → Inv cs m next
      → ((d : Cell) → Memᴰ d cs → N d)
      → Settled N inj closed top m
      → top < fuel
      → (m' : List Indexed) × (verify fuel m next ≡ some m') × Verified cs m'
  unfolding verify
  verify_ends cs top zero m next inv ns settled h = elim h [ ]
  verify_ends cs zero (suc fuel) m next inv ns settled h =
      let s0 : Order = record { entries = m; next = next; changed = false } in
      let ns' = subst (λ t. (d : Cell) → Memᴰ d t → N d) (sym inv.cells_eq) ns in
      let same =
        cells-Fine (cells_of m) s0 (λ c r mem edge. settled c r (ns' c mem) edge (omega arith)) in
      let quiet = ap (λ (t : Order). t.changed) same in
      (_, rw quiet refl, verified cs m next _ refl inv quiet)
  verify_ends cs (suc top) (suc fuel) m next inv ns settled h =
      let s0 : Order = record { entries = m; next = next; changed = false } in
      let s = check_cells (cells_of m) s0 in
      let ns' = subst (λ t. (d : Cell) → Memᴰ d t → N d) (sym inv.cells_eq) ns in
      let inv' = Inv-check_cells cs (cells_of m) s0 inv in
      let (round, fine) = Round-cells cs (cells_of m) s0 (suc top) inv settled ns' in
      let fine' =
        subst
          (λ t.
            (c r : Cell)
            → Memᴰ c t
            → Memᴰ r (references c)
            → suc top ≤ suc (height r)
            → Fine s.entries c r)
          inv.cells_eq fine in
      let down = Settled-down cs s top inv' ns fine' in
      elim (Bool-cases s.changed) [
        | inl changed ↦
            let (m', e, v) =
              verify_ends cs top fuel s.entries s.next inv' ns down (omega (arith, h)) in
            (m', rw changed e, v)
        | inr quiet ↦ (s.entries, rw quiet refl, verified cs m next s refl inv quiet)
      ]
