-- ===== src/BagOfCells/Numbered.antt =====
-- The numbering that src/cell/raw_boc_from_boc.rs ends with: every reference has a greater number
-- than the cell that holds it.
use tonlib_rs.Prelude.{
  ℕ, length-append, ◌<◌, suc, ◌+◌, ◌≤◌, ◌≡◌, ◌≢◌, refl, sym, ap, ◌∙◌, List, [], ◌∷◌, ◌++◌, some,
  inl, inr, arith, subst, length,
}
use mathlib.Core.List.{Memᴰ}
use mathlib.Core.List.Memᴰ
use tonlib_rs.Prelude.Outcome.{Result}
use tonlib_rs.Cell.{Cell, cell_hash, references}
use tonlib_rs.BagOfCells.Index.{
  Indexed, Iteration, index_of, cells_of, height, tallest, sort, renumber, build_and_verify_index,
}
use tonlib_rs.BagOfCells.Order.{Inv, Fine, Settled, height-reference}
use tonlib_rs.BagOfCells.Verify.{verify_ends}
use tonlib_rs.BagOfCells.Levels.{Found, Built, Inv-nil, Inv-values, Found-values}
use tonlib_rs.BagOfCells.Reached.{levels_end}
use tonlib_rs.BagOfCells.Entries.{index_of-some, index_of-mem}
use tonlib_rs.BagOfCells.Sort.{
  mem-sort, sort-mem, Ascending, sort-Ascending, before-le, split_cases, located,
}

-- The cells that the roots reach.
pub data Reaches (roots : List Cell) : Cell → Type 0 where
  top : {c : Cell} → Memᴰ c roots → Reaches roots c
  down : {c r : Cell} → Reaches roots c → Memᴰ r (references c) → Reaches roots r

tallest-mem : (cs : List Cell) (c : Cell) → Memᴰ c cs → height c ≤ tallest cs
unfolding tallest
tallest-mem [] c mem = absurd (Memᴰ.not-nil mem)
tallest-mem (d ∷ cs) c mem = elim (Memᴰ.cases_cons mem) [
  | inl same ↦ omega (arith, ap height same)
  | inr later ↦ omega (arith, tallest-mem cs c later)
]

tallest-Reaches : (roots : List Cell) {c : Cell} → Reaches roots c → height c ≤ tallest roots
tallest-Reaches roots (top {c} mem) = tallest-mem roots c mem
tallest-Reaches roots (down {c} {r} p mem) =
    omega (arith, tallest-Reaches roots p, height-reference c r mem)

-- No two cells that the roots reach have the same hash.
abbrev pub Distinct : List Cell → Type 0
Distinct roots =
    (a b : Cell) → Reaches roots a → Reaches roots b → cell_hash a ≡ cell_hash b → a ≡ b

-- The index: entries of reachable cells, all of them, each reference with a greater index.
pub record Index (roots : List Cell) (m : List Indexed) : Type 0 where
  pub next : ℕ
  pub inv : Inv (cells_of m) m next
  pub family : (e : Indexed) → Memᴰ e m → Reaches roots e.cell
  pub found : (c : Cell) → Reaches roots c → Found m c
  pub fine : (c r : Cell) → Reaches roots c → Memᴰ r (references c) → Fine m c r

cell_mem :
    (cs : List Cell) (m : List Indexed) (c : Cell)
    → cells_of m ≡ cs
    → Memᴰ c cs
    → (e : Indexed) × Memᴰ e m × (e.cell ≡ c)
cell_mem cs m c p mem = go m (subst (Memᴰ c) (sym p) mem)
  where
    go : (n : List Indexed) → Memᴰ c (cells_of n) → (e : Indexed) × Memᴰ e n × (e.cell ≡ c)
    go [] q = absurd (Memᴰ.not-nil q)
    go (e ∷ n) q = elim (Memᴰ.cases_cons q) [
      | inl same ↦ (e, Memᴰ.head refl, sym same)
      | inr later ↦ let (f, fm, r) = go n later in (f, Memᴰ.tail fm, r)
    ]

module _ (roots : List Cell) (distinct : Distinct roots) where
  all_found :
      (m : List Indexed) (next : ℕ)
      → Built (Reaches roots) (λ c r p mem. down p mem) roots m next []
      → {c : Cell} → Reaches roots c
      → Found m c
  all_found m next h (top {c} mem) = elim (h.tops c mem) [
    | inl f ↦ f
    | inr no_todo ↦ absurd (Memᴰ.not-nil no_todo)
  ]
  all_found m next h (down {c} {r} p edge) =
      let (i, q) = all_found m next h p in
      let (e, mem, k, x) = index_of-some m (cell_hash c) i q in
      let same = distinct e.cell c (h.family e mem) p k in
      elim (h.below e mem r (subst (λ (t : Cell). Memᴰ r (references t)) (sym same) edge)) [
        | inl f ↦ f
        | inr no_todo ↦ absurd (Memᴰ.not-nil no_todo)
      ]

  -- When no two different cells that the roots reach have the same hash, both loops of
  -- `build_and_verify_index` end, whatever order the map is visited in: the index has an entry for
  -- each reachable cell and for no other, and each reference has an index that is not below that
  -- of its cell.
  pub build_and_verify_index_ends :
      (order : Iteration)
      → (m : List Indexed) × (build_and_verify_index order roots ≡ Result.ok m) × Index roots m
  unfolding build_and_verify_index
  build_and_verify_index_ends order =
      let closed : (c r : Cell) → Reaches roots c → Memᴰ r (references c) → Reaches roots r =
        λ c r p mem. down p mem in
      let start : Built (Reaches roots) closed roots [] 0 roots = record {
        inv = Inv-nil;
        family = λ e mem. absurd (Memᴰ.not-nil mem);
        waiting = λ c mem. top mem;
        below = λ e mem. absurd (Memᴰ.not-nil mem);
        tops = λ r mem. inr mem;
      } in
      let (m, next, e, built) =
        levels_end (Reaches roots) closed roots (tallest roots) roots [] 0 start
          (λ c mem. tallest-mem roots c mem) in
      let m1 = order.values m in
      let inv1 = Inv-values order m next built.inv in
      let ns : (d : Cell) → Memᴰ d (cells_of m1) → Reaches roots d = λ d mem.
        let (f, fm, p) = cell_mem (cells_of m1) m1 d refl mem in
        subst (Reaches roots) p (built.family f ((order.mem-values m f).0 fm)) in
      let settled : Settled (Reaches roots) distinct closed (suc (tallest roots)) m1 =
        λ c r p edge high. absurd (omega (arith, high, tallest-Reaches roots (down p edge))) in
      let (m2, e2, v) =
        verify_ends (Reaches roots) distinct closed (cells_of m1) (suc (tallest roots))
          (tallest roots + 2) m1 next inv1 ns settled (omega arith) in
      let found2 : (c : Cell) → Reaches roots c → (f : Indexed) × Memᴰ f m2 × (f.cell ≡ c) = λ c p.
        let (i, q) = Found-values order m c (all_found m next built p) in
        let (f, fm, k, x) = index_of-some m1 (cell_hash c) i q in
        let same = distinct f.cell c (built.family f ((order.mem-values m f).0 fm)) p k in
        cell_mem (cells_of m1) m2 c v.inv.cells_eq (
          subst (λ (t : Cell). Memᴰ t (cells_of m1)) same
            (Memᴰ.map (λ (t : Indexed). t.cell) fm)) in
      (
        m2,
        rw e (rw e2 refl),
        record {
          next = v.next;
          inv = record {
            cells_eq = refl;
            keyed = v.inv.keyed;
            bounded = v.inv.bounded;
            apart = v.inv.apart;
          };
          family = λ f fm.
              ns f.cell
                (subst (Memᴰ f.cell) v.inv.cells_eq (Memᴰ.map (λ (t : Indexed). t.cell) fm));
          found = λ c p.
              let (f, fm, q) = found2 c p in
              let (i, r) = index_of-mem m2 f fm in
              (i, ap (λ (t : Cell). index_of m2 (cell_hash t)) (sym q) ∙ r);
          fine = λ c r p edge.
              let (f, fm, q) = found2 c p in
              v.fine c r
                (subst (Memᴰ c) v.inv.cells_eq (
                  subst (λ (t : Cell). Memᴰ t (cells_of m2)) q
                    (Memᴰ.map (λ (t : Indexed). t.cell) fm)))
                edge;
        },
      )

  -- The position of a reachable cell in the sorted index.
  pub position :
      (m : List Indexed) (c : Cell)
      → Index roots m
      → Reaches roots c
      → (front : List Indexed) × (g : Indexed) × (back : List Indexed) × (sort m
          ≡ front ++ (g ∷ back))
        × (g.cell ≡ c)
        × (index_of (renumber 0 (sort m)) (cell_hash c) ≡ some (length front))
  position m c ix p =
      let (i, q) = ix.found c p in
      let (e, mem, k, x) = index_of-some m (cell_hash c) i q in
      let (front, g, back, s, same, f) = located (sort m) (cell_hash c) e 0 (sort-mem e m mem) k in
      let gm = mem-sort g m (subst (Memᴰ g) (sym s) (Memᴰ.append_right front (Memᴰ.head refl))) in
      (front, g, back, s, distinct g.cell c (ix.family g gm) p same, f ∙ ap some (omega arith))

  -- A reference stands behind the cell that holds it.
  pub reference_behind :
      (m : List Indexed) (front back front' back' : List Indexed) (e g : Indexed) (r : Cell)
      → Index roots m
      → sort m ≡ front ++ (e ∷ back)
      → sort m ≡ front' ++ (g ∷ back')
      → Memᴰ r (references e.cell)
      → g.cell ≡ r
      → (mid : List Indexed) × (front' ≡ front ++ (e ∷ mid)) × (back ≡ mid ++ (g ∷ back'))
  reference_behind m front back front' back' e g r ix s s' edge same =
      elim (split_cases front back front' back' e g (sym s ∙ s')) [
        | inl before ↦
            absurd (not_le (before-le front back e g (subst Ascending s (sort-Ascending m)) before))
        | inr (inl equal) ↦ absurd (not_le (omega (arith, ap (λ (t : Indexed). t.index) equal)))
        | inr (inr behind) ↦ behind
      ]
    where
      em : Memᴰ e m
      em = mem-sort e m (subst (Memᴰ e) (sym s) (Memᴰ.append_right front (Memᴰ.head refl)))

      gm : Memᴰ g m
      gm = mem-sort g m (subst (Memᴰ g) (sym s') (Memᴰ.append_right front' (Memᴰ.head refl)))

      ge : index_of m (cell_hash e.cell) ≡ some e.index
      ge = ix.inv.keyed e em

      gr : index_of m (cell_hash r) ≡ some g.index
      gr = ap (λ (t : Cell). index_of m (cell_hash t)) (sym same) ∙ ix.inv.keyed g gm

      le : e.index ≤ g.index
      le = ix.fine e.cell r (ix.family e em) edge e.index g.index ge gr

      ne : e.index ≢ g.index
      ne x =
          let hashes = ix.inv.apart (cell_hash e.cell) (cell_hash r) g.index (ge ∙ ap some x) gr in
          let cells = distinct e.cell r (ix.family e em) (down (ix.family e em) edge) hashes in
          absurd (omega (arith, height-reference e.cell r edge, ap height cells))

      not_le : g.index ≤ e.index → ⊥
      not_le x = ne (omega (arith, le, x))

-- The numbers that `convert_to_raw_boc` gives to the cells of the index.
abbrev pub numbering : List Indexed → List Indexed
numbering m = renumber 0 (sort m)

module _ (roots : List Cell) (distinct : Distinct roots) where
  -- In the numbering that `convert_to_raw_boc` makes of the index, every cell that the roots reach
  -- and each of its references have a number, and that of the reference is the greater one, when no
  -- two different cells have the same hash.
  pub references_after :
      (order : Iteration) (m : List Indexed) (c r : Cell)
      → build_and_verify_index order roots ≡ Result.ok m
      → Reaches roots c
      → Memᴰ r (references c)
      → (i j : ℕ) × (index_of (numbering m) (cell_hash c) ≡ some i)
        × (index_of (numbering m) (cell_hash r) ≡ some j)
        × (i < j)
  references_after order m c r built p edge =
      let (m', built', ix') = build_and_verify_index_ends roots distinct order in
      let ix = subst (Index roots) (same_result (sym built' ∙ built)) ix' in
      let (front, e, back, s, same, at) = position roots distinct m c ix p in
      let (front', g, back', s', same', at') = position roots distinct m r ix (down p edge) in
      let edge' = subst (λ (t : Cell). Memᴰ r (references t)) (sym same) edge in
      let (mid, fe, be) =
        reference_behind roots distinct m front back front' back' e g r ix s s' edge' same' in
      (
        length front,
        length front',
        at,
        at',
        omega (arith, ap length fe, length-append front (e ∷ mid)),
      )
    where
      same_result : {x y : List Indexed} → Result.ok x ≡ Result.ok y → x ≡ y
      same_result e = cc
