-- ===== src/BagOfCells/Rebuild.antt =====
-- The loop of `BagOfCells::parse` in src/cell/bag_of_cells.rs gives back the cells that
-- `convert_to_raw_boc` of src/cell/raw_boc_from_boc.rs numbered.
use tonlib_rs.Prelude.{
  All, ◌^◌, ◌/◌, ◌%◌, ◌*◌, ◌≢◌, suc, ◌+◌, ◌-◌, ◌≤◌, ◌<◌, ℕ, ◌≡◌, refl, sym, ap, ◌∙◌, List, [], ◌∷◌,
  ◌++◌, append_assoc, some, arith, subst, length, length-append, lt→leb,
}
use mathlib.Core.List.{Memᴰ, reverse, reverse-cons}
use mathlib.Core.List.Memᴰ
use tonlib_rs.Prelude.Outcome.{Result}
use tonlib_rs.Libs.{Libs}
use tonlib_rs.Prelude.Bits.{IsByte}
use tonlib_rs.Prelude.Words.{bit_and_mask}
use tonlib_rs.RawBoc.Cells.{IsRawCell}
use tonlib_rs.Cell.{Cell, cell_hash, references, data_of, bit_len, is_exotic, get_level_mask}
use tonlib_rs.Cell.New
use tonlib_rs.RawBoc
use tonlib_rs.RawBoc.{RawCell, RawBagOfCells}
use tonlib_rs.BagOfCells.{BagOfCells, cell_at, take_references, at_roots, parse_cells, from_raw}
use tonlib_rs.BagOfCells.Index.{
  Indexed, Iteration, index_of, cells_of, sort, renumber, indices, raw_cell_from_cell,
  raw_cells_from_cells, convert_to_raw_boc,
}
use tonlib_rs.BagOfCells.Positions.{cell_at_position, in_range, from_end}
use tonlib_rs.BagOfCells.Sort.{cells_of-renumber, mem-sort}
use tonlib_rs.BagOfCells.Numbered.{
  Reaches, top, down, Distinct, Index, build_and_verify_index_ends, position, reference_behind,
}

-- Cell::new makes the cell out of its own parts.
abbrev pub Made : Libs → Cell → Type 0
Made libs c = New.new libs (data_of c) (bit_len c) (references c) (is_exotic c) ≡ Result.ok c

-- A cell with at most 1023 bits in just the bytes that they need, zeros behind them, and at most
-- four references.
pub record IsProper (c : Cell) : Type 0 where
  pub bytes : All IsByte (data_of c)
  pub data_length : length (data_of c) ≡ (bit_len c + 7) / 8
  pub bits_bound : bit_len c ≤ 1023
  pub padding :
      (front : List ℕ) (b : ℕ)
      → bit_len c % 8 ≢ 0
      → data_of c ≡ front ++ (b ∷ [])
      → b % 2 ^ (8 - bit_len c % 8) ≡ 0
  pub references_bound : length (references c) ≤ 4

pub All-lt : (a b : ℕ) (is : List ℕ) → a < b → All (λ i. i < a) is → All (λ i. i < b) is
All-lt a b [] h all = tt
All-lt a b (i ∷ is) h all = (let x = all.0 in omega (arith, x), All-lt a b is h all.1)

module _ (libs : Libs) (roots : List Cell) (distinct : Distinct roots)
    (made : (c : Cell) → Reaches roots c → Made libs c) (m : List Indexed)
    (ix : Index roots m) where
  abbrev numbered : List Indexed
  numbered = renumber 0 (sort m)

  abbrev total : ℕ
  total = length (sort m)

  -- The numbers of the references of a cell, and what the loop makes of them.
  record Linked (front back : List Indexed) (rs : List Cell) : Type 0 where
    is : List ℕ
    indices_eq : indices numbered rs ≡ Result.ok is
    taken : take_references total (length front) (reverse (cells_of back)) is ≡ Result.ok rs
    count : length is ≡ length rs
    below : All (λ i. i < total) is

  Linked-cons :
      (front back : List Indexed) (r : Cell) (rs : List Cell) (p : ℕ)
      → index_of numbered (cell_hash r) ≡ some p
      → length front < p
      → p < total
      → cell_at total (reverse (cells_of back)) p ≡ Result.ok r
      → Linked front back rs
      → Linked front back (r ∷ rs)
  unfolding indices take_references
  Linked-cons front back r rs p found behind low at rest = record {
    is = p ∷ rest.is;
    indices_eq = rw (found, rest.indices_eq) refl;
    taken = rw (lt→leb p (length front) behind, at, rest.taken) refl;
    count = ap suc rest.count;
    below = (low, rest.below);
  }

  linked :
      (front back : List Indexed) (e : Indexed) (rs : List Cell)
      → sort m ≡ front ++ (e ∷ back)
      → ((r : Cell) → Memᴰ r rs → Memᴰ r (references e.cell))
      → Reaches roots e.cell
      → Linked front back rs
  linked front back e [] s sub re = record {
    is = [];
    indices_eq = unfold indices in refl;
    taken = unfold take_references in refl;
    count = refl;
    below = tt;
  }
  linked front back e (r ∷ rs) s sub re =
      let edge = sub r (Memᴰ.head refl) in
      let (front', g, back', s', same, found) = position roots distinct m r ix (down re edge) in
      let (mid, fe, be) =
        reference_behind roots distinct m front back front' back' e g r ix s s' edge same in
      let size : length (sort m) ≡ length front' + suc (length back') =
        ap length s' ∙ length-append front' (g ∷ back') in
      let after : length front' ≡ length front + suc (length mid) =
        ap length fe ∙ length-append front (e ∷ mid) in
      let at =
        cell_at_position mid back' g total (length front')
          (in_range total (length front') (length back') size)
          (from_end total (length front') (length back') size) in
      let at' =
        ap (λ t. cell_at total (reverse (cells_of t)) (length front')) be
        ∙ at
        ∙ ap Result.ok same in
      Linked-cons front back r rs (length front') found (omega (arith, after))
        (in_range total (length front') (length back') size) at'
        (linked front back e rs s (λ q mem. sub q (Memᴰ.tail mem)) re)

  -- The cells from a position on, as raw cells and read back.
  record Suffix (front back : List Indexed) : Type 0 where
    raws : List RawCell
    raws_eq : raw_cells_from_cells numbered (cells_of back) ≡ Result.ok raws
    size : length raws ≡ length back
    proper :
        (bytes : ℕ)
        → total < 2 ^ (8 * bytes)
        → ((c : Cell) → Reaches roots c → IsProper c)
        → All (IsRawCell bytes) raws
    parsed : parse_cells libs total (length front) raws ≡ Result.ok (reverse (cells_of back))

  abbrev raw_of : Cell → List ℕ → RawCell
  raw_of c is = RawBoc.new (data_of c) (bit_len c) is (get_level_mask c) (is_exotic c)

  raw_of-IsRawCell :
      (bytes : ℕ) (c : Cell) (is : List ℕ)
      → length is ≡ length (references c)
      → All (λ i. i < 2 ^ (8 * bytes)) is
      → IsProper c
      → IsRawCell bytes (raw_of c is)
  unfolding RawBoc.new
  raw_of-IsRawCell bytes c is count fit h = record {
    bytes = h.bytes;
    data_length = h.data_length;
    bits_bound = h.bits_bound;
    padding = h.padding;
    references_bound = omega (arith, count, h.references_bound);
    references_fit = fit;
    mask_bound = omega (arith, bit_and_mask 3 (get_level_mask c));
  }

  raw_step :
      (c : Cell) (cs : List Cell) (is : List ℕ) (raws : List RawCell)
      → indices numbered (references c) ≡ Result.ok is
      → raw_cells_from_cells numbered cs ≡ Result.ok raws
      → raw_cells_from_cells numbered (c ∷ cs) ≡ Result.ok (raw_of c is ∷ raws)
  unfolding raw_cells_from_cells raw_cell_from_cell
  raw_step c cs is raws p q = rw (p, q) refl

  parse_step :
      (i : ℕ) (c : Cell) (cs : List Cell) (is : List ℕ) (raws : List RawCell)
      → parse_cells libs total (suc i) raws ≡ Result.ok (reverse cs)
      → take_references total i (reverse cs) is ≡ Result.ok (references c)
      → Made libs c
      → parse_cells libs total i (raw_of c is ∷ raws) ≡ Result.ok (reverse (c ∷ cs))
  unfolding parse_cells RawBoc.new
  parse_step i c cs is raws p q made' =
      rw p (rw q (rw made' (ap Result.ok (sym (reverse-cons c cs)))))

  suffix : (front back : List Indexed) → sort m ≡ front ++ back → Suffix front back
  suffix front [] s = record {
    raws = [];
    raws_eq = unfold raw_cells_from_cells in refl;
    size = refl;
    proper = λ bytes low h. tt;
    parsed = unfold parse_cells in refl;
  }
  suffix front (e ∷ back) s =
      let em = mem-sort e m (subst (Memᴰ e) (sym s) (Memᴰ.append_right front (Memᴰ.head refl))) in
      let re = ix.family e em in
      let rest = suffix (front ++ (e ∷ [])) back (s ∙ sym (append_assoc front (e ∷ []) back)) in
      let next : length (front ++ (e ∷ [])) ≡ suc (length front) =
        omega (arith, length-append front (e ∷ [])) in
      let refs = linked front back e (references e.cell) s (λ r mem. mem) re in
      record {
        raws = raw_of e.cell refs.is ∷ rest.raws;
        raws_eq = raw_step e.cell (cells_of back) refs.is rest.raws refs.indices_eq rest.raws_eq;
        size = ap suc rest.size;
        proper = λ bytes low h. (
          raw_of-IsRawCell bytes e.cell refs.is refs.count
              (All-lt total (2 ^ (8 * bytes)) refs.is low refs.below) (h e.cell re),
          rest.proper bytes low h,
        );
        parsed =
            parse_step (length front) e.cell (cells_of back) refs.is rest.raws
              (ap (λ t. parse_cells libs total t rest.raws) (sym next) ∙ rest.parsed) refs.taken
              (made e.cell re);
      }

  -- The numbers of the roots, and the roots found at them.
  record Rooted (rs : List Cell) : Type 0 where
    is : List ℕ
    indices_eq : indices numbered rs ≡ Result.ok is
    taken : at_roots total (reverse (cells_of (sort m))) is ≡ Result.ok rs
    count : length is ≡ length rs
    below : All (λ i. i < total) is

  Rooted-cons :
      (r : Cell) (rs : List Cell) (p : ℕ)
      → index_of numbered (cell_hash r) ≡ some p
      → p < total
      → cell_at total (reverse (cells_of (sort m))) p ≡ Result.ok r
      → Rooted rs
      → Rooted (r ∷ rs)
  unfolding indices at_roots
  Rooted-cons r rs p found low at rest = record {
    is = p ∷ rest.is;
    indices_eq = rw (found, rest.indices_eq) refl;
    taken = rw (at, rest.taken) refl;
    count = ap suc rest.count;
    below = (low, rest.below);
  }

  rooted : (rs : List Cell) → ((r : Cell) → Memᴰ r rs → Reaches roots r) → Rooted rs
  rooted [] sub = record {
    is = [];
    indices_eq = unfold indices in refl;
    taken = unfold at_roots in refl;
    count = refl;
    below = tt;
  }
  rooted (r ∷ rs) sub =
      let (front, g, back, s, same, found) =
        position roots distinct m r ix (sub r (Memᴰ.head refl)) in
      let size : length (sort m) ≡ length front + suc (length back) =
        ap length s ∙ length-append front (g ∷ back) in
      let at =
        cell_at_position front back g total (length front)
          (in_range total (length front) (length back) size)
          (from_end total (length front) (length back) size) in
      let at' =
        ap (λ t. cell_at total (reverse (cells_of t)) (length front)) s ∙ at ∙ ap Result.ok same in
      Rooted-cons r rs (length front) found (in_range total (length front) (length back) size) at'
        (rooted rs (λ q mem. sub q (Memᴰ.tail mem)))

  -- The raw bag of the index, and what `parse` makes of it.
  pub record Rebuilt : Type 0 where
    pub raws : List RawCell
    pub root_indices : List ℕ
    pub raws_eq : raw_cells_from_cells numbered (cells_of numbered) ≡ Result.ok raws
    pub roots_eq : indices numbered roots ≡ Result.ok root_indices
    pub raws_count : length raws ≡ total
    pub roots_count : length root_indices ≡ length roots
    pub roots_below : All (λ i. i < total) root_indices
    pub proper :
        (bytes : ℕ)
        → total < 2 ^ (8 * bytes)
        → ((c : Cell) → Reaches roots c → IsProper c)
        → All (IsRawCell bytes) raws
    pub back_eq :
        from_raw libs (record { cells = raws; roots = root_indices })
        ≡ Result.ok (record { roots = roots })

  from_raw_step :
      (raws : List RawCell) (is : List ℕ)
      → length raws ≡ total
      → parse_cells libs total 0 raws ≡ Result.ok (reverse (cells_of (sort m)))
      → at_roots total (reverse (cells_of (sort m))) is ≡ Result.ok roots
      → from_raw libs (record { cells = raws; roots = is }) ≡ Result.ok (record { roots = roots })
  unfolding from_raw
  from_raw_step raws is e p q = rw e (rw p (rw q refl))

  pub rebuilt : Rebuilt
  rebuilt =
      let all = suffix [] (sort m) refl in
      let tops = rooted roots (λ r mem. top mem) in
      record {
        raws = all.raws;
        root_indices = tops.is;
        raws_eq = ap (raw_cells_from_cells numbered) (cells_of-renumber 0 (sort m)) ∙ all.raws_eq;
        roots_eq = tops.indices_eq;
        raws_count = all.size;
        roots_count = tops.count;
        roots_below = tops.below;
        proper = all.proper;
        back_eq = from_raw_step all.raws tops.is all.size all.parsed tops.taken;
      }

module _ (libs : Libs) (order : Iteration) (boc : BagOfCells) where
  -- For cells that `Cell::new` made, with no two different ones of the same hash, the cells that
  -- the roots reach are numbered, both loops end, and the loop of `parse` gives the bag back.
  pub from_raw-convert_to_raw_boc :
      Distinct boc.roots
      → ((c : Cell) → Reaches boc.roots c → Made libs c)
      → (raw : RawBagOfCells) × (convert_to_raw_boc order boc ≡ Result.ok raw)
        × (from_raw libs raw ≡ Result.ok boc)
  unfolding convert_to_raw_boc
  from_raw-convert_to_raw_boc distinct made =
      let (m, e, ix) = build_and_verify_index_ends boc.roots distinct order in
      let r = rebuilt libs boc.roots distinct made m ix in
      (
        record { cells = r.raws; roots = r.root_indices },
        rw e (rw r.raws_eq (rw r.roots_eq refl)),
        r.back_eq,
      )
