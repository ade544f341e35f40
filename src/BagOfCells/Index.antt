-- ===== src/BagOfCells/Index.antt =====
-- src/cell/raw_boc_from_boc.rs: the numbering of the cells of a bag, and `BagOfCells::serialize`.
use tonlib_rs.Prelude.{
  ℕ, zero, suc, ◌+◌, max, List, [], ◌∷◌, ◌++◌, map, Bool, true, false, ltb, leb, if◌then◌else◌,
  Option, none, some, ◌≡◌, ◌↔◌, length,
}
use mathlib.Core.List.{Memᴰ}
use tonlib_rs.Prelude.Outcome.{boc_serialization_error, Result, ok, err, panic, bind}
use tonlib_rs.Libs.{Libs}
use tonlib_rs.Cell.{
  Cell, cell, Refs, nil, cons, TonHash, cell_hash, references, data_of, bit_len, get_level_mask,
  is_exotic,
}
use tonlib_rs.CellType.{bytes_eq}
use tonlib_rs.RawBoc
use tonlib_rs.RawBoc.{RawCell, RawBagOfCells}
use tonlib_rs.BagOfCells.{BagOfCells}

-- `IndexedCell`, with the hash of its cell for a key
pub record Indexed : Type 0 where
  pub cell : Cell
  pub index : ℕ

-- `HashMap<TonHash, RefCell<IndexedCell>>` is the list of its entries. The order in which
-- `values()` visits them is not specified; it is a parameter.
pub record Iteration : Type 0 where
  pub values : List Indexed → List Indexed
  pub mem-values : (m : List Indexed) (e : Indexed) → Memᴰ e (values m) ↔ Memᴰ e m
  pub length-values : (m : List Indexed) → length (values m) ≡ length m

-- `cells_by_hash.get(&hash).map(|c| c.borrow().index)`
unfoldable pub index_of : List Indexed → TonHash → Option ℕ
unfolding cell_hash
index_of [] h = none
index_of (e ∷ m) h =
    let rest = index_of m h in if bytes_eq (cell_hash e.cell) h then some e.index else rest

abbrev is_some : Option ℕ → Bool
is_some (some i) = true
is_some none = false

unfoldable pub contains_key : List Indexed → TonHash → Bool
unfolding index_of
contains_key m h = is_some (index_of m h)

-- `cells_by_hash.get(&hash)`, and `borrow_mut().index = index`; the keys are distinct.
unfoldable pub set_index : List Indexed → TonHash → ℕ → List Indexed
unfolding cell_hash
set_index [] h i = []
set_index (e ∷ m) h i =
    (if bytes_eq (cell_hash e.cell) h then record { cell = e.cell; index = i } else e)
    ∷ set_index m h i

-- The loop over `current_cells`; `next_cells` grows at its end.
unfoldable pub visit : List Cell → List Indexed → ℕ → List Cell → List Indexed × ℕ × List Cell
unfolding contains_key references
visit [] m next next_cells = (m, next, next_cells)
visit (c ∷ cs) m next next_cells =
    let skipped = visit cs m next next_cells in
    let added =
      visit cs (m ++ (record { cell = c; index = next } ∷ [])) (next + 1)
        (next_cells ++ references c) in
    if contains_key m (cell_hash c) then skipped else added

-- `while !current_cells.is_empty()`
unfoldable pub levels : ℕ → List Cell → List Indexed → ℕ → Option (List Indexed × ℕ)
unfolding visit
levels fuel [] m next = some (m, next)
levels zero (c ∷ cs) m next = none
levels (suc fuel) (c ∷ cs) m next =
    let (m', next', next_cells) = visit (c ∷ cs) m next [] in levels fuel next_cells m' next'

-- The variables of the loop `while verify_order`
pub record Order : Type 0 where
  pub entries : List Indexed
  pub next : ℕ
  pub changed : Bool

-- `if id_ref.index < index_cell.index`
unfoldable pub raise : Option ℕ → Option ℕ → TonHash → Order → Order
unfolding set_index
raise (some i) (some j) h s =
    if ltb j i
    then record { entries = set_index s.entries h s.next; next = s.next + 1; changed = true }
    else s
raise _ _ h s = s

unfoldable pub check_reference : Cell → Cell → Order → Order
unfolding raise index_of
check_reference c r s =
    raise (index_of s.entries (cell_hash c)) (index_of s.entries (cell_hash r)) (cell_hash r) s

unfoldable pub check_references : Cell → List Cell → Order → Order
unfolding check_reference
check_references c [] s = s
check_references c (r ∷ rs) s = check_references c rs (check_reference c r s)

unfoldable pub check_cells : List Cell → Order → Order
unfolding check_references references
check_cells [] s = s
check_cells (c ∷ cs) s = check_cells cs (check_references c (references c) s)

abbrev pub cells_of : List Indexed → List Cell
cells_of m = map (λ (e : Indexed). e.cell) m

-- `while verify_order`
unfoldable pub verify : ℕ → List Indexed → ℕ → Option (List Indexed)
unfolding check_cells
verify zero m next = none
verify (suc fuel) m next =
    let s = check_cells (cells_of m) (record { entries = m; next = next; changed = false }) in
    let again = verify fuel s.entries s.next in if s.changed then again else some s.entries

-- `index_slice.sort_unstable_by(index)`; the indices are distinct.
unfoldable pub insert_sorted : Indexed → List Indexed → List Indexed
insert_sorted e [] = e ∷ []
insert_sorted e (f ∷ m) =
    let rest = insert_sorted e m in if leb e.index f.index then e ∷ f ∷ m else f ∷ rest

unfoldable pub sort : List Indexed → List Indexed
unfolding insert_sorted
sort [] = []
sort (e ∷ m) = insert_sorted e (sort m)

-- The loop that removes gaps: the entries get their positions.
unfoldable pub renumber : ℕ → List Indexed → List Indexed
renumber i [] = []
renumber i (e ∷ m) = record { cell = e.cell; index = i } ∷ renumber (i + 1) m

or_missing : Option ℕ → Result ℕ
or_missing (some i) = ok i
or_missing none = err boc_serialization_error

-- `root_indices`, and `raw_cell_reference_indices` of the references of a cell
unfoldable pub indices : List Indexed → List Cell → Result (List ℕ)
unfolding or_missing index_of
indices m [] = ok []
indices m (c ∷ cs) =
    bind (or_missing (index_of m (cell_hash c))) λ i. bind (indices m cs) λ is. ok (i ∷ is)

unfoldable pub raw_cell_from_cell : List Indexed → Cell → Result RawCell
unfolding indices references data_of bit_len get_level_mask is_exotic RawBoc.new
raw_cell_from_cell m c =
    bind (indices m (references c))
      λ is. ok (RawBoc.new (data_of c) (bit_len c) is (get_level_mask c) (is_exotic c))

unfoldable pub raw_cells_from_cells : List Indexed → List Cell → Result (List RawCell)
unfolding raw_cell_from_cell
raw_cells_from_cells m [] = ok []
raw_cells_from_cells m (c ∷ cs) =
    bind (raw_cell_from_cell m c) λ raw. bind (raw_cells_from_cells m cs) λ raws. ok (raw ∷ raws)

-- The length of the longest chain of references, for the fuel of the loops.
unfoldable mutual
  pub height : Cell → ℕ
  height (cell d n rs t m h p) = suc (tallest_ref rs)

  pub tallest_ref : Refs → ℕ
  tallest_ref nil = 0
  tallest_ref (cons c rs) = max (height c) (tallest_ref rs)

unfoldable pub tallest : List Cell → ℕ
unfolding height
tallest [] = 0
tallest (c ∷ cs) = max (height c) (tallest cs)

-- What comes of a loop on fuel; the fuel is enough, so there is no `panic`.
abbrev pub fueled {ℓ} : {A : Type ℓ} → Option A → Result A
fueled (some a) = ok a
fueled none = panic

module _ (order : Iteration) where
  unfoldable pub build_and_verify_index : List Cell → Result (List Indexed)
  unfolding levels verify tallest
  build_and_verify_index roots =
      bind (fueled (levels (tallest roots) roots [] 0))
        λ r. fueled (verify (tallest roots + 2) (order.values r.0) r.1)

  unfoldable pub convert_to_raw_boc : BagOfCells → Result RawBagOfCells
  unfolding build_and_verify_index sort renumber raw_cells_from_cells indices
  convert_to_raw_boc boc = bind (build_and_verify_index boc.roots) λ m.
      let cells_by_hash = renumber 0 (sort m) in
      bind (raw_cells_from_cells cells_by_hash (cells_of cells_by_hash)) λ raws.
        bind (indices cells_by_hash boc.roots) λ roots. ok (record { cells = raws; roots = roots })

  -- `BagOfCells::serialize`
  unfoldable pub serialize : Libs → BagOfCells → Bool → Result (List ℕ)
  unfolding convert_to_raw_boc
  serialize libs boc has_crc32 =
      bind (convert_to_raw_boc boc) λ raw. RawBoc.serialize libs raw has_crc32
