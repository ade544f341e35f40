-- ===== src/Cell/Trees.antt =====
-- Trees of ordinary cells, each made by `Cell::new` of src/cell.rs from the cells below it.
use tonlib_rs.Prelude.{
  ℕ, zero, suc, max, ◌+◌, ◌/◌, ◌^◌, ◌<◌, ◌≤◌, ◌≡◌, refl, ap, ◌∙◌, List, [], ◌∷◌, false, length, All,
  min, arith, subst, sym,
}
use tonlib_rs.Prelude.Bits.{IsByte}
use tonlib_rs.Prelude.Outcome.{Result, ok, bind}
use tonlib_rs.Libs.{Libs}
use tonlib_rs.Cell.{
  Cell, ordinary, levels, at_level, get_depth, data_of, bit_len, references, to_list, of_list,
}
use tonlib_rs.Cell.New.{new, depth_at}
use tonlib_rs.Cell.Ordinary.{IsPlain, plain_cell, new-plain_cell, plain_cell-IsPlain}
use tonlib_rs.Cell.Heights.{seen_level, greatest, height, depth_at-height}

-- A list of trees: the first one has data, a number of bits and the trees of its references.
pub data Forest : Type 0 where
  leaf : Forest
  node : (content : List ℕ) (size : ℕ) (below next : Forest) → Forest

-- The data is of just the bytes that the bits need.
abbrev pub IsForest : Forest → Type 0
IsForest leaf = Unit {0}
IsForest (node bs n below next) =
    All IsByte bs × (length bs ≡ (n + 7) / 8) × IsForest below × IsForest next

-- The number of cells on the longest way down.
unfoldable pub layers : Forest → ℕ
layers leaf = 0
layers (node bs n below next) = max (suc (layers below)) (layers next)

-- The cells of the roots and, below them, of their references: each has the data and the bits of its
-- tree, level 0, and as the depth at every level the number of cells on the longest way down.
abbrev pub Stands : Forest → List Cell → Type 0
Stands leaf [] = Unit {0}
Stands leaf (c ∷ cs) = ⊥
Stands (node bs n below next) [] = ⊥
Stands (node bs n below next) (c ∷ cs) =
    IsPlain c
    × ((level : ℕ) → get_depth c level ≡ layers below)
    × (data_of c ≡ bs)
    × (bit_len c ≡ n)
    × Stands below (references c)
    × Stands next cs

next_of :
    (bs : List ℕ) (n : ℕ) (below next : Forest) (c : Cell) (cs : List Cell)
    → Stands (node bs n below next) (c ∷ cs)
    → Stands next cs
next_of bs n below next c cs (plain, depths, data_eq, bits_eq, refs, rest) = rest

Stands-IsPlain : (f : Forest) (cs : List Cell) → Stands f cs → All IsPlain cs
Stands-IsPlain leaf [] h = tt
Stands-IsPlain leaf (c ∷ cs) h = elim h [ ]
Stands-IsPlain (node bs n below next) [] h = elim h [ ]
Stands-IsPlain (node bs n below next) (c ∷ cs) h =
    (h.0, Stands-IsPlain next cs (next_of bs n below next c cs h))

Stands-depths :
    (f : Forest) (cs : List Cell)
    → Stands f cs
    → layers f < 2 ^ 16
    → All (λ c. get_depth c (seen_level ordinary 0) + 1 < 2 ^ 16) cs
unfolding layers seen_level
Stands-depths leaf [] h few = tt
Stands-depths leaf (c ∷ cs) h few = elim h [ ]
Stands-depths (node bs n below next) [] h few = elim h [ ]
Stands-depths (node bs n below next) (c ∷ cs) h few =
    let d = (h.1) 0 in
    (
      ground (arith, d, few),
      Stands-depths next cs (next_of bs n below next c cs h) (ground (arith, few)),
    )

greatest-height : (cs : List Cell) (d : ℕ) → max d (greatest 0 cs) + 1 ≡ max (suc d) (height 0 cs)
unfolding height greatest
greatest-height [] d = ground arith
greatest-height (c ∷ cs) d = ground arith

Stands-height : (f : Forest) (cs : List Cell) → Stands f cs → height 0 cs ≡ layers f
unfolding layers height
Stands-height leaf [] h = refl
Stands-height leaf (c ∷ cs) h = elim h [ ]
Stands-height (node bs n below next) [] h = elim h [ ]
Stands-height (node bs n below next) (c ∷ cs) h =
    unfold greatest in
    rw
      (
        h.1 0,
        greatest-height cs (layers below),
        Stands-height next cs (next_of bs n below next c cs h),
      )
      refl

pub to_list-of_list : (cs : List Cell) → to_list (of_list cs) ≡ cs
unfolding to_list of_list
to_list-of_list [] = refl
to_list-of_list (c ∷ cs) = ap (λ t. c ∷ t) (to_list-of_list cs)

same_levels : (d k : ℕ) → at_level (levels d d d d) k ≡ d
unfolding at_level
same_levels d zero = refl
same_levels d (suc zero) = refl
same_levels d (suc (suc zero)) = refl
same_levels d (suc (suc (suc k))) = refl

module _ (libs : Libs) where
  get_depth-plain_cell :
      (bs : List ℕ) (n : ℕ) (refs : List Cell) (level : ℕ)
      → get_depth (plain_cell libs bs n refs) level ≡ depth_at ordinary 0 refs
  unfolding get_depth plain_cell
  get_depth-plain_cell bs n refs level = same_levels (depth_at ordinary 0 refs) (min level 3)

  data_of-plain_cell :
      (bs : List ℕ) (n : ℕ) (refs : List Cell) → data_of (plain_cell libs bs n refs) ≡ bs
  unfolding data_of plain_cell
  data_of-plain_cell bs n refs = refl

  bit_len-plain_cell :
      (bs : List ℕ) (n : ℕ) (refs : List Cell) → bit_len (plain_cell libs bs n refs) ≡ n
  unfolding bit_len plain_cell
  bit_len-plain_cell bs n refs = refl

  references-plain_cell :
      (bs : List ℕ) (n : ℕ) (refs : List Cell) → references (plain_cell libs bs n refs) ≡ refs
  unfolding references plain_cell
  references-plain_cell bs n refs = to_list-of_list refs

  -- Every cell is made after the cells below it.
  unfoldable pub grow : Forest → Result (List Cell)
  grow leaf = ok []
  grow (node bs n below next) =
      bind (grow below)
        λ refs. bind (new libs bs n refs false) λ c. bind (grow next) λ cs. ok (c ∷ cs)

  -- `Cell::new`, called for the cells of trees from the bottom up, succeeds for each of them, for
  -- data of just the bytes that the bits need and at most 2^16 layers. The cells have the data, the
  -- bits and the references of their trees, are of level 0, with a hash of 32 bytes, and their depth
  -- at every level is the number of cells on the longest way down.
  pub grow-Stands :
      (f : Forest)
      → IsForest f
      → layers f ≤ 2 ^ 16
      → (cs : List Cell) × (grow f ≡ ok cs) × Stands f cs
  unfolding grow layers seen_level
  grow-Stands leaf h few = ([], refl, tt)
  grow-Stands (node bs n below next) h few =
      let (bytes, len, hb, hn) = h in
      let below_few : layers below < 2 ^ 16 = ground (arith, few) in
      let next_few : layers next ≤ 2 ^ 16 = ground (arith, few) in
      let (refs, e, stands) = grow-Stands below hb (omega (arith, below_few)) in
      let (cs, en, rest) = grow-Stands next hn next_few in
      let c = plain_cell libs bs n refs in
      let made = new-plain_cell libs bs n refs bytes len (Stands-IsPlain below refs stands) in
      let depth =
        depth_at-height ordinary 0 refs (Stands-depths below refs stands below_few)
        ∙ Stands-height below refs stands in
      (
        c ∷ cs,
        rw (e, made, en) refl,
        (
          plain_cell-IsPlain libs bs n refs,
          (λ level. get_depth-plain_cell bs n refs level ∙ depth),
          data_of-plain_cell bs n refs,
          bit_len-plain_cell bs n refs,
          subst (Stands below) (sym (references-plain_cell bs n refs)) stands,
          rest,
        ),
      )
