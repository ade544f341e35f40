-- ===== src/BagOfCells/Positions.antt =====
-- Positions in the list of cells that the loop of `BagOfCells::parse` in src/cell/bag_of_cells.rs
-- fills from its end.
use tonlib_rs.Prelude.{
  ℕ, suc, ◌+◌, ◌-◌, ◌<◌, ◌≡◌, refl, sym, ap, ◌∙◌, List, [], ◌∷◌, ◌++◌, append_assoc, some, arith,
  length, length-append, length-map, lt→ltb, get_elem?, get_elem?-append_length,
}
use mathlib.Core.List.{reverse, reverse-cons, reverse-append}
use tonlib_rs.Prelude.Outcome.{Result, index}
use tonlib_rs.BagOfCells.{cell_at}
use tonlib_rs.BagOfCells.Index.{Indexed, cells_of}

length-reverse {ℓ} : {A : Type ℓ} (xs : List A) → length (reverse xs) ≡ length xs
length-reverse [] = refl
length-reverse (x ∷ xs) =
    ap length (reverse-cons x xs)
    ∙ omega (arith, length-append (reverse xs) (x ∷ []), length-reverse xs)

get_reverse {ℓ} :
    {A : Type ℓ} (xs ys : List A) (r : A)
    → get_elem? (reverse (xs ++ (r ∷ ys))) (length ys) ≡ some r
get_reverse xs ys r =
    ap (λ t. get_elem? t (length ys))
      (reverse-append xs (r ∷ ys)
        ∙ ap (λ t. t ++ reverse xs) (reverse-cons r ys)
        ∙ append_assoc (reverse ys) (r ∷ []) (reverse xs))
    ∙ ap (get_elem? (reverse ys ++ (r ∷ reverse xs))) (sym (length-reverse ys))
    ∙ get_elem?-append_length (reverse ys) r (reverse xs)

cells_of-append : (m n : List Indexed) → cells_of (m ++ n) ≡ cells_of m ++ cells_of n
cells_of-append [] n = refl
cells_of-append (e ∷ m) n = ap (λ t. e.cell ∷ t) (cells_of-append m n)

-- The cell that the loop finds at a position of the list read from its end.
pub cell_at_position :
    (mid back' : List Indexed) (g : Indexed) (num p : ℕ)
    → p < num
    → num - 1 - p ≡ length back'
    → cell_at num (reverse (cells_of (mid ++ (g ∷ back')))) p ≡ Result.ok g.cell
unfolding cell_at
cell_at_position mid back' g num p h e =
    let at =
      ap (λ t. get_elem? (reverse t) (num - 1 - p)) (cells_of-append mid (g ∷ back'))
      ∙ ap (get_elem? (reverse (cells_of mid ++ (g.cell ∷ cells_of back'))))
          (e ∙ sym (length-map (λ (t : Indexed). t.cell) back'))
      ∙ get_reverse (cells_of mid) (cells_of back') g.cell in
    rw (lt→ltb p num h) (ap index at)

pub in_range : (n a b : ℕ) → n ≡ a + suc b → a < n
in_range n a b e = omega (arith, e)

pub from_end : (n a b : ℕ) → n ≡ a + suc b → n - 1 - a ≡ b
from_end n a b e = omega (arith, e)
