-- ===== src/BagOfCells/Reached.antt =====
-- The first loop of src/cell/raw_boc_from_boc.rs ends, and every cell that the roots reach has an
-- entry.
use tonlib_rs.Prelude.{
  ℕ, zero, suc, ◌+◌, ◌≤◌, ◌<◌, ◌≡◌, refl, sym, ◌∙◌, List, [], ◌∷◌, ◌++◌, append-nil, none, some,
  Option-cases, inl, inr, arith, subst,
}
use mathlib.Core.List.{Memᴰ}
use mathlib.Core.List.Memᴰ
use tonlib_rs.Cell.{Cell, cell_hash, references}
use tonlib_rs.BagOfCells.Index.{Indexed, index_of, contains_key, visit, levels, height}
use tonlib_rs.BagOfCells.Order.{height-reference}
use tonlib_rs.BagOfCells.Levels.{Built, Built-skip, Built-add}

-- Either the hash has an entry and the visit goes on, or the cell is added.
visit_found :
    (c : Cell) (cs : List Cell) (m : List Indexed) (next i : ℕ) (out : List Cell)
    → index_of m (cell_hash c) ≡ some i
    → visit (c ∷ cs) m next out ≡ visit cs m next out
unfolding visit contains_key
visit_found c cs m next i out p = rw p refl

visit_gone :
    (c : Cell) (cs : List Cell) (m : List Indexed) (next : ℕ) (out : List Cell)
    → index_of m (cell_hash c) ≡ none
    → visit (c ∷ cs) m next out
      ≡ visit cs (m ++ (record { cell = c; index = next } ∷ [])) (next + 1) (out ++ references c)
unfolding visit contains_key
visit_gone c cs m next out p = rw p refl

levels_step :
    (fuel : ℕ) (c : Cell) (cs : List Cell) (m : List Indexed) (next : ℕ) (m' : List Indexed)
    (next' : ℕ) (out : List Cell)
    → visit (c ∷ cs) m next [] ≡ (m', next', out)
    → levels (suc fuel) (c ∷ cs) m next ≡ levels fuel out m' next'
unfolding levels
levels_step fuel c cs m next m' next' out p = rw (p, levels) refl

module _ (N : Cell → Type 0) (closed : (c r : Cell) → N c → Memᴰ r (references c) → N r)
    (roots : List Cell) where
  -- What a visit returns: the map, and cells of a height below `bound` that wait.
  record Visited (bound : ℕ) (r : List Indexed × ℕ × List Cell) : Type 0 where
    entries : List Indexed
    next : ℕ
    out : List Cell
    r_eq : r ≡ (entries, next, out)
    built : Built N closed roots entries next out
    low : (c : Cell) → Memᴰ c out → height c ≤ bound

  Visited-eq :
      (bound : ℕ) (r r' : List Indexed × ℕ × List Cell)
      → r' ≡ r
      → Visited bound r
      → Visited bound r'
  Visited-eq bound r r' e v = subst (Visited bound) (sym e) v

  visited :
      (bound : ℕ) (cs : List Cell) (m : List Indexed) (next : ℕ) (out : List Cell)
      → Built N closed roots m next (cs ++ out)
      → ((c : Cell) → Memᴰ c cs → height c ≤ suc bound)
      → ((c : Cell) → Memᴰ c out → height c ≤ bound)
      → Visited bound (visit cs m next out)
  visited bound [] m next out h hc ho =
      Visited-eq bound (m, next, out) _ (unfold visit in refl)
        (record { entries = m; next = next; out = out; r_eq = refl; built = h; low = ho })
  visited bound (c ∷ cs) m next out h hc ho = elim (Option-cases (index_of m (cell_hash c))) [
    | inr (i, p) ↦ Visited-eq bound _ _ (visit_found c cs m next i out p) (
        visited bound cs m next out (Built-skip N closed roots m next c cs out (i, p) h)
          (λ d mem. hc d (Memᴰ.tail mem)) ho)
    | inl p ↦ Visited-eq bound _ _ (visit_gone c cs m next out p) (
        visited bound cs _ (next + 1) (out ++ references c)
          (Built-add N closed roots m next c cs out p h) (λ d mem. hc d (Memᴰ.tail mem))
          (λ d mem. elim (Memᴰ.append_cases out mem) [
            | inl left ↦ ho d left
            | inr edge ↦ omega (arith, height-reference c d edge, hc c (Memᴰ.head refl))
          ]))
  ]

  height-pos : (c : Cell) → 0 < height c
  unfolding height
  height-pos (Cell.cell d n rs t m h p) = omega arith

  -- The loop ends: a level holds lower cells than the one before.
  pub levels_end :
      (fuel : ℕ) (cs : List Cell) (m : List Indexed) (next : ℕ)
      → Built N closed roots m next cs
      → ((c : Cell) → Memᴰ c cs → height c ≤ fuel)
      → (m' : List Indexed) × (next' : ℕ) × (levels fuel cs m next ≡ some (m', next'))
        × Built N closed roots m' next' []
  levels_end fuel [] m next h hc = (m, next, unfold levels in refl, h)
  levels_end zero (c ∷ cs) m next h hc = absurd (omega (arith, hc c (Memᴰ.head refl), height-pos c))
  levels_end (suc fuel) (c ∷ cs) m next h hc =
      let v =
        visited fuel (c ∷ cs) m next []
          (subst (Built N closed roots m next) (sym (append-nil (c ∷ cs))) h) hc
          (λ d mem. absurd (Memᴰ.not-nil mem)) in
      let (m', next', e, b) = levels_end fuel v.out v.entries v.next v.built v.low in
      (m', next', levels_step fuel c cs m next v.entries v.next v.out v.r_eq ∙ e, b)
