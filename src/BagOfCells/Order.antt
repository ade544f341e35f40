-- ===== src/BagOfCells/Order.antt =====
-- The loop `while verify_order` of src/cell/raw_boc_from_boc.rs: one comparison, and what it keeps.
use tonlib_rs.Prelude.{
  ℕ, suc, ◌+◌, ◌≤◌, ◌<◌, ◌≡◌, ◌≢◌, refl, sym, ap, ◌∙◌, List, true, false, Option, none, some,
  Bool-cases, Option-cases, inl, inr, arith, ltb, ltb→lt, ltb→ge, subst,
}
use mathlib.Core.List.{Memᴰ}
use mathlib.Core.List.Memᴰ
use tonlib_rs.Cell.{Cell, cell, Refs, nil, cons, to_list, TonHash, cell_hash, references}
use tonlib_rs.BagOfCells.Index.{
  Indexed, index_of, set_index, cells_of, Order, raise, check_reference, height, tallest_ref,
}
use tonlib_rs.BagOfCells.Entries.{
  some-injective, hash_cases, Keyed, Keyed-set_index, cells_of-set_index, index_of-set_same,
  index_of-set_other,
}

tallest_ref-mem : (rs : Refs) (r : Cell) → Memᴰ r (to_list rs) → height r ≤ tallest_ref rs
unfolding height to_list
tallest_ref-mem nil r m = absurd (Memᴰ.not-nil m)
tallest_ref-mem (cons c rs) r m = elim (Memᴰ.cases_cons m) [
  | inl e ↦ omega (arith, ap height e)
  | inr later ↦ omega (arith, tallest_ref-mem rs r later)
]

-- A reference is lower than the cell that holds it.
pub height-reference : (c r : Cell) → Memᴰ r (references c) → height r < height c
unfolding height references
height-reference (cell d n rs t m h p) r mem = omega (arith, tallest_ref-mem rs r mem)

-- The reference does not come before the cell.
abbrev pub Fine : List Indexed → Cell → Cell → Type 0
Fine m c r =
    (i j : ℕ) → index_of m (cell_hash c) ≡ some i → index_of m (cell_hash r) ≡ some j → i ≤ j

-- What every comparison keeps: the cells, a key for each entry, and distinct indices below `next`.
pub record Inv (cs : List Cell) (m : List Indexed) (next : ℕ) : Type 0 where
  pub cells_eq : cells_of m ≡ cs
  pub keyed : Keyed m
  pub bounded : (h : TonHash) (i : ℕ) → index_of m h ≡ some i → i < next
  pub apart : (h k : TonHash) (i : ℕ) → index_of m h ≡ some i → index_of m k ≡ some i → h ≡ k

abbrev pub raised : Cell → Order → Order
raised r s = record {
  entries = set_index s.entries (cell_hash r) s.next;
  next = s.next + 1;
  changed = true;
}

data Compared (c r : Cell) (s : Order) : Type 0 where
  left : check_reference c r s ≡ s → Fine s.entries c r → Compared c r s
  moved :
      (i j : ℕ)
      → index_of s.entries (cell_hash c) ≡ some i
      → index_of s.entries (cell_hash r) ≡ some j
      → j < i
      → check_reference c r s ≡ raised r s
      → Compared c r s

none-some : {i : ℕ} {o : Option ℕ} → o ≡ none → o ≡ some i → ⊥
none-some p q = cc

compared : (c r : Cell) (s : Order) → Compared c r s
unfolding check_reference raise
compared c r s = elim (Option-cases (index_of s.entries (cell_hash c))) [
  | inl gone ↦ left (rw gone refl) (λ i j p q. absurd (none-some gone p))
  | inr (i, hi) ↦ elim (Option-cases (index_of s.entries (cell_hash r))) [
    | inl gone ↦ left (rw (hi, gone) refl) (λ a b p q. absurd (none-some gone q))
    | inr (j, hj) ↦ elim (Bool-cases (ltb j i)) [
      | inl lower ↦ moved i j hi hj (ltb→lt j i lower) (rw (hi, hj, lower) refl)
      | inr fine ↦ left (rw (hi, hj, fine) refl) (λ a b p q.
          omega (arith, some-injective (sym hi ∙ p), some-injective (sym hj ∙ q), ltb→ge j i fine))
    ]
  ]
]

Inv-raised :
    (cs : List Cell) (r : Cell) (s : Order) (j : ℕ)
    → index_of s.entries (cell_hash r) ≡ some j
    → Inv cs s.entries s.next
    → Inv cs (set_index s.entries (cell_hash r) s.next) (s.next + 1)
Inv-raised cs r s j hj inv = record {
  cells_eq = cells_of-set_index s.entries (cell_hash r) s.next ∙ inv.cells_eq;
  keyed = Keyed-set_index s.entries (cell_hash r) s.next inv.keyed;
  bounded = λ h i p. elim (hash_cases h (cell_hash r)) [
    | inl e ↦ omega (arith, some-injective (sym p ∙ at_r h e))
    | inr e ↦ omega (arith, inv.bounded h i (sym (at_other h e) ∙ p))
  ];
  apart = λ h k i p q. elim (hash_cases h (cell_hash r)) [
    | inl e ↦ elim (hash_cases k (cell_hash r)) [
      | inl f ↦ e ∙ sym f
      | inr f ↦ absurd (
          omega
            (arith, some-injective (sym p ∙ at_r h e), inv.bounded k i (sym (at_other k f) ∙ q)))
    ]
    | inr e ↦ elim (hash_cases k (cell_hash r)) [
      | inl f ↦ absurd (
          omega
            (arith, some-injective (sym q ∙ at_r k f), inv.bounded h i (sym (at_other h e) ∙ p)))
      | inr f ↦ inv.apart h k i (sym (at_other h e) ∙ p) (sym (at_other k f) ∙ q)
    ]
  ];
}
  where
    after : List Indexed
    after = set_index s.entries (cell_hash r) s.next

    at_r : (h : TonHash) → h ≡ cell_hash r → index_of after h ≡ some s.next
    at_r h e = ap (index_of after) e ∙ index_of-set_same s.entries (cell_hash r) s.next j hj

    at_other : (h : TonHash) → h ≢ cell_hash r → index_of after h ≡ index_of s.entries h
    at_other h e = index_of-set_other s.entries (cell_hash r) h s.next e

pub Inv-check_reference :
    (cs : List Cell) (c r : Cell) (s : Order)
    → Inv cs s.entries s.next
    → Inv cs (check_reference c r s).entries (check_reference c r s).next
Inv-check_reference cs c r s inv = elim (compared c r s) [
  | left e fine ↦ subst (λ (t : Order). Inv cs t.entries t.next) (sym e) inv
  | moved i j hi hj lt e ↦
      subst (λ (t : Order). Inv cs t.entries t.next) (sym e) (Inv-raised cs r s j hj inv)
]

-- Where nothing changes, the reference was fine.
pub check_reference_unchanged :
    (c r : Cell) (s : Order)
    → (check_reference c r s).changed ≡ false
    → (check_reference c r s ≡ s) × Fine s.entries c r
check_reference_unchanged c r s h = elim (compared c r s) [
  | left e fine ↦ (e, fine)
  | moved i j hi hj lt e ↦ absurd (true_false (sym (ap (λ (t : Order). t.changed) e) ∙ h))
]
  where
    true_false : true ≡ false → ⊥
    true_false p = cc

-- Where the reference is fine, nothing changes.
pub check_reference-Fine : (c r : Cell) (s : Order) → Fine s.entries c r → check_reference c r s ≡ s
check_reference-Fine c r s fine = elim (compared c r s) [
  | left e f ↦ e
  | moved i j hi hj lt e ↦ absurd (omega (arith, lt, fine i j hi hj))
]

module _ (N : Cell → Type 0) (inj : (a b : Cell) → N a → N b → cell_hash a ≡ cell_hash b → a ≡ b)
    (closed : (c r : Cell) → N c → Memᴰ r (references c) → N r) where
  -- The references of height `top` and more are fine.
  abbrev pub Settled : ℕ → List Indexed → Type 0
  Settled top m = (c r : Cell) → N c → Memᴰ r (references c) → top ≤ height r → Fine m c r

  Fine-raised :
      (cs : List Cell) (r u v : Cell) (s : Order) (top j : ℕ)
      → Inv cs s.entries s.next
      → index_of s.entries (cell_hash r) ≡ some j
      → N r
      → height r < top
      → N u
      → Memᴰ v (references u)
      → top ≤ suc (height v)
      → Fine s.entries u v
      → Fine (set_index s.entries (cell_hash r) s.next) u v
  Fine-raised cs r u v s top j inv hj nr low nu edge high fine a b p q =
      elim (hash_cases (cell_hash v) (cell_hash r)) [
        | inl e ↦ omega (arith, inv.bounded (cell_hash u) a old, some-injective (sym q ∙ at_r e))
        | inr e ↦
            fine a b old
              (sym (index_of-set_other s.entries (cell_hash r) (cell_hash v) s.next e) ∙ q)
      ]
    where
      after : List Indexed
      after = set_index s.entries (cell_hash r) s.next

      other : cell_hash u ≢ cell_hash r
      other e =
          absurd (omega (arith, ap height (inj u r nu nr e), height-reference u v edge, low, high))

      old : index_of s.entries (cell_hash u) ≡ some a
      old = sym (index_of-set_other s.entries (cell_hash r) (cell_hash u) s.next other) ∙ p

      at_r : cell_hash v ≡ cell_hash r → index_of after (cell_hash v) ≡ some s.next
      at_r e = ap (index_of after) e ∙ index_of-set_same s.entries (cell_hash r) s.next j hj

  pub check_reference_keeps :
      (cs : List Cell) (c r : Cell) (s : Order) (top : ℕ)
      → Inv cs s.entries s.next
      → Settled top s.entries
      → N c
      → Memᴰ r (references c)
      → (u v : Cell) → N u
      → Memᴰ v (references u)
      → top ≤ suc (height v)
      → Fine s.entries u v
      → Fine (check_reference c r s).entries u v
  check_reference_keeps cs c r s top inv settled nc edge u v nu uv high fine =
      elim (compared c r s) [
        | left e f ↦ subst (λ (t : Order). Fine t.entries u v) (sym e) fine
        | moved i j hi hj lt e ↦
            subst (λ (t : Order). Fine t.entries u v) (sym e)
              (Fine-raised cs r u v s top j inv hj (closed c r nc edge) (low i j hi hj lt) nu uv
                high fine)
      ]
    where
      low :
          (i j : ℕ)
          → index_of s.entries (cell_hash c) ≡ some i
          → index_of s.entries (cell_hash r) ≡ some j
          → j < i
          → height r < top
      low i j hi hj lt = elim (Bool-cases (ltb (height r) top)) [
        | inl y ↦ ltb→lt (height r) top y
        | inr n ↦
            absurd (omega (arith, lt, settled c r nc edge (ltb→ge (height r) top n) i j hi hj))
      ]

  pub check_reference_settles :
      (cs : List Cell) (c r : Cell) (s : Order)
      → Inv cs s.entries s.next
      → N c
      → Memᴰ r (references c)
      → Fine (check_reference c r s).entries c r
  check_reference_settles cs c r s inv nc edge = elim (compared c r s) [
    | left e f ↦ subst (λ (t : Order). Fine t.entries c r) (sym e) f
    | moved i j hi hj lt e ↦ subst (λ (t : Order). Fine t.entries c r) (sym e) (up i j hi hj)
  ]
    where
      other : cell_hash c ≢ cell_hash r
      other e =
          absurd (
            omega (arith, ap height (inj c r nc (closed c r nc edge) e), height-reference c r edge))

      up :
          (i j : ℕ)
          → index_of s.entries (cell_hash c) ≡ some i
          → index_of s.entries (cell_hash r) ≡ some j
          → Fine (set_index s.entries (cell_hash r) s.next) c r
      up i j hi hj a b p q = omega (
        arith,
        inv.bounded (cell_hash c) a
            (sym (index_of-set_other s.entries (cell_hash r) (cell_hash c) s.next other) ∙ p),
        some-injective (sym q ∙ index_of-set_same s.entries (cell_hash r) s.next j hj),
      )
