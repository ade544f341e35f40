-- ===== src/BagOfCells/Sort.antt =====
-- The sort by index of src/cell/raw_boc_from_boc.rs, and the positions of the cells in the result.
use tonlib_rs.Prelude.{
  ℕ, suc, ◌+◌, ◌≤◌, ◌≡◌, refl, sym, ap, ◌∙◌, List, [], ◌∷◌, ◌++◌, some, Bool-cases, inl, inr, ◌⊎◌,
  arith, subst, leb, leb→le, length, true, false,
}
use mathlib.Core.List.{Memᴰ}
use mathlib.Core.List.Memᴰ
use tonlib_rs.Cell.{TonHash, cell_hash}
use tonlib_rs.BagOfCells.Index.{Indexed, index_of, cells_of, insert_sorted, sort, renumber}
use tonlib_rs.BagOfCells.Entries.{hash_cases, index_of_hit, index_of_miss}

leb-false : (a b : ℕ) → leb a b ≡ false → b ≤ a
leb-false a b h = ground arith

insert_first :
    (e f : Indexed) (m : List Indexed)
    → leb e.index f.index ≡ true
    → insert_sorted e (f ∷ m) ≡ e ∷ f ∷ m
unfolding insert_sorted
insert_first e f m h = rw h refl

insert_later :
    (e f : Indexed) (m : List Indexed)
    → leb e.index f.index ≡ false
    → insert_sorted e (f ∷ m) ≡ f ∷ insert_sorted e m
unfolding insert_sorted
insert_later e f m h = rw h refl

mem-insert : (e x : Indexed) (m : List Indexed) → Memᴰ x (insert_sorted e m) → (x ≡ e) ⊎ Memᴰ x m
mem-insert e x [] h = Memᴰ.cases_cons (unfold insert_sorted in h)
mem-insert e x (f ∷ m) h = elim (Bool-cases (leb e.index f.index)) [
  | inl t ↦ Memᴰ.cases_cons (subst (Memᴰ x) (insert_first e f m t) h)
  | inr t ↦ elim (Memᴰ.cases_cons (subst (Memᴰ x) (insert_later e f m t) h)) [
    | inl same ↦ inr (Memᴰ.head same)
    | inr later ↦ elim (mem-insert e x m later) [
      | inl same ↦ inl same
      | inr old ↦ inr (Memᴰ.tail old)
    ]
  ]
]

insert-mem : (e x : Indexed) (m : List Indexed) → (x ≡ e) ⊎ Memᴰ x m → Memᴰ x (insert_sorted e m)
insert-mem e x [] (inl same) = unfold insert_sorted in Memᴰ.head same
insert-mem e x [] (inr old) = absurd (Memᴰ.not-nil old)
insert-mem e x (f ∷ m) h = elim (Bool-cases (leb e.index f.index)) [
  | inl t ↦
      subst (Memᴰ x) (sym (insert_first e f m t))
        (elim h [ inl same ↦ Memᴰ.head same | inr old ↦ Memᴰ.tail old ])
  | inr t ↦ subst (Memᴰ x) (sym (insert_later e f m t)) (elim h [
    | inl same ↦ Memᴰ.tail (insert-mem e x m (inl same))
    | inr old ↦ elim (Memᴰ.cases_cons old) [
      | inl first ↦ Memᴰ.head first
      | inr later ↦ Memᴰ.tail (insert-mem e x m (inr later))
    ]
  ])
]

pub mem-sort : (x : Indexed) (m : List Indexed) → Memᴰ x (sort m) → Memᴰ x m
unfolding sort
mem-sort x [] h = h
mem-sort x (e ∷ m) h = elim (mem-insert e x (sort m) h) [
  | inl same ↦ Memᴰ.head same
  | inr later ↦ Memᴰ.tail (mem-sort x m later)
]

pub sort-mem : (x : Indexed) (m : List Indexed) → Memᴰ x m → Memᴰ x (sort m)
unfolding sort
sort-mem x [] h = h
sort-mem x (e ∷ m) h =
    insert-mem e x (sort m)
      (elim (Memᴰ.cases_cons h) [ inl same ↦ inl same | inr later ↦ inr (sort-mem x m later) ])

abbrev pub Ascending : List Indexed → Type 0
Ascending [] = Unit {0}
Ascending (e ∷ m) = ((g : Indexed) → Memᴰ g m → e.index ≤ g.index) × Ascending m

insert-Ascending : (e : Indexed) (m : List Indexed) → Ascending m → Ascending (insert_sorted e m)
insert-Ascending e [] h = unfold insert_sorted in (λ g mem. absurd (Memᴰ.not-nil mem), tt)
insert-Ascending e (f ∷ m) h = elim (Bool-cases (leb e.index f.index)) [
  | inl t ↦ subst Ascending (sym (insert_first e f m t)) (
    λ g mem. elim (Memᴰ.cases_cons mem) [
      | inl same ↦ omega (arith, leb→le e.index f.index t, ap (λ (x : Indexed). x.index) same)
      | inr later ↦ omega (arith, leb→le e.index f.index t, h.0 g later)
    ],
    h,
  )
  | inr t ↦ subst Ascending (sym (insert_later e f m t)) (
    λ g mem. elim (mem-insert e g m mem) [
      | inl same ↦ omega (arith, leb-false e.index f.index t, ap (λ (x : Indexed). x.index) same)
      | inr old ↦ h.0 g old
    ],
    insert-Ascending e m h.1,
  )
]

pub sort-Ascending : (m : List Indexed) → Ascending (sort m)
unfolding sort
sort-Ascending [] = tt
sort-Ascending (e ∷ m) = insert-Ascending e (sort m) (sort-Ascending m)

-- What stands before an entry is not greater.
pub before-le :
    (front back : List Indexed) (e x : Indexed)
    → Ascending (front ++ (e ∷ back))
    → Memᴰ x front
    → x.index ≤ e.index
before-le [] back e x h mem = absurd (Memᴰ.not-nil mem)
before-le (f ∷ front) back e x h mem = elim (Memᴰ.cases_cons mem) [
  | inl same ↦
      omega (
        arith,
        ap (λ (t : Indexed). t.index) same,
        h.0 e (Memᴰ.append_right front (Memᴰ.head refl)),
      )
  | inr later ↦ before-le front back e x h.1 later
]

-- Two ways to take a list apart.
pub split_cases {ℓ} :
    {A : Type ℓ} (front back front' back' : List A) (e g : A)
    → front ++ (e ∷ back) ≡ front' ++ (g ∷ back')
    → Memᴰ g front
      ⊎ ((g ≡ e) ⊎ ((mid : List A) × (front' ≡ front ++ (e ∷ mid)) × (back ≡ mid ++ (g ∷ back'))))
split_cases [] back [] back' e g p = inr (inl (cc))
split_cases [] back (f ∷ front') back' e g p = inr (inr (front', cc, cc))
split_cases (f ∷ front) back [] back' e g p = inl (Memᴰ.head cc)
split_cases (f ∷ front) back (f' ∷ front') back' e g p =
    elim (split_cases front back front' back' e g cc) [
      | inl x ↦ inl (Memᴰ.tail x)
      | inr (inl x) ↦ inr (inl x)
      | inr (inr (mid, x, y)) ↦ inr (inr (mid, cc, y))
    ]

pub cells_of-renumber : (i : ℕ) (m : List Indexed) → cells_of (renumber i m) ≡ cells_of m
unfolding renumber
cells_of-renumber i [] = refl
cells_of-renumber i (e ∷ m) = ap (λ t. e.cell ∷ t) (cells_of-renumber (i + 1) m)

-- Where the lookup of a hash ends in the renumbered list: at the first entry with that hash.
pub located :
    (m : List Indexed) (h : TonHash) (x : Indexed) (k : ℕ)
    → Memᴰ x m
    → cell_hash x.cell ≡ h
    → (front : List Indexed) × (g : Indexed) × (back : List Indexed) × (m ≡ front ++ (g ∷ back))
      × (cell_hash g.cell ≡ h)
      × (index_of (renumber k m) h ≡ some (k + length front))
unfolding renumber
located [] h x k mem p = absurd (Memᴰ.not-nil mem)
located (e ∷ m) h x k mem p = elim (hash_cases (cell_hash e.cell) h) [
  | inl q ↦ (
    [],
    e,
    m,
    refl,
    q,
    (index_of_hit (record { cell = e.cell; index = k }) (renumber (k + 1) m) h q
        ∙ ap some (omega arith)),
  )
  | inr q ↦ elim (Memᴰ.cases_cons mem) [
    | inl same ↦ absurd (q (ap (λ (t : Indexed). cell_hash t.cell) (sym same) ∙ p))
    | inr later ↦
        let (front, g, back, s, r, f) = located m h x (k + 1) later p in
        (
          e ∷ front,
          g,
          back,
          ap (λ t. e ∷ t) s,
          r,
          (index_of_miss (record { cell = e.cell; index = k }) (renumber (k + 1) m) h q
              ∙ f
              ∙ ap some (omega arith)),
        )
  ]
]

length-insert_sorted :
    (e : Indexed) (m : List Indexed) → length (insert_sorted e m) ≡ suc (length m)
unfolding insert_sorted
length-insert_sorted e [] = refl
length-insert_sorted e (f ∷ m) = let ih = length-insert_sorted e m in ground (arith, ih)

pub length-sort : (m : List Indexed) → length (sort m) ≡ length m
unfolding sort
length-sort [] = refl
length-sort (e ∷ m) = length-insert_sorted e (sort m) ∙ ap suc (length-sort m)
