-- ===== src/BagOfCells/Levels.antt =====
-- The first loop of src/cell/raw_boc_from_boc.rs: level by level, every cell that the roots reach
-- gets an entry.
use tonlib_rs.Prelude.{
  ℕ, ◌+◌, ◌≡◌, refl, sym, ap, ◌∙◌, List, [], ◌∷◌, ◌++◌, none, some, Option-cases, inl, inr, ◌⊎◌,
  arith, subst,
}
use mathlib.Core.List.{Memᴰ}
use mathlib.Core.List.Memᴰ
use tonlib_rs.Cell.{Cell, TonHash, cell_hash, references}
use tonlib_rs.BagOfCells.Index.{Indexed, Iteration, index_of, cells_of}
use tonlib_rs.BagOfCells.Entries.{
  hash_cases, index_of-some, index_of-mem, index_of_hit, index_of_miss,
}
use tonlib_rs.BagOfCells.Order.{Inv}

abbrev pub Found : List Indexed → Cell → Type 0
Found m c = (i : ℕ) × (index_of m (cell_hash c) ≡ some i)

index_of-append_found :
    (m n : List Indexed) (h : TonHash) (i : ℕ)
    → index_of m h ≡ some i
    → index_of (m ++ n) h ≡ some i
index_of-append_found [] n h i p =
    let (e, mem, k, x) = index_of-some [] h i p in absurd (Memᴰ.not-nil mem)
index_of-append_found (e ∷ m) n h i p = elim (hash_cases (cell_hash e.cell) h) [
  | inl q ↦ index_of_hit e (m ++ n) h q ∙ sym (index_of_hit e m h q) ∙ p
  | inr q ↦
      index_of_miss e (m ++ n) h q ∙ index_of-append_found m n h i (sym (index_of_miss e m h q) ∙ p)
]

index_of-append_gone :
    (m n : List Indexed) (h : TonHash) → index_of m h ≡ none → index_of (m ++ n) h ≡ index_of n h
index_of-append_gone [] n h p = refl
index_of-append_gone (e ∷ m) n h p = elim (hash_cases (cell_hash e.cell) h) [
  | inl q ↦ absurd (clash (sym (index_of_hit e m h q) ∙ p))
  | inr q ↦
      index_of_miss e (m ++ n) h q ∙ index_of-append_gone m n h (sym (index_of_miss e m h q) ∙ p)
]
  where
    clash : some e.index ≡ none → ⊥
    clash q = cc

abbrev entry : Cell → ℕ → Indexed
entry c next = record { cell = c; index = next }

-- A lookup in the map with a new entry.
lookup_added :
    (m : List Indexed) (c : Cell) (next : ℕ) (h : TonHash) (i : ℕ)
    → index_of m (cell_hash c) ≡ none
    → index_of (m ++ (entry c next ∷ [])) h ≡ some i
    → (index_of m h ≡ some i) ⊎ ((h ≡ cell_hash c) × (i ≡ next))
lookup_added m c next h i gone p = elim (Option-cases (index_of m h)) [
  | inr (j, q) ↦ inl (q ∙ sym (index_of-append_found m (entry c next ∷ []) h j q) ∙ p)
  | inl q ↦
      let (e, mem, k, x) =
        index_of-some (entry c next ∷ []) h i
          (sym (index_of-append_gone m (entry c next ∷ []) h q) ∙ p) in
      let same = Memᴰ.eq_of_singleton mem in
      inr (
        sym k ∙ ap (λ (t : Indexed). cell_hash t.cell) same,
        sym x ∙ ap (λ (t : Indexed). t.index) same,
      )
]

lookup_new :
    (m : List Indexed) (c : Cell) (next : ℕ)
    → index_of m (cell_hash c) ≡ none
    → index_of (m ++ (entry c next ∷ [])) (cell_hash c) ≡ some next
lookup_new m c next gone =
    index_of-append_gone m (entry c next ∷ []) (cell_hash c) gone
    ∙ index_of_hit (entry c next) [] (cell_hash c) refl

Inv-added :
    (m : List Indexed) (c : Cell) (next : ℕ)
    → index_of m (cell_hash c) ≡ none
    → Inv (cells_of m) m next
    → Inv (cells_of (m ++ (entry c next ∷ []))) (m ++ (entry c next ∷ [])) (next + 1)
Inv-added m c next gone inv = record {
  cells_eq = refl;
  keyed = λ e mem. elim (Memᴰ.append_cases m mem) [
    | inl old ↦
        index_of-append_found m (entry c next ∷ []) (cell_hash e.cell) e.index (inv.keyed e old)
    | inr new ↦
        let same = Memᴰ.eq_of_singleton new in
        ap (λ (t : Indexed). index_of (m ++ (entry c next ∷ [])) (cell_hash t.cell)) same
        ∙ lookup_new m c next gone
        ∙ ap (λ (t : Indexed). some t.index) (sym same)
  ];
  bounded = λ h i p. elim (lookup_added m c next h i gone p) [
    | inl old ↦ omega (arith, inv.bounded h i old)
    | inr (k, x) ↦ omega (arith, x)
  ];
  apart = λ h k i p q. elim (lookup_added m c next h i gone p) [
    | inl old ↦ elim (lookup_added m c next k i gone q) [
      | inl old' ↦ inv.apart h k i old old'
      | inr (k', x) ↦ absurd (omega (arith, x, inv.bounded h i old))
    ]
    | inr (h', x) ↦ elim (lookup_added m c next k i gone q) [
      | inl old' ↦ absurd (omega (arith, x, inv.bounded k i old'))
      | inr (k', y) ↦ h' ∙ sym k'
    ]
  ];
}

pub Inv-nil : Inv [] [] 0
Inv-nil = record {
  cells_eq = refl;
  keyed = λ e mem. absurd (Memᴰ.not-nil mem);
  bounded = λ h i p. absurd (nothing h i p);
  apart = λ h k i p q. absurd (nothing h i p);
}
  where
    nothing : (h : TonHash) (i : ℕ) → index_of [] h ≡ some i → ⊥
    nothing h i p = let (e, mem, k, x) = index_of-some [] h i p in Memᴰ.not-nil mem

-- The order of iteration changes no lookup.
pub Inv-values :
    (order : Iteration) (m : List Indexed) (next : ℕ)
    → Inv (cells_of m) m next
    → Inv (cells_of (order.values m)) (order.values m) next
Inv-values order m next inv = record {
  cells_eq = refl;
  keyed = λ e mem.
      let old = (order.mem-values m e).0 mem in
      let (i, p) = index_of-mem (order.values m) e mem in
      p ∙ sym (same (cell_hash e.cell) i p) ∙ inv.keyed e old;
  bounded = λ h i p. inv.bounded h i (same h i p);
  apart = λ h k i p q. inv.apart h k i (same h i p) (same k i q);
}
  where
    same : (h : TonHash) (i : ℕ) → index_of (order.values m) h ≡ some i → index_of m h ≡ some i
    same h i p =
        let (e, mem, k, x) = index_of-some (order.values m) h i p in
        ap (index_of m) (sym k) ∙ inv.keyed e ((order.mem-values m e).0 mem) ∙ ap some x

pub Found-values :
    (order : Iteration) (m : List Indexed) (c : Cell) → Found m c → Found (order.values m) c
Found-values order m c (i, p) =
    let (e, mem, k, x) = index_of-some m (cell_hash c) i p in
    let (j, q) = index_of-mem (order.values m) e ((order.mem-values m e).1 mem) in
    (j, ap (index_of (order.values m)) (sym k) ∙ q)

module _ (N : Cell → Type 0) (closed : (c r : Cell) → N c → Memᴰ r (references c) → N r)
    (roots : List Cell) where
  -- The map between two visits: `todo` holds the cells that still wait for an entry.
  pub record Built (m : List Indexed) (next : ℕ) (todo : List Cell) : Type 0 where
    pub inv : Inv (cells_of m) m next
    pub family : (e : Indexed) → Memᴰ e m → N e.cell
    pub waiting : (c : Cell) → Memᴰ c todo → N c
    pub below :
        (e : Indexed) → Memᴰ e m → (r : Cell) → Memᴰ r (references e.cell) → Found m r ⊎ Memᴰ r todo
    pub tops : (r : Cell) → Memᴰ r roots → Found m r ⊎ Memᴰ r todo

  passed :
      (m m' : List Indexed) (todo todo' : List Cell) (r : Cell)
      → ((c : Cell) → Found m c → Found m' c)
      → ((c : Cell) → Memᴰ c todo → Found m' c ⊎ Memᴰ c todo')
      → Found m r ⊎ Memᴰ r todo
      → Found m' r ⊎ Memᴰ r todo'
  passed m m' todo todo' r f g (inl x) = inl (f r x)
  passed m m' todo todo' r f g (inr x) = g r x

  pub Built-skip :
      (m : List Indexed) (next : ℕ) (c : Cell) (cs out : List Cell)
      → Found m c
      → Built m next ((c ∷ cs) ++ out)
      → Built m next (cs ++ out)
  Built-skip m next c cs out found h = record {
    inv = h.inv;
    family = h.family;
    waiting = λ d mem. h.waiting d (Memᴰ.tail mem);
    below = λ e mem r edge. passed m m _ (cs ++ out) r (λ d x. x) drop_c (h.below e mem r edge);
    tops = λ r mem. passed m m _ (cs ++ out) r (λ d x. x) drop_c (h.tops r mem);
  }
    where
      drop_c : (d : Cell) → Memᴰ d ((c ∷ cs) ++ out) → Found m d ⊎ Memᴰ d (cs ++ out)
      drop_c d mem = elim (Memᴰ.cases_cons mem) [
        | inl same ↦ inl (subst (Found m) (sym same) found)
        | inr later ↦ inr later
      ]

  pub Built-add :
      (m : List Indexed) (next : ℕ) (c : Cell) (cs out : List Cell)
      → index_of m (cell_hash c) ≡ none
      → Built m next ((c ∷ cs) ++ out)
      → Built (m ++ (entry c next ∷ [])) (next + 1) (cs ++ (out ++ references c))
  Built-add m next c cs out gone h = record {
    inv = Inv-added m c next gone h.inv;
    family = λ e mem. elim (Memᴰ.append_cases m mem) [
      | inl old ↦ h.family e old
      | inr new ↦ subst (λ (t : Indexed). N t.cell) (sym (Memᴰ.eq_of_singleton new)) nc
    ];
    waiting = λ d mem. elim (Memᴰ.append_cases cs mem) [
      | inl left ↦ h.waiting d (Memᴰ.tail (Memᴰ.append_left out left))
      | inr right ↦ elim (Memᴰ.append_cases out right) [
        | inl left ↦ h.waiting d (Memᴰ.tail (Memᴰ.append_right cs left))
        | inr edge ↦ closed c d nc edge
      ]
    ];
    below = λ e mem r edge. elim (Memᴰ.append_cases m mem) [
      | inl old ↦ passed m m' _ (cs ++ (out ++ references c)) r keep move (h.below e old r edge)
      | inr new ↦
          let edge' =
            subst (λ (t : Indexed). Memᴰ r (references t.cell)) (Memᴰ.eq_of_singleton new) edge in
          inr (Memᴰ.append_right cs (Memᴰ.append_right out edge'))
    ];
    tops = λ r mem. passed m m' _ (cs ++ (out ++ references c)) r keep move (h.tops r mem);
  }
    where
      m' : List Indexed
      m' = m ++ (entry c next ∷ [])

      nc : N c
      nc = h.waiting c (Memᴰ.head refl)

      keep : (d : Cell) → Found m d → Found m' d
      keep d (i, p) = (i, index_of-append_found m (entry c next ∷ []) (cell_hash d) i p)

      move :
          (d : Cell) → Memᴰ d ((c ∷ cs) ++ out) → Found m' d ⊎ Memᴰ d (cs ++ (out ++ references c))
      move d mem = elim (Memᴰ.cases_cons mem) [
        | inl same ↦ inl (subst (Found m') (sym same) (next, lookup_new m c next gone))
        | inr later ↦ elim (Memᴰ.append_cases cs later) [
          | inl left ↦ inr (Memᴰ.append_left (out ++ references c) left)
          | inr right ↦ inr (Memᴰ.append_right cs (Memᴰ.append_left (references c) right))
        ]
      ]
