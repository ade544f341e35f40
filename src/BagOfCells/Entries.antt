-- ===== src/BagOfCells/Entries.antt =====
-- The map from hashes to indexed cells of src/cell/raw_boc_from_boc.rs: lookups and updates.
use tonlib_rs.Prelude.{
  ℕ, ◌≡◌, ◌≢◌, refl, sym, ap, ◌∙◌, List, [], ◌∷◌, true, false, none, some, Bool-cases, inl, inr,
  ◌⊎◌, if◌then◌else◌,
}
use mathlib.Core.List.{Memᴰ}
use mathlib.Core.List.Memᴰ
use tonlib_rs.Cell.{TonHash, cell_hash}
use tonlib_rs.CellType.{bytes_eq}
use tonlib_rs.CellType.Bytes.{bytes_eq-true, bytes_eq_refl, ne→bytes_eq}
use tonlib_rs.BagOfCells.Index.{Indexed, index_of, set_index, cells_of}

pub some-injective {ℓ} : {A : Type ℓ} {a b : A} → some a ≡ some b → a ≡ b
some-injective {a = a} e = ap (λ o. elim o [ some x ↦ x | none ↦ a ]) e

pub hash_cases : (h k : TonHash) → (h ≡ k) ⊎ (h ≢ k)
hash_cases h k = elim (Bool-cases (bytes_eq h k)) [
  | inl e ↦ inl (bytes_eq-true h k e)
  | inr e ↦ inr (λ p. differ p e)
]
  where
    differ : h ≡ k → bytes_eq h k ≡ false → ⊥
    differ p e = let t : bytes_eq h k ≡ true = rw p (bytes_eq_refl k) in cc

pub index_of_hit :
    (e : Indexed) (m : List Indexed) (h : TonHash)
    → cell_hash e.cell ≡ h
    → index_of (e ∷ m) h ≡ some e.index
unfolding index_of
index_of_hit e m h p =
    let t : bytes_eq (cell_hash e.cell) h ≡ true = rw p (bytes_eq_refl h) in rw t refl

pub index_of_miss :
    (e : Indexed) (m : List Indexed) (h : TonHash)
    → cell_hash e.cell ≢ h
    → index_of (e ∷ m) h ≡ index_of m h
unfolding index_of
index_of_miss e m h p = rw (ne→bytes_eq (cell_hash e.cell) h p) refl

-- What a lookup finds is an entry of the map.
pub index_of-some :
    (m : List Indexed) (h : TonHash) (i : ℕ)
    → index_of m h ≡ some i
    → (e : Indexed) × Memᴰ e m × (cell_hash e.cell ≡ h) × (e.index ≡ i)
index_of-some [] h i p = absurd (none_ne p)
  where
    none_ne : index_of [] h ≡ some i → ⊥
    none_ne q = let t : none ≡ some i = unfold index_of in q in cc
index_of-some (e ∷ m) h i p = elim (hash_cases (cell_hash e.cell) h) [
  | inl q ↦ (e, Memᴰ.head refl, q, some-injective (sym (index_of_hit e m h q) ∙ p))
  | inr q ↦
      let (g, mem, k, x) = index_of-some m h i (sym (index_of_miss e m h q) ∙ p) in
      (g, Memᴰ.tail mem, k, x)
]

-- The hash of an entry is found.
pub index_of-mem :
    (m : List Indexed) (e : Indexed) → Memᴰ e m → (i : ℕ) × (index_of m (cell_hash e.cell) ≡ some i)
index_of-mem [] e mem = absurd (Memᴰ.not-nil mem)
index_of-mem (g ∷ m) e mem = elim (hash_cases (cell_hash g.cell) (cell_hash e.cell)) [
  | inl q ↦ (g.index, index_of_hit g m (cell_hash e.cell) q)
  | inr q ↦ elim (Memᴰ.cases_cons mem) [
    | inl same ↦ absurd (q (ap (λ (t : Indexed). cell_hash t.cell) (sym same)))
    | inr later ↦
        let (i, p) = index_of-mem m e later in (i, index_of_miss g m (cell_hash e.cell) q ∙ p)
  ]
]

-- Each entry is what the lookup of its hash finds.
abbrev pub Keyed : List Indexed → Type 0
Keyed m = (e : Indexed) → Memᴰ e m → index_of m (cell_hash e.cell) ≡ some e.index

abbrev pub updated : TonHash → ℕ → Indexed → Indexed
updated h i e = if bytes_eq (cell_hash e.cell) h then record { cell = e.cell; index = i } else e

updated_cell : (h : TonHash) (i : ℕ) (e : Indexed) → (updated h i e).cell ≡ e.cell
updated_cell h i e = elim (Bool-cases (bytes_eq (cell_hash e.cell) h)) [
  | inl t ↦ rw t refl
  | inr t ↦ rw t refl
]

updated_same :
    (h : TonHash) (i : ℕ) (e : Indexed) → cell_hash e.cell ≡ h → (updated h i e).index ≡ i
updated_same h i e p =
    let t : bytes_eq (cell_hash e.cell) h ≡ true = rw p (bytes_eq_refl h) in rw t refl

updated_other : (h : TonHash) (i : ℕ) (e : Indexed) → cell_hash e.cell ≢ h → updated h i e ≡ e
updated_other h i e p = rw (ne→bytes_eq (cell_hash e.cell) h p) refl

-- An update changes no cell.
pub cells_of-set_index :
    (m : List Indexed) (h : TonHash) (i : ℕ) → cells_of (set_index m h i) ≡ cells_of m
unfolding set_index
cells_of-set_index [] h i = refl
cells_of-set_index (e ∷ m) h i = rw (updated_cell h i e, cells_of-set_index m h i) refl

set_index-cons :
    (e : Indexed) (m : List Indexed) (h : TonHash) (i : ℕ)
    → set_index (e ∷ m) h i ≡ updated h i e ∷ set_index m h i
unfolding set_index
set_index-cons e m h i = refl

-- A lookup behind an update.
pub index_of-set_same :
    (m : List Indexed) (h : TonHash) (i j : ℕ)
    → index_of m h ≡ some j
    → index_of (set_index m h i) h ≡ some i
index_of-set_same [] h i j p =
    absurd (let (e, mem, r, x) = index_of-some [] h j p in Memᴰ.not-nil mem)
index_of-set_same (e ∷ m) h i j p =
    let q = set_index-cons e m h i in
    elim (hash_cases (cell_hash e.cell) h) [
      | inl k ↦
          ap (λ t. index_of t h) q
          ∙ index_of_hit (updated h i e) (set_index m h i) h (ap cell_hash (updated_cell h i e) ∙ k)
          ∙ ap some (updated_same h i e k)
      | inr k ↦
          ap (λ t. index_of t h) (q ∙ ap (λ t. t ∷ set_index m h i) (updated_other h i e k))
          ∙ index_of_miss e (set_index m h i) h k
          ∙ index_of-set_same m h i j (sym (index_of_miss e m h k) ∙ p)
    ]

pub index_of-set_other :
    (m : List Indexed) (h k : TonHash) (i : ℕ) → k ≢ h → index_of (set_index m h i) k ≡ index_of m k
index_of-set_other [] h k i p = unfold set_index in refl
index_of-set_other (e ∷ m) h k i p = elim (hash_cases (cell_hash e.cell) k) [
  | inl q ↦
      ap (λ t. index_of t k)
        (set_index-cons e m h i
          ∙ ap (λ t. t ∷ set_index m h i) (updated_other h i e (λ r. p (sym q ∙ r))))
      ∙ index_of_hit e (set_index m h i) k q
      ∙ sym (index_of_hit e m k q)
  | inr q ↦
      ap (λ t. index_of t k) (set_index-cons e m h i)
      ∙ index_of_miss (updated h i e) (set_index m h i) k
          (λ r. q (sym (ap cell_hash (updated_cell h i e)) ∙ r))
      ∙ index_of-set_other m h k i p
      ∙ sym (index_of_miss e m k q)
]

mem-set_index :
    (m : List Indexed) (h : TonHash) (i : ℕ) (g : Indexed)
    → Memᴰ g (set_index m h i)
    → (e : Indexed) × Memᴰ e m × (g ≡ updated h i e)
unfolding set_index
mem-set_index [] h i g mem = absurd (Memᴰ.not-nil mem)
mem-set_index (e ∷ m) h i g mem = elim (Memᴰ.cases_cons mem) [
  | inl same ↦ (e, Memᴰ.head refl, same)
  | inr later ↦ let (f, fm, p) = mem-set_index m h i g later in (f, Memᴰ.tail fm, p)
]

pub Keyed-set_index : (m : List Indexed) (h : TonHash) (i : ℕ) → Keyed m → Keyed (set_index m h i)
Keyed-set_index m h i k g mem =
    let (e, em, p) = mem-set_index m h i g mem in
    let same : cell_hash g.cell ≡ cell_hash e.cell =
      ap (λ (t : Indexed). cell_hash t.cell) p ∙ ap cell_hash (updated_cell h i e) in
    ap (index_of (set_index m h i)) same ∙ elim (hash_cases (cell_hash e.cell) h) [
      | inl q ↦
          ap (index_of (set_index m h i)) q
          ∙ index_of-set_same m h i e.index (ap (index_of m) (sym q) ∙ k e em)
          ∙ ap some (sym (updated_same h i e q) ∙ sym (ap (λ (t : Indexed). t.index) p))
      | inr q ↦
          index_of-set_other m h (cell_hash e.cell) i q
          ∙ k e em
          ∙ ap (λ (t : Indexed). some t.index) (sym (updated_other h i e q) ∙ sym p)
    ]
