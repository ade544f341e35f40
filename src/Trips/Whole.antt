-- ===== src/Trips/Whole.antt =====
-- The bits of a whole cell: `store_remaining_bits` of src/cell/builder.rs copies them, and
-- `load_bits` of src/cell/parser.rs with `read_bits` of src/cell/util.rs gives the bytes back.
use tonlib_rs.Prelude.{
  ℕ, zero, suc, ◌+◌, ◌-◌, ◌*◌, ◌/◌, ◌%◌, ◌^◌, ◌≤◌, ◌<◌, ◌≡◌, ◌≢◌, refl, sym, ap, ap₂, subst, ◌∙◌,
  List, [], ◌∷◌, ◌++◌, append-nil, append_assoc, Bool, false, length, length-append,
  length-replicate, replicate, drop, All, arith, ge→ltb, ◌==◌, ltb, ne→==, inl, inr, ◌⊎◌,
}
use tonlib_rs.Prelude.Bits.{
  IsByte, to_bits, length-to_bits, from_bits, from_bits-append, from_bits-to_bits,
  to_bits-from_bits, to_bits-byte_mod, to_bits-zero, unpack, length-unpack, unpack-append,
}
use tonlib_rs.Prelude.Outcome.{ok, ◌>>=◌, pure}
use tonlib_rs.Libs.{Libs}
use tonlib_rs.Cell.{Cell, data_of, bit_len}
use tonlib_rs.BagOfCells.Rebuild.{IsProper}
use tonlib_rs.RawBoc.Strip.{split_last, All-last}
use tonlib_rs.Builder.{CellBuilder}
use tonlib_rs.Builder.Cells.{store_remaining_bits, store_cell_data, on_parser}
use tonlib_rs.Builder.Stores.{Stores, Stores-store_slice, Stores-store_number, Wrote, Wrote-trans}
use tonlib_rs.Parser
use tonlib_rs.Parser.{CellParser, load_bits, load_bits_to_slice, read_bits, on_reader}
use tonlib_rs.Parser.Loads.{
  Ahead, Loads, Loads-bind, Loads-pure, Loads-ensure, Loads-read, Loads-read_bytes,
  remaining_bits-Ahead,
}
use tonlib_rs.Trips.{Loads-number}
use native.Mathlib.Nat.{one-le-pow}
use tonlib_rs.Trips.Bytes.{Loads-load_bytes}

-- The last byte of data in which `r` bits are in use, for `r` other than 0.
unfoldable pub last_part : ℕ → ℕ → List ℕ
last_part zero v = []
last_part (suc k) v = v * 2 ^ (8 - suc k) % 256 ∷ []

-- The data of a cell: whole bytes, and `r` bits of the value `v`.
pub record Parts (data' : List ℕ) (n : ℕ) : Type 0 where
  pub front : List ℕ
  pub r : ℕ
  pub v : ℕ
  pub front_bytes : All IsByte front
  pub r-lt : r < 8
  pub v-lt : v < 2 ^ r
  pub size_eq : n ≡ 8 * length front + r
  pub data_eq : data' ≡ front ++ last_part r v

-- A byte with zeros behind its first `r` bits.
exact_div :
    (r b : ℕ)
    → r ≢ 0
    → r < 8
    → b < 256
    → b % 2 ^ (8 - r) ≡ 0
    → (v : ℕ) × (v < 2 ^ r) × (b ∷ [] ≡ last_part r v)
unfolding last_part
exact_div zero b nz h hb e = absurd (nz refl)
exact_div (suc zero) b nz h hb e = (b / 128, omega arith, ap (λ t. t ∷ []) (omega arith))
exact_div (suc (suc zero)) b nz h hb e = (b / 64, omega arith, ap (λ t. t ∷ []) (omega arith))
exact_div (suc (suc (suc zero))) b nz h hb e = (b / 32, omega arith, ap (λ t. t ∷ []) (omega arith))
exact_div (suc (suc (suc (suc zero)))) b nz h hb e =
    (b / 16, omega arith, ap (λ t. t ∷ []) (omega arith))
exact_div (suc (suc (suc (suc (suc zero))))) b nz h hb e =
    (b / 8, omega arith, ap (λ t. t ∷ []) (omega arith))
exact_div (suc (suc (suc (suc (suc (suc zero)))))) b nz h hb e =
    (b / 4, omega arith, ap (λ t. t ∷ []) (omega arith))
exact_div (suc (suc (suc (suc (suc (suc (suc zero))))))) b nz h hb e =
    (b / 2, omega arith, ap (λ t. t ∷ []) (omega arith))
exact_div (suc (suc (suc (suc (suc (suc (suc (suc k)))))))) b nz h hb e = absurd (omega arith)

zero_or : (n : ℕ) → (n ≡ 0) ⊎ (n ≢ 0)
zero_or zero = inl refl
zero_or (suc n) = inr (λ e. absurd (omega (arith, e)))

pub parts : (c : Cell) → IsProper c → Parts (data_of c) (bit_len c)
unfolding last_part
parts c h = elim (zero_or (bit_len c % 8)) [
  | inl e ↦ record {
    front = data_of c;
    r = 0;
    v = 0;
    front_bytes = h.bytes;
    r-lt = omega arith;
    v-lt = omega arith;
    size_eq = omega (arith, h.data_length, e);
    data_eq = sym (append-nil (data_of c));
  }
  | inr nz ↦
      let (front, b, d) = split_last (data_of c) (omega (arith, h.data_length, nz)) in
      let (hf, hb) = All-last front b (subst (λ t. All IsByte t) d h.bytes) in
      let small : bit_len c % 8 < 8 = omega arith in
      let (v, lt, e) = exact_div (bit_len c % 8) b nz small hb (h.padding front b nz d) in
      record {
        front = front;
        r = bit_len c % 8;
        v = v;
        front_bytes = hf;
        r-lt = small;
        v-lt = lt;
        size_eq = omega (arith, h.data_length, ap length d, length-append front (b ∷ []), nz);
        data_eq = d ∙ ap (λ t. front ++ t) e;
      }
]

-- The bits of the cell.
abbrev pub bits_of : {data' : List ℕ} {n : ℕ} → Parts data' n → List Bool
bits_of p = unpack p.front ++ to_bits p.r p.v

pub length-bits_of : {data' : List ℕ} {n : ℕ} (p : Parts data' n) → length (bits_of p) ≡ n
length-bits_of p = omega (
  arith,
  p.size_eq,
  length-append (unpack p.front) (to_bits p.r p.v),
  length-unpack p.front,
  length-to_bits p.r p.v,
)

shifted_byte :
    (r v n : ℕ) → r + n ≡ 8 → v < 2 ^ r → to_bits 8 (v * 2 ^ n) ≡ to_bits r v ++ replicate n false
shifted_byte r v n e h =
    let xs = to_bits r v ++ replicate n false in
    let size : length xs ≡ 8 = omega (
      arith,
      e,
      length-append (to_bits r v) (replicate n false),
      length-to_bits r v,
      length-replicate n false,
    ) in
    let zeros : from_bits (replicate n false) ≡ 0 =
      ap from_bits (sym (to_bits-zero n)) ∙ from_bits-to_bits n 0 (one-le-pow n 2 (omega arith)) in
    let value : v * 2 ^ n ≡ 0 * 2 ^ length xs + from_bits xs =
      sym (
        from_bits-append (to_bits r v) (replicate n false)
        ∙ ap₂ (λ s t. s + t)
            (ap₂ (λ s t. s * 2 ^ t) (from_bits-to_bits r v h) (length-replicate n false)) zeros
        ∙ omega arith)
      ∙ omega arith in
    subst (λ t. to_bits t (v * 2 ^ n) ≡ xs) size (to_bits-from_bits xs 0 (v * 2 ^ n) value)

unpack-last_part :
    (r v : ℕ)
    → r < 8
    → v < 2 ^ r
    → (z : ℕ) × (unpack (last_part r v) ≡ to_bits r v ++ replicate z false)
unfolding last_part unpack
unpack-last_part zero v hr hv = (0, unfold to_bits in refl)
unpack-last_part (suc k) v hr hv = (
  8 - suc k,
  append-nil _
      ∙ to_bits-byte_mod (v * 2 ^ (8 - suc k))
      ∙ shifted_byte (suc k) v (8 - suc k) (omega (arith, hr)) hv,
)

enough_room : (m : ℕ) → ltb (length {A = ℕ} (replicate m 0)) m ≡ false
enough_room m =
    ge→ltb (length {A = ℕ} (replicate m 0)) m (omega (arith, length-replicate {A = ℕ} m 0))

eight_small : 8 ≤ 64
eight_small = omega arith

within_byte : (r : ℕ) → r < 8 → r ≤ 8
within_byte r h = omega (arith, h)

drop-replicate : (n m : ℕ) → n ≡ m → drop {A = ℕ} n (replicate m 0) ≡ []
drop-replicate n m e = rw e (go m)
  where
    go : (k : ℕ) → drop {A = ℕ} k (replicate k 0) ≡ []
    go zero = refl
    go (suc k) = go k

module _ (libs : Libs) where
  -- A parser on a proper cell has its bits ahead.
  pub parser-Ahead :
      (c : Cell) (h : IsProper c) → Ahead libs (Parser.parser libs c) (bits_of (parts c h))
  unfolding Parser.parser Parser.new
  parser-Ahead c h =
      let p = parts c h in
      let (z, e) = unpack-last_part p.r p.v p.r-lt p.v-lt in
      record {
        pad = replicate z false;
        rest_eq =
            libs.bit_reader.rest-endian (data_of c) h.bytes
            ∙ ap unpack p.data_eq
            ∙ unpack-append p.front (last_part p.r p.v)
            ∙ ap (λ t. unpack p.front ++ t) e
            ∙ sym (append_assoc (unpack p.front) (to_bits p.r p.v) (replicate z false));
        size_eq = omega (arith, libs.bit_reader.consumed-endian (data_of c), length-bits_of p);
      }

  -- `store_remaining_bits` on a parser with the bits of the cell ahead appends these.
  store_remaining :
      {data' : List ℕ} {n : ℕ} (p : Parts data' n) (q : CellParser libs) (b : CellBuilder libs)
      → Ahead libs q (bits_of p)
      → (b' : CellBuilder libs) × (q' : CellParser libs) × (store_remaining_bits libs q b
          ≡ ok q' b')
        × Wrote libs b b' (bits_of p)
  unfolding store_remaining_bits on_parser
  store_remaining p q b h =
      let bytes : Parser.remaining_bits libs q / 8 ≡ length p.front =
        omega
          (arith, remaining_bits-Ahead libs q (bits_of p) h, length-bits_of p, p.size_eq, p.r-lt) in
      let (q1, e1, w1) = (Loads-load_bytes libs p.front p.front_bytes).run q (to_bits p.r p.v) h in
      let (b1, f1, v1) = (Stores-store_slice libs p.front p.front_bytes).run b in
      let left : Parser.remaining_bits libs q1 % 8 ≡ p.r = omega (
        arith,
        remaining_bits-Ahead libs q1 (to_bits p.r p.v) w1.ahead,
        length-to_bits p.r p.v,
        p.r-lt,
      ) in
      let ahead' = subst (λ t. Ahead libs q1 t) (sym (append-nil (to_bits p.r p.v))) w1.ahead in
      let (q2, e2, w2) =
        (Loads-number libs 8 eight_small p.r p.v (within_byte p.r p.r-lt) p.v-lt).run q1 []
          ahead' in
      let (b2, f2, v2) =
        (Stores-store_number libs 8 eight_small p.r p.v (within_byte p.r p.r-lt) p.v-lt).run b1 in
      (
        b2,
        q2,
        rw bytes (rw e1 (rw f1 (rw left (rw e2 (rw f2 refl))))),
        Wrote-trans libs b b1 b2 (unpack p.front) (to_bits p.r p.v) v1 v2,
      )

  -- The data of a proper cell is copied by `store_cell_data`, whatever the builder holds.
  pub Stores-store_cell_data :
      (c : Cell) (h : IsProper c) → Stores libs (store_cell_data libs c) (bits_of (parts c h))
  unfolding store_cell_data
  Stores-store_cell_data c h = record {
    run = λ b.
        let (b', q', e, w) =
          store_remaining (parts c h) (Parser.parser libs c) b (parser-Ahead c h) in
        (b', rw e refl, w);
  }

  Loads-map :
      {A B : Type 0} (m : Parser.Load libs A) (f : A → B) (xs : List Bool) {a : A}
      → Loads libs m xs a
      → Loads libs (m >>= λ t. pure (f t)) xs (f a)
  Loads-map m f xs {a} h =
      subst (λ t. Loads libs (m >>= λ t. pure (f t)) t (f a)) (append-nil xs)
        (Loads-bind libs m (λ t. pure (f t)) xs [] h (Loads-pure libs (f a)))

  Loads-read_bits :
      (front : List ℕ) (r v n : ℕ)
      → All IsByte front
      → r < 8
      → v < 2 ^ r
      → n ≡ 8 * length front + r
      → Loads libs
          (read_bits libs n (replicate ((n + 7) / 8) 0))
          (unpack front ++ to_bits r v)
          (front ++ last_part r v)
  unfolding read_bits last_part
  Loads-read_bits front zero v n hb hr hv e =
      let fits = enough_room ((n + 7) / 8) in
      let full : n / 8 ≡ length front = omega (arith, e) in
      let rest : n % 8 ≡ 0 = omega (arith, e) in
      let none' = drop-replicate (length front) ((n + 7) / 8) (omega (arith, e)) in
      rw (fits, full, rest, none')
        (Loads-bind libs _ _ (unpack front) (to_bits 0 v)
          (Loads-read_bytes libs (length front) front hb refl)
          (unfold to_bits in Loads-pure libs (front ++ [])))
  Loads-read_bits front (suc k) v n hb hr hv e =
      let fits = enough_room ((n + 7) / 8) in
      let full : n / 8 ≡ length front = omega (arith, e) in
      let rest : n % 8 ≡ suc k = omega (arith, e) in
      let none' = drop-replicate ((n + 7) / 8) ((n + 7) / 8) refl in
      let digits =
        subst
          (λ t. Loads libs (on_reader libs (libs.bit_reader.read 8 (suc k))) (to_bits (suc k) v) t)
          (from_bits-to_bits (suc k) v hv)
          (Loads-read libs 8 (to_bits (suc k) v) (suc k) (length-to_bits (suc k) v)
            (within_byte (suc k) hr)) in
      let some' : (suc k == 0) ≡ false = ne→== (suc k) 0 (λ z. absurd (omega (arith, z))) in
      rw (fits, full, rest, none', some')
        (Loads-bind libs _ _ (unpack front) (to_bits (suc k) v)
          (Loads-read_bytes libs (length front) front hb refl)
          (Loads-map (on_reader libs (libs.bit_reader.read 8 (suc k)))
            (λ t. front ++ (t * 2 ^ (8 - suc k) % 256 ∷ [])) (to_bits (suc k) v) digits))

  -- `load_bits` of the bits of a proper cell gives its data back, with the zeros behind the bits.
  pub Loads-load_bits :
      {data' : List ℕ} {n : ℕ} (p : Parts data' n) → Loads libs (load_bits libs n) (bits_of p) data'
  unfolding load_bits load_bits_to_slice
  Loads-load_bits {data'} {n} p =
      Loads-ensure libs n _ (bits_of p) (omega (arith, length-bits_of p)) (
        subst (λ t. Loads libs (read_bits libs n (replicate ((n + 7) / 8) 0)) (bits_of p) t)
          (sym p.data_eq) (Loads-read_bits p.front p.r p.v n p.front_bytes p.r-lt p.v-lt p.size_eq))
