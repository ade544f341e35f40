-- ===== src/Trips/Addresses.antt =====
-- Addresses of src/address.rs that go through a builder and a parser.
use tonlib_rs.Prelude.{
  ℕ, ◌%◌, ◌^◌, ◌≤◌, ◌<◌, ◌≡◌, refl, subst, List, [], ◌∷◌, ◌++◌, Bool, true, false, ◌==◌,
  if◌then◌else◌, length, length-append, replicate, arith, Bool-cases, inl, inr, append-nil,
}
use tonlib_rs.Prelude.Bits.{to_bits, length-to_bits, from_bits-to_bits, unpack, length-unpack}
use tonlib_rs.Libs.{Libs}
use tonlib_rs.Address.{TonAddress, null, address_eq, IsAddress}
use tonlib_rs.CellType.{bytes_eq}
use tonlib_rs.CellType.Bytes.{both_true, same_number, bytes_eq-true}
use tonlib_rs.Builder.Values.{store_address, store_raw_address}
use tonlib_rs.Builder.Stores.{
  Stores, Stores-then, Stores-store_number, Stores-store_bit, Stores-store_slice,
}
use tonlib_rs.Parser.{on_reader}
use tonlib_rs.Parser.Values.{load_address, load_std_address}
use tonlib_rs.Parser.Loads.{
  Loads, Loads-bind, Loads-pure, Loads-ensure, Loads-read, Loads-read_bytes,
}
use tonlib_rs.Trips.{RoundTrip}

-- The address that the bits of `a` stand for: the workchain is cut to its low byte.
abbrev pub low_workchain : TonAddress → TonAddress
low_workchain a = record { workchain = a.workchain % 256; hash_part = a.hash_part }

low_workchain-null : (a : TonAddress) → address_eq a null ≡ true → null ≡ low_workchain a
unfolding address_eq
low_workchain-null a e =
    let (w, h) = both_true (a.workchain == 0) (bytes_eq a.hash_part (replicate 32 0)) e in
    rw (same_number a.workchain 0 w, bytes_eq-true a.hash_part (replicate 32 0) h) refl

-- The number of bits of an address.
unfoldable pub address_size : TonAddress → ℕ
unfolding address_eq
address_size a = if address_eq a null then 2 else 267

pub address_size-le : (a : TonAddress) → address_size a ≤ 267
unfolding address_size
address_size-le a = ground arith

module _ (libs : Libs) where
  open libs.bit_reader use {read, read_bytes}

  Loads-read_number :
      (n val : ℕ) → n ≤ 8 → val < 2 ^ n → Loads libs (on_reader libs (read 8 n)) (to_bits n val) val
  Loads-read_number n val hn hv =
      subst (λ t. Loads libs (on_reader libs (read 8 n)) (to_bits n val) t)
        (from_bits-to_bits n val hv) (Loads-read libs 8 (to_bits n val) n (length-to_bits n val) hn)

  std_bits : TonAddress → List Bool
  std_bits a = to_bits 1 0 ++ (to_bits 8 (a.workchain % 256) ++ (unpack a.hash_part ++ []))

  length-std_bits : (a : TonAddress) → IsAddress a → length (std_bits a) ≡ 265
  unfolding std_bits
  length-std_bits a h =
      let tail = unpack a.hash_part ++ [] in
      let wc = to_bits 8 (a.workchain % 256) in
      omega (
        arith,
        h.hash_length,
        length-to_bits 1 0,
        length-to_bits 8 (a.workchain % 256),
        length-unpack a.hash_part,
        length-append (unpack a.hash_part) [],
        length-append wc tail,
        length-append (to_bits 1 0) (wc ++ tail),
      )

  Loads-load_std_address :
      (a : TonAddress)
      → IsAddress a
      → Loads libs (load_std_address libs) (std_bits a) (low_workchain a)
  unfolding load_std_address std_bits
  Loads-load_std_address a h =
      Loads-ensure libs 265 _ (std_bits a) (omega (arith, length-std_bits a h)) (
        Loads-bind libs _ _ (to_bits 1 0) _ (Loads-read_number 1 0 (omega arith) (omega arith)) (
          Loads-bind libs _ _ (to_bits 8 (a.workchain % 256)) _
            (Loads-read_number 8 (a.workchain % 256) (omega arith) (omega arith))
            (Loads-bind libs _ _ (unpack a.hash_part) []
              (Loads-read_bytes libs 32 a.hash_part h.hash_bytes h.hash_length)
              (Loads-pure libs (low_workchain a)))))

  Loads-load_address :
      (a : TonAddress)
      → IsAddress a
      → Loads libs (load_address libs) (to_bits 2 2 ++ std_bits a) (low_workchain a)
  unfolding load_address
  Loads-load_address a h =
      Loads-ensure libs 2 _ (to_bits 2 2 ++ std_bits a)
        (omega (arith, length-to_bits 2 2, length-append (to_bits 2 2) (std_bits a)))
        (Loads-bind libs _ _ (to_bits 2 2) (std_bits a)
          (Loads-read_number 2 2 (omega arith) (omega arith)) (Loads-load_std_address a h))

  Loads-load_address-null : Loads libs (load_address libs) (to_bits 2 0) null
  unfolding load_address
  Loads-load_address-null =
      subst (λ t. Loads libs (load_address libs) t null) (append-nil (to_bits 2 0))
        (Loads-ensure libs 2 _ (to_bits 2 0 ++ [])
          (omega (arith, length-to_bits 2 0, length-append (to_bits 2 0) []))
          (Loads-bind libs _ _ (to_bits 2 0) [] (Loads-read_number 2 0 (omega arith) (omega arith))
            (Loads-pure libs null)))

  Stores-store_raw_address :
      (a : TonAddress)
      → IsAddress a
      → Stores libs (store_raw_address libs a) (to_bits 2 2 ++ std_bits a)
  unfolding store_raw_address std_bits to_bits
  Stores-store_raw_address a h = rw (append-nil (unpack a.hash_part)) (
      Stores-then libs _ _ (to_bits 2 2) _
        (Stores-store_number libs 8 (omega arith) 2 2 (omega arith) (omega arith))
        (Stores-then libs _ _ (false ∷ []) _ (Stores-store_bit libs false) (
          Stores-then libs _ _ (to_bits 8 (a.workchain % 256)) _
            (Stores-store_number libs 8 (omega arith) 8 (a.workchain % 256) (omega arith)
              (omega arith))
            (Stores-store_slice libs a.hash_part h.hash_bytes))))

  trip_null :
      (a : TonAddress)
      → address_eq a null ≡ true
      → (t : RoundTrip libs (store_address libs a) (load_address libs) (low_workchain a)) × (length
            t.bits
          ≡ address_size a)
  unfolding store_address address_size
  trip_null a e = (
    record {
      bits = to_bits 2 0;
      stores = rw e (Stores-store_number libs 8 (omega arith) 2 0 (omega arith) (omega arith));
      loads =
          subst (λ t. Loads libs (load_address libs) (to_bits 2 0) t) (low_workchain-null a e)
            Loads-load_address-null;
    },
    rw e (length-to_bits 2 0),
  )

  trip_raw :
      (a : TonAddress)
      → IsAddress a
      → address_eq a null ≡ false
      → (t : RoundTrip libs (store_address libs a) (load_address libs) (low_workchain a)) × (length
            t.bits
          ≡ address_size a)
  unfolding store_address address_size
  trip_raw a h e = (
    record {
      bits = to_bits 2 2 ++ std_bits a;
      stores = rw e (Stores-store_raw_address a h);
      loads = Loads-load_address a h;
    },
    rw e (
        omega (
          arith,
          length-append (to_bits 2 2) (std_bits a),
          length-to_bits 2 2,
          length-std_bits a h,
        )),
  )

  -- The way of an address, with the number of its bits.
  pub address_trip :
      (a : TonAddress)
      → IsAddress a
      → (t : RoundTrip libs (store_address libs a) (load_address libs) (low_workchain a)) × (length
            t.bits
          ≡ address_size a)
  address_trip a h = elim (Bool-cases (address_eq a null)) [
    | inl e ↦ trip_null a e
    | inr e ↦ trip_raw a h e
  ]

  -- An address of an `i32` workchain and 32 bytes is written by `store_address`, the null address
  -- in its short form, and read back by `load_address` with the hash as it was and the low byte
  -- of the workchain in place of the workchain.
  pub load_address-store_address :
      (a : TonAddress)
      → IsAddress a
      → RoundTrip libs (store_address libs a) (load_address libs) (low_workchain a)
  load_address-store_address a h = (address_trip a h).0
