-- ===== src/Wire/Oids/RoundTrip.antt =====
-- `decode_oid` reads what `encode_oid` writes.
use trishul_snmp.Prelude.{
  ℕ, zero, suc, ◌+◌, ◌*◌, ◌≤◌, ◌<◌, ◌≡◌, refl, arith, List, [], ◌∷◌, ok, err, value_error, length,
  Bool-cases, inl, inr, lt→ltb, le→ltb, ltb, length-append,
}
use trishul_snmp.Types.{Oid}
use trishul_snmp.Wire.Bytes.{Bytes}
use trishul_snmp.Wire.Bytes.Reader.{At, At-start, At-next}
use trishul_snmp.Wire.Oids.{
  encode_base128, encode_arcs, encode_oid, decode_arcs, first_arcs, decode_oid,
}
use trishul_snmp.Wire.Oids.Arcs.{decode-encode_base128, length-encode_base128-pos}

read_arcs :
    (arcs : List ℕ) (fuel : ℕ) (content : Bytes) (offset : ℕ)
    → length (encode_arcs arcs) ≤ fuel
    → At content offset (encode_arcs arcs)
    → decode_arcs fuel content offset ≡ ok arcs
unfolding decode_arcs encode_arcs
read_arcs [] zero content offset h a =
    rw (le→ltb offset (length content) (omega (arith, a.size))) refl
read_arcs [] (suc fuel) content offset h a =
    rw (le→ltb offset (length content) (omega (arith, a.size))) refl
read_arcs (arc ∷ arcs) zero content offset h a = absurd (
    omega
      (arith, length-encode_base128-pos arc, length-append (encode_base128 arc) (encode_arcs arcs)))
read_arcs (arc ∷ arcs) (suc fuel) content offset h a =
    let one = length-encode_base128-pos arc in
    let both = length-append (encode_base128 arc) (encode_arcs arcs) in
    rw
      (
        lt→ltb offset (length content) (omega (arith, a.size, one, both)),
        (decode-encode_base128 arc).at content offset (encode_arcs arcs) a,
        read_arcs arcs fuel content (offset + length (encode_base128 arc))
            (omega (arith, one, both)) (At-next (encode_base128 arc) (encode_arcs arcs) a),
      )
      refl

first_arcs-inverts :
    (first second : ℕ)
    → first ≤ 2
    → (first < 2 → second < 40)
    → first_arcs (first * 40 + second) ≡ first ∷ second ∷ []
unfolding first_arcs
first_arcs-inverts first second h k = elim (Bool-cases (ltb first 2)) [
  | inl low ↦ ground (arith, k)
  | inr high ↦ let e : first ≡ 2 = ground arith in rw e (ground arith)
]

decode_first :
    (first second : ℕ) (arcs : List ℕ)
    → first ≤ 2
    → (first < 2 → second < 40)
    → decode_oid ((first * 40 + second) ∷ encode_arcs arcs) ≡ ok (first ∷ second ∷ arcs)
unfolding decode_oid
decode_first first second arcs h k =
    let content : Bytes = (first * 40 + second) ∷ encode_arcs arcs in
    rw
      (
        read_arcs arcs (length content) content 1 (omega arith)
            (At-next ((first * 40 + second) ∷ []) (encode_arcs arcs) (At-start content)),
        first_arcs-inverts first second h k,
      )
      refl

pub decode_oid-encode_oid :
    (oid : Oid) (bs : Bytes) → encode_oid oid ≡ ok bs → decode_oid bs ≡ ok oid
unfolding encode_oid
decode_oid-encode_oid [] bs h = cc
decode_oid-encode_oid (first ∷ []) bs h = cc
decode_oid-encode_oid (first ∷ second ∷ arcs) bs h =
    let e : bs ≡ (first * 40 + second) ∷ encode_arcs arcs = ground arith in
    rw e (decode_first first second arcs (ground arith) (λ l. ground arith))

-- `encode_oid` refuses exactly the identifiers with fewer than two arcs, or whose first two arcs
-- no byte can hold.
pub encode_oid-accepts :
    (first second : ℕ) (arcs : List ℕ)
    → first ≤ 2
    → (first < 2 → second < 40)
    → first * 40 + second < 256
    → encode_oid (first ∷ second ∷ arcs) ≡ ok ((first * 40 + second) ∷ encode_arcs arcs)
unfolding encode_oid
encode_oid-accepts first second arcs h k small = elim (Bool-cases (ltb first 2)) [
  | inl low ↦ ground (arith, k)
  | inr high ↦ ground arith
]

-- An identifier under 2 whose second arc is 176 or more is refused with a ValueError.
pub encode_oid-wide_second :
    (second : ℕ) (arcs : List ℕ) → 176 ≤ second → encode_oid (2 ∷ second ∷ arcs) ≡ err value_error
unfolding encode_oid
encode_oid-wide_second second arcs h = ground arith
