-- ===== src/Wire/Oids/Ends.antt =====
-- The decoding loops of object identifiers end on every input, and move forward.
use trishul_snmp.Prelude.{
  ℕ, zero, suc, ◌+◌, ◌*◌, ◌/◌, ◌%◌, ◌≤◌, ◌<◌, ◌≡◌, arith, [], ◌∷◌, ok, Option-cases, Bool-cases,
  inl, inr, length, Ends, get_elem?, get_elem?-lt, ltb, ◌==◌, le→ltb, Ends-bind,
}
use trishul_snmp.Wire.Bytes.{Bytes}
use trishul_snmp.Wire.Oids.{decode_base128_loop, decode_base128, decode_arcs, decode_oid}

-- Out of rounds only behind the end of the input, where there is no byte to read.
decode_base128_loop-Ends :
    (fuel : ℕ) (content : Bytes) (value offset : ℕ)
    → length content < offset + fuel
    → offset ≤ length content
    → Ends (decode_base128_loop fuel content value offset)
unfolding decode_base128_loop
decode_base128_loop-Ends zero content value offset h k = absurd (omega arith)
decode_base128_loop-Ends (suc fuel) content value offset h k =
    elim (Option-cases (get_elem? content offset)) [
      | inl e ↦ rw e (λ p. cc)
      | inr (b, e) ↦
          let inside = get_elem?-lt content offset b e in
          let more =
            decode_base128_loop-Ends fuel content (value * 128 + b % 128) (offset + 1) (omega arith)
              (omega arith) in
          elim (Bool-cases (b / 128 % 2 == 0)) [
            | inl last ↦ rw (e, last) (λ p. cc)
            | inr p ↦ rw (e, p) more
          ]
    ]

pub decode_base128-Ends :
    (content : Bytes) (offset : ℕ) → offset ≤ length content → Ends (decode_base128 content offset)
unfolding decode_base128
decode_base128-Ends content offset h =
    decode_base128_loop-Ends (suc (length content)) content 0 offset (omega arith) h

decode_base128_loop_moves :
    (fuel : ℕ) (content : Bytes) (value offset arc next : ℕ)
    → decode_base128_loop fuel content value offset ≡ ok (arc, next)
    → (offset < next) × (next ≤ length content)
unfolding decode_base128_loop
decode_base128_loop_moves zero content value offset arc next h = cc
decode_base128_loop_moves (suc fuel) content value offset arc next h =
    elim (Option-cases (get_elem? content offset)) [
      | inl e ↦ absurd (cc (rw e at h))
      | inr (b, e) ↦
          let inside = get_elem?-lt content offset b e in
          elim (Bool-cases (b / 128 % 2 == 0)) [
            | inl last ↦ ground (arith, e)
            | inr p ↦
                let further =
                  decode_base128_loop_moves fuel content (value * 128 + b % 128) (offset + 1) arc
                    next (rw (e, p) at h) in
                omega (arith, further)
          ]
    ]

-- An arc that is read takes a byte at least and ends within the input.
pub decode_base128_moves :
    (content : Bytes) (offset arc next : ℕ)
    → decode_base128 content offset ≡ ok (arc, next)
    → (offset < next) × (next ≤ length content)
unfolding decode_base128
decode_base128_moves content offset arc next h =
    decode_base128_loop_moves (suc (length content)) content 0 offset arc next h

decode_arcs-Ends :
    (fuel : ℕ) (content : Bytes) (offset : ℕ)
    → length content ≤ offset + fuel
    → Ends (decode_arcs fuel content offset)
unfolding decode_arcs
decode_arcs-Ends zero content offset h = rw (le→ltb offset (length content) (omega arith)) (λ p. cc)
decode_arcs-Ends (suc fuel) content offset h = elim (Bool-cases (ltb offset (length content))) [
  | inl inside ↦ rw inside (
      Ends-bind (decode_base128 content offset) _
        (decode_base128-Ends content offset (ground arith))
        (λ p e.
          let moves = decode_base128_moves content offset p.0 p.1 e in
          Ends-bind (decode_arcs fuel content p.1) _
            (decode_arcs-Ends fuel content p.1 (omega arith)) (λ arcs f q. cc)))
  | inr done ↦ rw done (λ p. cc)
]

pub decode_oid-Ends : (bs : Bytes) → Ends (decode_oid bs)
unfolding decode_oid
decode_oid-Ends [] = λ p. cc
decode_oid-Ends (first ∷ rest) =
    Ends-bind (decode_arcs (length (first ∷ rest)) (first ∷ rest) 1) _
      (decode_arcs-Ends (length (first ∷ rest)) (first ∷ rest) 1 (omega arith)) (λ arcs e q. cc)
