-- ===== src/Wire/Pdus/Ends.antt =====
-- The decoders of PDUs end on every input: their loops never run out of rounds.
use trishul_snmp.Prelude.{
  ℕ, zero, suc, ◌+◌, ◌≤◌, ◌≡◌, ap, arith, Bool, true, false, ok, protocol_error, Result, length,
  raise_if, Ends, Ends-bind, Bool-cases, inl, inr, ltb, not, ◌==◌, Option, none, some, require,
  le→ltb, >>=-eq-ok, ◌>>◌,
}
use trishul_snmp.Types.{Oid, SnmpValue}
use trishul_snmp.Wire.Bytes.{Bytes}
use trishul_snmp.Wire.Ber.{encode_tlv, decode_tlv, expect_end}
use trishul_snmp.Wire.Ber.Bounds.{
  decode_tlv_bounds, decode_tlv-Ends, expect_end-Ends, encode_tlv-Ends,
}
use trishul_snmp.Wire.Integers.{decode_signed_integer}
use trishul_snmp.Wire.Oids.{decode_oid}
use trishul_snmp.Wire.Oids.Ends.{decode_oid-Ends}
use trishul_snmp.Wire.Values.{decode_value}
use trishul_snmp.Wire.Values.Ends.{decode_value-Ends, decode_signed_integer-Ends}
use trishul_snmp.Wire.Pdus.{
  RawVarBind, pdu_type_of, decode_integer_from, decode_oid_from, decode_varbind, decode_varbinds,
  decode_varbind_list, decode_pdu,
}

pub raise_if-Ends : (b : Bool) → Ends (raise_if b protocol_error)
raise_if-Ends true = λ p. cc
raise_if-Ends false = λ p. cc

pub require-Ends {ℓ} : {A : Type ℓ} (o : Option A) → Ends (require o protocol_error)
require-Ends none = λ p. cc
require-Ends (some a) = λ p. cc

-- A step of a chain that decodes a field, and one that only tests.
pub Ends-test :
    {B : Type 0} (b : Bool) (r : Result B) → Ends r → Ends (raise_if b protocol_error >> r)
Ends-test true r h = λ p. cc
Ends-test false r h = h

pub decode_integer_from-Ends :
    (content : Bytes) (offset : ℕ) → Ends (decode_integer_from content offset)
unfolding decode_integer_from
decode_integer_from-Ends content offset =
    Ends-bind (decode_tlv content offset) _ (decode_tlv-Ends content offset) (λ p e.
      Ends-test (not (p.0.tag == 0x02)) _ (
        Ends-bind (decode_signed_integer p.0.content) _ (decode_signed_integer-Ends p.0.content)
          (λ v f q. cc)))

decode_oid_from-Ends : (content : Bytes) (offset : ℕ) → Ends (decode_oid_from content offset)
unfolding decode_oid_from
decode_oid_from-Ends content offset =
    Ends-bind (decode_tlv content offset) _ (decode_tlv-Ends content offset) (λ p e.
      Ends-test (not (p.0.tag == 0x06)) _
        (Ends-bind (decode_oid p.0.content) _ (decode_oid-Ends p.0.content) (λ v f q. cc)))

decode_varbind-Ends : (content : Bytes) (offset : ℕ) → Ends (decode_varbind content offset)
unfolding decode_varbind
decode_varbind-Ends content offset =
    Ends-bind (decode_tlv content offset) _ (decode_tlv-Ends content offset) (λ p e.
      Ends-test (not (p.0.tag == 0x30)) _ (
        Ends-bind (decode_oid_from p.0.content 0) _ (decode_oid_from-Ends p.0.content 0) (λ name f.
          Ends-bind (decode_tlv p.0.content name.1) _ (decode_tlv-Ends p.0.content name.1) (λ v g.
            Ends-bind (encode_tlv v.0.tag v.0.content) _ (encode_tlv-Ends v.0.tag v.0.content)
              (λ bs k. Ends-bind (decode_value bs) _ (decode_value-Ends bs) (λ value l.
                Ends-bind (expect_end p.0.content v.1) _ (expect_end-Ends p.0.content v.1)
                  (λ u m q. cc)))))))

abbrev varbind : Oid → SnmpValue → RawVarBind
varbind oid value = record { oid = oid; value = value }

decode_varbind_moves :
    (content : Bytes) (offset : ℕ) (p : RawVarBind × ℕ)
    → decode_varbind content offset ≡ ok p
    → offset + 2 ≤ p.1
unfolding decode_varbind
decode_varbind_moves content offset p h =
    let (t, e, h₁) = >>=-eq-ok (decode_tlv content offset) _ h in
    let (_, _, h₂) = >>=-eq-ok (raise_if (not (t.0.tag == 0x30)) protocol_error) _ h₁ in
    let (name, _, h₃) = >>=-eq-ok (decode_oid_from t.0.content 0) _ h₂ in
    let (v, _, h₄) = >>=-eq-ok (decode_tlv t.0.content name.1) _ h₃ in
    let (bs, _, h₅) = >>=-eq-ok (encode_tlv v.0.tag v.0.content) _ h₄ in
    let (value, _, h₆) = >>=-eq-ok (decode_value bs) _ h₅ in
    let (_, _, h₇) =
      >>=-eq-ok (expect_end t.0.content v.1) (λ _. ok (varbind name.0 value, t.1)) h₆ in
    let same : (varbind name.0 value, t.1) ≡ p = cc in
    omega (arith, decode_tlv_bounds content offset t.0 t.1 e, ap (λ q. q.1) same)

decode_varbinds-Ends :
    (fuel : ℕ) (content : Bytes) (offset : ℕ)
    → length content ≤ offset + fuel
    → Ends (decode_varbinds fuel content offset)
unfolding decode_varbinds
decode_varbinds-Ends zero content offset h =
    rw (le→ltb offset (length content) (omega arith)) (λ p. cc)
decode_varbinds-Ends (suc fuel) content offset h = elim (Bool-cases (ltb offset (length content))) [
  | inl inside ↦ rw inside (
      Ends-bind (decode_varbind content offset) _ (decode_varbind-Ends content offset) (λ p e.
        Ends-bind (decode_varbinds fuel content p.1) _
          (decode_varbinds-Ends fuel content p.1
            (omega (arith, decode_varbind_moves content offset p e)))
          (λ rest f q. cc)))
  | inr done ↦ rw done (λ p. cc)
]

pub decode_varbind_list-Ends :
    (content : Bytes) (offset : ℕ) → Ends (decode_varbind_list content offset)
unfolding decode_varbind_list
decode_varbind_list-Ends content offset =
    Ends-bind (decode_tlv content offset) _ (decode_tlv-Ends content offset) (λ p e.
      Ends-test (not (p.0.tag == 0x30)) _ (
        Ends-bind (decode_varbinds (length p.0.content) p.0.content 0) _
          (decode_varbinds-Ends (length p.0.content) p.0.content 0 (omega arith))
          (λ vbs f.
            Ends-bind (expect_end p.0.content vbs.1) _ (expect_end-Ends p.0.content vbs.1)
              (λ u g q. cc))))

pub decode_pdu-Ends : (bs : Bytes) → Ends (decode_pdu bs)
unfolding decode_pdu
decode_pdu-Ends bs = Ends-bind (decode_tlv bs 0) _ (decode_tlv-Ends bs 0) (λ p e.
    Ends-bind (expect_end bs p.1) _ (expect_end-Ends bs p.1) (λ u f.
      Ends-bind (require (pdu_type_of p.0.tag) protocol_error) _
        (require-Ends (pdu_type_of p.0.tag))
        (λ t g.
          Ends-bind (decode_integer_from p.0.content 0) _ (decode_integer_from-Ends p.0.content 0)
            (λ a k.
              Ends-bind (decode_integer_from p.0.content a.1) _
                (decode_integer_from-Ends p.0.content a.1)
                (λ b l.
                  Ends-bind (decode_integer_from p.0.content b.1) _
                    (decode_integer_from-Ends p.0.content b.1)
                    (λ c m.
                      Ends-bind (decode_varbind_list p.0.content c.1) _
                        (decode_varbind_list-Ends p.0.content c.1)
                        (λ d n.
                          Ends-bind (expect_end p.0.content d.1) _ (expect_end-Ends p.0.content d.1)
                            (λ w o q. cc))))))))
