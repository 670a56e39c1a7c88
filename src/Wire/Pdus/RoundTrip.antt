-- ===== src/Wire/Pdus/RoundTrip.antt =====
-- What the encoders of PDUs write, their decoders read.
use trishul_snmp.Prelude.{
  ℕ, zero, suc, ◌+◌, ◌≤◌, ◌≡◌, refl, sym, ap, ◌∙◌, arith, List, [], ◌∷◌, ◌++◌, ℤ, some, ok, length,
  >>=-eq-ok, All, length-append, lt→ltb, le→ltb, append-nil,
}
use trishul_snmp.Types.{Oid, object_identifier}
use trishul_snmp.Wire.Bytes.{Bytes}
use trishul_snmp.Wire.Bytes.Reader.{At, Reads, At-start, At-first, At-next}
use trishul_snmp.Wire.Ber.{encode_tlv}
use trishul_snmp.Wire.Ber.RoundTrip.{
  Fits, decode_tlv-encode_tlv, encode_tlv-inverts, expect_end-At, decode_tlv-whole,
}
use trishul_snmp.Wire.Integers.{encode_signed_integer}
use trishul_snmp.Wire.Integers.RoundTrip.{decode-encode_signed}
use trishul_snmp.Wire.Oids.{encode_oid}
use trishul_snmp.Wire.Oids.RoundTrip.{decode_oid-encode_oid}
use trishul_snmp.Wire.Values.{value_tag, encode_content, encode_value}
use trishul_snmp.Wire.Values.RoundTrip.{
  IsCanonical, encode_value-inverts, decode_value-encode_value,
}
use trishul_snmp.Wire.Pdus.{
  PduType, get, pdu_tag, pdu_type_of, RawVarBind, Pdu, encode_integer, encode_varbind,
  encode_varbinds, encode_varbind_list, encode_pdu, decode_integer_from, decode_oid_from,
  decode_varbind, decode_varbinds, decode_varbind_list, decode_pdu,
}

pub read_integer :
    (v : ℤ) (bs : Bytes) → encode_integer v ≡ ok bs → Fits bs → Reads decode_integer_from bs v
unfolding encode_integer encode_value value_tag encode_content decode_integer_from
read_integer v bs h fits = record {
  at = λ content offset rest a.
      rw ((decode_tlv-encode_tlv 0x02 (encode_signed_integer v) bs h fits).at content offset rest a)
        (rw (decode-encode_signed v) refl);
}

read_oid :
    (oid : Oid) (bs : Bytes)
    → encode_value (object_identifier oid) ≡ ok bs
    → Fits bs
    → Reads decode_oid_from bs oid
unfolding encode_value value_tag encode_content decode_oid_from
read_oid oid bs h fits =
    let (content, e, t) = >>=-eq-ok (encode_oid oid) (encode_tlv 0x06) h in
    record {
      at = λ whole offset rest a.
          rw ((decode_tlv-encode_tlv 0x06 content bs t fits).at whole offset rest a)
            (rw (decode_oid-encode_oid oid content e) refl);
    }

read_varbind :
    (vb : RawVarBind) (bs : Bytes)
    → IsCanonical vb.value
    → encode_varbind vb ≡ ok bs
    → Fits bs
    → Reads decode_varbind bs vb
unfolding encode_varbind decode_varbind
read_varbind vb bs c h fits =
    let (name, e₁, h₁) = >>=-eq-ok (encode_value (object_identifier vb.oid)) _ h in
    let (value, e₂, t) = >>=-eq-ok (encode_value vb.value) (λ v. encode_tlv 0x30 (name ++ v)) h₁ in
    let size = (encode_tlv-inverts 0x30 (name ++ value) bs t).1 in
    let both = length-append name value in
    let (inner, e₃, t₃) = encode_value-inverts vb.value value e₂ in
    let a₀ = At-start (name ++ value) in
    let a₁ : At (name ++ value) (0 + length name) (value ++ []) =
      rw append-nil (At-next name value a₀) in
    record {
      at = λ whole offset rest a.
          rw ((decode_tlv-encode_tlv 0x30 (name ++ value) bs t fits).at whole offset rest a) (
            rw
              (
                (read_oid vb.oid name e₁ (omega arith)).at (name ++ value) 0 value a₀,
                (decode_tlv-encode_tlv (value_tag vb.value) inner value t₃ (omega arith)).at
                    (name ++ value) (0 + length name) [] a₁,
                t₃,
                decode_value-encode_value vb.value value c e₂ (omega arith),
                expect_end-At (At-next value [] a₁),
              )
              refl);
    }

encode_varbind-pos : (vb : RawVarBind) (bs : Bytes) → encode_varbind vb ≡ ok bs → 1 ≤ length bs
unfolding encode_varbind
encode_varbind-pos vb bs h =
    let (name, e₁, h₁) = >>=-eq-ok (encode_value (object_identifier vb.oid)) _ h in
    let (value, e₂, t) = >>=-eq-ok (encode_value vb.value) (λ v. encode_tlv 0x30 (name ++ v)) h₁ in
    omega (arith, encode_tlv-inverts 0x30 (name ++ value) bs t)

encode_varbinds-inverts :
    (vb : RawVarBind) (vbs : List RawVarBind) (bs : Bytes)
    → encode_varbinds (vb ∷ vbs) ≡ ok bs
    → (first : Bytes) × (rest : Bytes) × (encode_varbind vb ≡ ok first)
      × (encode_varbinds vbs ≡ ok rest)
      × (first ++ rest ≡ bs)
unfolding encode_varbinds
encode_varbinds-inverts vb vbs bs h =
    let (first, e₁, h₁) = >>=-eq-ok (encode_varbind vb) _ h in
    let (rest, e₂, h₂) = >>=-eq-ok (encode_varbinds vbs) (λ rest. ok (first ++ rest)) h₁ in
    (first, rest, e₁, e₂, cc)

-- Every address among the values is in its printed form.
abbrev pub AreCanonical : List RawVarBind → Type 0
AreCanonical = All (λ (vb : RawVarBind). IsCanonical vb.value)

read_varbinds :
    (vbs : List RawVarBind) (bs : Bytes) (fuel : ℕ) (content : Bytes) (offset : ℕ)
    → AreCanonical vbs
    → encode_varbinds vbs ≡ ok bs
    → Fits bs
    → length bs ≤ fuel
    → At content offset bs
    → decode_varbinds fuel content offset ≡ ok (vbs, offset + length bs)
unfolding encode_varbinds decode_varbinds
read_varbinds [] bs zero content offset c h fits f a =
    let e : [] ≡ bs = cc in
    let a' : At content offset [] = rw (← e) at a in
    rw (le→ltb offset (length content) (omega (arith, a'.size)), ← e) (ground arith)
read_varbinds [] bs (suc fuel) content offset c h fits f a =
    let e : [] ≡ bs = cc in
    let a' : At content offset [] = rw (← e) at a in
    rw (le→ltb offset (length content) (omega (arith, a'.size)), ← e) (ground arith)
read_varbinds (vb ∷ vbs) bs zero content offset c h fits f a =
    let (first, rest, e₁, e₂, e) = encode_varbinds-inverts vb vbs bs h in
    absurd (omega (arith, encode_varbind-pos vb first e₁, length-append first rest, ap length e))
read_varbinds (vb ∷ vbs) bs (suc fuel) content offset c h fits f a =
    let (first, rest, e₁, e₂, e) = encode_varbinds-inverts vb vbs bs h in
    let one = encode_varbind-pos vb first e₁ in
    let size : length first + length rest ≡ length bs =
      sym (length-append first rest) ∙ ap length e in
    let a' : At content offset (first ++ rest) = rw e a in
    let b = At-next first rest a' in
    rw
      (
        lt→ltb offset (length content) (omega (arith, a.size, size, one)),
        (read_varbind vb first c.0 e₁ (omega (arith, size))).at content offset rest a',
        read_varbinds vbs rest fuel content (offset + length first) c.1 e₂ (omega (arith, size))
            (omega (arith, size, one)) b,
      )
      (ground (arith, size))

read_varbind_list :
    (vbs : List RawVarBind) (bs : Bytes)
    → AreCanonical vbs
    → encode_varbind_list vbs ≡ ok bs
    → Fits bs
    → Reads decode_varbind_list bs vbs
unfolding encode_varbind_list decode_varbind_list
read_varbind_list vbs bs c h fits =
    let (content, e, t) = >>=-eq-ok (encode_varbinds vbs) (encode_tlv 0x30) h in
    let size = (encode_tlv-inverts 0x30 content bs t).1 in
    record {
      at = λ whole offset rest a.
          rw
            (
              (decode_tlv-encode_tlv 0x30 content bs t fits).at whole offset rest a,
              read_varbinds vbs content (length content) content 0 c e (omega arith) (omega arith)
                  (At-start content),
            )
            (rw (expect_end-At (At-next content [] (At-first content))) refl);
    }

pdu_type_of-pdu_tag : (t : PduType) → pdu_type_of (pdu_tag t) ≡ some t
unfolding pdu_type_of pdu_tag
pdu_type_of-pdu_tag get = refl
pdu_type_of-pdu_tag _ = refl

-- From fewer than 2^32 bytes `decode_pdu` gives back every PDU that `encode_pdu` encodes, if its IPv4
-- addresses are in the printed form: its type, its three integers of any size and sign, and its
-- bindings in order.
pub decode_pdu-encode_pdu :
    (pdu : Pdu) (bs : Bytes)
    → AreCanonical pdu.varbinds
    → encode_pdu pdu ≡ ok bs
    → Fits bs
    → decode_pdu bs ≡ ok pdu
unfolding encode_pdu decode_pdu
decode_pdu-encode_pdu pdu bs c h fits =
    let (id, e₁, h₁) = >>=-eq-ok (encode_integer pdu.request_id) _ h in
    let (status, e₂, h₂) = >>=-eq-ok (encode_integer pdu.error_status) _ h₁ in
    let (index, e₃, h₃) = >>=-eq-ok (encode_integer pdu.error_index) _ h₂ in
    let (vbs, e₄, t) =
      >>=-eq-ok (encode_varbind_list pdu.varbinds)
        (λ v. encode_tlv (pdu_tag pdu.pdu_type) (id ++ (status ++ (index ++ v)))) h₃ in
    let content : Bytes = id ++ (status ++ (index ++ vbs)) in
    let (read, end) = decode_tlv-whole (pdu_tag pdu.pdu_type) content bs t fits in
    let size = (encode_tlv-inverts (pdu_tag pdu.pdu_type) content bs t).1 in
    let l₁ = length-append id (status ++ (index ++ vbs)) in
    let l₂ = length-append status (index ++ vbs) in
    let l₃ = length-append index vbs in
    let a₁ = At-start content in
    let a₂ = At-next id (status ++ (index ++ vbs)) a₁ in
    let a₃ = At-next status (index ++ vbs) a₂ in
    let a₄ : At content (0 + length id + length status + length index) (vbs ++ []) =
      rw append-nil (At-next index vbs a₃) in
    rw (read, end, pdu_type_of-pdu_tag pdu.pdu_type)
      (rw
        (
          (read_integer pdu.request_id id e₁ (omega arith)).at content 0 _ a₁,
          (read_integer pdu.error_status status e₂ (omega arith)).at content _ _ a₂,
          (read_integer pdu.error_index index e₃ (omega arith)).at content _ _ a₃,
          (read_varbind_list pdu.varbinds vbs c e₄ (omega arith)).at content _ [] a₄,
          expect_end-At (At-next vbs [] a₄),
        )
        refl)

-- The field that an encoded PDU is.
pub encode_pdu-inverts :
    (pdu : Pdu) (bs : Bytes)
    → encode_pdu pdu ≡ ok bs
    → (content : Bytes) × (encode_tlv (pdu_tag pdu.pdu_type) content ≡ ok bs)
unfolding encode_pdu
encode_pdu-inverts pdu bs h =
    let (id, e₁, h₁) = >>=-eq-ok (encode_integer pdu.request_id) _ h in
    let (status, e₂, h₂) = >>=-eq-ok (encode_integer pdu.error_status) _ h₁ in
    let (index, e₃, h₃) = >>=-eq-ok (encode_integer pdu.error_index) _ h₂ in
    let (vbs, e₄, t) =
      >>=-eq-ok (encode_varbind_list pdu.varbinds)
        (λ v. encode_tlv (pdu_tag pdu.pdu_type) (id ++ (status ++ (index ++ v)))) h₃ in
    (id ++ (status ++ (index ++ vbs)), t)
