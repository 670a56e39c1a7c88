-- ===== src/Wire/V3Messages/RoundTrip.antt =====
-- What `encode_scoped_pdu` writes, `decode_scoped_pdu` reads.
use trishul_snmp.Prelude.{
  ◌+◌, ◌≡◌, refl, arith, [], ◌++◌, ok, length, >>=-eq-ok, length-append, append-nil,
}
use trishul_snmp.Wire.Bytes.{Bytes}
use trishul_snmp.Wire.Bytes.Reader.{At, Reads, At-start, At-next}
use trishul_snmp.Wire.Ber.{encode_tlv}
use trishul_snmp.Wire.Ber.RoundTrip.{
  Fits, decode_tlv-encode_tlv, encode_tlv-inverts, expect_end-At, decode_tlv-whole,
}
use trishul_snmp.Wire.Pdus.{Pdu, pdu_tag, encode_pdu}
use trishul_snmp.Wire.Pdus.RoundTrip.{AreCanonical, decode_pdu-encode_pdu, encode_pdu-inverts}
use trishul_snmp.Wire.V3Messages.{decode_octet_bytes, encode_scoped_pdu, decode_scoped_pdu}

pub read_octet_bytes :
    (raw bs : Bytes) → encode_tlv 0x04 raw ≡ ok bs → Fits bs → Reads decode_octet_bytes bs raw
unfolding decode_octet_bytes
read_octet_bytes raw bs h fits = record {
  at = λ content offset rest a.
      rw ((decode_tlv-encode_tlv 0x04 raw bs h fits).at content offset rest a) refl;
}

-- From fewer than 2^32 bytes `decode_scoped_pdu` gives back the engine id, the context name and the
-- PDU that `encode_scoped_pdu` encodes, if the PDU's IPv4 addresses are in the printed form.
pub decode_scoped_pdu-encode_scoped_pdu :
    (engine_id context_name : Bytes) (pdu : Pdu) (bs : Bytes)
    → AreCanonical pdu.varbinds
    → encode_scoped_pdu engine_id context_name pdu ≡ ok bs
    → Fits bs
    → decode_scoped_pdu bs
      ≡ ok (record { engine_id = engine_id; context_name = context_name; pdu = pdu })
unfolding encode_scoped_pdu decode_scoped_pdu
decode_scoped_pdu-encode_scoped_pdu engine_id context_name pdu bs c h fits =
    let (engine, e₁, h₁) = >>=-eq-ok (encode_tlv 0x04 engine_id) _ h in
    let (context, e₂, h₂) = >>=-eq-ok (encode_tlv 0x04 context_name) _ h₁ in
    let (body, e₃, t) =
      >>=-eq-ok (encode_pdu pdu) (λ p. encode_tlv 0x30 (engine ++ (context ++ p))) h₂ in
    let content : Bytes = engine ++ (context ++ body) in
    let (inner, t₃) = encode_pdu-inverts pdu body e₃ in
    let (read, end) = decode_tlv-whole 0x30 content bs t fits in
    let size = (encode_tlv-inverts 0x30 content bs t).1 in
    let l₁ = length-append engine (context ++ body) in
    let l₂ = length-append context body in
    let a₁ = At-start content in
    let a₂ = At-next engine (context ++ body) a₁ in
    let a₃ : At content (0 + length engine + length context) (body ++ []) =
      rw append-nil (At-next context body a₂) in
    rw (read, end)
      (rw
        (
          (read_octet_bytes engine_id engine e₁ (omega arith)).at content 0 _ a₁,
          (read_octet_bytes context_name context e₂ (omega arith)).at content _ _ a₂,
          (decode_tlv-encode_tlv (pdu_tag pdu.pdu_type) inner body t₃ (omega arith)).at content _ []
              a₃,
          t₃,
          decode_pdu-encode_pdu pdu body c e₃ (omega arith),
          expect_end-At (At-next body [] a₃),
        )
        refl)
