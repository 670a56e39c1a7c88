-- ===== src/Wire/Messages/RoundTrip.antt =====
-- What `encode_message` writes, `decode_message` reads; what `wrap_pdu` sends under a community,
-- `unwrap_message` returns under that community alone.
use trishul_snmp.Prelude.{
  ◌+◌, ◌≡◌, refl, arith, [], ◌++◌, pos, none, some, ok, err, length, >>=-eq-ok, length-append,
  append-nil, if◌then◌else◌, seq_eq, protocol_error,
}
use trishul_snmp.Types.{Text, octet_string}
use trishul_snmp.Wire.Bytes.{Bytes}
use trishul_snmp.Wire.Bytes.Reader.{At, Reads, At-start, At-next}
use trishul_snmp.Wire.Ber.{encode_tlv}
use trishul_snmp.Wire.Ber.RoundTrip.{
  Fits, decode_tlv-encode_tlv, encode_tlv-inverts, expect_end-At, decode_tlv-whole,
}
use trishul_snmp.Wire.Values.{value_tag, encode_content, encode_value}
use trishul_snmp.Wire.Utf8.{utf8_encode}
use trishul_snmp.Wire.Utf8.RoundTrip.{utf8_decode-utf8_encode}
use trishul_snmp.Wire.Pdus.{Pdu, pdu_tag, encode_integer, encode_pdu}
use trishul_snmp.Wire.Pdus.RoundTrip.{
  AreCanonical, read_integer, decode_pdu-encode_pdu, encode_pdu-inverts,
}
use trishul_snmp.Wire.Messages.{
  SnmpMessage, is_v2c, encode_message, decode_octet_string, decode_message, wrap_pdu,
  unwrap_message,
}

read_octet_string :
    (text : Text) (raw bs : Bytes)
    → utf8_encode text ≡ ok raw
    → encode_value (octet_string raw) ≡ ok bs
    → Fits bs
    → Reads decode_octet_string bs text
unfolding encode_value value_tag encode_content decode_octet_string
read_octet_string text raw bs e h fits = record {
  at = λ content offset rest a.
      rw ((decode_tlv-encode_tlv 0x04 raw bs h fits).at content offset rest a)
        (rw (utf8_decode-utf8_encode text raw e) refl);
}

-- From an encoding shorter than 2^32 bytes by `encode_message` of a message whose IPv4 addresses are
-- in the printed form, `decode_message` gives back the message if it is of version 1 (SNMPv2c), and
-- raises a ProtocolError for any other version.
pub decode_message-encode_message :
    (message : SnmpMessage) (bs : Bytes)
    → AreCanonical message.pdu.varbinds
    → encode_message message ≡ ok bs
    → Fits bs
    → decode_message bs ≡ (if is_v2c message.version then ok message else err protocol_error)
unfolding encode_message decode_message
decode_message-encode_message message bs c h fits =
    let (version, e₁, h₁) = >>=-eq-ok (encode_integer message.version) _ h in
    let (raw, e₂, h₂) = >>=-eq-ok (utf8_encode message.community) _ h₁ in
    let (community, e₃, h₃) = >>=-eq-ok (encode_value (octet_string raw)) _ h₂ in
    let (pdu, e₄, t) =
      >>=-eq-ok (encode_pdu message.pdu) (λ p. encode_tlv 0x30 (version ++ (community ++ p))) h₃ in
    let content : Bytes = version ++ (community ++ pdu) in
    let (inner, t₄) = encode_pdu-inverts message.pdu pdu e₄ in
    let (read, end) = decode_tlv-whole 0x30 content bs t fits in
    let size = (encode_tlv-inverts 0x30 content bs t).1 in
    let l₁ = length-append version (community ++ pdu) in
    let l₂ = length-append community pdu in
    let a₁ = At-start content in
    let a₂ = At-next version (community ++ pdu) a₁ in
    let a₃ : At content (0 + length version + length community) (pdu ++ []) =
      rw append-nil (At-next community pdu a₂) in
    rw (read, end)
      (rw
        (
          (read_integer message.version version e₁ (omega arith)).at content 0 _ a₁,
          (read_octet_string message.community raw community e₂ e₃ (omega arith)).at content _ _ a₂,
          (decode_tlv-encode_tlv (pdu_tag message.pdu.pdu_type) inner pdu t₄ (omega arith)).at
              content _ [] a₃,
          t₄,
          decode_pdu-encode_pdu message.pdu pdu c e₄ (omega arith),
          expect_end-At (At-next pdu [] a₃),
        )
        (ground arith))

-- A PDU whose IPv4 addresses are in the printed form, sent under a community in less than 2^32 bytes,
-- is received under that community, and passed over under any other one.
pub unwrap_message-wrap_pdu :
    (sent expected : Text) (pdu : Pdu) (bs : Bytes)
    → AreCanonical pdu.varbinds
    → wrap_pdu sent pdu ≡ ok bs
    → Fits bs
    → unwrap_message expected bs ≡ ok (if seq_eq sent expected then some pdu else none)
unfolding wrap_pdu unwrap_message
unwrap_message-wrap_pdu sent expected pdu bs c h fits =
    let message : SnmpMessage = record { version = pos 1; community = sent; pdu = pdu } in
    let decoded : decode_message bs ≡ ok message =
      decode_message-encode_message message bs c h fits in
    rw decoded refl
