-- ===== src/Wire/Messages/Ends.antt =====
-- `decode_message` and `unwrap_message` end on every input: no datagram keeps a receiver busy.
use trishul_snmp.Prelude.{ℕ, not, ◌==◌, Ends, Ends-bind}
use trishul_snmp.Wire.Bytes.{Bytes}
use trishul_snmp.Wire.Ber.{encode_tlv, decode_tlv, expect_end}
use trishul_snmp.Wire.Ber.Bounds.{decode_tlv-Ends, expect_end-Ends, encode_tlv-Ends}
use trishul_snmp.Wire.Utf8.{utf8_decode}
use trishul_snmp.Wire.Utf8.RoundTrip.{utf8_decode-Ends}
use trishul_snmp.Wire.Pdus.{decode_integer_from, decode_pdu}
use trishul_snmp.Wire.Pdus.Ends.{Ends-test, decode_integer_from-Ends, decode_pdu-Ends}
use trishul_snmp.Wire.Messages.{decode_octet_string, decode_message, is_v2c}

decode_octet_string-Ends :
    (content : Bytes) (offset : ℕ) → Ends (decode_octet_string content offset)
unfolding decode_octet_string
decode_octet_string-Ends content offset =
    Ends-bind (decode_tlv content offset) _ (decode_tlv-Ends content offset) (λ p e.
      Ends-test (not (p.0.tag == 0x04)) _
        (Ends-bind (utf8_decode p.0.content) _ (utf8_decode-Ends p.0.content) (λ v f q. cc)))

-- On every datagram `decode_message` returns a message or raises: none of its loops runs out of
-- rounds.
pub decode_message-Ends : (bs : Bytes) → Ends (decode_message bs)
unfolding decode_message
decode_message-Ends bs = Ends-bind (decode_tlv bs 0) _ (decode_tlv-Ends bs 0) (λ t e.
    Ends-test (not (t.0.tag == 0x30)) _ (
      Ends-bind (expect_end bs t.1) _ (expect_end-Ends bs t.1) (λ u f.
        Ends-bind (decode_integer_from t.0.content 0) _ (decode_integer_from-Ends t.0.content 0)
          (λ v g.
            Ends-bind (decode_octet_string t.0.content v.1) _
              (decode_octet_string-Ends t.0.content v.1)
              (λ c k.
                Ends-bind (decode_tlv t.0.content c.1) _ (decode_tlv-Ends t.0.content c.1) (λ p l.
                  Ends-bind (encode_tlv p.0.tag p.0.content) _ (encode_tlv-Ends p.0.tag p.0.content)
                    (λ r m. Ends-bind (decode_pdu r) _ (decode_pdu-Ends r) (λ pdu n.
                      Ends-bind (expect_end t.0.content p.1) _ (expect_end-Ends t.0.content p.1)
                        (λ w o. Ends-test (not (is_v2c v.0)) _ (λ q. cc))))))))))
