-- ===== src/Wire/Messages.antt =====
-- trishul_snmp/wire/message.py: SNMPv2c messages, and trishul_snmp/security/community.py, which
-- wraps and unwraps them.
pub mod RoundTrip
pub mod Ends
use trishul_snmp.Prelude.{
  ℕ, List, ◌∷◌, ◌++◌, ℤ, pos, negsuc, Bool, true, false, not, Option, none, some, Result, ok, err,
  protocol_error, ◌>>=◌, ◌>>◌, raise_if, seq_eq, ◌==◌, if◌then◌else◌,
}
use trishul_snmp.Types.{Text, octet_string}
use trishul_snmp.Wire.Bytes.{Bytes}
use trishul_snmp.Wire.Ber.{Tlv, encode_tlv, decode_tlv, expect_end}
use trishul_snmp.Wire.Values.{encode_value}
use trishul_snmp.Wire.Utf8.{utf8_encode, utf8_decode}
use trishul_snmp.Wire.Pdus.{Pdu, encode_integer, encode_pdu, decode_integer_from, decode_pdu}

pub record SnmpMessage : Type 0 where
  pub version : ℤ
  pub community : Text
  pub pdu : Pdu

unfoldable pub encode_message : SnmpMessage → Result Bytes
unfolding encode_integer encode_value encode_pdu utf8_encode
encode_message message = do
  version ← encode_integer message.version
  community ← utf8_encode message.community
  community ← encode_value (octet_string community)
  pdu ← encode_pdu message.pdu
  encode_tlv 0x30 (version ++ (community ++ pdu))

unfoldable pub decode_octet_string : Bytes → ℕ → Result (Text × ℕ)
unfolding utf8_decode
decode_octet_string data' offset = do
  (t, new_offset) ← decode_tlv data' offset
  raise_if (not (t.tag == 0x04)) protocol_error
  text ← utf8_decode t.content
  ok (text, new_offset)

abbrev pub is_v2c : ℤ → Bool
is_v2c (pos n) = n == 1
is_v2c (negsuc n) = false

-- `_decode_integer` is `_decode_integer_from` of pdu.py.
unfoldable pub decode_message : Bytes → Result SnmpMessage
unfolding decode_integer_from decode_octet_string decode_pdu
decode_message data' = do
  (t, offset) ← decode_tlv data' 0
  raise_if (not (t.tag == 0x30)) protocol_error
  expect_end data' offset
  (version, o₁) ← decode_integer_from t.content 0
  (community, o₂) ← decode_octet_string t.content o₁
  (p, o₃) ← decode_tlv t.content o₂
  encoded ← encode_tlv p.tag p.content
  pdu ← decode_pdu encoded
  expect_end t.content o₃
  raise_if (not (is_v2c version)) protocol_error
  ok (record { version = version; community = community; pdu = pdu })

-- `CommunityModel.wrap_pdu`
unfoldable pub wrap_pdu : Text → Pdu → Result Bytes
unfolding encode_message
wrap_pdu community pdu =
    encode_message (record { version = pos 1; community = community; pdu = pdu })

-- `CommunityModel.unwrap_message`
unfoldable pub unwrap_message : Text → Bytes → Result (Option Pdu)
unfolding decode_message seq_eq
unwrap_message community data' = do
  message ← decode_message data'
  ok (if seq_eq message.community community then some message.pdu else none)
