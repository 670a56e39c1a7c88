-- ===== src/Tests/Codec.antt =====
-- Messages, values and fields at concrete inputs.
use trishul_snmp.Prelude.{
  ◌≡◌, refl, [], ◌∷◌, pos, negsuc, none, ok, err, arith, Ends, value_error, seq_eq,
}
use trishul_snmp.Types.{Oid, Text, integer, null}
use trishul_snmp.Wire.Bytes.{Bytes}
use trishul_snmp.Wire.Ber.{encode_length, encode_tlv}
use trishul_snmp.Wire.Integers.{
  encode_signed_integer, decode_signed_integer, encode_unsigned_integer, decode_unsigned_integer,
}
use trishul_snmp.Wire.Integers.RoundTrip.{decode-encode_signed, decode-encode_unsigned}
use trishul_snmp.Wire.Oids.{encode_base128, encode_oid, encode_arcs}
use trishul_snmp.Wire.Oids.RoundTrip.{encode_oid-accepts, encode_oid-wide_second}
use trishul_snmp.Wire.IpAddresses.{encode_ip_address, decode_ip_address}
use trishul_snmp.Wire.IpAddresses.RoundTrip.{encode-decode_ip}
use trishul_snmp.Wire.Values.{encode_value, decode_value}
use trishul_snmp.Wire.Values.RoundTrip.{decode_value-encode_value}
use trishul_snmp.Wire.Pdus.{get, Pdu, encode_pdu, decode_pdu}
use trishul_snmp.Wire.Pdus.RoundTrip.{decode_pdu-encode_pdu}
use trishul_snmp.Wire.Messages.{
  SnmpMessage, encode_message, decode_message, wrap_pdu, unwrap_message,
}
use trishul_snmp.Wire.Messages.RoundTrip.{decode_message-encode_message, unwrap_message-wrap_pdu}
use trishul_snmp.Wire.Messages.Ends.{decode_message-Ends}

-- sysDescr.0
abbrev pub sys_descr : Oid
sys_descr = 1 ∷ 3 ∷ 6 ∷ 1 ∷ 2 ∷ 1 ∷ 1 ∷ 1 ∷ 0 ∷ []

-- "public"
abbrev pub public_name : Text
public_name = 112 ∷ 117 ∷ 98 ∷ 108 ∷ 105 ∷ 99 ∷ []

abbrev pub get_request : Pdu
get_request = record {
  pdu_type = get;
  request_id = pos 300;
  error_status = pos 0;
  error_index = pos 0;
  varbinds = record { oid = sys_descr; value = null } ∷ [];
}

abbrev pub get_message : SnmpMessage
get_message = record { version = pos 1; community = public_name; pdu = get_request }

abbrev pdu_bytes : Bytes
pdu_bytes =
    160 ∷ 26 ∷ 2 ∷ 2 ∷ 1 ∷ 44 ∷ 2 ∷ 1 ∷ 0 ∷ 2 ∷ 1 ∷ 0 ∷ 48 ∷ 14 ∷ 48 ∷ 12 ∷ 6 ∷ 8 ∷ 43 ∷ 6 ∷ 1 ∷ 2
    ∷ 1 ∷ 1 ∷ 1 ∷ 0 ∷ 5 ∷ 0 ∷ []

abbrev pub message_bytes : Bytes
message_bytes = 48 ∷ 39 ∷ 2 ∷ 1 ∷ 1 ∷ 4 ∷ 6 ∷ 112 ∷ 117 ∷ 98 ∷ 108 ∷ 105 ∷ 99 ∷ pdu_bytes

decode_message-encode_message_example : decode_message message_bytes ≡ ok get_message
unfolding encode_message encode_tlv encode_length encode_signed_integer encode_oid encode_base128
decode_message-encode_message_example =
    decode_message-encode_message get_message message_bytes (tt, tt) refl (omega arith)

unwrap_message-wrap_pdu_example : unwrap_message (112 ∷ []) message_bytes ≡ ok none
unfolding wrap_pdu encode_tlv encode_length encode_signed_integer encode_oid encode_base128 seq_eq
unwrap_message-wrap_pdu_example =
    unwrap_message-wrap_pdu public_name (112 ∷ []) get_request message_bytes (tt, tt) refl
      (omega arith)

decode_pdu-encode_pdu_example : decode_pdu pdu_bytes ≡ ok get_request
unfolding encode_pdu encode_tlv encode_length encode_signed_integer encode_oid encode_base128
decode_pdu-encode_pdu_example =
    decode_pdu-encode_pdu get_request pdu_bytes (tt, tt) refl (omega arith)

decode_value-encode_value_example :
    decode_value (2 ∷ 2 ∷ 255 ∷ 127 ∷ []) ≡ ok (integer (negsuc 128))
unfolding encode_value encode_tlv encode_length encode_signed_integer
decode_value-encode_value_example =
    decode_value-encode_value (integer (negsuc 128)) (2 ∷ 2 ∷ 255 ∷ 127 ∷ []) tt refl (omega arith)

abbrev field_bytes : Bytes
field_bytes = 7 ∷ 4 ∷ 2 ∷ 8 ∷ 9 ∷ 1 ∷ []

decode-encode_signed_example :
    decode_signed_integer (encode_signed_integer (negsuc 128)) ≡ ok (negsuc 128)
decode-encode_signed_example = decode-encode_signed (negsuc 128)

decode-encode_unsigned_example : decode_unsigned_integer (0 ∷ 200 ∷ []) ≡ ok (pos 200)
unfolding encode_unsigned_integer
decode-encode_unsigned_example = decode-encode_unsigned (pos 200) (0 ∷ 200 ∷ []) refl

encode_oid-accepts_example : encode_oid (1 ∷ 3 ∷ 6 ∷ []) ≡ ok (43 ∷ encode_arcs (6 ∷ []))
encode_oid-accepts_example =
    encode_oid-accepts 1 3 (6 ∷ []) (omega arith) (λ h. omega arith) (omega arith)

-- 2.999
encode_oid-wide_second_example : encode_oid (2 ∷ 999 ∷ []) ≡ err value_error
encode_oid-wide_second_example = encode_oid-wide_second 999 [] (omega arith)

encode-decode_ip_example :
    encode_ip_address (49 ∷ 48 ∷ 46 ∷ 48 ∷ 46 ∷ 48 ∷ 46 ∷ 57 ∷ []) ≡ ok (10 ∷ 0 ∷ 0 ∷ 9 ∷ [])
unfolding decode_ip_address
encode-decode_ip_example =
    encode-decode_ip (10 ∷ 0 ∷ 0 ∷ 9 ∷ []) (49 ∷ 48 ∷ 46 ∷ 48 ∷ 46 ∷ 48 ∷ 46 ∷ 57 ∷ [])
      (omega arith, (omega arith, (omega arith, (omega arith, tt)))) refl

-- "né"

decode_message-Ends_example : Ends (decode_message (48 ∷ 128 ∷ []))
decode_message-Ends_example = decode_message-Ends (48 ∷ 128 ∷ [])
