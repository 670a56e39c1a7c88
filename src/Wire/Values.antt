-- ===== src/Wire/Values.antt =====
-- Encoding and decoding of SNMP values: the two dispatchers of trishul_snmp/wire/asn1.py.
pub mod RoundTrip
pub mod Ends
use trishul_snmp.Prelude.{
  ℕ, [], ◌∷◌, Result, ok, err, protocol_error, ◌>>=◌, ◌>>◌, ◌==◌, if◌then◌else◌,
}
use trishul_snmp.Types.{
  SnmpValue, integer, octet_string, null, object_identifier, ip_address, counter32, gauge32,
  time_ticks, opaque, counter64, no_such_object, no_such_instance, end_of_mib_view,
}
use trishul_snmp.Wire.Bytes.{Bytes}
use trishul_snmp.Wire.Ber.{Tlv, encode_tlv, decode_tlv, expect_end}
use trishul_snmp.Wire.Integers.{
  encode_signed_integer, decode_signed_integer, encode_unsigned_integer, decode_unsigned_integer,
}
use trishul_snmp.Wire.IpAddresses.{encode_ip_address, decode_ip_address}
use trishul_snmp.Wire.Oids.{encode_oid, decode_oid}

-- The tag that `encode_value` writes for each class of value.
unfoldable pub value_tag : SnmpValue → ℕ
value_tag (integer v) = 0x02
value_tag (octet_string v) = 0x04
value_tag null = 0x05
value_tag (object_identifier v) = 0x06
value_tag (ip_address v) = 0x40
value_tag (counter32 v) = 0x41
value_tag (gauge32 v) = 0x42
value_tag (time_ticks v) = 0x43
value_tag (opaque v) = 0x44
value_tag (counter64 v) = 0x46
value_tag no_such_object = 0x80
value_tag no_such_instance = 0x81
value_tag end_of_mib_view = 0x82

-- The content that it writes.
unfoldable pub encode_content : SnmpValue → Result Bytes
encode_content (integer v) = ok (encode_signed_integer v)
encode_content (octet_string v) = ok v
encode_content null = ok []
encode_content (object_identifier v) = encode_oid v
encode_content (ip_address v) = encode_ip_address v
encode_content (counter32 v) = encode_unsigned_integer v
encode_content (gauge32 v) = encode_unsigned_integer v
encode_content (time_ticks v) = encode_unsigned_integer v
encode_content (opaque v) = ok v
encode_content (counter64 v) = encode_unsigned_integer v
encode_content no_such_object = ok []
encode_content no_such_instance = ok []
encode_content end_of_mib_view = ok []

unfoldable pub encode_value : SnmpValue → Result Bytes
unfolding value_tag encode_content
encode_value value = do content ← encode_content value; encode_tlv (value_tag value) content

unfoldable pub require_empty : Bytes → SnmpValue → Result SnmpValue
require_empty [] value = ok value
require_empty (b ∷ rest) value = err protocol_error

-- The tests of the tag in `decode_value`, in the order of the source.
unfoldable pub decode_content : ℕ → Bytes → Result SnmpValue
unfolding require_empty
decode_content tag content =
    if tag == 0x02
    then (do v ← decode_signed_integer content; ok (integer v))
    else if tag == 0x04
    then ok (octet_string content)
    else if tag == 0x05
    then require_empty content null
    else if tag == 0x06
    then (do v ← decode_oid content; ok (object_identifier v))
    else if tag == 0x40
    then (do v ← decode_ip_address content; ok (ip_address v))
    else if tag == 0x41
    then (do v ← decode_unsigned_integer content; ok (counter32 v))
    else if tag == 0x42
    then (do v ← decode_unsigned_integer content; ok (gauge32 v))
    else if tag == 0x43
    then (do v ← decode_unsigned_integer content; ok (time_ticks v))
    else if tag == 0x44
    then ok (opaque content)
    else if tag == 0x46
    then (do v ← decode_unsigned_integer content; ok (counter64 v))
    else if tag == 0x80
    then require_empty content no_such_object
    else if tag == 0x81
    then require_empty content no_such_instance
    else if tag == 0x82
    then require_empty content end_of_mib_view
    else err protocol_error

unfoldable pub decode_value : Bytes → Result SnmpValue
unfolding decode_content
decode_value data' = do
  (t, offset) ← decode_tlv data' 0
  expect_end data' offset
  decode_content t.tag t.content
