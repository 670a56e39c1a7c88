-- ===== src/Wire/Pdus.antt =====
-- trishul_snmp/wire/pdu.py: PDUs, their variable bindings and their codec.
pub mod RoundTrip
pub mod Ends
use trishul_snmp.Prelude.{
  ℕ, zero, suc, List, [], ◌∷◌, ◌++◌, ℤ, Option, none, some, Bool, not, Result, ok, err,
  protocol_error, out_of_fuel, ◌>>=◌, ◌>>◌, raise_if, require, ltb, ◌==◌, if◌then◌else◌, length,
  map,
}
use trishul_snmp.Types.{Oid, SnmpValue, integer, null, object_identifier}
use trishul_snmp.Wire.Bytes.{Bytes}
use trishul_snmp.Wire.Ber.{Tlv, encode_tlv, decode_tlv, expect_end}
use trishul_snmp.Wire.Integers.{decode_signed_integer}
use trishul_snmp.Wire.Oids.{decode_oid}
use trishul_snmp.Wire.Values.{encode_value, decode_value}

pub data PduType : Type 0 where
  get get_next response set get_bulk inform_request snmpv2_trap : PduType

unfoldable pub pdu_tag : PduType → ℕ
pdu_tag get = 0xa0
pdu_tag get_next = 0xa1
pdu_tag response = 0xa2
pdu_tag set = 0xa3
pdu_tag get_bulk = 0xa5
pdu_tag inform_request = 0xa6
pdu_tag snmpv2_trap = 0xa7

-- `PduType(tag)`; `none` is its ValueError.
unfoldable pub pdu_type_of : ℕ → Option PduType
pdu_type_of tag =
    if tag == 0xa0
    then some get
    else if tag == 0xa1
    then some get_next
    else if tag == 0xa2
    then some response
    else if tag == 0xa3
    then some set
    else if tag == 0xa5
    then some get_bulk
    else if tag == 0xa6
    then some inform_request
    else if tag == 0xa7
    then some snmpv2_trap
    else none

pub record RawVarBind : Type 0 where
  pub oid : Oid
  pub value : SnmpValue

pub record Pdu : Type 0 where
  pub pdu_type : PduType
  pub request_id : ℤ
  pub error_status : ℤ
  pub error_index : ℤ
  pub varbinds : List RawVarBind

unfoldable pub build_null_varbinds : List Oid → List RawVarBind
build_null_varbinds = map (λ oid. record { oid = oid; value = null })

unfoldable pub encode_integer : ℤ → Result Bytes
unfolding encode_value
encode_integer value = encode_value (integer value)

unfoldable pub encode_varbind : RawVarBind → Result Bytes
unfolding encode_value
encode_varbind varbind = do
  name ← encode_value (object_identifier varbind.oid)
  value ← encode_value varbind.value
  encode_tlv 0x30 (name ++ value)

-- The join over the list of bindings.
unfoldable pub encode_varbinds : List RawVarBind → Result Bytes
unfolding encode_varbind
encode_varbinds [] = ok []
encode_varbinds (varbind ∷ varbinds) = do
  first ← encode_varbind varbind
  rest ← encode_varbinds varbinds
  ok (first ++ rest)

unfoldable pub encode_varbind_list : List RawVarBind → Result Bytes
unfolding encode_varbinds
encode_varbind_list varbinds = do content ← encode_varbinds varbinds; encode_tlv 0x30 content

unfoldable pub encode_pdu : Pdu → Result Bytes
unfolding encode_integer encode_varbind_list pdu_tag
encode_pdu pdu = do
  request_id ← encode_integer pdu.request_id
  error_status ← encode_integer pdu.error_status
  error_index ← encode_integer pdu.error_index
  varbinds ← encode_varbind_list pdu.varbinds
  encode_tlv (pdu_tag pdu.pdu_type) (request_id ++ (error_status ++ (error_index ++ varbinds)))

-- The tests of the content are those of `decode_signed_integer`.
unfoldable pub decode_integer_from : Bytes → ℕ → Result (ℤ × ℕ)
unfolding decode_signed_integer
decode_integer_from data' offset = do
  (t, new_offset) ← decode_tlv data' offset
  raise_if (not (t.tag == 0x02)) protocol_error
  value ← decode_signed_integer t.content
  ok (value, new_offset)

unfoldable pub decode_oid_from : Bytes → ℕ → Result (Oid × ℕ)
unfolding decode_oid
decode_oid_from data' offset = do
  (t, new_offset) ← decode_tlv data' offset
  raise_if (not (t.tag == 0x06)) protocol_error
  oid ← decode_oid t.content
  ok (oid, new_offset)

-- `bytes([tag]) + _reencode_length_prefixed(content)` is `encode_tlv`.
unfoldable pub decode_varbind : Bytes → ℕ → Result (RawVarBind × ℕ)
unfolding decode_oid_from decode_value
decode_varbind data' offset = do
  (t, new_offset) ← decode_tlv data' offset
  raise_if (not (t.tag == 0x30)) protocol_error
  (oid, value_start) ← decode_oid_from t.content 0
  (v, value_offset) ← decode_tlv t.content value_start
  encoded ← encode_tlv v.tag v.content
  value ← decode_value encoded
  expect_end t.content value_offset
  ok (record { oid = oid; value = value }, new_offset)

-- The `while inner_offset < len(content)` loop. A binding takes two bytes at least.
unfoldable pub decode_varbinds : ℕ → Bytes → ℕ → Result (List RawVarBind × ℕ)
unfolding decode_varbind
decode_varbinds zero content offset =
    if ltb offset (length content) then err out_of_fuel else ok ([], offset)
decode_varbinds (suc fuel) content offset =
    if ltb offset (length content)
    then (do
      (varbind, next) ← decode_varbind content offset
      (varbinds, end) ← decode_varbinds fuel content next
      ok (varbind ∷ varbinds, end))
    else ok ([], offset)

unfoldable pub decode_varbind_list : Bytes → ℕ → Result (List RawVarBind × ℕ)
unfolding decode_varbinds
decode_varbind_list data' offset = do
  (t, new_offset) ← decode_tlv data' offset
  raise_if (not (t.tag == 0x30)) protocol_error
  (varbinds, inner_offset) ← decode_varbinds (length t.content) t.content 0
  expect_end t.content inner_offset
  ok (varbinds, new_offset)

unfoldable pub decode_pdu : Bytes → Result Pdu
unfolding pdu_type_of decode_integer_from decode_varbind_list
decode_pdu data' = do
  (t, offset) ← decode_tlv data' 0
  expect_end data' offset
  pdu_type ← require (pdu_type_of t.tag) protocol_error
  (request_id, o₁) ← decode_integer_from t.content 0
  (error_status, o₂) ← decode_integer_from t.content o₁
  (error_index, o₃) ← decode_integer_from t.content o₂
  (varbinds, o₄) ← decode_varbind_list t.content o₃
  expect_end t.content o₄
  ok (record {
    pdu_type = pdu_type;
    request_id = request_id;
    error_status = error_status;
    error_index = error_index;
    varbinds = varbinds;
  })
