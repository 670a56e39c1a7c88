-- ===== src/Tests/V3.antt =====
-- An SNMPv3 message with two bytes of authentication parameters, and a scoped PDU.
use trishul_snmp.Prelude.{arith, ok, ◌+◌, ◌≡◌, refl, [], ◌∷◌, pos, slice}
use trishul_snmp.Wire.Bytes.{Bytes}
use trishul_snmp.Wire.Ber.{encode_tlv, encode_length, decode_tlv, decode_length, expect_end}
use trishul_snmp.Wire.Pdus.{encode_pdu, decode_integer_from}
use trishul_snmp.Wire.V3Messages.{
  encode_scoped_pdu, decode_scoped_pdu, V3MessageView, decode_v3_message,
}
use trishul_snmp.Wire.Integers.{encode_signed_integer}
use trishul_snmp.Wire.Oids.{encode_oid, encode_base128}
use trishul_snmp.Wire.V3Messages.RoundTrip.{decode_scoped_pdu-encode_scoped_pdu}
use trishul_snmp.Tests.Codec.{get_request}
use trishul_snmp.Wire.V3Messages.AuthOffset.{decode_v3_message-auth_params_offset}

abbrev v3_bytes : Bytes
v3_bytes =
    48 ∷ 42 ∷ 2 ∷ 1 ∷ 3 ∷ 48 ∷ 13 ∷ 2 ∷ 1 ∷ 1 ∷ 2 ∷ 2 ∷ 5 ∷ 220 ∷ 4 ∷ 1 ∷ 4 ∷ 2 ∷ 1 ∷ 3 ∷ 4 ∷ 20
    ∷ 48 ∷ 18 ∷ 4 ∷ 1 ∷ 9 ∷ 2 ∷ 1 ∷ 1 ∷ 2 ∷ 1 ∷ 2 ∷ 4 ∷ 1 ∷ 97 ∷ 4 ∷ 2 ∷ 1 ∷ 2 ∷ 4 ∷ 0 ∷ 48 ∷ 0 ∷ []

abbrev v3_view : V3MessageView
v3_view = record {
  msg_id = pos 1;
  msg_max_size = pos 1500;
  msg_flags = 4 ∷ [];
  msg_security_model = pos 3;
  usm_params = record {
    engine_id = 9 ∷ [];
    engine_boots = pos 1;
    engine_time = pos 2;
    username = 97 ∷ [];
    auth_params = 1 ∷ 2 ∷ [];
    priv_params = [];
  };
  msg_data_bytes = 48 ∷ 0 ∷ [];
  auth_params_offset = 38;
}

decode_v3_message-auth_params_offset_example : slice v3_bytes 38 (38 + 2) ≡ 1 ∷ 2 ∷ []
unfolding decode_v3_message decode_tlv decode_length expect_end decode_integer_from
decode_v3_message-auth_params_offset_example =
    decode_v3_message-auth_params_offset v3_bytes v3_view refl

-- The engine 9, no context name and the request of `message_bytes`.
abbrev scoped_bytes : Bytes
scoped_bytes =
    48 ∷ 33 ∷ 4 ∷ 1 ∷ 9 ∷ 4 ∷ 0 ∷ 160 ∷ 26 ∷ 2 ∷ 2 ∷ 1 ∷ 44 ∷ 2 ∷ 1 ∷ 0 ∷ 2 ∷ 1 ∷ 0 ∷ 48 ∷ 14 ∷ 48
    ∷ 12 ∷ 6 ∷ 8 ∷ 43 ∷ 6 ∷ 1 ∷ 2 ∷ 1 ∷ 1 ∷ 1 ∷ 0 ∷ 5 ∷ 0 ∷ []

decode_scoped_pdu-encode_scoped_pdu_example :
    decode_scoped_pdu scoped_bytes
    ≡ ok (record { engine_id = 9 ∷ []; context_name = []; pdu = get_request })
unfolding encode_scoped_pdu encode_pdu encode_tlv encode_length encode_signed_integer encode_oid
    encode_base128
decode_scoped_pdu-encode_scoped_pdu_example =
    decode_scoped_pdu-encode_scoped_pdu (9 ∷ []) [] get_request scoped_bytes (tt, tt) refl
      (omega arith)
