-- ===== src/Tests/Usm.antt =====
-- An authenticated SNMPv3 trap and a discovery REPORT. The digests are those of a stand-in: the key
-- and the length of the message.
use trishul_snmp.Prelude.{
  inl, some, length-append, ℕ, drop, arith, suc, ◌⊎◌, Error, ◌≡◌, refl, [], ◌∷◌, ◌++◌, pos, true,
  none, Result, ok, err, replicate, length,
}
use trishul_snmp.Wire.Bytes.{Bytes}
use trishul_snmp.Wire.Ber.{encode_tlv, decode_tlv, decode_length, encode_length, expect_end}
use trishul_snmp.Wire.Utf8.{utf8_encode}
use trishul_snmp.Wire.Integers.{encode_signed_integer, decode_unsigned_integer}
use trishul_snmp.Wire.Oids.{encode_oid, encode_base128}
use trishul_snmp.Wire.Pdus.{
  encode_integer, encode_pdu, Pdu, snmpv2_trap, decode_integer_from, decode_pdu,
}
use trishul_snmp.Wire.V3Messages.{
  encode_v3_message, encode_scoped_pdu, V3MessageView, decode_v3_message, decode_scoped_pdu,
}
use trishul_snmp.Wire.V3Messages.Codec.{decode_v3_message-encode_v3_message}
use trishul_snmp.Security.Keys.{
  auth_on, priv_on, auth_enabled, Crypto, UsmLocalEngine, md5, no_priv, UsmUser, UsmModel,
  verify_auth,
}
use trishul_snmp.Security.Usm.{engine_accepted, unwrap_message, wrap_pdu, peer_engine_discovered}
use trishul_snmp.Security.Accepts.{HasLongDigests}
use trishul_snmp.Security.Sealed.{HasStreamCipher}
use trishul_snmp.Security.RoundTrip.{unwrap_message-wrap_pdu_authenticated}
use trishul_snmp.Security.Authentic.{HasTag, unwrap_message-Authentic}
use trishul_snmp.Security.Discovery.{probe_of, prepare}
use trishul_snmp.Security.Discovered.{counted, Discovers, prepare-Discovers}
use trishul_snmp.Notify.Levels.{auth_no_priv}
use trishul_snmp.Notify.V3.{V3NotificationEnvelope, usm_codec, decode_v3_notification_message}
use trishul_snmp.Notify.Authentic.{decode_v3_notification_message-Authentic}
use trishul_snmp.Tests.Codec.{get_request}

abbrev crypto : Crypto
crypto = record {
  digest = λ protocol data'. data';
  hmac = λ protocol key data'. key ++ replicate 16 (length data');
  encrypt = λ key iv data'. data';
  decrypt = λ key iv data'. data';
}

abbrev user : UsmUser
user = record {
  username = 97 ∷ [];
  auth_protocol = md5;
  auth_key = 7 ∷ [];
  auth_key_localized = true;
  priv_protocol = no_priv;
  priv_key = [];
}

abbrev trap_bytes : Bytes
trap_bytes =
    48 ∷ 85 ∷ 2 ∷ 1 ∷ 3 ∷ 48 ∷ 13 ∷ 2 ∷ 1 ∷ 1 ∷ 2 ∷ 2 ∷ 5 ∷ 220 ∷ 4 ∷ 1 ∷ 1 ∷ 2 ∷ 1 ∷ 3 ∷ 4 ∷ 30
    ∷ 48 ∷ 28 ∷ 4 ∷ 1 ∷ 9 ∷ 2 ∷ 1 ∷ 1 ∷ 2 ∷ 1 ∷ 2 ∷ 4 ∷ 1 ∷ 97 ∷ 4 ∷ 12 ∷ 7 ∷ 87 ∷ 87 ∷ 87 ∷ 87 ∷ 87
    ∷ 87 ∷ 87 ∷ 87 ∷ 87 ∷ 87 ∷ 87 ∷ 4 ∷ 0 ∷ 48 ∷ 33 ∷ 4 ∷ 1 ∷ 9 ∷ 4 ∷ 0 ∷ 167 ∷ 26 ∷ 2 ∷ 2 ∷ 1 ∷ 44
    ∷ 2 ∷ 1 ∷ 0 ∷ 2 ∷ 1 ∷ 0 ∷ 48 ∷ 14 ∷ 48 ∷ 12 ∷ 6 ∷ 8 ∷ 43 ∷ 6 ∷ 1 ∷ 2 ∷ 1 ∷ 1 ∷ 1 ∷ 0 ∷ 5 ∷ 0
    ∷ []

abbrev trap_view : V3MessageView
trap_view = record {
  msg_id = pos 1;
  msg_max_size = pos 1500;
  msg_flags = 1 ∷ [];
  msg_security_model = pos 3;
  usm_params = record {
    engine_id = 9 ∷ [];
    engine_boots = pos 1;
    engine_time = pos 2;
    username = 97 ∷ [];
    auth_params = 7 ∷ replicate 11 87;
    priv_params = [];
  };
  msg_data_bytes =
      48 ∷ 33 ∷ 4 ∷ 1 ∷ 9 ∷ 4 ∷ 0 ∷ 167 ∷ 26 ∷ 2 ∷ 2 ∷ 1 ∷ 44 ∷ 2 ∷ 1 ∷ 0 ∷ 2 ∷ 1 ∷ 0 ∷ 48 ∷ 14 ∷ 48
      ∷ 12 ∷ 6 ∷ 8 ∷ 43 ∷ 6 ∷ 1 ∷ 2 ∷ 1 ∷ 1 ∷ 1 ∷ 0 ∷ 5 ∷ 0 ∷ [];
  auth_params_offset = 38;
}

-- The content of the scoped PDU.
abbrev scoped_content : Bytes
scoped_content = drop 2 trap_view.msg_data_bytes

decode_v3_message-encode_v3_message_example :
    (at : ℕ) × (decode_v3_message trap_bytes
      ≡ ok (record {
        msg_id = pos 1;
        msg_max_size = pos 1500;
        msg_flags = 1 ∷ [];
        msg_security_model = pos 3;
        usm_params = trap_view.usm_params;
        msg_data_bytes = trap_view.msg_data_bytes;
        auth_params_offset = at;
      }))
unfolding encode_v3_message encode_tlv encode_length encode_signed_integer encode_integer
decode_v3_message-encode_v3_message_example =
    decode_v3_message-encode_v3_message (pos 1) (pos 1500) 1 trap_view.usm_params scoped_content
      trap_view.msg_data_bytes trap_bytes refl refl (omega arith)

abbrev trap_pdu : Pdu
trap_pdu = record get_request { pdu_type = snmpv2_trap }

unwrap_message-Authentic_example :
    (view : V3MessageView) × (decode_v3_message trap_bytes ≡ ok view)
    × (utf8_encode user.username ≡ ok view.usm_params.username)
    × (engine_accepted (usm_codec user none) view ≡ true)
    × HasTag crypto (usm_codec user none) trap_bytes view
unfolding unwrap_message decode_v3_message decode_scoped_pdu decode_pdu decode_tlv decode_length
    expect_end decode_integer_from utf8_encode encode_tlv encode_length verify_auth usm_codec
    auth_enabled
unwrap_message-Authentic_example =
    unwrap_message-Authentic crypto (usm_codec user none) trap_bytes trap_pdu refl refl

abbrev trap_envelope : V3NotificationEnvelope
trap_envelope = record {
  view = trap_view;
  pdu = trap_pdu;
  context_engine_id = 9 ∷ [];
  context_name = [];
  security_level = auth_no_priv;
}

decode_v3_notification_message-Authentic_example :
    (decode_v3_message trap_bytes ≡ ok trap_view)
    × (utf8_encode user.username ≡ ok (97 ∷ []))
    × (trap_envelope.security_level ≡ auth_no_priv)
    × HasTag crypto (usm_codec user none) trap_bytes trap_view
unfolding decode_v3_notification_message decode_v3_message decode_pdu decode_tlv decode_length
    expect_end decode_integer_from utf8_encode encode_tlv encode_length verify_auth usm_codec
    auth_on priv_on
decode_v3_notification_message-Authentic_example =
    decode_v3_notification_message-Authentic crypto user trap_bytes trap_envelope refl refl

abbrev report_bytes : Bytes
report_bytes =
    48 ∷ 73 ∷ 2 ∷ 1 ∷ 3 ∷ 48 ∷ 13 ∷ 2 ∷ 1 ∷ 1 ∷ 2 ∷ 2 ∷ 5 ∷ 220 ∷ 4 ∷ 1 ∷ 0 ∷ 2 ∷ 1 ∷ 3 ∷ 4 ∷ 17
    ∷ 48 ∷ 15 ∷ 4 ∷ 1 ∷ 9 ∷ 2 ∷ 1 ∷ 1 ∷ 2 ∷ 1 ∷ 2 ∷ 4 ∷ 0 ∷ 4 ∷ 0 ∷ 4 ∷ 0 ∷ 48 ∷ 34 ∷ 4 ∷ 0 ∷ 4 ∷ 0
    ∷ 168 ∷ 28 ∷ 2 ∷ 1 ∷ 1 ∷ 2 ∷ 1 ∷ 0 ∷ 2 ∷ 1 ∷ 0 ∷ 48 ∷ 17 ∷ 48 ∷ 15 ∷ 6 ∷ 10 ∷ 43 ∷ 6 ∷ 1 ∷ 6 ∷ 3
    ∷ 15 ∷ 1 ∷ 1 ∷ 4 ∷ 0 ∷ 65 ∷ 1 ∷ 1 ∷ []

-- Every request is answered with the report.
abbrev answering : Bytes → Result Bytes
answering probe = ok report_bytes

abbrev fresh : UsmModel
fresh = usm_codec user none

prepare-Discovers_example :
    ((e : Error) × (prepare answering fresh ≡ (counted fresh, err e)))
    ⊎ ((probe : Bytes) × (bytes : Bytes) × (after : UsmModel) × (probe_of (suc fresh.msg_id_counter)
          ≡ ok probe)
        × (answering probe ≡ ok bytes)
        × (prepare answering fresh ≡ (after, ok tt))
        × Discovers (counted fresh) bytes after)
prepare-Discovers_example = prepare-Discovers answering fresh

-- The engine of the report is discovered.
prepare_run : (prepare answering fresh).0.peer_engine_id ≡ 9 ∷ []
unfolding prepare decode_v3_message decode_tlv decode_length expect_end decode_integer_from
    usm_codec encode_tlv encode_length encode_pdu encode_signed_integer encode_oid encode_base128
    decode_unsigned_integer
prepare_run = refl

abbrev usm_engine : UsmLocalEngine
usm_engine = record { engine_id = 9 ∷ []; engine_boots = pos 1; engine_time = pos 2 }

abbrev sender : UsmModel
sender = record fresh { local_engine = some usm_engine }

abbrev sent_bytes : Bytes
sent_bytes =
    48 ∷ 86 ∷ 2 ∷ 1 ∷ 3 ∷ 48 ∷ 14 ∷ 2 ∷ 1 ∷ 1 ∷ 2 ∷ 3 ∷ 0 ∷ 255 ∷ 227 ∷ 4 ∷ 1 ∷ 1 ∷ 2 ∷ 1 ∷ 3 ∷ 4
    ∷ 30 ∷ 48 ∷ 28 ∷ 4 ∷ 1 ∷ 9 ∷ 2 ∷ 1 ∷ 1 ∷ 2 ∷ 1 ∷ 2 ∷ 4 ∷ 1 ∷ 97 ∷ 4 ∷ 12 ∷ 7 ∷ 88 ∷ 88 ∷ 88 ∷ 88
    ∷ 88 ∷ 88 ∷ 88 ∷ 88 ∷ 88 ∷ 88 ∷ 88 ∷ 4 ∷ 0 ∷ 48 ∷ 33 ∷ 4 ∷ 1 ∷ 9 ∷ 4 ∷ 0 ∷ 167 ∷ 26 ∷ 2 ∷ 2 ∷ 1
    ∷ 44 ∷ 2 ∷ 1 ∷ 0 ∷ 2 ∷ 1 ∷ 0 ∷ 48 ∷ 14 ∷ 48 ∷ 12 ∷ 6 ∷ 8 ∷ 43 ∷ 6 ∷ 1 ∷ 2 ∷ 1 ∷ 1 ∷ 1 ∷ 0 ∷ 5
    ∷ 0 ∷ []

crypto-HasLongDigests : HasLongDigests crypto
crypto-HasLongDigests protocol key data' =
    omega (arith, length-append key (replicate 16 (length data')))

crypto-HasStreamCipher : HasStreamCipher crypto
crypto-HasStreamCipher key iv text = (refl, refl)

unwrap_message-wrap_pdu_authenticated_example :
    unwrap_message crypto fresh sent_bytes ≡ ok (some trap_pdu)
unfolding wrap_pdu encode_v3_message encode_pdu encode_tlv encode_length encode_signed_integer
    encode_integer encode_oid encode_base128 decode_v3_message decode_tlv decode_length expect_end
    decode_integer_from utf8_encode auth_enabled auth_on priv_on peer_engine_discovered usm_codec
    encode_scoped_pdu
unwrap_message-wrap_pdu_authenticated_example =
    unwrap_message-wrap_pdu_authenticated crypto sender fresh (replicate 8 0) usm_engine trap_pdu
      sent_bytes crypto-HasLongDigests crypto-HasStreamCipher refl refl (tt, tt) refl refl
      (omega arith) refl (inl refl)
