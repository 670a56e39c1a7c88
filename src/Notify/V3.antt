-- ===== src/Notify/V3.antt =====
-- trishul_snmp/notify/v3.py: the decoding of inbound SNMPv3 notifications.
use trishul_snmp.Prelude.{
  ℕ, [], pos, Bool, not, Option, none, some, Result, ok, protocol_error, index_error, ◌>>=◌, ◌>>◌,
  raise_if, require, ◌==◌, ◌||◌, if◌then◌else◌, length, seq_eq, head_option,
}
use trishul_snmp.Wire.Bytes.{Bytes}
use trishul_snmp.Wire.Ber.{encode_tlv, decode_tlv, expect_end}
use trishul_snmp.Wire.Utf8.{utf8_encode}
use trishul_snmp.Wire.Pdus.{Pdu, decode_pdu}
use trishul_snmp.Wire.V3Messages.{V3MessageView, decode_octet_bytes, decode_v3_message, priv_set}
use trishul_snmp.Security.Keys.{
  Crypto, UsmUser, UsmLocalEngine, UsmModel, auth_tag_len, verify_auth,
}
use trishul_snmp.Security.Privacy.{decrypt_scoped_pdu}
use trishul_snmp.Notify.Levels.{
  SecurityLevel, auth_set, security_level_from_flags, validate_security_level,
  validate_notification_reportable_flag,
}

pub record V3NotificationEnvelope : Type 0 where
  pub view : V3MessageView
  pub pdu : Pdu
  pub context_engine_id : Bytes
  pub context_name : Bytes
  pub security_level : SecurityLevel

pub record ScopedFields : Type 0 where
  pub context_engine_id : Bytes
  pub context_name : Bytes
  pub pdu_tag : ℕ
  pub pdu_content : Bytes

-- `_decode_octets` is `decode_octet_bytes`.
unfoldable pub decode_scoped_fields : Bytes → Result ScopedFields
unfolding decode_octet_bytes
decode_scoped_fields data' = do
  (t, end) ← decode_tlv data' 0
  raise_if (not (t.tag == 0x30)) protocol_error
  expect_end data' end
  (context_engine_id, o₁) ← decode_octet_bytes t.content 0
  (context_name, o₂) ← decode_octet_bytes t.content o₁
  (p, o₃) ← decode_tlv t.content o₂
  expect_end t.content o₃
  ok (record {
    context_engine_id = context_engine_id;
    context_name = context_name;
    pdu_tag = p.tag;
    pdu_content = p.content;
  })

-- `bytes([tag]) + encode_length(len(content)) + content` is `encode_tlv`.
unfoldable pub decode_pdu_bytes : ℕ → Bytes → Result Pdu
unfolding encode_tlv decode_pdu
decode_pdu_bytes tag content = do encoded ← encode_tlv tag content; decode_pdu encoded

-- `_NOTIFICATION_PDU_TAGS`
abbrev pub is_notification_tag : ℕ → Bool
is_notification_tag tag = tag == 0xa7 || tag == 0xa6

unfoldable pub decode_notification_pdu : ScopedFields → Result (Option Pdu)
unfolding decode_pdu_bytes
decode_notification_pdu fields =
    if is_notification_tag fields.pdu_tag
    then (do pdu ← decode_pdu_bytes fields.pdu_tag fields.pdu_content; ok (some pdu))
    else ok none

unfoldable pub usm_codec : UsmUser → Option UsmLocalEngine → UsmModel
usm_codec user local_engine = record {
  user = user;
  context_name = [];
  local_engine = local_engine;
  peer_engine_id = [];
  peer_engine_boots = pos 0;
  peer_engine_time = pos 0;
  msg_id_counter = 0;
}

-- The end of `decode_v3_notification_message`; `none` is a PDU of another type.
unfoldable pub envelope_of :
    V3MessageView → ℕ → ScopedFields → Option Pdu → Result (Option V3NotificationEnvelope)
unfolding validate_notification_reportable_flag security_level_from_flags
envelope_of view flags fields none = ok none
envelope_of view flags fields (some pdu) = do
  validate_notification_reportable_flag flags pdu.pdu_type
  ok (
      some (record {
        view = view;
        pdu = pdu;
        context_engine_id = fields.context_engine_id;
        context_name = fields.context_name;
        security_level = security_level_from_flags flags;
      }))

module _ (crypto : Crypto) (user : UsmUser) where
  unfoldable pub check_auth : Bytes → V3MessageView → ℕ → Result (Unit {0})
  unfolding usm_codec verify_auth
  check_auth data' view flags =
      if auth_set flags
      then (do
        raise_if (not (length view.usm_params.auth_params == auth_tag_len)) protocol_error
        verify_auth crypto (usm_codec user none) data' view.auth_params_offset
            view.usm_params.auth_params view.usm_params.engine_id)
      else ok tt

  unfoldable pub scoped_data : V3MessageView → ℕ → Result Bytes
  unfolding usm_codec decrypt_scoped_pdu
  scoped_data view flags =
      if priv_set flags
      then decrypt_scoped_pdu crypto (usm_codec user none) user.priv_protocol view.msg_data_bytes
          view.usm_params.priv_params view.usm_params.engine_id view.usm_params.engine_boots
          view.usm_params.engine_time
      else ok view.msg_data_bytes

  -- For a message of the configured user.
  unfoldable pub decode_own_notification :
      Bytes → V3MessageView → Result (Option V3NotificationEnvelope)
  unfolding validate_security_level check_auth scoped_data decode_scoped_fields
      decode_notification_pdu envelope_of
  decode_own_notification data' view = do
    flags ← require (head_option view.msg_flags) index_error
    validate_security_level flags user
    check_auth data' view flags
    msg_data ← scoped_data view flags
    fields ← decode_scoped_fields msg_data
    pdu ← decode_notification_pdu fields
    envelope_of view flags fields pdu

  unfoldable pub decode_v3_notification_message : Bytes → Result (Option V3NotificationEnvelope)
  unfolding decode_own_notification utf8_encode decode_v3_message seq_eq
  decode_v3_notification_message data' = do
    view ← decode_v3_message data'
    username ← utf8_encode user.username
    if seq_eq view.usm_params.username username then decode_own_notification data' view else ok none
