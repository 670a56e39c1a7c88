-- ===== src/Notify/Reports.antt =====
-- trishul_snmp/notify/v3.py: the answers to discovery probes and to informs.
use trishul_snmp.Prelude.{
  ℕ, ◌%◌, List, [], ◌∷◌, ◌++◌, ℤ, pos, Bool, true, false, not, ◌&&◌, some, Result, ok,
  protocol_error, index_error, ◌>>=◌, ◌>>◌, raise_if, require, unless_protocol_error,
  as_protocol_error, eq_ℤ, ◌==◌, if◌then◌else◌, seq_eq, head_option,
}
use trishul_snmp.Types.{SnmpValue, null, counter32}
use trishul_snmp.Wire.Bytes.{Bytes}
use trishul_snmp.Wire.Ber.{encode_tlv}
use trishul_snmp.Wire.Utf8.{utf8_encode}
use trishul_snmp.Wire.Pdus.{
  PduType, inform_request, response, Pdu, RawVarBind, encode_integer, encode_varbind_list,
}
use trishul_snmp.Wire.V3Messages.{
  UsmParams, V3MessageView, decode_v3_message, encode_v3_message, encode_scoped_pdu, priv_set,
}
use trishul_snmp.Security.Keys.{Crypto, UsmUser, UsmLocalEngine, zero_tag, is_empty, stamp_auth}
use trishul_snmp.Security.Privacy.{encrypt_scoped_pdu}
use trishul_snmp.Security.Discovery.{discovery_oid}
use trishul_snmp.Notify.Levels.{auth_set, validate_security_level}
use trishul_snmp.Notify.V3.{
  V3NotificationEnvelope, ScopedFields, decode_scoped_fields, decode_pdu_bytes, usm_codec,
}

abbrev pub is_null : SnmpValue → Bool
is_null null = true
is_null _ = false

-- The security parameters of a probe are all empty.
unfoldable pub is_probe_params : UsmParams → Bool
is_probe_params p =
    is_empty p.engine_id
    && eq_ℤ p.engine_boots (pos 0)
    && eq_ℤ p.engine_time (pos 0)
    && is_empty p.username
    && is_empty p.auth_params
    && is_empty p.priv_params

unfoldable pub is_probe_varbinds : List RawVarBind → Bool
unfolding seq_eq
is_probe_varbinds (varbind ∷ []) = seq_eq varbind.oid discovery_oid && is_null varbind.value
is_probe_varbinds _ = false

unfoldable pub is_probe_header : ℕ → UsmParams → Bool
unfolding is_probe_params
is_probe_header flags p = flags == 4 && is_probe_params p

unfoldable pub is_probe_scope : ScopedFields → Bool
is_probe_scope fields =
    is_empty fields.context_engine_id && is_empty fields.context_name && fields.pdu_tag == 0xa0

unfoldable pub is_probe_fields : ScopedFields → Result Bool
unfolding is_probe_scope decode_pdu_bytes is_probe_varbinds
is_probe_fields fields =
    if is_probe_scope fields
    then unless_protocol_error (decode_pdu_bytes fields.pdu_tag fields.pdu_content) (ok false)
        (λ probe. ok (is_probe_varbinds probe.varbinds))
    else ok false

unfoldable pub is_probe_view : V3MessageView → Result Bool
unfolding is_probe_header decode_scoped_fields is_probe_fields
is_probe_view view = do
  flags ← require (head_option view.msg_flags) index_error
  if is_probe_header flags view.usm_params
      then unless_protocol_error (decode_scoped_fields view.msg_data_bytes) (ok false)
          is_probe_fields
      else ok false

unfoldable pub is_discovery_probe : Bytes → Result Bool
unfolding decode_v3_message is_probe_view
is_discovery_probe data' = unless_protocol_error (decode_v3_message data') (ok false) is_probe_view

unfoldable pub decode_probe_fields : Bytes → Result (V3MessageView × ScopedFields)
unfolding decode_v3_message decode_scoped_fields
decode_probe_fields data' = do
  view ← decode_v3_message data'
  fields ← decode_scoped_fields view.msg_data_bytes
  ok (view, fields)

unfoldable pub decode_discovery_probe : Bytes → Result (V3MessageView × (ScopedFields × Pdu))
unfolding decode_probe_fields is_discovery_probe decode_pdu_bytes
decode_discovery_probe data' = do
  (view, fields) ← as_protocol_error (decode_probe_fields data')
  is_probe ← is_discovery_probe data'
  raise_if (not is_probe) protocol_error
  probe ← decode_pdu_bytes fields.pdu_tag fields.pdu_content
  ok (view, (fields, probe))

unfoldable pub encode_report_pdu : ℤ → ℤ → ℤ → List RawVarBind → Result Bytes
unfolding encode_integer encode_varbind_list
encode_report_pdu request_id error_status error_index varbinds = do
  id ← encode_integer request_id
  status ← encode_integer error_status
  index ← encode_integer error_index
  bindings ← encode_varbind_list varbinds
  encode_tlv 0xa8 (id ++ (status ++ (index ++ bindings)))

unfoldable pub encode_scoped_raw_pdu : Bytes → Bytes → Bytes → Result Bytes
encode_scoped_raw_pdu context_engine_id context_name pdu = do
  engine ← encode_tlv 0x04 context_engine_id
  context ← encode_tlv 0x04 context_name
  encode_tlv 0x30 (engine ++ (context ++ pdu))

abbrev pub report_params : UsmLocalEngine → UsmParams
report_params engine = record {
  engine_id = engine.engine_id;
  engine_boots = engine.engine_boots;
  engine_time = engine.engine_time;
  username = [];
  auth_params = [];
  priv_params = [];
}

unfoldable pub encode_discovery_report : Bytes → UsmLocalEngine → Result Bytes
unfolding decode_discovery_probe encode_report_pdu encode_scoped_raw_pdu encode_v3_message
encode_discovery_report data' local_engine = do
  (view, (fields, probe)) ← decode_discovery_probe data'
  report_pdu ←
      encode_report_pdu probe.request_id (pos 0) (pos 0)
        (record { oid = discovery_oid; value = counter32 (pos 1) } ∷ [])
  scoped ← encode_scoped_raw_pdu fields.context_engine_id fields.context_name report_pdu
  encode_v3_message view.msg_id (pos 65507) 0 (report_params local_engine) scoped

abbrev pub is_inform : PduType → Bool
is_inform inform_request = true
is_inform _ = false

-- The PDU that acknowledges an inform.
unfoldable pub inform_response_pdu : Pdu → Pdu
inform_response_pdu pdu = record {
  pdu_type = response;
  request_id = pdu.request_id;
  error_status = pos 0;
  error_index = pos 0;
  varbinds = pdu.varbinds;
}

module _ (crypto : Crypto) (user : UsmUser) (local_engine : UsmLocalEngine) where
  -- `local_iv` is what `os.urandom(8)` returns.
  unfoldable pub protect_response : ℕ → Bytes → Bytes → Result (Bytes × Bytes)
  unfolding encrypt_scoped_pdu usm_codec
  protect_response flags local_iv msg_data =
      if priv_set flags
      then encrypt_scoped_pdu crypto (usm_codec user (some local_engine)) user.priv_protocol
          local_iv msg_data local_engine
      else ok ([], msg_data)

  unfoldable pub encode_inform_response : Bytes → V3NotificationEnvelope → Result Bytes
  unfolding validate_security_level inform_response_pdu protect_response encode_v3_message
      stamp_auth utf8_encode usm_codec
  encode_inform_response local_iv envelope = do
    raise_if (not (is_inform envelope.pdu.pdu_type)) protocol_error
    flags ← require (head_option envelope.view.msg_flags) index_error
    validate_security_level flags user
    scoped ←
        encode_scoped_pdu envelope.context_engine_id envelope.context_name
          (inform_response_pdu envelope.pdu)
    (priv_params, msg_data) ← protect_response flags local_iv scoped
    username ← utf8_encode user.username
    raw ←
        encode_v3_message envelope.view.msg_id (pos 65507) (flags % 4)
          (record {
            engine_id = local_engine.engine_id;
            engine_boots = local_engine.engine_boots;
            engine_time = local_engine.engine_time;
            username = username;
            auth_params = if auth_set flags then zero_tag else [];
            priv_params = priv_params;
          })
          msg_data
    if auth_set flags
        then stamp_auth crypto (usm_codec user (some local_engine)) raw
            (some local_engine.engine_id)
        else ok raw
