-- ===== src/Security/Discovery.antt =====
-- trishul_snmp/security/usm.py: the discovery of the peer's engine.
use trishul_snmp.Prelude.{
  ℕ, suc, [], ◌∷◌, pos, not, Result, ok, err, protocol_error, ◌>>=◌, ◌>>◌, raise_if,
  as_protocol_error, ◌==◌,
}
use trishul_snmp.Types.{null}
use trishul_snmp.Wire.Bytes.{Bytes}
use trishul_snmp.Wire.Ber.{decode_tlv, expect_end}
use trishul_snmp.Wire.Pdus.{get, decode_integer_from, decode_varbind_list}
use trishul_snmp.Wire.V3Messages.{encode_scoped_pdu, encode_v3_message, decode_v3_message}
use trishul_snmp.Security.Keys.{UsmModel, is_empty}

-- 1.3.6.1.6.3.15.1.1.4.0, usmStatsUnknownEngineIDs.
abbrev pub discovery_oid : Bytes
discovery_oid = 1 ∷ 3 ∷ 6 ∷ 1 ∷ 6 ∷ 3 ∷ 15 ∷ 1 ∷ 1 ∷ 4 ∷ 0 ∷ []

unfoldable pub probe_of : ℕ → Result Bytes
unfolding encode_scoped_pdu encode_v3_message
probe_of msg_id = do
  scoped_bytes ← encode_scoped_pdu [] [] (record {
    pdu_type = get;
    request_id = pos msg_id;
    error_status = pos 0;
    error_index = pos 0;
    varbinds = record { oid = discovery_oid; value = null } ∷ [];
  })
  encode_v3_message (pos msg_id) (pos 65507) 4
      (record {
        engine_id = [];
        engine_boots = pos 0;
        engine_time = pos 0;
        username = [];
        auth_params = [];
        priv_params = [];
      })
      scoped_bytes

unfoldable pub build_discovery_probe : UsmModel → UsmModel × Result Bytes
unfolding probe_of
build_discovery_probe s =
    let msg_id = suc s.msg_id_counter in (record s { msg_id_counter = msg_id }, probe_of msg_id)

unfoldable pub validate_report_body : Bytes → Result (Unit {0})
unfolding decode_integer_from decode_varbind_list expect_end
validate_report_body pdu_body = do
  (request_id, o₁) ← decode_integer_from pdu_body 0
  (error_status, o₂) ← decode_integer_from pdu_body o₁
  (error_index, o₃) ← decode_integer_from pdu_body o₂
  (varbinds, o₄) ← decode_varbind_list pdu_body o₃
  expect_end pdu_body o₄

-- The tag of the PDU, which is all that the caller uses of the four results.
unfoldable pub peek_scoped_pdu : Bytes → Result ℕ
unfolding validate_report_body
peek_scoped_pdu msg_data_bytes = do
  (t, end) ← decode_tlv msg_data_bytes 0
  raise_if (not (t.tag == 0x30)) protocol_error
  expect_end msg_data_bytes end
  (engine, o₁) ← decode_tlv t.content 0
  raise_if (not (engine.tag == 0x04)) protocol_error
  (context, o₂) ← decode_tlv t.content o₁
  raise_if (not (context.tag == 0x04)) protocol_error
  (p, o₃) ← decode_tlv t.content o₂
  expect_end t.content o₃
  validate_report_body p.content
  ok p.tag

-- `_parse_discovery_response`. An exception leaves the state as it is: the assignments come last.
unfoldable pub parse_discovery_response : UsmModel → Bytes → Result UsmModel
unfolding peek_scoped_pdu decode_v3_message
parse_discovery_response s data' = do
  view ← as_protocol_error (decode_v3_message data')
  pdu_tag ← as_protocol_error (peek_scoped_pdu view.msg_data_bytes)
  raise_if (not (pdu_tag == 0xa8)) protocol_error
  raise_if (is_empty view.usm_params.engine_id) protocol_error
  ok (record s {
    peer_engine_id = view.usm_params.engine_id;
    peer_engine_boots = view.usm_params.engine_boots;
    peer_engine_time = view.usm_params.engine_time;
  })

-- The state after a step that may raise an exception.
unfoldable pub keep_state : UsmModel → Result UsmModel → UsmModel × Result (Unit {0})
keep_state s (ok after) = (after, ok tt)
keep_state s (err e) = (s, err e)

-- `prepare`: `exchange` is the dispatcher's `send_raw_and_receive`.
unfoldable pub prepare : (Bytes → Result Bytes) → UsmModel → UsmModel × Result (Unit {0})
unfolding build_discovery_probe parse_discovery_response keep_state
prepare exchange s =
    let (counted, probe) = build_discovery_probe s in
    keep_state counted (do
      bytes ← probe
      response_data ← exchange bytes
      parse_discovery_response counted response_data)
