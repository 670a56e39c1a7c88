-- ===== src/Security/Usm.antt =====
-- trishul_snmp/security/usm.py: what `UsmModel` wraps and unwraps.
use trishul_snmp.Prelude.{
  ℕ, suc, ◌+◌, [], pos, Bool, not, ◌||◌, ◌&&◌, Option, none, some, Result, ok, err, protocol_error,
  ◌>>=◌, ◌>>◌, unless_protocol_error, if◌then◌else◌, seq_eq,
}
use trishul_snmp.Wire.Bytes.{Bytes}
use trishul_snmp.Wire.Utf8.{utf8_encode}
use trishul_snmp.Wire.Pdus.{PduType, response, snmpv2_trap, Pdu}
use trishul_snmp.Wire.V3Messages.{
  UsmParams, V3MessageView, encode_scoped_pdu, encode_v3_message, decode_v3_message,
  decode_scoped_pdu,
}
use trishul_snmp.Security.Keys.{
  Crypto, UsmLocalEngine, UsmModel, zero_tag, is_empty, priv_on, auth_enabled, stamp_auth,
  verify_auth,
}
use trishul_snmp.Security.Privacy.{encrypt_scoped_pdu, decrypt_scoped_pdu}

unfoldable pub peer_engine_discovered : UsmModel → Bool
peer_engine_discovered s = not (is_empty s.peer_engine_id)

unfoldable pub peer_engine : UsmModel → UsmLocalEngine
peer_engine s = record {
  engine_id = s.peer_engine_id;
  engine_boots = s.peer_engine_boots;
  engine_time = s.peer_engine_time;
}

unfoldable pub trap_engine : Option UsmLocalEngine → Result UsmLocalEngine
trap_engine none = err protocol_error
trap_engine (some engine) = ok engine

unfoldable pub select_outbound_engine : UsmModel → PduType → Result UsmLocalEngine
unfolding peer_engine trap_engine
select_outbound_engine s snmpv2_trap = trap_engine s.local_engine
select_outbound_engine s _ = ok (peer_engine s)

-- MSG_FLAG_REPORTABLE is 4, or 0 for the unconfirmed classes.
unfoldable pub reportable_flag : PduType → ℕ
reportable_flag snmpv2_trap = 0
reportable_flag response = 0
reportable_flag _ = 4

-- The three flags are different bits, so that `|=` is `+`.
unfoldable pub msg_flags_of : UsmModel → PduType → ℕ
unfolding reportable_flag auth_enabled priv_on
msg_flags_of s pdu_type =
    reportable_flag pdu_type
    + (if auth_enabled s then 1 else 0)
    + (if priv_on s.user.priv_protocol then 2 else 0)

-- The engine of the message is the peer's, or none has been discovered.
unfoldable pub engine_accepted : UsmModel → V3MessageView → Bool
unfolding seq_eq peer_engine_discovered
engine_accepted s view =
    not (peer_engine_discovered s) || seq_eq view.usm_params.engine_id s.peer_engine_id

module _ (crypto : Crypto) where
  -- The scoped PDU, encrypted if the user has a privacy protocol, and `priv_params`.
  unfoldable pub protect_scoped : UsmModel → Bytes → Bytes → UsmLocalEngine → Result (Bytes × Bytes)
  unfolding priv_on encrypt_scoped_pdu
  protect_scoped s local_iv scoped_bytes engine =
      if priv_on s.user.priv_protocol
      then encrypt_scoped_pdu crypto s s.user.priv_protocol local_iv scoped_bytes engine
      else ok ([], scoped_bytes)

  -- `wrap_pdu` behind the increment of the counter.
  unfoldable pub wrap_with : UsmModel → Bytes → UsmLocalEngine → Pdu → Result Bytes
  unfolding msg_flags_of protect_scoped auth_enabled stamp_auth utf8_encode encode_v3_message
  wrap_with s local_iv engine pdu = do
    scoped_bytes ← encode_scoped_pdu engine.engine_id s.context_name pdu
    (priv_params, msg_data) ← protect_scoped s local_iv scoped_bytes engine
    username ← utf8_encode s.user.username
    let usm : UsmParams = record {
      engine_id = engine.engine_id;
      engine_boots = engine.engine_boots;
      engine_time = engine.engine_time;
      username = username;
      auth_params = if auth_enabled s then zero_tag else [];
      priv_params = priv_params;
    }
    raw ←
        encode_v3_message (pos s.msg_id_counter) (pos 65507) (msg_flags_of s pdu.pdu_type) usm
          msg_data
    if auth_enabled s then stamp_auth crypto s raw (some engine.engine_id) else ok raw

  unfoldable pub wrap_selected :
      UsmModel → Bytes → Pdu → Result UsmLocalEngine → UsmModel × Result Bytes
  unfolding wrap_with
  wrap_selected s local_iv pdu (err e) = (s, err e)
  wrap_selected s local_iv pdu (ok engine) =
      let counted : UsmModel = record s { msg_id_counter = suc s.msg_id_counter } in
      (counted, wrap_with counted local_iv engine pdu)

  -- `local_iv` is what `os.urandom(8)` returns, if the message is encrypted.
  unfoldable pub wrap_pdu : UsmModel → Bytes → Pdu → UsmModel × Result Bytes
  unfolding wrap_selected select_outbound_engine
  wrap_pdu s local_iv pdu = wrap_selected s local_iv pdu (select_outbound_engine s pdu.pdu_type)

  unfoldable pub unprotect_scoped : UsmModel → V3MessageView → Result Bytes
  unfolding priv_on decrypt_scoped_pdu
  unprotect_scoped s view =
      if priv_on s.user.priv_protocol
      then decrypt_scoped_pdu crypto s s.user.priv_protocol view.msg_data_bytes
          view.usm_params.priv_params view.usm_params.engine_id view.usm_params.engine_boots
          view.usm_params.engine_time
      else ok view.msg_data_bytes

  unfoldable pub verify_view : UsmModel → Bytes → V3MessageView → Result (Unit {0})
  unfolding auth_enabled verify_auth
  verify_view s data' view =
      if auth_enabled s
      then verify_auth crypto s data' view.auth_params_offset view.usm_params.auth_params
          view.usm_params.engine_id
      else ok tt

  -- `unwrap_message` behind the two tests.
  unfoldable pub open_view : UsmModel → Bytes → V3MessageView → Result (Option Pdu)
  unfolding verify_view unprotect_scoped
  open_view s data' view = do
    verify_view s data' view
    msg_data ← unprotect_scoped s view
    unless_protocol_error (decode_scoped_pdu msg_data) (ok none) (λ scoped. ok (some scoped.pdu))

  -- `unwrap_message` behind `decode_v3_message`.
  unfoldable pub unwrap_view : UsmModel → Bytes → V3MessageView → Result (Option Pdu)
  unfolding engine_accepted open_view utf8_encode
  unwrap_view s data' view = do
    username ← utf8_encode s.user.username
    if seq_eq view.usm_params.username username && engine_accepted s view
        then open_view s data' view
        else ok none

  unfoldable pub unwrap_message : UsmModel → Bytes → Result (Option Pdu)
  unfolding decode_v3_message unwrap_view
  unwrap_message s data' =
      unless_protocol_error (decode_v3_message data') (ok none) (unwrap_view s data')
