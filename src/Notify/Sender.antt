-- ===== src/Notify/Sender.antt =====
-- trishul_snmp/notify/client.py: the sending of traps and informs, over an open session.
use trishul_snmp.Prelude.{
  ℕ, List, [], ◌∷◌, ℤ, pos, Bool, Option, none, some, Result, ok, err, protocol_error, index_error,
  ◌>>=◌, ◌>>◌, require, head_option,
}
use trishul_snmp.Types.{Oid, SnmpValue, Response}
use trishul_snmp.Wire.Bytes.{Bytes}
use trishul_snmp.Wire.Pdus.{inform_request, snmpv2_trap, RawVarBind, Pdu}
use trishul_snmp.Transport.Dispatcher.{
  PreparedRequest, UdpClient, RequestDispatcher, send_only, prepare_request, send_prepared_request,
}
use trishul_snmp.Security.Keys.{UsmLocalEngine}
use trishul_snmp.Manager.Client.{SnmpSession}
use trishul_snmp.Mib.Names.{Target}
use trishul_snmp.Mib.Registry.{MibRegistry}
use trishul_snmp.Mib.Targets.{normalize_targets, response_from_pdu}
use trishul_snmp.Notify.Varbinds.{build_notification_varbinds}

unfoldable pub normalize_notification_target : Option MibRegistry → Target → Result Oid
unfolding normalize_targets
normalize_notification_target bundle notification = do
  oids ← normalize_targets bundle (notification ∷ [])
  require (head_option oids) index_error

-- The bindings of `send_trap` and `send_inform`.
unfoldable pub notification_varbinds :
    Option MibRegistry → Target → List (Target × SnmpValue) → ℤ → Result (List RawVarBind)
unfolding normalize_notification_target build_notification_varbinds
notification_varbinds bundle notification varbinds uptime = do
  notification_oid ← normalize_notification_target bundle notification
  build_notification_varbinds bundle notification_oid varbinds uptime

module _ (wrap_pdu : Pdu → Result Bytes) (unwrap_message : Bytes → Result (Option Pdu))
    (is_printable : ℕ → Bool) (bundle : Option MibRegistry) where
  unfoldable pub trap_sent :
      RequestDispatcher → UdpClient → Result PreparedRequest → SnmpSession × Result ℕ
  unfolding send_only
  trap_sent d c (err e) = (record { dispatcher = d; client = c }, err e)
  trap_sent d c (ok request) =
      let (c', sent) = send_only c request in
      (record { dispatcher = d; client = c' }, (do sent; ok request.request_id))

  unfoldable pub trap_with : SnmpSession → Result (List RawVarBind) → SnmpSession × Result ℕ
  unfolding prepare_request trap_sent
  trap_with s (err e) = (s, err e)
  trap_with s (ok varbinds) =
      let (d, prepared) =
        prepare_request wrap_pdu unwrap_message s.dispatcher snmpv2_trap varbinds (pos 0) (pos 0) in
      trap_sent d s.client prepared

  -- Nothing is received for a trap.
  unfoldable pub send_trap :
      SnmpSession → Target → List (Target × SnmpValue) → ℤ → SnmpSession × Result ℕ
  unfolding notification_varbinds trap_with
  send_trap s notification varbinds uptime =
      trap_with s (notification_varbinds bundle notification varbinds uptime)

  unfoldable pub inform_sent :
      RequestDispatcher → UdpClient → Result PreparedRequest → SnmpSession × Result Response
  unfolding send_prepared_request response_from_pdu
  inform_sent d c (err e) = (record { dispatcher = d; client = c }, err e)
  inform_sent d c (ok request) =
      let (c', result) = send_prepared_request wrap_pdu unwrap_message d c request in
      (
        record { dispatcher = d; client = c' },
        (do pdu ← result; response_from_pdu is_printable bundle pdu),
      )

  unfoldable pub inform_with :
      SnmpSession → Result (List RawVarBind) → SnmpSession × Result Response
  unfolding prepare_request inform_sent
  inform_with s (err e) = (s, err e)
  inform_with s (ok varbinds) =
      let (d, prepared) =
        prepare_request wrap_pdu unwrap_message s.dispatcher inform_request varbinds (pos 0)
          (pos 0) in
      inform_sent d s.client prepared

  unfoldable pub send_inform :
      SnmpSession → Target → List (Target × SnmpValue) → ℤ → SnmpSession × Result Response
  unfolding notification_varbinds inform_with
  send_inform s notification varbinds uptime =
      inform_with s (notification_varbinds bundle notification varbinds uptime)

  -- `V3Notifier.send_trap`, whose security model has this local engine.
  unfoldable pub send_v3_trap :
      Option UsmLocalEngine
      → SnmpSession
      → Target
      → List (Target × SnmpValue)
      → ℤ
      → SnmpSession × Result ℕ
  unfolding send_trap
  send_v3_trap none s notification varbinds uptime = (s, err protocol_error)
  send_v3_trap (some engine) s notification varbinds uptime =
      send_trap s notification varbinds uptime
