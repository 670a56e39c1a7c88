-- ===== src/Tests/Notifications.antt =====
-- An inform of the notification 1.3.6.1.9 that reaches a listener behind a datagram of no meaning.
use trishul_snmp.Prelude.{
  ℕ, ◌≡◌, refl, arith, List, [], ◌∷◌, map, pos, Bool, none, some, ok, seq_eq,
}
use trishul_snmp.Types.{Oid, SnmpValue, integer, time_ticks, object_identifier}
use trishul_snmp.Wire.Bytes.{Bytes}
use trishul_snmp.Wire.Ber.{encode_tlv, encode_length, decode_tlv, decode_length}
use trishul_snmp.Wire.Integers.{encode_signed_integer, encode_unsigned_integer}
use trishul_snmp.Wire.Oids.{encode_oid, encode_base128}
use trishul_snmp.Wire.Utf8.{utf8_encode}
use trishul_snmp.Wire.Pdus.{inform_request, RawVarBind, Pdu, encode_pdu}
use trishul_snmp.Wire.Messages.{SnmpMessage, encode_message, decode_message}
use trishul_snmp.Mib.Names.{Target, numbered}
use trishul_snmp.Mib.Render.{plain_varbind, enrich_varbinds}
use trishul_snmp.Notify.Varbinds.{
  snmp_trap_oid_instance_oid, sys_uptime_instance_oid, normalize_explicit_varbinds,
  build_notification_varbinds,
}
use trishul_snmp.Notify.SetAside.{last_value}
use trishul_snmp.Notify.Recovered.{raw_of, notification_event_from_pdu-recovers}
use trishul_snmp.Notify.Events.{
  NotificationEvent, notification_event_from_pdu, notification_metadata, extract_notification_oid,
  extract_uptime, no_metadata, inform_event,
}
use trishul_snmp.Notify.Listener.{receive_v2c, handle_v2c}
use trishul_snmp.Notify.Acknowledged.{ack_of, receive_v2c-acknowledges}

-- No character is taken for printable.
abbrev none_printable : ℕ → Bool
none_printable c = Bool.false

abbrev notification : Oid
notification = 1 ∷ 3 ∷ 6 ∷ 1 ∷ 9 ∷ []

-- An explicit sysUpTime.0 of 7 replaces the uptime, and 1.3.5 is an extra binding.
abbrev explicit : List RawVarBind
explicit =
    record { oid = sys_uptime_instance_oid; value = time_ticks (pos 7) }
    ∷ record { oid = 1 ∷ 3 ∷ 5 ∷ []; value = integer (pos 2) }
    ∷ []

abbrev targets : List (Target × SnmpValue)
targets =
    (numbered (map pos sys_uptime_instance_oid), time_ticks (pos 7))
    ∷ (numbered (map pos (1 ∷ 3 ∷ 5 ∷ [])), integer (pos 2))
    ∷ []

abbrev inform_pdu : Pdu
inform_pdu = record {
  pdu_type = inform_request;
  request_id = pos 5;
  error_status = pos 0;
  error_index = pos 0;
  varbinds =
      record { oid = sys_uptime_instance_oid; value = time_ticks (pos 7) }
      ∷ record { oid = snmp_trap_oid_instance_oid; value = object_identifier notification }
      ∷ record { oid = 1 ∷ 3 ∷ 5 ∷ []; value = integer (pos 2) }
      ∷ [];
}

explicit_run : normalize_explicit_varbinds none targets ≡ ok explicit
unfolding normalize_explicit_varbinds
explicit_run = refl

built_run : build_notification_varbinds none notification targets (pos 3) ≡ ok inform_pdu.varbinds
unfolding build_notification_varbinds seq_eq
built_run = refl

-- Addresses are numbers here.
abbrev event : NotificationEvent ℕ
event = record {
  request_id = pos 5;
  community = none;
  source_address = some 1;
  pdu_type = inform_event;
  varbinds = map (plain_varbind none_printable) inform_pdu.varbinds;
  notification_oid = some notification;
  notification_name = none;
  notification_description = none;
  uptime = some (pos 7);
  member_bindings = [];
  v3_details = none;
}

notification_event_from_pdu-recovers_example :
    (map raw_of event.varbinds ≡ inform_pdu.varbinds)
    × (event.notification_oid ≡ some notification)
    × (event.uptime ≡ some (pos 7))
unfolding notification_event_from_pdu last_value seq_eq
notification_event_from_pdu-recovers_example =
    notification_event_from_pdu-recovers none_printable none none (some 1) notification targets
      (pos 3) inform_pdu none none explicit event explicit_run built_run refl

abbrev inform_message : SnmpMessage
inform_message = record { version = pos 1; community = b'p' ∷ []; pdu = inform_pdu }

abbrev inform_bytes : Bytes
inform_bytes =
    48 ∷ 63 ∷ 2 ∷ 1 ∷ 1 ∷ 4 ∷ 1 ∷ 112 ∷ 166 ∷ 55 ∷ 2 ∷ 1 ∷ 5 ∷ 2 ∷ 1 ∷ 0 ∷ 2 ∷ 1 ∷ 0 ∷ 48 ∷ 44 ∷ 48
    ∷ 13 ∷ 6 ∷ 8 ∷ 43 ∷ 6 ∷ 1 ∷ 2 ∷ 1 ∷ 1 ∷ 3 ∷ 0 ∷ 67 ∷ 1 ∷ 7 ∷ 48 ∷ 18 ∷ 6 ∷ 10 ∷ 43 ∷ 6 ∷ 1 ∷ 6
    ∷ 3 ∷ 1 ∷ 1 ∷ 4 ∷ 1 ∷ 0 ∷ 6 ∷ 4 ∷ 43 ∷ 6 ∷ 1 ∷ 9 ∷ 48 ∷ 7 ∷ 6 ∷ 2 ∷ 43 ∷ 5 ∷ 2 ∷ 1 ∷ 2 ∷ []

abbrev ack_bytes : Bytes
ack_bytes =
    48 ∷ 63 ∷ 2 ∷ 1 ∷ 1 ∷ 4 ∷ 1 ∷ 112 ∷ 162 ∷ 55 ∷ 2 ∷ 1 ∷ 5 ∷ 2 ∷ 1 ∷ 0 ∷ 2 ∷ 1 ∷ 0 ∷ 48 ∷ 44 ∷ 48
    ∷ 13 ∷ 6 ∷ 8 ∷ 43 ∷ 6 ∷ 1 ∷ 2 ∷ 1 ∷ 1 ∷ 3 ∷ 0 ∷ 67 ∷ 1 ∷ 7 ∷ 48 ∷ 18 ∷ 6 ∷ 10 ∷ 43 ∷ 6 ∷ 1 ∷ 6
    ∷ 3 ∷ 1 ∷ 1 ∷ 4 ∷ 1 ∷ 0 ∷ 6 ∷ 4 ∷ 43 ∷ 6 ∷ 1 ∷ 9 ∷ 48 ∷ 7 ∷ 6 ∷ 2 ∷ 43 ∷ 5 ∷ 2 ∷ 1 ∷ 2 ∷ []

-- The first datagram is no message, and the last one is not read.
receive_v2c-acknowledges_example :
    (receive_v2c {Address = ℕ} none_printable none none
        ((1, 5 ∷ []) ∷ (2, inform_bytes) ∷ (3, []) ∷ [])
      ≡ record {
        replies = (2, ack_bytes) ∷ [];
        outcome =
            some (ok (record event { community = some (b'p' ∷ []); source_address = some 2 }));
        rest = (3, []) ∷ [];
      })
    × (map raw_of event.varbinds ≡ inform_pdu.varbinds)
    × (decode_message ack_bytes ≡ ok (ack_of inform_message))
unfolding handle_v2c decode_message decode_tlv decode_length encode_message encode_pdu encode_tlv
    encode_length encode_signed_integer encode_unsigned_integer encode_oid encode_base128
    utf8_encode enrich_varbinds notification_metadata extract_notification_oid extract_uptime seq_eq
receive_v2c-acknowledges_example =
    receive_v2c-acknowledges none_printable none none ((1, 5 ∷ []) ∷ []) ((3, []) ∷ []) 2
      inform_message inform_bytes ack_bytes event.varbinds no_metadata (refl, tt)
      (tt, (tt, (tt, tt))) refl refl refl refl refl (omega arith) (omega arith) refl refl
