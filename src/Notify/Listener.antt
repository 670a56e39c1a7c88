-- ===== src/Notify/Listener.antt =====
-- trishul_snmp/notify/listener.py: the loops that wait for a notification, over the datagrams that
-- arrive.
use trishul_snmp.Prelude.{
  ℕ, List, [], ◌∷◌, Bool, true, false, Option, none, some, Result, ok, err, ◌>>=◌,
  unless_protocol_error, if◌then◌else◌,
}
use trishul_snmp.Types.{Text}
use trishul_snmp.Wire.Bytes.{Bytes}
use trishul_snmp.Wire.Pdus.{PduType, inform_request, snmpv2_trap}
use trishul_snmp.Wire.Messages.{SnmpMessage, encode_message, decode_message}
use trishul_snmp.Mib.Registry.{MibRegistry}
use trishul_snmp.Security.Keys.{Crypto, UsmUser, UsmLocalEngine}
use trishul_snmp.Responder.Server.{community_allowed}
use trishul_snmp.Notify.V3.{V3NotificationEnvelope, decode_v3_notification_message}
use trishul_snmp.Notify.Reports.{
  is_inform, inform_response_pdu, is_discovery_probe, encode_discovery_report,
  encode_inform_response,
}
use trishul_snmp.Notify.Events.{
  NotificationEvent, notification_event_from_message, notification_event_from_v3_envelope,
}

-- What a round of the loop does with a datagram: what it sends to the datagram's source, and the event
-- or the exception that ends the loop behind it.
pub record Handled (A : Type 0) : Type 0 where
  pub reply : Option Bytes
  pub event : Option (Result A)

abbrev pub ignored : {A : Type 0} → Handled A
ignored = record { reply = none; event = none }

-- The outcome of `receive`: the replies in order with their destinations, the event or the exception,
-- and the datagrams not taken. With no datagram left, the loop waits: there is no event.
pub record Received (Address A : Type 0) : Type 0 where
  pub replies : List (Address × Bytes)
  pub outcome : Option (Result A)
  pub rest : List (Address × Bytes)

unfoldable pub send_to :
    {Address : Type 0} → Address → Option Bytes → List (Address × Bytes) → List (Address × Bytes)
send_to address none replies = replies
send_to address (some reply) replies = (address, reply) ∷ replies

module _ {Address A : Type 0} where
  unfoldable pub next_round :
      Address
      → List (Address × Bytes)
      → Received Address A
      → Result (Handled A)
      → Received Address A
  unfolding send_to
  next_round address rest later (err e) = record {
    replies = [];
    outcome = some (err e);
    rest = rest;
  }
  next_round address rest later (ok handled) = elim handled.event [
    | none ↦ record later { replies = send_to address handled.reply later.replies }
    | some event ↦ record {
      replies = send_to address handled.reply [];
      outcome = some event;
      rest = rest;
    }
  ]

  -- `while True`, with the body `handle`.
  unfoldable pub receive_loop :
      (Address → Bytes → Result (Handled A)) → List (Address × Bytes) → Received Address A
  unfolding next_round
  receive_loop handle [] = record { replies = []; outcome = none; rest = [] }
  receive_loop handle ((address, data') ∷ rest) =
      next_round address rest (receive_loop handle rest) (handle address data')

-- A trap has no acknowledgement.
unfoldable pub inform_ack : SnmpMessage → Result (Option Bytes)
unfolding inform_response_pdu encode_message
inform_ack message =
    if is_inform message.pdu.pdu_type
    then (do
      bytes ← encode_message (record message { pdu = inform_response_pdu message.pdu })
      ok (some bytes))
    else ok none

abbrev pub is_notification : PduType → Bool
is_notification snmpv2_trap = true
is_notification inform_request = true
is_notification _ = false

-- `local_iv` is what `os.urandom(8)` returns for an encrypted acknowledgement.
module _ (crypto : Crypto) (user : UsmUser) (local_engine : UsmLocalEngine) (local_iv : Bytes) where
  unfoldable pub v3_ack : V3NotificationEnvelope → Result (Option Bytes)
  unfolding encode_inform_response
  v3_ack envelope =
      if is_inform envelope.pdu.pdu_type
      then (do
        bytes ← encode_inform_response crypto user local_engine local_iv envelope
        ok (some bytes))
      else ok none

unfoldable pub answer_probe : {A : Type 0} → UsmLocalEngine → Bytes → Result (Handled A)
unfolding encode_discovery_report
answer_probe local_engine data' =
    unless_protocol_error (encode_discovery_report data' local_engine) (ok ignored)
      (λ report. ok (record { reply = some report; event = none }))

module _ {Address : Type 0} (is_printable : ℕ → Bool) (bundle : Option MibRegistry) where
  unfoldable pub accept_message :
      Address → SnmpMessage → Result (Handled (NotificationEvent Address))
  unfolding inform_ack notification_event_from_message
  accept_message address message = do
    reply ← inform_ack message
    ok (record {
      reply = reply;
      event = some (notification_event_from_message is_printable bundle (some address) message);
    })

  unfoldable pub handle_message :
      Option (List Text) → Address → SnmpMessage → Result (Handled (NotificationEvent Address))
  unfolding community_allowed accept_message
  handle_message communities address message =
      if community_allowed communities message.community
      then (if is_notification message.pdu.pdu_type
          then accept_message address message
          else ok ignored)
      else ok ignored

  unfoldable pub handle_v2c :
      Option (List Text) → Address → Bytes → Result (Handled (NotificationEvent Address))
  unfolding handle_message decode_message
  handle_v2c communities address data' =
      unless_protocol_error (decode_message data') (ok ignored) (handle_message communities address)

  unfoldable pub receive_v2c :
      Option (List Text) → List (Address × Bytes) → Received Address (NotificationEvent Address)
  unfolding receive_loop handle_v2c
  receive_v2c communities = receive_loop (handle_v2c communities)

  module _ (crypto : Crypto) (user : UsmUser) (local_engine : UsmLocalEngine)
      (local_iv : Bytes) where
    unfoldable pub handle_envelope :
        Address → Option V3NotificationEnvelope → Result (Handled (NotificationEvent Address))
    unfolding v3_ack notification_event_from_v3_envelope
    handle_envelope address none = ok ignored
    handle_envelope address (some envelope) = do
      reply ← v3_ack crypto user local_engine local_iv envelope
      ok (record {
        reply = reply;
        event =
            some (notification_event_from_v3_envelope is_printable bundle (some address) envelope);
      })

    unfoldable pub handle_v3 : Address → Bytes → Result (Handled (NotificationEvent Address))
    unfolding is_discovery_probe answer_probe decode_v3_notification_message handle_envelope
    handle_v3 address data' = do
      is_probe ← is_discovery_probe data'
      if is_probe
          then answer_probe local_engine data'
          else unless_protocol_error (decode_v3_notification_message crypto user data') (ok ignored)
              (handle_envelope address)

    unfoldable pub receive_v3 :
        List (Address × Bytes) → Received Address (NotificationEvent Address)
    unfolding receive_loop handle_v3
    receive_v3 = receive_loop handle_v3
