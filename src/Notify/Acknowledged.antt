-- ===== src/Notify/Acknowledged.antt =====
-- The listener of v2c notifications and the informs that reach it.
use trishul_snmp.Prelude.{
  >>=-ok, ℕ, List, [], ◌∷◌, ◌++◌, ◌≡◌, ◌∙◌, refl, ap, pos, Bool, true, Option, none, some, map,
  Result, ok, err, if◌then◌else◌, All, protocol_error,
}
use trishul_snmp.Types.{Text, VarBind}
use trishul_snmp.Wire.Bytes.{Bytes}
use trishul_snmp.Wire.Ber.RoundTrip.{Fits}
use trishul_snmp.Wire.Pdus.{inform_request, response}
use trishul_snmp.Wire.Pdus.RoundTrip.{AreCanonical}
use trishul_snmp.Wire.Messages.{SnmpMessage, is_v2c, encode_message, decode_message}
use trishul_snmp.Wire.Messages.RoundTrip.{decode_message-encode_message}
use trishul_snmp.Mib.Registry.{MibRegistry}
use trishul_snmp.Responder.Server.{community_allowed}
use trishul_snmp.Notify.Reports.{inform_response_pdu}
use trishul_snmp.Notify.Recovered.{raw_of, enrich_varbinds-raw}
use trishul_snmp.Mib.Render.{enrich_varbinds}
use trishul_snmp.Notify.Events.{
  NotificationEvent, Metadata, inform_event, event_type, notification_metadata,
  extract_notification_oid, extract_uptime, notification_event_from_pdu,
  notification_event_from_message,
}
use trishul_snmp.Notify.Listener.{
  Received, Handled, ignored, send_to, next_round, receive_loop, inform_ack, accept_message,
  handle_message, handle_v2c, receive_v2c,
}

module _ {Address A : Type 0} (handle : Address → Bytes → Result (Handled A)) where
  abbrev Ignored : Address × Bytes → Type 0
  Ignored (address, data') = handle address data' ≡ ok ignored

  pub receive_loop-skips :
      (before after : List (Address × Bytes))
      → All Ignored before
      → receive_loop handle (before ++ after) ≡ receive_loop handle after
  unfolding receive_loop next_round send_to
  receive_loop-skips [] after h = refl
  receive_loop-skips ((address, data') ∷ before) after (h, hs) =
      ap (next_round address (before ++ after) (receive_loop handle (before ++ after))) h
      ∙ receive_loop-skips before after hs

-- The message that acknowledges an inform.
abbrev pub ack_of : SnmpMessage → SnmpMessage
ack_of message = record message {
  pdu = record {
    pdu_type = response;
    request_id = message.pdu.request_id;
    error_status = pos 0;
    error_index = pos 0;
    varbinds = message.pdu.varbinds;
  };
}

read_back :
    (message : SnmpMessage) (bs : Bytes)
    → AreCanonical message.pdu.varbinds
    → is_v2c message.version ≡ true
    → encode_message message ≡ ok bs
    → Fits bs
    → decode_message bs ≡ ok message
read_back message bs c v e fits =
    decode_message-encode_message message bs c e fits
    ∙ ap (λ b. if b then ok message else err protocol_error) v

module _ {Address : Type 0} where
  -- The event of an inform, by its fields.
  abbrev pub event_of : Address → SnmpMessage → List VarBind → Metadata → NotificationEvent Address
  event_of address message varbinds metadata = record {
    request_id = message.pdu.request_id;
    community = some message.community;
    source_address = some address;
    pdu_type = inform_event;
    varbinds = varbinds;
    notification_oid = extract_notification_oid varbinds;
    notification_name = metadata.name;
    notification_description = metadata.description;
    uptime = extract_uptime varbinds;
    member_bindings = metadata.bindings;
    v3_details = none;
  }

  -- The listener behind the one reply.
  abbrev returned :
      Address
      → Bytes
      → List (Address × Bytes)
      → Result (NotificationEvent Address)
      → Received Address (NotificationEvent Address)
  returned address ack rest event = record {
    replies = (address, ack) ∷ [];
    outcome = some event;
    rest = rest;
  }

module _ {Address : Type 0} (is_printable : ℕ → Bool) (bundle : Option MibRegistry) where
  handle_inform :
      (communities : Option (List Text)) (address : Address) (message : SnmpMessage)
      (bs ack : Bytes)
      → decode_message bs ≡ ok message
      → community_allowed communities message.community ≡ true
      → message.pdu.pdu_type ≡ inform_request
      → encode_message (ack_of message) ≡ ok ack
      → handle_v2c is_printable bundle communities address bs
        ≡ ok (record {
          reply = some ack;
          event = some (notification_event_from_message is_printable bundle (some address) message);
        })
  unfolding handle_v2c handle_message accept_message inform_ack inform_response_pdu
  handle_inform communities address message bs ack read allowed inform e =
      rw (read, allowed, inform, e) refl

  -- The event of an inform whose bindings, and whose notification, the bundle can render.
  inform_event-ok :
      (address : Address) (message : SnmpMessage) (varbinds : List VarBind) (metadata : Metadata)
      → message.pdu.pdu_type ≡ inform_request
      → enrich_varbinds is_printable bundle message.pdu.varbinds ≡ ok varbinds
      → notification_metadata bundle (extract_notification_oid varbinds) varbinds ≡ ok metadata
      → notification_event_from_message is_printable bundle (some address) message
        ≡ ok (event_of address message varbinds metadata)
  unfolding notification_event_from_message notification_event_from_pdu event_type
  inform_event-ok address message varbinds metadata inform r m =
      >>=-ok (event_type message.pdu.pdu_type) _ (ap event_type inform) (
        >>=-ok (enrich_varbinds is_printable bundle message.pdu.varbinds) _ r (
          >>=-ok (notification_metadata bundle (extract_notification_oid varbinds) varbinds) _ m
            refl))

  -- A v2c inform, whose IPv4 addresses are in the printed form, reaches a listener behind datagrams that
  -- it ignores, from a community that it accepts; the inform and its acknowledgement can be encoded in
  -- fewer than 2^32 bytes, and the listener's bundle, if there is one, renders the bindings and the
  -- notification. Then the listener returns the event of the inform, with its request id, community,
  -- source and bindings; it leaves what arrives later, and has sent one reply, to the inform's source:
  -- a response with the inform's request id and bindings, no error, and the inform's version and
  -- community.
  pub receive_v2c-acknowledges :
      (communities : Option (List Text)) (before rest : List (Address × Bytes)) (address : Address)
      (message : SnmpMessage) (bs ack : Bytes) (varbinds : List VarBind) (metadata : Metadata)
      → All (Ignored (handle_v2c is_printable bundle communities)) before
      → AreCanonical message.pdu.varbinds
      → is_v2c message.version ≡ true
      → message.pdu.pdu_type ≡ inform_request
      → community_allowed communities message.community ≡ true
      → encode_message message ≡ ok bs
      → encode_message (ack_of message) ≡ ok ack
      → Fits bs
      → Fits ack
      → enrich_varbinds is_printable bundle message.pdu.varbinds ≡ ok varbinds
      → notification_metadata bundle (extract_notification_oid varbinds) varbinds ≡ ok metadata
      → (receive_v2c is_printable bundle communities (before ++ (address, bs) ∷ rest) ≡ record {
        replies = (address, ack) ∷ [];
        outcome = some (ok (event_of address message varbinds metadata));
        rest = rest;
      })
        × (map raw_of varbinds ≡ message.pdu.varbinds)
        × (decode_message ack ≡ ok (ack_of message))
  unfolding receive_v2c receive_loop next_round send_to
  receive_v2c-acknowledges communities before rest address message bs ack varbinds metadata h c v
        inform allowed e a fits fits' r m =
      let read = read_back message bs c v e fits in
      let handled = handle_inform communities address message bs ack read allowed inform a in
      let handle = handle_v2c is_printable bundle communities in
      let event = inform_event-ok address message varbinds metadata inform r m in
      (
        receive_loop-skips handle before ((address, bs) ∷ rest) h
            ∙ ap (next_round address rest (receive_loop handle rest)) handled
            ∙ ap (returned address ack rest) event,
        enrich_varbinds-raw is_printable bundle message.pdu.varbinds varbinds r,
        read_back (ack_of message) ack c v a fits',
      )
