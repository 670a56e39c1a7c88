-- ===== src/Notify/Events.antt =====
-- trishul_snmp/notify/events.py: the event that a trap or an inform becomes.
use trishul_snmp.Prelude.{
  ℕ, List, [], ◌∷◌, map, ℤ, pos, Bool, ◌&&◌, ◌||◌, Option, none, some, Result, ok, err,
  protocol_error, value_error, ◌>>=◌, seq_eq, if◌then◌else◌,
}
use trishul_snmp.Types.{Oid, Text, OidMatch, VarBind, SnmpValue}
use trishul_snmp.Wire.Bytes.{Bytes}
use trishul_snmp.Wire.Utf8.{utf8_decode}
use trishul_snmp.Wire.Pdus.{PduType, inform_request, snmpv2_trap, Pdu}
use trishul_snmp.Wire.Messages.{SnmpMessage, decode_message}
use trishul_snmp.Mib.Models.{MibMemberRef, MibNode}
use trishul_snmp.Mib.Names.{numbered, is_blank}
use trishul_snmp.Mib.Registry.{MibRegistry, lookup_oid, resolve_node}
use trishul_snmp.Mib.Display.{display_symbolic_from_match}
use trishul_snmp.Mib.Bundle.{notification_type}
use trishul_snmp.Mib.Render.{enrich_varbinds, optional_match}
use trishul_snmp.Security.Keys.{Crypto, UsmUser}
use trishul_snmp.Notify.Levels.{SecurityLevel}
use trishul_snmp.Notify.V3.{V3NotificationEnvelope, decode_v3_notification_message}
use trishul_snmp.Notify.Varbinds.{
  oid_value, ticks_value, sys_uptime_instance_oid, snmp_trap_oid_instance_oid,
}

pub record NotificationMemberBinding : Type 0 where
  pub member : MibMemberRef
  pub varbind : Option VarBind

-- The names "snmpv2-trap" and "inform-request".
pub data EventType : Type 0 where
  trap_event inform_event : EventType

-- What a decoded v3 message adds to the event: the version "3", and these.
pub record V3Details : Type 0 where
  pub username : Text
  pub security_level : SecurityLevel
  pub context_engine_id : Bytes
  pub context_name : Bytes
  pub authoritative_engine_id : Bytes
  pub authoritative_engine_boots : ℤ
  pub authoritative_engine_time : ℤ

pub record NotificationEvent {ℓ} (Address : Type ℓ) : Type ℓ where
  pub request_id : ℤ
  pub community : Option Text
  pub source_address : Option Address
  pub pdu_type : EventType
  pub varbinds : List VarBind
  pub notification_oid : Option Oid
  pub notification_name : Option Text
  pub notification_description : Option Text
  pub uptime : Option ℤ
  pub member_bindings : List NotificationMemberBinding
  pub v3_details : Option V3Details

abbrev pub first_of : {A : Type 0} → Option A → Bool → Option A → Option A
first_of none matches later = later
first_of (some value) matches later = if matches then some value else later

-- The value of the first binding of that identifier that `read` accepts.
unfoldable pub extract_first : {A : Type 0} → Oid → (SnmpValue → Option A) → List VarBind → Option A
unfolding seq_eq
extract_first wanted read [] = none
extract_first wanted read (varbind ∷ rest) =
    first_of (read varbind.value) (seq_eq varbind.oid wanted) (extract_first wanted read rest)

unfoldable pub extract_notification_oid : List VarBind → Option Oid
unfolding extract_first oid_value
extract_notification_oid = extract_first snmp_trap_oid_instance_oid oid_value

unfoldable pub extract_uptime : List VarBind → Option ℤ
unfolding extract_first ticks_value
extract_uptime = extract_first sys_uptime_instance_oid ticks_value

unfoldable pub payload_varbinds : List VarBind → List VarBind
unfolding seq_eq
payload_varbinds [] = []
payload_varbinds (varbind ∷ rest) =
    let later = payload_varbinds rest in
    if seq_eq varbind.oid sys_uptime_instance_oid || seq_eq varbind.oid snmp_trap_oid_instance_oid
    then later
    else varbind ∷ later

-- Each declared member with the binding at its position.
unfoldable pub pair_members : List MibMemberRef → List VarBind → List NotificationMemberBinding
pair_members [] varbinds = []
pair_members (member ∷ members) [] =
    record { member = member; varbind = none } ∷ pair_members members []
pair_members (member ∷ members) (varbind ∷ varbinds) =
    record { member = member; varbind = some varbind } ∷ pair_members members varbinds

unfoldable pub members_of : Option (List MibMemberRef) → List MibMemberRef
members_of none = []
members_of (some members) = members

unfoldable pub build_member_bindings : MibNode → List VarBind → List NotificationMemberBinding
unfolding members_of payload_varbinds pair_members
build_member_bindings node varbinds =
    pair_members (members_of node.members) (payload_varbinds varbinds)

-- The name, the description and the member bindings.
pub record Metadata : Type 0 where
  pub name : Option Text
  pub description : Option Text
  pub bindings : List NotificationMemberBinding

abbrev pub no_metadata : Metadata
no_metadata = record { name = none; description = none; bindings = [] }

unfoldable pub node_metadata : Text → List VarBind → Option MibNode → Metadata
unfolding build_member_bindings seq_eq
node_metadata name varbinds none = record { name = some name; description = none; bindings = [] }
node_metadata name varbinds (some node) =
    if seq_eq node.object_type notification_type
    then record {
      name = some name;
      description = node.description;
      bindings = build_member_bindings node varbinds;
    }
    else record { name = some name; description = none; bindings = [] }

unfoldable pub match_metadata : MibRegistry → Oid → List VarBind → Option OidMatch → Metadata
unfolding node_metadata display_symbolic_from_match resolve_node seq_eq
match_metadata s notification_oid varbinds none = no_metadata
match_metadata s notification_oid varbinds (some m) =
    node_metadata (display_symbolic_from_match s m) varbinds (
      if seq_eq m.matched_oid notification_oid && is_blank m.suffix
      then resolve_node s m.module_name m.symbol
      else none)

unfoldable pub notification_metadata :
    Option MibRegistry → Option Oid → List VarBind → Result Metadata
unfolding match_metadata lookup_oid optional_match
notification_metadata (some s) (some notification_oid) varbinds = do
  m ← optional_match (lookup_oid s (numbered (map pos notification_oid)))
  ok (match_metadata s notification_oid varbinds m)
notification_metadata _ _ varbinds = ok no_metadata

-- `_PDU_TYPE_NAMES.get`, whose missing key is a ValueError.
unfoldable pub event_type : PduType → Result EventType
event_type snmpv2_trap = ok trap_event
event_type inform_request = ok inform_event
event_type _ = err value_error

-- `data.decode("utf-8")`, whose UnicodeDecodeError is a ValueError.
unfoldable pub strict_text : Result Text → Result Text
strict_text (ok text) = ok text
strict_text (err e) = err value_error

unfoldable pub details_of : V3NotificationEnvelope → Result V3Details
unfolding utf8_decode strict_text
details_of envelope = do
  username ← strict_text (utf8_decode envelope.view.usm_params.username)
  ok (record {
    username = username;
    security_level = envelope.security_level;
    context_engine_id = envelope.context_engine_id;
    context_name = envelope.context_name;
    authoritative_engine_id = envelope.view.usm_params.engine_id;
    authoritative_engine_boots = envelope.view.usm_params.engine_boots;
    authoritative_engine_time = envelope.view.usm_params.engine_time;
  })

module _ {ℓ} {Address : Type ℓ} (is_printable : ℕ → Bool) (bundle : Option MibRegistry)
    (source_address : Option Address) where
  unfoldable pub notification_event_from_pdu :
      Pdu → Option Text → Option V3Details → Result (NotificationEvent Address)
  unfolding event_type enrich_varbinds notification_metadata extract_notification_oid extract_uptime
  notification_event_from_pdu pdu community details = do
    pdu_type ← event_type pdu.pdu_type
    varbinds ← enrich_varbinds is_printable bundle pdu.varbinds
    metadata ← notification_metadata bundle (extract_notification_oid varbinds) varbinds
    ok (record {
      request_id = pdu.request_id;
      community = community;
      source_address = source_address;
      pdu_type = pdu_type;
      varbinds = varbinds;
      notification_oid = extract_notification_oid varbinds;
      notification_name = metadata.name;
      notification_description = metadata.description;
      uptime = extract_uptime varbinds;
      member_bindings = metadata.bindings;
      v3_details = details;
    })

  unfoldable pub notification_event_from_message : SnmpMessage → Result (NotificationEvent Address)
  unfolding notification_event_from_pdu
  notification_event_from_message message =
      notification_event_from_pdu message.pdu (some message.community) none

  unfoldable pub notification_event_from_v3_envelope :
      V3NotificationEnvelope → Result (NotificationEvent Address)
  unfolding details_of notification_event_from_pdu
  notification_event_from_v3_envelope envelope = do
    details ← details_of envelope
    notification_event_from_pdu envelope.pdu none (some details)

  unfoldable pub event_of_envelope :
      Option V3NotificationEnvelope → Result (NotificationEvent Address)
  unfolding notification_event_from_v3_envelope
  event_of_envelope none = err protocol_error
  event_of_envelope (some envelope) = notification_event_from_v3_envelope envelope

  unfoldable pub decode_notification :
      Crypto → Option UsmUser → Bytes → Result (NotificationEvent Address)
  unfolding notification_event_from_message event_of_envelope decode_v3_notification_message
      decode_message
  decode_notification crypto none data' = do
    message ← decode_message data'
    notification_event_from_message message
  decode_notification crypto (some user) data' = do
    envelope ← decode_v3_notification_message crypto user data'
    event_of_envelope envelope
