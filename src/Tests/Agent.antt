-- ===== src/Tests/Agent.antt =====
-- An agent with two objects, and what it answers.
use trishul_snmp.Prelude.{
  ℕ, ◌+◌, ◌-◌, ◌*◌, ◌≡◌, ◌⊎◌, refl, List, [], ◌∷◌, pos, true, false, none, some, Result, ok, err,
  value_error, length, min, seq_eq, seq_lt, if◌then◌else◌, ◌&&◌,
}
use trishul_snmp.Types.{Oid, integer, null, counter32, end_of_mib_view}
use trishul_snmp.Dict
use trishul_snmp.Wire.Bytes.{Bytes}
use trishul_snmp.Wire.Ber.{decode_tlv, decode_length, expect_end, encode_tlv, encode_length}
use trishul_snmp.Wire.Integers.{encode_signed_integer}
use trishul_snmp.Wire.Oids.{encode_oid, encode_base128}
use trishul_snmp.Wire.Pdus.{get_bulk, response, RawVarBind, Pdu}
use trishul_snmp.Wire.Messages.{SnmpMessage, encode_message, decode_message}
use trishul_snmp.Responder.Rules.{Environment, SimulationRule, counter_rule, counter32_type}
use trishul_snmp.Responder.Bisect.{bisect_right, insort}
use trishul_snmp.Responder.Sources.{
  ObjectValue, plain, rule, update, InMemoryObjectSource, in_memory, lookup_exact, lookup_next,
  read_stored, set_oid, set_objects, clear, empty_source,
}
use trishul_snmp.Responder.Sources.Invariant.{
  IsValid, clear-IsValid, set_oid-IsValid, set_objects-IsValid,
}
use trishul_snmp.Responder.Sources.Refines.{
  Command, set_command, delete_command, run, act, replay, run-refines,
}
use trishul_snmp.Responder.Sources.Lookups.{IsNextObject, with_oid, lookup_next-least}
use trishul_snmp.Responder.Server.{
  build_response_pdu, build_bulk_varbinds, contains, community_allowed, normalize_communities,
  handle_datagram, clamp,
}
use trishul_snmp.Responder.Server.Bulk.{build_bulk_varbinds-length}
use trishul_snmp.Responder.Server.Bindings.{Bindings}
use trishul_snmp.Responder.Server.Bindings.Replied.{build_response_pdu-Bindings}
use trishul_snmp.Responder.Server.Replies.{
  Answers, HasBindings, handle_datagram-reply, community_allowed-normalize,
}
use trishul_snmp.Tests.Codec.{public_name, message_bytes}

abbrev still : Environment
still = record {
  randint = λ lo hi. lo;
  elapsed = λ start. pos 0;
  epoch = pos 0;
  custom = λ state. err value_error;
  construct = λ t n. err value_error;
}

abbrev env : ℕ → Environment
env n = still

abbrev rules : ℕ → SimulationRule
rules n = counter_rule (pos 5) (pos 1) counter32_type

abbrev pub low : Oid
low = 1 ∷ 3 ∷ 1 ∷ []

abbrev pub high : Oid
high = 1 ∷ 3 ∷ 2 ∷ []

-- A target is its identifier.
abbrev as_oid : Oid → Result Oid
as_oid oid = ok oid

abbrev two_objects : InMemoryObjectSource
two_objects = record {
  values = (high, rule 0) ∷ (low, plain (integer (pos 7))) ∷ [];
  sorted_oids = low ∷ high ∷ [];
  rules = rules;
  reads = 0;
}

empty-IsValid : IsValid (empty_source rules)
unfolding clear
empty-IsValid = clear-IsValid (empty_source rules)

two_objects-IsValid : IsValid two_objects
unfolding set_oid Dict.insert Dict.lookup Dict.has insort seq_eq seq_lt
two_objects-IsValid =
    set_oid-IsValid (set_oid (empty_source rules) high (rule 0)) low (plain (integer (pos 7)))
      (set_oid-IsValid (empty_source rules) high (rule 0) empty-IsValid)

set_objects-IsValid_example :
    IsValid (set_objects as_oid (empty_source rules) ((high, rule 0) ∷ (low, plain null) ∷ [])).0
set_objects-IsValid_example =
    set_objects-IsValid as_oid ((high, rule 0) ∷ (low, plain null) ∷ []) (empty_source rules)
      empty-IsValid

lookup_next-least_example :
    (lookup_next env two_objects low ≡ ok (two_objects, none))
      × ((p : Oid) → (Dict.has p two_objects.values && seq_lt low p) ≡ false)
    ⊎ ((next : Oid) × (stored : ObjectValue) × IsNextObject two_objects low next
        × (Dict.lookup next two_objects.values ≡ some stored)
        × (lookup_next env two_objects low ≡ with_oid next (read_stored env two_objects stored)))
lookup_next-least_example = lookup_next-least env two_objects low two_objects-IsValid

-- The first change is to a stored object, the third to one that is not there any more.
abbrev changes : List Command
changes = set_command low (rule 3) ∷ delete_command high ∷ delete_command high ∷ []

run-refines_example :
    IsValid (run changes two_objects).0
    × (Dict.lookup low (run changes two_objects).0.values ≡ some (rule 3))
    × ((run changes two_objects).1 ≡ true ∷ true ∷ false ∷ [])
unfolding replay act seq_eq Dict.lookup
run-refines_example = run-refines changes two_objects low two_objects-IsValid

abbrev bulk_request : Pdu
bulk_request = record {
  pdu_type = get_bulk;
  request_id = pos 9;
  error_status = pos 1;
  error_index = pos 2;
  varbinds = record { oid = low; value = null } ∷ record { oid = low; value = null } ∷ [];
}

community_allowed-normalize_example :
    community_allowed (normalize_communities (some (public_name ∷ [] ∷ []))) []
    ≡ (if seq_eq [] [] then false else contains [] (public_name ∷ [] ∷ []))
community_allowed-normalize_example = community_allowed-normalize (public_name ∷ [] ∷ []) []

abbrev reply_varbinds : List RawVarBind
reply_varbinds =
    record { oid = high; value = counter32 (pos 5) }
    ∷ record { oid = high; value = counter32 (pos 6) }
    ∷ record { oid = high; value = end_of_mib_view }
    ∷ []

build_bulk_varbinds-length_example :
    length reply_varbinds ≡ min (clamp (pos 1)) 2 + clamp (pos 2) * (2 - min (clamp (pos 1)) 2)
unfolding build_bulk_varbinds lookup_next bisect_right seq_lt Dict.lookup seq_eq
build_bulk_varbinds-length_example =
    build_bulk_varbinds-length (in_memory env) two_objects bulk_request.varbinds (pos 1) (pos 2) _
      reply_varbinds refl

abbrev bulk_reply : Pdu
bulk_reply = record {
  pdu_type = response;
  request_id = pos 9;
  error_status = pos 0;
  error_index = pos 0;
  varbinds = reply_varbinds;
}

-- The counter has been read twice.
abbrev after_bulk : InMemoryObjectSource
after_bulk = record two_objects {
  rules =
      update (update rules 0 (counter_rule (pos 6) (pos 1) counter32_type)) 0
        (counter_rule (pos 7) (pos 1) counter32_type);
  reads = 2;
}

build_response_pdu-Bindings_example :
    Answers bulk_request bulk_reply
    × Bindings (in_memory env) get_bulk two_objects bulk_request after_bulk bulk_reply
unfolding build_response_pdu lookup_next bisect_right seq_lt Dict.lookup seq_eq
build_response_pdu-Bindings_example =
    build_response_pdu-Bindings (in_memory env) two_objects bulk_request after_bulk bulk_reply refl

-- The reply to `message_bytes`: there is no such object.
abbrev pub reply_bytes : Bytes
reply_bytes =
    48 ∷ 39 ∷ 2 ∷ 1 ∷ 1 ∷ 4 ∷ 6 ∷ 112 ∷ 117 ∷ 98 ∷ 108 ∷ 105 ∷ 99 ∷ 162 ∷ 26 ∷ 2 ∷ 2 ∷ 1 ∷ 44 ∷ 2
    ∷ 1 ∷ 0 ∷ 2 ∷ 1 ∷ 0 ∷ 48 ∷ 14 ∷ 48 ∷ 12 ∷ 6 ∷ 8 ∷ 43 ∷ 6 ∷ 1 ∷ 2 ∷ 1 ∷ 1 ∷ 1 ∷ 0 ∷ 128 ∷ 0 ∷ []

handle_datagram-reply_example :
    (message : SnmpMessage) × (pdu : Pdu) × (decode_message message_bytes ≡ ok message)
    × (community_allowed (some (public_name ∷ [])) message.community ≡ true)
    × (encode_message (record message { pdu = pdu }) ≡ ok reply_bytes)
    × Answers message.pdu pdu
    × HasBindings message.pdu.pdu_type message.pdu pdu
unfolding handle_datagram decode_tlv decode_length expect_end encode_tlv encode_length seq_eq
    lookup_exact Dict.lookup encode_signed_integer encode_oid encode_base128
handle_datagram-reply_example =
    handle_datagram-reply (in_memory env) (some (public_name ∷ [])) two_objects message_bytes
      two_objects reply_bytes refl
