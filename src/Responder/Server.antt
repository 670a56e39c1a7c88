-- ===== src/Responder/Server.antt =====
-- trishul_snmp/responder/server.py: how `V2cResponder` answers a request, over any source.
pub mod Bulk
pub mod ReadOnly
pub mod Replies
pub mod Bindings
use trishul_snmp.Prelude.{
  ℕ, zero, suc, ◌+◌, List, [], ◌∷◌, ◌++◌, ℤ, pos, negsuc, Bool, true, false, Option, none, some,
  Result, ok, err, ◌>>=◌, ◌>>◌, Error, protocol_error, transport_error, seq_eq, if◌then◌else◌,
  length, take, drop, min, map, not,
}
use trishul_snmp.Types.{Oid, Text, SnmpValue, no_such_object, end_of_mib_view, is_end_of_mib_view}
use trishul_snmp.Wire.Bytes.{Bytes}
use trishul_snmp.Wire.Pdus.{
  PduType, get, get_next, response, set, get_bulk, inform_request, snmpv2_trap, RawVarBind, Pdu,
}
use trishul_snmp.Wire.Messages.{SnmpMessage, encode_message, decode_message}
use trishul_snmp.Responder.Sources.{ResponderSource}

abbrev pub varbind : Oid → SnmpValue → RawVarBind
varbind oid value = record { oid = oid; value = value }

unfoldable pub response_pdu : Pdu → List RawVarBind → ℤ → ℤ → Pdu
response_pdu request varbinds error_status error_index = record {
  pdu_type = response;
  request_id = request.request_id;
  error_status = error_status;
  error_index = error_index;
  varbinds = varbinds;
}

-- A negative count is taken for 0.
abbrev pub clamp : ℤ → ℕ
clamp (pos n) = n
clamp (negsuc n) = 0

-- `ErrorStatus.NOT_WRITABLE`
abbrev pub not_writable : ℤ
not_writable = pos 17

-- `_normalize_communities`: empty names are dropped.
unfoldable pub drop_empty : List Text → List Text
drop_empty [] = []
drop_empty ([] ∷ names) = drop_empty names
drop_empty ((c ∷ name) ∷ names) = (c ∷ name) ∷ drop_empty names

unfoldable pub normalize_communities : Option (List Text) → Option (List Text)
unfolding drop_empty
normalize_communities none = none
normalize_communities (some names) = some (drop_empty names)

unfoldable pub contains : Text → List Text → Bool
contains name [] = false
contains name (other ∷ names) =
    let rest = contains name names in if seq_eq name other then true else rest

unfoldable pub community_allowed : Option (List Text) → Text → Bool
unfolding contains
community_allowed none community = true
community_allowed (some names) community = contains community names

abbrev pub oids_of : Pdu → List Oid
oids_of request = map (λ (v : RawVarBind). v.oid) request.varbinds

unfoldable pub with_pdu : SnmpMessage → Option Pdu → Option SnmpMessage
with_pdu message none = none
with_pdu message (some pdu) = some (record message { pdu = pdu })

module _ {S : Type 0} (source : ResponderSource S) where
  open source use {lookup_exact, lookup_next}

  unfoldable pub lookup_exact_varbind : S → Oid → Result (S × RawVarBind)
  lookup_exact_varbind s oid = do
    (s', found) ← lookup_exact s oid
    ok (s', elim found [ none ↦ varbind oid no_such_object | some value ↦ varbind oid value ])

  unfoldable pub lookup_next_varbind : S → Oid → Result (S × RawVarBind)
  lookup_next_varbind s oid = do
    (s', found) ← lookup_next s oid
    ok (
      s',
      elim found [ none ↦ varbind oid end_of_mib_view | some match' ↦ varbind match'.0 match'.1 ],
    )

  -- The tuples over the request's bindings, from left to right.
  unfoldable pub map_varbinds :
      (S → Oid → Result (S × RawVarBind)) → S → List Oid → Result (S × List RawVarBind)
  map_varbinds look s [] = ok (s, [])
  map_varbinds look s (oid ∷ oids) = do
    (s₁, first) ← look s oid
    (s₂, rest) ← map_varbinds look s₁ oids
    ok (s₂, first ∷ rest)

  -- The identifier that the next repetition asks for.
  unfoldable pub advance : Oid → RawVarBind → Oid
  unfolding is_end_of_mib_view
  advance current next = if is_end_of_mib_view next.value then current else next.oid

  -- The inner loop of `_build_bulk_varbinds`: one repetition over the current identifiers.
  unfoldable pub repetition : S → List Oid → Result (S × (List RawVarBind × List Oid))
  unfolding advance lookup_next_varbind
  repetition s [] = ok (s, ([], []))
  repetition s (current ∷ currents) = do
    (s₁, next) ← lookup_next_varbind s current
    (s₂, (rest, oids)) ← repetition s₁ currents
    ok (s₂, (next ∷ rest, advance current next ∷ oids))

  unfoldable pub repetitions : ℕ → S → List Oid → Result (S × List RawVarBind)
  unfolding repetition
  repetitions zero s currents = ok (s, [])
  repetitions (suc n) s currents = do
    (s₁, (first, oids)) ← repetition s currents
    (s₂, rest) ← repetitions n s₁ oids
    ok (s₂, first ++ rest)

  unfoldable pub build_bulk_varbinds : S → List RawVarBind → ℤ → ℤ → Result (S × List RawVarBind)
  unfolding map_varbinds repetitions
  build_bulk_varbinds s request_varbinds non_repeaters max_repetitions = do
    let oids = map (λ (v : RawVarBind). v.oid) request_varbinds
    let split = min (clamp non_repeaters) (length oids)
    (s₁, singles) ← map_varbinds lookup_next_varbind s (take split oids)
    (s₂, repeated) ← repetitions (clamp max_repetitions) s₁ (drop split oids)
    ok (s₂, singles ++ repeated)

  -- The tests of `request_pdu.pdu_type` in `_build_response_pdu`; `none` is its None.
  unfoldable pub answer : PduType → S → Pdu → Result (S × Option Pdu)
  unfolding map_varbinds build_bulk_varbinds response_pdu lookup_exact_varbind
  answer get s request = do
    (s', varbinds) ← map_varbinds lookup_exact_varbind s (oids_of request)
    ok (s', some (response_pdu request varbinds (pos 0) (pos 0)))
  answer get_next s request = do
    (s', varbinds) ← map_varbinds lookup_next_varbind s (oids_of request)
    ok (s', some (response_pdu request varbinds (pos 0) (pos 0)))
  answer get_bulk s request = do
    (s', varbinds) ← build_bulk_varbinds s request.varbinds request.error_status request.error_index
    ok (s', some (response_pdu request varbinds (pos 0) (pos 0)))
  answer set s request =
      let index : ℤ = elim request.varbinds [ [] ↦ pos 0 | _ ∷ _ ↦ pos 1 ] in
      ok (s, some (response_pdu request request.varbinds not_writable index))
  answer response s request = ok (s, none)
  answer inform_request s request = ok (s, none)
  answer snmpv2_trap s request = ok (s, none)

  unfoldable pub build_response_pdu : S → Pdu → Result (S × Option Pdu)
  unfolding answer
  build_response_pdu s request = answer request.pdu_type s request

  unfoldable pub build_response_message : S → SnmpMessage → Result (S × Option SnmpMessage)
  unfolding build_response_pdu with_pdu
  build_response_message s message = do
    (s', built) ← build_response_pdu s message.pdu
    ok (s', with_pdu message built)

  unfoldable pub send_reply : S → Option SnmpMessage → Result (S × Option Bytes)
  unfolding encode_message
  send_reply s none = ok (s, none)
  send_reply s (some reply) = do bytes ← encode_message reply; ok (s, some bytes)

  -- What one datagram makes of the loop of `handle_request`: `none` for each `continue`, and the
  -- bytes that go back to the sender. Only a ProtocolError of `decode_message` is caught.
  unfoldable pub respond : S → SnmpMessage → Result (S × Option Bytes)
  unfolding build_response_message send_reply
  respond s message = do (s', built) ← build_response_message s message; send_reply s' built

  unfoldable pub catch_protocol : S → Error → Result (S × Option Bytes)
  catch_protocol s protocol_error = ok (s, none)
  catch_protocol s e = err e

  unfoldable pub handle_decoded :
      Option (List Text) → S → Result SnmpMessage → Result (S × Option Bytes)
  unfolding community_allowed catch_protocol respond
  handle_decoded communities s (err e) = catch_protocol s e
  handle_decoded communities s (ok message) =
      if community_allowed communities message.community then respond s message else ok (s, none)

  unfoldable pub handle_datagram : Option (List Text) → S → Bytes → Result (S × Option Bytes)
  unfolding handle_decoded decode_message
  handle_datagram communities s datagram = handle_decoded communities s (decode_message datagram)

  -- `handle_request` over the datagrams that arrive, each with its sender, until one is answered:
  -- the reply and its address. With the datagrams used up the server is closed, which is the
  -- TransportError of `receive`.
  unfoldable pub handle_request :
      {Address : Type 0}
      → Option (List Text)
      → S
      → List (Bytes × Address)
      → Result (S × (Bytes × Address) × List (Bytes × Address))
  unfolding handle_datagram
  handle_request communities s [] = err transport_error
  handle_request communities s ((datagram, sender) ∷ rest) = do
    (s', reply) ← handle_datagram communities s datagram
    let more = handle_request communities s' rest
    elim reply [ none ↦ more | some bytes ↦ ok (s', (bytes, sender), rest) ]
