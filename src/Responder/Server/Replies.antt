-- ===== src/Responder/Server/Replies.antt =====
-- What the responder answers, over any source.
use trishul_snmp.Prelude.{
  ◌≡◌, refl, sym, ap, ◌∙◌, arith, List, [], ◌∷◌, ℤ, pos, true, false, Option, none, some, ok, Error,
  protocol_error, >>=-eq-ok, length, length-map, inl, inr, Result-cases, Bool-cases, seq_eq,
  seq_eq_iff, if◌then◌else◌,
}
use trishul_snmp.Types.{Text}
use trishul_snmp.Wire.Bytes.{Bytes}
use trishul_snmp.Wire.Pdus.{
  PduType, get, get_next, response, set, get_bulk, inform_request, snmpv2_trap, RawVarBind, Pdu,
}
use trishul_snmp.Wire.Messages.{SnmpMessage, encode_message, decode_message}
use trishul_snmp.Responder.Sources.{ResponderSource}
use trishul_snmp.Responder.Server.{
  contains, drop_empty, normalize_communities, community_allowed, not_writable, response_pdu,
  map_varbinds, lookup_exact_varbind, lookup_next_varbind, build_bulk_varbinds, answer,
  build_response_pdu, build_response_message, with_pdu, send_reply, respond, catch_protocol,
  handle_decoded, handle_datagram, oids_of,
}
use trishul_snmp.Responder.Server.Bulk.{map_varbinds-length}

-- The reply is a RESPONSE with the request's id.
pub record Answers (request reply : Pdu) : Type 0 where
  pub pdu_type : reply.pdu_type ≡ response
  pub request_id : reply.request_id ≡ request.request_id

-- A reply to a GET or a GETNEXT has no error and a binding for each binding of the request; a
-- reply to a SET refuses it and changes nothing.
pub HasBindings : PduType → Pdu → Pdu → Type 0
HasBindings get request reply =
    (reply.error_status ≡ pos 0) × (length reply.varbinds ≡ length request.varbinds)
HasBindings get_next request reply =
    (reply.error_status ≡ pos 0) × (length reply.varbinds ≡ length request.varbinds)
HasBindings get_bulk request reply = reply.error_status ≡ pos 0
HasBindings set request reply =
    (reply.error_status ≡ not_writable) × (reply.varbinds ≡ request.varbinds)
HasBindings response request reply = ⊥
HasBindings inform_request request reply = ⊥
HasBindings snmpv2_trap request reply = ⊥

module _ {S : Type 0} (source : ResponderSource S) where
  pub Answers-response_pdu :
      (request : Pdu) (varbinds : List RawVarBind) (status index : ℤ)
      → Answers request (response_pdu request varbinds status index)
  unfolding response_pdu
  Answers-response_pdu request varbinds status index = record { pdu_type = refl; request_id = refl }

  answer-reply :
      (t : PduType) (s : S) (request : Pdu) (s' : S) (reply : Pdu)
      → answer source t s request ≡ ok (s', some reply)
      → Answers request reply × HasBindings t request reply
  unfolding answer HasBindings response_pdu
  answer-reply get s request s' reply h =
      let ((s₁, varbinds), e, h₁) =
        >>=-eq-ok (map_varbinds source (lookup_exact_varbind source) s (oids_of request)) _ h in
      let same : reply ≡ response_pdu request varbinds (pos 0) (pos 0) = cc in
      let l = map_varbinds-length source _ s (oids_of request) s₁ varbinds e in
      rw same (Answers-response_pdu request _ _ _, (refl, l ∙ length-map _ request.varbinds))
  answer-reply get_next s request s' reply h =
      let ((s₁, varbinds), e, h₁) =
        >>=-eq-ok (map_varbinds source (lookup_next_varbind source) s (oids_of request)) _ h in
      let same : reply ≡ response_pdu request varbinds (pos 0) (pos 0) = cc in
      let l = map_varbinds-length source _ s (oids_of request) s₁ varbinds e in
      rw same (Answers-response_pdu request _ _ _, (refl, l ∙ length-map _ request.varbinds))
  answer-reply get_bulk s request s' reply h =
      let ((s₁, varbinds), e, h₁) =
        >>=-eq-ok
          (build_bulk_varbinds source s request.varbinds request.error_status request.error_index) _
          h in
      let same : reply ≡ response_pdu request varbinds (pos 0) (pos 0) = cc in
      rw same (Answers-response_pdu request _ _ _, refl)
  answer-reply set s request s' reply h =
      let index : ℤ = elim request.varbinds [ [] ↦ pos 0 | _ ∷ _ ↦ pos 1 ] in
      let same : reply ≡ response_pdu request request.varbinds not_writable index = cc in
      rw same (Answers-response_pdu request _ _ _, (refl, refl))
  answer-reply response s request s' reply h = cc
  answer-reply inform_request s request s' reply h = cc
  answer-reply snmpv2_trap s request s' reply h = cc

  -- Whatever reply the responder makes is a RESPONSE that echoes the request's id; only GET, GETNEXT,
  -- GETBULK and SET get one, with the error status of the type and as many bindings.
  build_response_pdu-reply :
      (s : S) (request : Pdu) (s' : S) (reply : Pdu)
      → build_response_pdu source s request ≡ ok (s', some reply)
      → Answers request reply × HasBindings request.pdu_type request reply
  unfolding build_response_pdu
  build_response_pdu-reply s request s' reply h = answer-reply request.pdu_type s request s' reply h

  send_reply-eq-some :
      (s : S) (built : Option SnmpMessage) (s' : S) (bytes : Bytes)
      → send_reply source s built ≡ ok (s', some bytes)
      → (reply : SnmpMessage) × (built ≡ some reply) × (encode_message reply ≡ ok bytes)
  unfolding send_reply
  send_reply-eq-some s none s' bytes h = cc
  send_reply-eq-some s (some reply) s' bytes h =
      let (encoded, e, h₁) = >>=-eq-ok (encode_message reply) _ h in
      let same : encoded ≡ bytes = cc in (reply, refl, e ∙ ap ok same)

  with_pdu-eq-some :
      (message : SnmpMessage) (built : Option Pdu) (reply : SnmpMessage)
      → with_pdu message built ≡ some reply
      → (pdu : Pdu) × (built ≡ some pdu) × (record message { pdu = pdu } ≡ reply)
  unfolding with_pdu
  with_pdu-eq-some message none reply h = cc
  with_pdu-eq-some message (some pdu) reply h = (pdu, refl, cc)

  respond-reply :
      (s : S) (message : SnmpMessage) (s' : S) (bytes : Bytes)
      → respond source s message ≡ ok (s', some bytes)
      → (pdu : Pdu) × (encode_message (record message { pdu = pdu }) ≡ ok bytes)
        × Answers message.pdu pdu
        × HasBindings message.pdu.pdu_type message.pdu pdu
  unfolding respond build_response_message
  respond-reply s message s' bytes h =
      let ((s₁, built), e, h₁) = >>=-eq-ok (build_response_message source s message) _ h in
      let (reply, f, g) = send_reply-eq-some s₁ built s' bytes h₁ in
      let ((s₂, made), e₂, h₂) = >>=-eq-ok (build_response_pdu source s message.pdu) _ e in
      let same : with_pdu message made ≡ some reply = cc in
      let (pdu, f₂, g₂) = with_pdu-eq-some message made reply same in
      let r =
        build_response_pdu-reply s message.pdu s₂ pdu
          (e₂ ∙ ap (λ (o : Option Pdu). ok (s₂, o)) f₂) in
      (pdu, ap encode_message g₂ ∙ g, r.0, r.1)

  catch_protocol-no_reply :
      (e : Error) (s s' : S) (bytes : Bytes) → ¬ (catch_protocol source s e ≡ ok (s', some bytes))
  unfolding catch_protocol
  catch_protocol-no_reply protocol_error s s' bytes h = cc
  catch_protocol-no_reply _ s s' bytes h = cc

  handle_decoded-allowed :
      (communities : Option (List Text)) (s : S) (message : SnmpMessage) (s' : S) (bytes : Bytes)
      → handle_decoded source communities s (ok message) ≡ ok (s', some bytes)
      → (community_allowed communities message.community ≡ true)
        × (respond source s message ≡ ok (s', some bytes))
  unfolding handle_decoded
  handle_decoded-allowed communities s message s' bytes h =
      elim (Bool-cases (community_allowed communities message.community)) [
        | inl allowed ↦ (allowed, rw allowed at h)
        | inr refused ↦ absurd (cc (rw refused at h))
      ]

  -- A datagram is answered only if it decodes to a message whose community is allowed; the bytes of
  -- the reply encode a message of the same version and community, with a PDU that answers its PDU.
  pub handle_datagram-reply :
      (communities : Option (List Text)) (s : S) (datagram : Bytes) (s' : S) (bytes : Bytes)
      → handle_datagram source communities s datagram ≡ ok (s', some bytes)
      → (message : SnmpMessage) × (pdu : Pdu) × (decode_message datagram ≡ ok message)
        × (community_allowed communities message.community ≡ true)
        × (encode_message (record message { pdu = pdu }) ≡ ok bytes)
        × Answers message.pdu pdu
        × HasBindings message.pdu.pdu_type message.pdu pdu
  unfolding handle_datagram
  handle_datagram-reply communities s datagram s' bytes h =
      elim (Result-cases (decode_message datagram)) [
        | inl (message, e) ↦
            let step = ap (handle_decoded source communities s) e in
            let (allowed, answered) =
              handle_decoded-allowed communities s message s' bytes (sym step ∙ h) in
            let (pdu, f, g, k) = respond-reply s message s' bytes answered in
            (message, pdu, e, allowed, f, g, k)
        | inr (x, e) ↦
            let step = ap (handle_decoded source communities s) e in
            absurd (catch_protocol-no_reply x s s' bytes (unfold handle_decoded in (sym step ∙ h)))
      ]

contains-drop_empty :
    (names : List Text) (community : Text)
    → contains community (drop_empty names)
      ≡ (if seq_eq community [] then false else contains community names)
unfolding contains drop_empty
contains-drop_empty [] community = ground arith
contains-drop_empty ([] ∷ l) community = ground (arith, contains-drop_empty l community)
contains-drop_empty ((c ∷ name) ∷ l) community = ground (
  arith,
  contains-drop_empty l community,
  seq_eq_iff community (c ∷ name),
  seq_eq_iff community [],
)

-- With a set of communities given, a message is let in exactly if its community is one of them and
-- not empty: an empty name in the set is dropped.
pub community_allowed-normalize :
    (names : List Text) (community : Text)
    → community_allowed (normalize_communities (some names)) community
      ≡ (if seq_eq community [] then false else contains community names)
unfolding community_allowed normalize_communities
community_allowed-normalize names community = contains-drop_empty names community
