-- ===== src/Transport/Dispatcher/Answered.antt =====
-- `send_prepared_request` and a response that arrives.
use trishul_snmp.Prelude.{
  ℕ, suc, ◌+◌, ◌≡◌, refl, ap, ◌∙◌, arith, List, [], ◌∷◌, ◌++◌, map, ℤ, pos, true, false, not, eq_ℤ,
  eq_ℤ-true, Option, none, some, Result, ok, Bool-cases, inl, inr, ◌⊎◌, All, pick_true, pick_false,
}
use trishul_snmp.Wire.Bytes.{Bytes}
use trishul_snmp.Wire.Pdus.{response, Pdu}
use trishul_snmp.Transport.Dispatcher.{
  Arrival, datagram, UdpClient, PreparedRequest, RequestDispatcher, is_response, sock_sendall,
  client_send, send_only, after_send, match_response, matching_loop, receive_response,
  after_attempt, attempts_loop, send_prepared_request,
}
use trishul_snmp.Transport.Dispatcher.Retries.{Matches}

-- An open client whose sends succeed.
abbrev pub open_client : List Arrival → List Bytes → UdpClient
open_client arrivals sent = record {
  is_open = true;
  send_results = [];
  arrivals = arrivals;
  sent = sent;
}

eq_ℤ-self : (z : ℤ) → eq_ℤ z z ≡ true
eq_ℤ-self z = ground arith

differs :
    (pdu : Pdu) (request_id : ℕ)
    → ¬ (pdu.request_id ≡ pos request_id)
    → eq_ℤ pdu.request_id (pos request_id) ≡ false
differs pdu request_id other = elim (Bool-cases (eq_ℤ pdu.request_id (pos request_id))) [
  | inl same ↦ absurd (other (eq_ℤ-true pdu.request_id (pos request_id) same))
  | inr e ↦ e
]

module _ (wrap_pdu : Pdu → Result Bytes) (unwrap_message : Bytes → Result (Option Pdu)) where
  -- The security model drops the datagram, or it has a RESPONSE of another number.
  abbrev pub Unrelated : ℕ → Bytes → Type 0
  Unrelated request_id d =
      (unwrap_message d ≡ ok none)
      ⊎ ((pdu : Pdu) × (unwrap_message d ≡ ok (some pdu))
          × (pdu.pdu_type ≡ response)
          × (¬ (pdu.request_id ≡ pos request_id)))

  match_response-Unrelated :
      (request_id : ℕ) (rest : List Arrival) (more : List Arrival × Result Pdu) (d : Bytes)
      → Unrelated request_id d
      → match_response wrap_pdu unwrap_message request_id rest more (unwrap_message d) ≡ more
  unfolding match_response is_response
  match_response-Unrelated request_id rest more d (inl e) =
      ap (match_response wrap_pdu unwrap_message request_id rest more) e
  match_response-Unrelated request_id rest more d (inr (pdu, e, t, other)) =
      ap (match_response wrap_pdu unwrap_message request_id rest more) e
      ∙ pick_false (not (is_response pdu.pdu_type)) _ (ap (λ x. not (is_response x)) t)
          (pick_false (eq_ℤ pdu.request_id (pos request_id)) _ (differs pdu request_id other) refl)

  match_response-Matches :
      (request_id : ℕ) (rest : List Arrival) (more : List Arrival × Result Pdu) (d : Bytes)
      (pdu : Pdu)
      → unwrap_message d ≡ ok (some pdu)
      → Matches request_id pdu
      → match_response wrap_pdu unwrap_message request_id rest more (unwrap_message d)
        ≡ (rest, ok pdu)
  unfolding match_response is_response
  match_response-Matches request_id rest more d pdu e m =
      ap (match_response wrap_pdu unwrap_message request_id rest more) e
      ∙ pick_false (not (is_response pdu.pdu_type)) _ (ap (λ x. not (is_response x)) m.pdu_type) (
          pick_true (eq_ℤ pdu.request_id (pos request_id)) _
            (ap (λ n. eq_ℤ n (pos request_id)) m.number ∙ eq_ℤ-self (pos request_id)) refl)

  matching_loop-answered :
      (request_id : ℕ) (before : List Bytes) (answer : Bytes) (rest : List Arrival) (pdu : Pdu)
      → All (Unrelated request_id) before
      → unwrap_message answer ≡ ok (some pdu)
      → Matches request_id pdu
      → matching_loop wrap_pdu unwrap_message request_id
          (map datagram before ++ datagram answer ∷ rest)
        ≡ (rest, ok pdu)
  unfolding matching_loop
  matching_loop-answered request_id [] answer rest pdu h e m =
      match_response-Matches request_id rest _ answer pdu e m
  matching_loop-answered request_id (d ∷ before) answer rest pdu (u, us) e m =
      match_response-Unrelated request_id (map datagram before ++ datagram answer ∷ rest) _ d u
      ∙ matching_loop-answered request_id before answer rest pdu us e m

  -- Over an open client whose sends succeed, a RESPONSE with the request's number that arrives before a
  -- timeout, behind any datagrams that the security model drops or that are RESPONSEs of other numbers,
  -- is returned: the message has been sent once, and what arrives later is left.
  pub send_prepared_request-answered :
      (d : RequestDispatcher) (request : PreparedRequest) (before : List Bytes) (answer : Bytes)
      (rest : List Arrival) (sent : List Bytes) (pdu : Pdu)
      → All (Unrelated request.request_id) before
      → unwrap_message answer ≡ ok (some pdu)
      → Matches request.request_id pdu
      → send_prepared_request wrap_pdu unwrap_message d
          (open_client (map datagram before ++ datagram answer ∷ rest) sent)
          request
        ≡ (open_client rest (request.encoded_message ∷ sent), ok pdu)
  unfolding send_prepared_request attempts_loop receive_response send_only client_send sock_sendall
      after_send after_attempt
  send_prepared_request-answered d request before answer rest sent pdu h e m =
      let arrivals = map datagram before ++ datagram answer ∷ rest in
      let client = open_client arrivals sent in
      let client' = open_client arrivals (request.encoded_message ∷ sent) in
      let n : d.retries + 1 ≡ suc d.retries = omega arith in
      let found = matching_loop-answered request.request_id before answer rest pdu h e m in
      let tried : receive_response wrap_pdu unwrap_message client' request.request_id
          ≡ (open_client rest (request.encoded_message ∷ sent), ok pdu) =
        ap (λ (r : List Arrival × Result Pdu). (record client' { arrivals = r.0 }, r.1)) found in
      ap (λ k. attempts_loop wrap_pdu unwrap_message k client request) n
      ∙ ap
          (λ t.
            after_attempt wrap_pdu unwrap_message t
              (attempts_loop wrap_pdu unwrap_message d.retries t.0 request))
          tried
