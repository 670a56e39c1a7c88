-- ===== src/Transport/Dispatcher/Retries.antt =====
-- What the dispatcher sends, and what it takes for a response.
use trishul_snmp.Prelude.{
  ℕ, zero, suc, ◌+◌, ◌≤◌, ◌≡◌, refl, sym, ap, ◌∙◌, arith, List, [], ◌∷◌, ◌++◌, pos, true, eq_ℤ,
  eq_ℤ-true, Option, none, some, Result, ok, err, request_timeout_error, transport_error, Bool,
  false, if◌then◌else◌, Bool-cases, inl, inr, ◌⊎◌, replicate,
}
use trishul_snmp.Wire.Bytes.{Bytes}
use trishul_snmp.Wire.Pdus.{PduType, response, Pdu}
use trishul_snmp.Transport.Dispatcher.{
  Arrival, datagram, quiet, broken, UdpClient, sock_sendall, client_send, after_send,
  PreparedRequest, RequestDispatcher, is_response, send_only, match_response, matching_loop,
  receive_response, after_attempt, attempts_loop, send_prepared_request,
}

-- The PDU is a RESPONSE to the request of that number.
pub record Matches (request_id : ℕ) (pdu : Pdu) : Type 0 where
  pub pdu_type : pdu.pdu_type ≡ response
  pub number : pdu.request_id ≡ pos request_id

is_response-true : (t : PduType) → is_response t ≡ true → t ≡ response
unfolding is_response
is_response-true response h = refl
is_response-true _ h = cc

replicate-shift :
    (k : ℕ) (bs : Bytes) (rest : List Bytes)
    → replicate k bs ++ bs ∷ rest ≡ replicate (suc k) bs ++ rest
replicate-shift zero bs rest = refl
replicate-shift (suc k) bs rest = ap (◌∷◌ bs) (replicate-shift k bs rest)

abbrev result_of : UdpClient × Result Pdu → Result Pdu
result_of (c, r) = r

abbrev sent_of : UdpClient × Result Pdu → List Bytes
sent_of (c, r) = c.sent

not_ok : {pdu : Pdu} → ◌≡◌ {A = Result Pdu} (err transport_error) (ok pdu) → ⊥
not_ok h = cc

no_timeout : ◌≡◌ {A = Result Pdu} (err transport_error) (err request_timeout_error) → ⊥
no_timeout h = cc

-- A send fails with a TransportError and sends nothing, or it sends the message.
abbrev SendOutcome : UdpClient → Bytes → UdpClient × Result (Unit {0}) → Type 0
SendOutcome c data' (c', result) =
    ((c'.sent ≡ c.sent) × (result ≡ err transport_error))
    ⊎ ((c'.sent ≡ data' ∷ c.sent) × (result ≡ ok tt))

sock_sendall-cases :
    (c : UdpClient) (data' : Bytes) (results : List Bool)
    → SendOutcome c data' (sock_sendall c data' results)
unfolding sock_sendall
sock_sendall-cases c data' [] = inr (refl, refl)
sock_sendall-cases c data' (true ∷ rest) = inr (refl, refl)
sock_sendall-cases c data' (false ∷ rest) = inl (refl, refl)

either_way :
    (c : UdpClient) (data' : Bytes) (b : Bool) (r r' : UdpClient × Result (Unit {0}))
    → SendOutcome c data' r
    → SendOutcome c data' r'
    → SendOutcome c data' (if b then r else r')
either_way c data' true r r' h k = h
either_way c data' false r r' h k = k

send_only-cases :
    (c : UdpClient) (request : PreparedRequest)
    → SendOutcome c request.encoded_message (send_only c request)
unfolding send_only client_send
send_only-cases c request =
    either_way c request.encoded_message c.is_open
      (sock_sendall c request.encoded_message c.send_results) (c, err transport_error)
      (sock_sendall-cases c request.encoded_message c.send_results) (inl (refl, refl))

module _ (wrap_pdu : Pdu → Result Bytes) (unwrap_message : Bytes → Result (Option Pdu)) where
  match_response-Matches :
      (request_id : ℕ) (rest : List Arrival) (more : List Arrival × Result Pdu)
      (unwrapped : Result (Option Pdu)) (pdu : Pdu)
      → (more.1 ≡ ok pdu → Matches request_id pdu)
      → (match_response wrap_pdu unwrap_message request_id rest more unwrapped).1 ≡ ok pdu
      → Matches request_id pdu
  unfolding match_response
  match_response-Matches request_id rest more (err e) pdu k h = cc
  match_response-Matches request_id rest more (ok none) pdu k h = k h
  match_response-Matches request_id rest more (ok (some found)) pdu k h =
      elim (Bool-cases (is_response found.pdu_type)) [
        | inr e ↦ absurd (cc (rw e at h))
        | inl e ↦ elim (Bool-cases (eq_ℤ found.request_id (pos request_id))) [
          | inr f ↦ k (rw (e, f) at h)
          | inl f ↦
              let h' : ◌≡◌ {A = Result Pdu} (ok found) (ok pdu) = rw (e, f) at h in
              let same : found ≡ pdu = cc in
              rw (← same) (record {
                pdu_type = is_response-true found.pdu_type e;
                number = eq_ℤ-true found.request_id (pos request_id) f;
              })
        ]
      ]

  matching_loop-Matches :
      (request_id : ℕ) (arrivals : List Arrival) (pdu : Pdu)
      → (matching_loop wrap_pdu unwrap_message request_id arrivals).1 ≡ ok pdu
      → Matches request_id pdu
  unfolding matching_loop
  matching_loop-Matches request_id [] pdu h = cc
  matching_loop-Matches request_id (quiet ∷ rest) pdu h = cc
  matching_loop-Matches request_id (broken ∷ rest) pdu h = cc
  matching_loop-Matches request_id (datagram d ∷ rest) pdu h =
      match_response-Matches request_id rest _ (unwrap_message d) pdu
        (matching_loop-Matches request_id rest pdu) h

  -- An attempt that is not the last has its own result, or the next one's after a timeout.
  after_attempt-cases :
      (tried more : UdpClient × Result Pdu)
      → (after_attempt wrap_pdu unwrap_message tried more ≡ tried)
          × (¬ (tried.1 ≡ err request_timeout_error))
        ⊎ (after_attempt wrap_pdu unwrap_message tried more ≡ more)
  unfolding after_attempt
  after_attempt-cases (c, ok pdu) more = inl (refl, λ p. cc)
  after_attempt-cases (c, err request_timeout_error) more = inr refl
  after_attempt-cases (c, err _) more = inl (refl, λ p. cc)

  receive_response-Matches :
      (c : UdpClient) (request_id : ℕ) (pdu : Pdu)
      → (receive_response wrap_pdu unwrap_message c request_id).1 ≡ ok pdu
      → Matches request_id pdu
  unfolding receive_response
  receive_response-Matches c request_id pdu h = elim (Bool-cases c.is_open) [
    | inl e ↦ matching_loop-Matches request_id c.arrivals pdu (rw e at h)
    | inr e ↦ absurd (cc (rw e at h))
  ]

  -- Nothing is sent while a response is awaited.
  receive_response-sent :
      (c : UdpClient) (request_id : ℕ)
      → (receive_response wrap_pdu unwrap_message c request_id).0.sent ≡ c.sent
  unfolding receive_response
  receive_response-sent c request_id = elim (Bool-cases c.is_open) [
    | inl e ↦ rw e refl
    | inr e ↦ rw e refl
  ]

  -- A round of the attempts: the send fails, the attempt has its own result, or the next one's is
  -- taken after a timeout.
  attempts_loop-cases :
      (n : ℕ) (c : UdpClient) (request : PreparedRequest)
      → ((c' : UdpClient) × (c'.sent ≡ c.sent)
          × (attempts_loop wrap_pdu unwrap_message (suc n) c request ≡ (c', err transport_error)))
        ⊎ (((c' : UdpClient) × (c'.sent ≡ request.encoded_message ∷ c.sent)
              × (attempts_loop wrap_pdu unwrap_message (suc n) c request
                  ≡ receive_response wrap_pdu unwrap_message c' request.request_id)
              × (¬ (
                  (receive_response wrap_pdu unwrap_message c' request.request_id).1
                  ≡ err request_timeout_error)))
            ⊎ ((c' : UdpClient) × (c'.sent ≡ request.encoded_message ∷ c.sent)
                × (attempts_loop wrap_pdu unwrap_message (suc n) c request
                    ≡ attempts_loop wrap_pdu unwrap_message n c' request)))
  unfolding attempts_loop after_send
  attempts_loop-cases n c request =
      let sent = send_only c request in
      let tried = receive_response wrap_pdu unwrap_message sent.0 request.request_id in
      let more = attempts_loop wrap_pdu unwrap_message n tried.0 request in
      let next = after_attempt wrap_pdu unwrap_message tried more in
      elim (send_only-cases c request) [
        | inl (same, e) ↦ inl (sent.0, same, ap (λ r. after_send {A = Pdu} (sent.0, r) next) e)
        | inr (same, e) ↦
            let go = ap (λ r. after_send {A = Pdu} (sent.0, r) next) e in
            elim (after_attempt-cases tried more) [
              | inl (f, other) ↦ inr (inl (sent.0, same, go ∙ f, other))
              | inr f ↦
                  inr
                    (inr (tried.0, receive_response-sent sent.0 request.request_id ∙ same, go ∙ f))
            ]
      ]

  attempts_loop-Matches :
      (n : ℕ) (c : UdpClient) (request : PreparedRequest) (pdu : Pdu)
      → (attempts_loop wrap_pdu unwrap_message n c request).1 ≡ ok pdu
      → Matches request.request_id pdu
  unfolding attempts_loop
  attempts_loop-Matches zero c request pdu h = cc
  attempts_loop-Matches (suc n) c request pdu h = elim (attempts_loop-cases n c request) [
    | inl (c', _, e) ↦ absurd (not_ok (sym (ap result_of e) ∙ h))
    | inr (inl (c', _, e, _)) ↦
        receive_response-Matches c' request.request_id pdu (sym (ap result_of e) ∙ h)
    | inr (inr (c', _, e)) ↦ attempts_loop-Matches n c' request pdu (sym (ap result_of e) ∙ h)
  ]

  attempts_loop-sent :
      (n : ℕ) (c : UdpClient) (request : PreparedRequest)
      → (k : ℕ) × (k ≤ n)
        × ((attempts_loop wrap_pdu unwrap_message n c request).0.sent
            ≡ replicate k request.encoded_message ++ c.sent)
  unfolding attempts_loop
  attempts_loop-sent zero c request = (0, omega arith, refl)
  attempts_loop-sent (suc n) c request = elim (attempts_loop-cases n c request) [
    | inl (c', same, e) ↦ (0, omega arith, ap sent_of e ∙ same)
    | inr (inl (c', same, e, _)) ↦
        (1, omega arith, ap sent_of e ∙ receive_response-sent c' request.request_id ∙ same)
    | inr (inr (c', same, e)) ↦
        let (k, le, f) = attempts_loop-sent n c' request in
        (
          suc k,
          omega arith,
          ap sent_of e
              ∙ f
              ∙ ap (λ l. replicate k request.encoded_message ++ l) same
              ∙ replicate-shift k request.encoded_message c.sent,
        )
  ]

  attempts_loop-timeout :
      (n : ℕ) (c : UdpClient) (request : PreparedRequest)
      → (attempts_loop wrap_pdu unwrap_message n c request).1 ≡ err request_timeout_error
      → (attempts_loop wrap_pdu unwrap_message n c request).0.sent
        ≡ replicate n request.encoded_message ++ c.sent
  unfolding attempts_loop
  attempts_loop-timeout zero c request h = refl
  attempts_loop-timeout (suc n) c request h = elim (attempts_loop-cases n c request) [
    | inl (c', _, e) ↦ absurd (no_timeout (sym (ap result_of e) ∙ h))
    | inr (inl (c', _, e, other)) ↦ absurd (other (sym (ap result_of e) ∙ h))
    | inr (inr (c', same, e)) ↦
        ap sent_of e
        ∙ attempts_loop-timeout n c' request (sym (ap result_of e) ∙ h)
        ∙ ap (λ l. replicate n request.encoded_message ++ l) same
        ∙ replicate-shift n request.encoded_message c.sent
  ]

  -- Whatever arrives, a PDU that the dispatcher returns for a request is a RESPONSE with its number.
  pub send_prepared_request-Matches :
      (d : RequestDispatcher) (c : UdpClient) (request : PreparedRequest) (pdu : Pdu)
      → (send_prepared_request wrap_pdu unwrap_message d c request).1 ≡ ok pdu
      → Matches request.request_id pdu
  unfolding send_prepared_request
  send_prepared_request-Matches d c request pdu h =
      attempts_loop-Matches (d.retries + 1) c request pdu h

  -- Whatever arrives, the dispatcher sends nothing but the request's message, at most once more than
  -- there are retries.
  pub send_prepared_request-sent :
      (d : RequestDispatcher) (c : UdpClient) (request : PreparedRequest)
      → (k : ℕ) × (k ≤ d.retries + 1)
        × ((send_prepared_request wrap_pdu unwrap_message d c request).0.sent
            ≡ replicate k request.encoded_message ++ c.sent)
  unfolding send_prepared_request
  send_prepared_request-sent d c request = attempts_loop-sent (d.retries + 1) c request

  -- The dispatcher gives up with a timeout only after all its attempts, each of which has sent the
  -- message.
  pub send_prepared_request-timeout :
      (d : RequestDispatcher) (c : UdpClient) (request : PreparedRequest)
      → (send_prepared_request wrap_pdu unwrap_message d c request).1 ≡ err request_timeout_error
      → (send_prepared_request wrap_pdu unwrap_message d c request).0.sent
        ≡ replicate (d.retries + 1) request.encoded_message ++ c.sent
  unfolding send_prepared_request
  send_prepared_request-timeout d c request h = attempts_loop-timeout (d.retries + 1) c request h
