-- ===== src/Transport/Dispatcher.antt =====
-- trishul_snmp/transport/dispatcher.py: requests, retries and the matching of responses, over the
-- client of trishul_snmp/transport/udp.py and what arrives at it.
pub mod Retries
pub mod Answered
use trishul_snmp.Prelude.{
  negsuc, ℕ, zero, suc, ◌+◌, List, [], ◌∷◌, ℤ, pos, Bool, true, false, not, eq_ℤ, Option, none,
  some, Result, ok, err, Error, protocol_error, request_timeout_error, value_error, transport_error,
  ◌>>=◌, ltb, if◌then◌else◌,
}
use trishul_snmp.Wire.Bytes.{Bytes}
use trishul_snmp.Wire.Pdus.{PduType, response, RawVarBind, Pdu}

-- What `sock_recv` meets under the timeout: a datagram, the end of the timeout, or an OSError.
pub data Arrival : Type 0 where
  datagram : Bytes → Arrival
  quiet : Arrival
  broken : Arrival

-- The client of transport/udp.py: whether it has a socket, what the next calls of `sock_sendall` do
-- (an OSError is `false`, and the calls behind the list succeed), what is still to arrive, and the
-- datagrams sent, the last one first. With nothing left to arrive, `receive` times out.
pub record UdpClient : Type 0 where
  pub is_open : Bool
  pub send_results : List Bool
  pub arrivals : List Arrival
  pub sent : List Bytes

unfoldable pub sock_sendall : UdpClient → Bytes → List Bool → UdpClient × Result (Unit {0})
sock_sendall c data' [] = (record c { sent = data' ∷ c.sent }, ok tt)
sock_sendall c data' (true ∷ rest) =
    (record c { send_results = rest; sent = data' ∷ c.sent }, ok tt)
sock_sendall c data' (false ∷ rest) = (record c { send_results = rest }, err transport_error)

unfoldable pub client_send : UdpClient → Bytes → UdpClient × Result (Unit {0})
unfolding sock_sendall
client_send c data' =
    if c.is_open then sock_sendall c data' c.send_results else (c, err transport_error)

-- What `sock_recv` returns, and what is still to arrive behind it.
unfoldable pub sock_recv : List Arrival → List Arrival × Result Bytes
sock_recv [] = ([], err request_timeout_error)
sock_recv (quiet ∷ rest) = (rest, err request_timeout_error)
sock_recv (broken ∷ rest) = (rest, err transport_error)
sock_recv (datagram d ∷ rest) = (rest, ok d)

unfoldable pub client_receive : UdpClient → UdpClient × Result Bytes
unfolding sock_recv
client_receive c =
    let (rest, received) = sock_recv c.arrivals in
    if c.is_open then (record c { arrivals = rest }, received) else (c, err transport_error)

pub record PreparedRequest : Type 0 where
  pub request_id : ℕ
  pub encoded_message : Bytes

-- `next_id` is the next value of `count(1)`.
pub record RequestDispatcher : Type 0 where
  pub retries : ℕ
  pub next_id : ℕ

unfoldable pub is_response : PduType → Bool
is_response response = true
is_response _ = false

unfoldable pub send_only : UdpClient → PreparedRequest → UdpClient × Result (Unit {0})
unfolding client_send
send_only c request = client_send c request.encoded_message

-- What follows a send, which an exception passes over.
unfoldable pub after_send :
    {A : Type 0} → UdpClient × Result (Unit {0}) → UdpClient × Result A → UdpClient × Result A
after_send (c, err e) next = (c, err e)
after_send (c, ok done) next = next

-- `__init__`: `positive_timeout` is the test `timeout > 0` of a float.
unfoldable pub new_dispatcher : Bool → ℤ → Result RequestDispatcher
new_dispatcher positive_timeout (negsuc n) = err value_error
new_dispatcher positive_timeout (pos retries) =
    if positive_timeout then ok (record { retries = retries; next_id = 1 }) else err value_error

-- The attempts of `send_raw_and_receive`: a timeout is caught, and `more` are those that are left.
unfoldable pub raw_answer :
    UdpClient × Result Bytes → UdpClient × Result Bytes → UdpClient × Result Bytes
raw_answer (c, err request_timeout_error) more = more
raw_answer (c, err e) more = (c, err e)
raw_answer (c, ok d) more = (c, ok d)

unfoldable pub raw_attempts : ℕ → UdpClient → Bytes → UdpClient × Result Bytes
unfolding client_send client_receive after_send raw_answer
raw_attempts zero c data' = (c, err request_timeout_error)
raw_attempts (suc n) c data' =
    let sent = client_send c data' in
    let tried = client_receive sent.0 in
    let more = raw_attempts n tried.0 data' in after_send sent (raw_answer tried more)

unfoldable pub send_raw_and_receive :
    RequestDispatcher → UdpClient → Bytes → UdpClient × Result Bytes
unfolding raw_attempts
send_raw_and_receive d c data' = raw_attempts (d.retries + 1) c data'

-- The security model is a parameter: `wrap_pdu` and `unwrap_message`.
module _ (wrap_pdu : Pdu → Result Bytes) (unwrap_message : Bytes → Result (Option Pdu)) where
  -- The body of the loop after `unwrap_message`; `more` is the next round of the loop.
  unfoldable pub match_response :
      ℕ → List Arrival → List Arrival × Result Pdu → Result (Option Pdu) → List Arrival × Result Pdu
  unfolding is_response
  match_response request_id rest more (err e) = (rest, err e)
  match_response request_id rest more (ok none) = more
  match_response request_id rest more (ok (some pdu)) =
      if not (is_response pdu.pdu_type)
      then (rest, err protocol_error)
      else if eq_ℤ pdu.request_id (pos request_id)
      then (rest, ok pdu)
      else more

  -- The loop of `_receive_matching_response` over an open client: each round takes an arrival as
  -- `client_receive` does.
  unfoldable pub matching_loop : ℕ → List Arrival → List Arrival × Result Pdu
  unfolding match_response
  matching_loop request_id [] = ([], err request_timeout_error)
  matching_loop request_id (quiet ∷ rest) = (rest, err request_timeout_error)
  matching_loop request_id (broken ∷ rest) = (rest, err transport_error)
  matching_loop request_id (datagram d ∷ rest) =
      let more = matching_loop request_id rest in
      match_response request_id rest more (unwrap_message d)

  unfoldable pub receive_response : UdpClient → ℕ → UdpClient × Result Pdu
  unfolding matching_loop
  receive_response c request_id =
      let (rest, result) = matching_loop request_id c.arrivals in
      if c.is_open then (record c { arrivals = rest }, result) else (c, err transport_error)

  -- What follows an attempt: a timeout is caught, and `more` are the attempts that are left.
  unfoldable pub after_attempt :
      UdpClient × Result Pdu → UdpClient × Result Pdu → UdpClient × Result Pdu
  after_attempt (c, err request_timeout_error) more = more
  after_attempt (c, err e) more = (c, err e)
  after_attempt (c, ok pdu) more = (c, ok pdu)

  unfoldable pub attempts_loop : ℕ → UdpClient → PreparedRequest → UdpClient × Result Pdu
  unfolding send_only receive_response after_attempt after_send
  attempts_loop zero c request = (c, err request_timeout_error)
  attempts_loop (suc n) c request =
      let sent = send_only c request in
      let tried = receive_response sent.0 request.request_id in
      let more = attempts_loop n tried.0 request in after_send sent (after_attempt tried more)

  unfoldable pub send_prepared_request :
      RequestDispatcher → UdpClient → PreparedRequest → UdpClient × Result Pdu
  unfolding attempts_loop
  send_prepared_request d c request = attempts_loop (d.retries + 1) c request

  -- The number is used up whether or not the PDU can be wrapped.
  unfoldable pub prepare_request :
      RequestDispatcher
      → PduType
      → List RawVarBind
      → ℤ
      → ℤ
      → RequestDispatcher × Result PreparedRequest
  prepare_request d pdu_type varbinds error_status error_index =
      let request_id = d.next_id in
      let pdu : Pdu = record {
        pdu_type = pdu_type;
        request_id = pos request_id;
        error_status = error_status;
        error_index = error_index;
        varbinds = varbinds;
      } in
      (
        record d { next_id = suc request_id },
        (do
          encoded ← wrap_pdu pdu
          ok (record { request_id = request_id; encoded_message = encoded })),
      )

  unfoldable pub send_prepared :
      RequestDispatcher → UdpClient → Result PreparedRequest → UdpClient × Result Pdu
  unfolding send_prepared_request
  send_prepared d c (err e) = (c, err e)
  send_prepared d c (ok request) = send_prepared_request d c request

  unfoldable pub send_pdu :
      RequestDispatcher
      → UdpClient
      → PduType
      → List RawVarBind
      → ℤ
      → ℤ
      → RequestDispatcher × UdpClient × Result Pdu
  unfolding prepare_request send_prepared
  send_pdu d c pdu_type varbinds error_status error_index =
      let (d', prepared) = prepare_request d pdu_type varbinds error_status error_index in
      let (c', result) = send_prepared d' c prepared in (d', c', result)
