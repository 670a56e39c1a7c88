-- ===== src/Tests/Requests.antt =====
-- A request that is answered at the second attempt, and one that is never answered.
use trishul_snmp.Prelude.{
  ap, arith, pos_part, ℕ, ◌+◌, ◌≤◌, ◌≡◌, inr, ok, refl, [], ◌∷◌, ◌++◌, pos, replicate, true,
}
use trishul_snmp.Types.{no_such_object}
use trishul_snmp.Wire.Bytes.{Bytes}
use trishul_snmp.Wire.Ber.{decode_tlv, decode_length, expect_end, encode_tlv, encode_length}
use trishul_snmp.Wire.Pdus.{response, Pdu}
use trishul_snmp.Wire.Messages.{wrap_pdu, unwrap_message}
use trishul_snmp.Transport.Dispatcher.{
  datagram, quiet, UdpClient, PreparedRequest, RequestDispatcher, send_prepared_request,
}
use trishul_snmp.Transport.Dispatcher.Retries.{
  Matches, send_prepared_request-Matches, send_prepared_request-sent, send_prepared_request-timeout,
}
use trishul_snmp.Transport.Dispatcher.Answered.{open_client, send_prepared_request-answered}
use trishul_snmp.Tests.Codec.{sys_descr, public_name, message_bytes}
use trishul_snmp.Tests.Agent.{reply_bytes}

abbrev dispatcher : RequestDispatcher
dispatcher = record { retries = 1; next_id = 301 }

abbrev request : PreparedRequest
request = record { request_id = 300; encoded_message = message_bytes }

abbrev late_client : UdpClient
late_client = record {
  is_open = true;
  send_results = [];
  arrivals = quiet ∷ datagram reply_bytes ∷ [];
  sent = [];
}

abbrev silent_client : UdpClient
silent_client = record { is_open = true; send_results = []; arrivals = quiet ∷ []; sent = [] }

abbrev reply : Pdu
reply = record {
  pdu_type = response;
  request_id = pos 300;
  error_status = pos 0;
  error_index = pos 0;
  varbinds = record { oid = sys_descr; value = no_such_object } ∷ [];
}

send_prepared_request-Matches_example : Matches 300 reply
unfolding send_prepared_request unwrap_message decode_tlv decode_length expect_end encode_tlv
    encode_length
send_prepared_request-Matches_example =
    send_prepared_request-Matches (wrap_pdu public_name) (unwrap_message public_name) dispatcher
      late_client request reply refl

send_prepared_request-sent_example :
    (k : ℕ) × (k ≤ 1 + 1)
    × ((send_prepared_request
          (wrap_pdu public_name)
          (unwrap_message public_name)
          dispatcher
          late_client
          request).0.sent
        ≡ replicate k message_bytes ++ [])
send_prepared_request-sent_example =
    send_prepared_request-sent (wrap_pdu public_name) (unwrap_message public_name) dispatcher
      late_client request

send_prepared_request-timeout_example :
    (send_prepared_request
      (wrap_pdu public_name)
      (unwrap_message public_name)
      dispatcher
      silent_client
      request).0.sent
    ≡ replicate (1 + 1) message_bytes ++ []
unfolding send_prepared_request
send_prepared_request-timeout_example =
    send_prepared_request-timeout (wrap_pdu public_name) (unwrap_message public_name) dispatcher
      silent_client request refl

-- A late reply to the request 299.
abbrev stale_bytes : Bytes
stale_bytes =
    48 ∷ 39 ∷ 2 ∷ 1 ∷ 1 ∷ 4 ∷ 6 ∷ 112 ∷ 117 ∷ 98 ∷ 108 ∷ 105 ∷ 99 ∷ 162 ∷ 26 ∷ 2 ∷ 2 ∷ 1 ∷ 43 ∷ 2
    ∷ 1 ∷ 0 ∷ 2 ∷ 1 ∷ 0 ∷ 48 ∷ 14 ∷ 48 ∷ 12 ∷ 6 ∷ 8 ∷ 43 ∷ 6 ∷ 1 ∷ 2 ∷ 1 ∷ 1 ∷ 1 ∷ 0 ∷ 128 ∷ 0 ∷ []

other_number : ¬ (pos 299 ≡ pos 300)
other_number h = let e : 299 ≡ 300 = ap pos_part h in omega (arith, e)

send_prepared_request-answered_example :
    send_prepared_request
      (wrap_pdu public_name)
      (unwrap_message public_name)
      dispatcher
      (open_client (datagram stale_bytes ∷ datagram reply_bytes ∷ quiet ∷ []) [])
      request
    ≡ (open_client (quiet ∷ []) (message_bytes ∷ []), ok reply)
unfolding unwrap_message decode_tlv decode_length expect_end encode_tlv encode_length
send_prepared_request-answered_example =
    send_prepared_request-answered (wrap_pdu public_name) (unwrap_message public_name) dispatcher
      request (stale_bytes ∷ []) reply_bytes (quiet ∷ []) [] reply
      (inr (record reply { request_id = pos 299 }, refl, refl, other_number), tt) refl
      (record { pdu_type = refl; number = refl })
