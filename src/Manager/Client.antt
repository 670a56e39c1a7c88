-- ===== src/Manager/Client.antt =====
-- trishul_snmp/manager/client.py: the requests of `SnmpManager`, over an open session.
use trishul_snmp.Prelude.{
  ℕ, List, [], ◌∷◌, ℤ, pos, Bool, Option, none, some, Result, ok, err, index_error, ◌>>=◌, require,
  head_option, map,
}
use trishul_snmp.Types.{Oid, Response, VarBind}
use trishul_snmp.Wire.Bytes.{Bytes}
use trishul_snmp.Wire.Pdus.{PduType, get, get_next, get_bulk, Pdu, build_null_varbinds}
use trishul_snmp.Transport.Dispatcher.{UdpClient, RequestDispatcher, send_pdu}
use trishul_snmp.Mib.Names.{Target, numbered}
use trishul_snmp.Mib.Registry.{MibRegistry}
use trishul_snmp.Mib.Targets.{normalize_targets, response_from_pdu}
use trishul_snmp.Manager.Walk.{walk_subtree}

-- An open session: its dispatcher and its client.
pub record SnmpSession : Type 0 where
  pub dispatcher : RequestDispatcher
  pub client : UdpClient

-- A result together with the session behind it.
abbrev pub with_session {ℓ} : {A : Type ℓ} → SnmpSession × Result A → Result (SnmpSession × A)
with_session (s, ok a) = ok (s, a)
with_session (s, err e) = err e

module _ (wrap_pdu : Pdu → Result Bytes) (unwrap_message : Bytes → Result (Option Pdu))
    (is_printable : ℕ → Bool) (bundle : Option MibRegistry) where
  -- Behind the normalization of the targets.
  unfoldable pub request_oids :
      SnmpSession → PduType → Result (List Oid) → ℤ → ℤ → SnmpSession × Result Response
  unfolding send_pdu build_null_varbinds response_from_pdu
  request_oids s pdu_type (err e) error_status error_index = (s, err e)
  request_oids s pdu_type (ok oids) error_status error_index =
      let (d, c, result) =
        send_pdu wrap_pdu unwrap_message s.dispatcher s.client pdu_type (build_null_varbinds oids)
          error_status error_index in
      (
        record { dispatcher = d; client = c },
        (do pdu ← result; response_from_pdu is_printable bundle pdu),
      )

  unfoldable pub request :
      SnmpSession → PduType → List Target → ℤ → ℤ → SnmpSession × Result Response
  unfolding normalize_targets request_oids
  request s pdu_type targets error_status error_index =
      request_oids s pdu_type (normalize_targets bundle targets) error_status error_index

  unfoldable pub send_get : SnmpSession → List Target → SnmpSession × Result Response
  unfolding request
  send_get s targets = request s get targets (pos 0) (pos 0)

  unfoldable pub send_get_next : SnmpSession → List Target → SnmpSession × Result Response
  unfolding request
  send_get_next s targets = request s get_next targets (pos 0) (pos 0)

  unfoldable pub send_get_bulk : SnmpSession → List Target → ℤ → ℤ → SnmpSession × Result Response
  unfolding request
  send_get_bulk s targets non_repeaters max_repetitions =
      request s get_bulk targets non_repeaters max_repetitions

  -- `_walk_next_request`, and `_walk_bulk_request` with its repetitions.
  unfoldable pub walk_request : SnmpSession → Oid → Option ℕ → Result (SnmpSession × Response)
  unfolding send_get_next send_get_bulk
  walk_request s current none = with_session (send_get_next s (numbered (map pos current) ∷ []))
  walk_request s current (some max_repetitions) =
      with_session (send_get_bulk s (numbered (map pos current) ∷ []) (pos 0) (pos max_repetitions))

  -- `walk`, on fuel for the rounds of `walk_subtree`, and `bulkwalk` with `bulk` true.
  unfoldable pub walk : ℕ → SnmpSession → Target → Bool → ℕ → Result (SnmpSession × List VarBind)
  unfolding normalize_targets walk_request walk_subtree
  walk fuel s root bulk max_repetitions = do
    oids ← normalize_targets bundle (root ∷ [])
    root_oid ← require (head_option oids) index_error
    walk_subtree walk_request fuel s root_oid bulk max_repetitions
