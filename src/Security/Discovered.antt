-- ===== src/Security/Discovered.antt =====
-- What `prepare` does to the state.
use trishul_snmp.Prelude.{
  suc, ◌≡◌, ◌∙◌, refl, sym, ap, ◌⊎◌, inl, inr, Bool, true, false, not, Result, ok, err, Error,
  protocol_error, ◌>>=◌, raise_if, as_protocol_error, as_protocol_error-eq-ok, raise_if-eq-ok,
  >>=-eq-ok, Result-cases, ◌==◌, ==_iff,
}
use trishul_snmp.Wire.Bytes.{Bytes}
use trishul_snmp.Wire.V3Messages.{V3MessageView, decode_v3_message}
use trishul_snmp.Security.Keys.{UsmModel, is_empty}
use trishul_snmp.Security.Usm.{peer_engine_discovered}
use trishul_snmp.Security.Authentic.{not-eq-false}
use trishul_snmp.Security.Discovery.{
  probe_of, build_discovery_probe, peek_scoped_pdu, parse_discovery_response, keep_state, prepare,
}

-- The state with the engine of the message, which was empty before or not.
abbrev pub with_peer : UsmModel → V3MessageView → UsmModel
with_peer s view = record s {
  peer_engine_id = view.usm_params.engine_id;
  peer_engine_boots = view.usm_params.engine_boots;
  peer_engine_time = view.usm_params.engine_time;
}

abbrev pub counted : UsmModel → UsmModel
counted s = record s { msg_id_counter = suc s.msg_id_counter }

-- `after` is the state with the engine of a REPORT that the bytes are, whose engine id is not empty.
abbrev pub Discovers : UsmModel → Bytes → UsmModel → Type 0
Discovers s bytes after =
    (view : V3MessageView) × (decode_v3_message bytes ≡ ok view)
    × (peek_scoped_pdu view.msg_data_bytes ≡ ok 0xa8)
    × (after ≡ with_peer s view)
    × (peer_engine_discovered after ≡ true)

state_of : UsmModel → Result UsmModel → UsmModel
state_of other (ok s) = s
state_of other (err e) = other

not_empty : (b : Bool) → b ≡ false → not b ≡ true
not_empty true h = cc
not_empty false h = refl

parse_discovery_response-Discovers :
    (s : UsmModel) (bytes : Bytes) (after : UsmModel)
    → parse_discovery_response s bytes ≡ ok after
    → Discovers s bytes after
unfolding parse_discovery_response peer_engine_discovered state_of
parse_discovery_response-Discovers s bytes after h =
    let (view, e₁, h₁) = >>=-eq-ok (as_protocol_error (decode_v3_message bytes)) _ h in
    let (tag, e₂, h₂) = >>=-eq-ok (as_protocol_error (peek_scoped_pdu view.msg_data_bytes)) _ h₁ in
    let (u, e₃, h₃) = >>=-eq-ok (raise_if (not (tag == 0xa8)) protocol_error) _ h₂ in
    let (v, e₄, h₄) =
      >>=-eq-ok (raise_if (is_empty view.usm_params.engine_id) protocol_error) _ h₃ in
    let is_report = (==_iff tag 0xa8).0 (not-eq-false _ (raise_if-eq-ok _ protocol_error e₃)) in
    let same : after ≡ with_peer s view = sym (ap (state_of after) h₄) in
    let peeked = as_protocol_error-eq-ok (peek_scoped_pdu view.msg_data_bytes) e₂ in
    (
      view,
      as_protocol_error-eq-ok (decode_v3_message bytes) e₁,
      peeked ∙ ap ok is_report,
      same,
      rw same (not_empty _ (raise_if-eq-ok _ protocol_error e₄)),
    )

-- `prepare` counts the message id whatever happens. If it raises an exception, nothing else of the
-- state has changed; if it returns, the probe was sent, and the peer's engine is the one of the
-- REPORT that came back, with an id that is not empty.
pub prepare-Discovers :
    (exchange : Bytes → Result Bytes) (s : UsmModel)
    → ((e : Error) × (prepare exchange s ≡ (counted s, err e)))
      ⊎ ((probe : Bytes) × (bytes : Bytes) × (after : UsmModel) × (probe_of (suc s.msg_id_counter)
            ≡ ok probe)
          × (exchange probe ≡ ok bytes)
          × (prepare exchange s ≡ (after, ok tt))
          × Discovers (counted s) bytes after)
unfolding prepare build_discovery_probe keep_state
prepare-Discovers exchange s =
    elim (Result-cases (
      probe_of (suc s.msg_id_counter) >>= λ probe.
      exchange probe >>= λ bytes. parse_discovery_response (counted s) bytes)) [
        | inr (e, h) ↦ inl (e, rw h refl)
        | inl (after, h) ↦
            let (probe, e₁, h₁) = >>=-eq-ok (probe_of (suc s.msg_id_counter)) _ h in
            let (bytes, e₂, h₂) = >>=-eq-ok (exchange probe) _ h₁ in
            inr (
              probe,
              bytes,
              after,
              e₁,
              e₂,
              rw h refl,
              parse_discovery_response-Discovers (counted s) bytes after h₂,
            )
      ]
