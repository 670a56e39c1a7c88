-- ===== src/Security/RoundTrip.antt =====
-- What `wrap_pdu` authenticates, `unwrap_message` of the same user opens.
use trishul_snmp.Prelude.{
  ℕ, suc, ◌≤◌, ◌≡◌, ◌∙◌, refl, sym, ap, arith, [], ◌++◌, ℤ, pos, Bool, true, false, not, ◌||◌, ◌⊎◌,
  inl, inr, none, some, Result, ok, unless_protocol_error, if◌then◌else◌, >>=-eq-ok, length,
  length-append, seq_eq, seq_eq_self, if_true,
}
use trishul_snmp.Wire.Bytes.{Bytes}
use trishul_snmp.Wire.Utf8.{utf8_encode}
use trishul_snmp.Wire.Ber.{encode_tlv}
use trishul_snmp.Wire.Ber.RoundTrip.{Fits, encode_tlv-inverts}
use trishul_snmp.Wire.Pdus.{Pdu, encode_pdu, encode_integer}
use trishul_snmp.Wire.Pdus.RoundTrip.{AreCanonical}
use trishul_snmp.Wire.V3Messages.{
  UsmParams, V3MessageView, encode_header_data, encode_usm_params, encode_scoped_pdu,
  encode_v3_message,
}
use trishul_snmp.Wire.V3Messages.Params.{tagged}
use trishul_snmp.Wire.V3Messages.Codec.{header_of, view_with, data_tag}
use trishul_snmp.Wire.V3Messages.RoundTrip.{decode_scoped_pdu-encode_scoped_pdu}
use trishul_snmp.Security.Keys.{
  Crypto, auth_on, UsmModel, UsmLocalEngine, zero_tag, auth_enabled, priv_on,
}
use trishul_snmp.Security.Usm.{
  msg_flags_of, peer_engine_discovered, engine_accepted, protect_scoped, wrap_with, unwrap_view,
  unwrap_message, select_outbound_engine, wrap_selected, wrap_pdu,
}
use trishul_snmp.Security.Sealed.{HasStreamCipher, params_of, protect_scoped-Sealed}
use trishul_snmp.Security.Stamped.{stamp_auth-verified}
use trishul_snmp.Security.Accepts.{HasLongDigests, priv_set-msg_flags_of, unwrap_view-accepts}

-- A scoped PDU is one SEQUENCE.
encode_scoped_pdu-tlv :
    (engine_id context_name : Bytes) (pdu : Pdu) (bs : Bytes)
    → encode_scoped_pdu engine_id context_name pdu ≡ ok bs
    → (content : Bytes) × (encode_tlv 0x30 content ≡ ok bs)
unfolding encode_scoped_pdu
encode_scoped_pdu-tlv engine_id context_name pdu bs h =
    let (engine, e₁, h₁) = >>=-eq-ok (encode_tlv 0x04 engine_id) _ h in
    let (context, e₂, h₂) = >>=-eq-ok (encode_tlv 0x04 context_name) _ h₁ in
    let (body, e₃, t) =
      >>=-eq-ok (encode_pdu pdu) (λ p. encode_tlv 0x30 (engine ++ (context ++ p))) h₂ in
    (engine ++ (context ++ body), t)

-- The message is longer than the message data.
encode_v3_message-longer :
    (msg_id msg_max_size : ℤ) (flags : ℕ) (p : UsmParams) (data' bs : Bytes)
    → encode_v3_message msg_id msg_max_size flags p data' ≡ ok bs
    → length data' ≤ length bs
unfolding encode_v3_message
encode_v3_message-longer msg_id msg_max_size flags p data' bs h =
    let (header, e₁, h₁) = >>=-eq-ok (encode_header_data msg_id msg_max_size flags) _ h in
    let (usm, e₂, h₂) = >>=-eq-ok (encode_usm_params p) _ h₁ in
    let (sp, e₃, h₃) = >>=-eq-ok (encode_tlv 0x04 usm) _ h₂ in
    let (version, e₄, t) =
      >>=-eq-ok (encode_integer (pos 3)) (λ v. encode_tlv 0x30 (v ++ (header ++ (sp ++ data'))))
        h₃ in
    omega (
      arith,
      (encode_tlv-inverts 0x30 (version ++ (header ++ (sp ++ data'))) bs t).1,
      length-append version (header ++ (sp ++ data')),
      length-append header (sp ++ data'),
      length-append sp data',
    )

or_true : (b : Bool) → (b || true) ≡ true
or_true true = refl
or_true false = refl

-- No engine is discovered, or the engine is the peer's.
abbrev pub Expects : UsmModel → Bytes → Type 0
Expects r engine_id = (peer_engine_discovered r ≡ false) ⊎ (r.peer_engine_id ≡ engine_id)

Expects-accepted :
    (r : UsmModel) (view : V3MessageView)
    → Expects r view.usm_params.engine_id
    → engine_accepted r view ≡ true
unfolding engine_accepted
Expects-accepted r view (inl fresh) =
    ap (λ b. not b || seq_eq view.usm_params.engine_id r.peer_engine_id) fresh
Expects-accepted r view (inr same) =
    ap (λ e. not (peer_engine_discovered r) || seq_eq view.usm_params.engine_id e) same
    ∙ ap (λ b. not (peer_engine_discovered r) || b) (seq_eq_self view.usm_params.engine_id)
    ∙ or_true (not (peer_engine_discovered r))

unwrap_message-wrap_with :
    (crypto : Crypto) (s r : UsmModel) (local_iv : Bytes) (engine : UsmLocalEngine) (pdu : Pdu)
    (bs : Bytes)
    → HasLongDigests crypto
    → HasStreamCipher crypto
    → auth_enabled s ≡ true
    → length local_iv ≡ 8
    → AreCanonical pdu.varbinds
    → wrap_with crypto s local_iv engine pdu ≡ ok bs
    → Fits bs
    → r.user ≡ s.user
    → Expects r engine.engine_id
    → unwrap_message crypto r bs ≡ ok (some pdu)
unfolding wrap_with unwrap_message auth_enabled
unwrap_message-wrap_with crypto s r local_iv engine pdu bs long cipher on eight c h fits same
      known =
    let (scoped, e₁, h₁) = >>=-eq-ok (encode_scoped_pdu engine.engine_id s.context_name pdu) _ h in
    let (protected, e₂, h₂) = >>=-eq-ok (protect_scoped crypto s local_iv scoped engine) _ h₁ in
    let (username, e₃, h₃) = >>=-eq-ok (utf8_encode s.user.username) _ h₂ in
    let p = params_of engine username zero_tag protected.0 in
    let flags = msg_flags_of s pdu.pdu_type in
    let encode : Bytes → Bytes → Result Bytes =
      λ tag. encode_v3_message (pos s.msg_id_counter) (pos 65507) flags (tagged p tag) in
    let (raw, e₄, h₄) =
      >>=-eq-ok (encode (if auth_enabled s then zero_tag else []) protected.1) _ h₃ in
    let (inner, d) = encode_scoped_pdu-tlv engine.engine_id s.context_name pdu scoped e₁ in
    let (((sealed, t), less), opens) =
      protect_scoped-Sealed crypto s r local_iv inner scoped engine protected cipher eight same d
        e₂ in
    let tag_is : data_tag flags ≡ (if priv_on s.user.priv_protocol then 0x04 else 0x30) =
      ap (λ b. if b then 0x04 else 0x30) (priv_set-msg_flags_of s pdu.pdu_type _ on refl) in
    let raw_is = ap (λ b. encode (if b then zero_tag else []) protected.1) (sym on) ∙ e₄ in
    let (at, tag, read, whole, verified) =
      stamp_auth-verified crypto s r (pos s.msg_id_counter) (pos 65507) flags p sealed protected.1
        raw bs engine.engine_id long (ap (λ n. encode_tlv n sealed) tag_is ∙ t) raw_is
        (if_true (auth_enabled s) _ on h₄) fits same in
    let header = header_of (pos s.msg_id_counter) (pos 65507) flags in
    let view = view_with header (tagged p tag) protected.1 at in
    let shorter =
      encode_v3_message-longer (pos s.msg_id_counter) (pos 65507) flags (tagged p tag) protected.1
        bs whole in
    ap (λ m. unless_protocol_error m (ok none) (unwrap_view crypto r bs)) read
    ∙ unwrap_view-accepts crypto r bs view scoped _ (ap (λ u. utf8_encode u.username) same ∙ e₃)
        (Expects-accepted r view known) verified (ap (λ u. auth_on u.auth_protocol) same ∙ on)
        (opens header username tag at (omega (arith, fits, shorter)))
        (decode_scoped_pdu-encode_scoped_pdu engine.engine_id s.context_name pdu scoped c e₁
          (omega (arith, fits, shorter, less)))

-- If the user authenticates, with privacy or without, the keyed digest has 12 bytes or more, the cipher
-- keeps the length of a text and decrypts what it encrypts, the local IV has 8 bytes, and the PDU's
-- IPv4 addresses are in the printed form: from fewer than 2^32 bytes that `wrap_pdu` returns for the
-- engine it selects, `unwrap_message` of a model with the same user returns the PDU, when that model
-- has discovered that engine or none.
pub unwrap_message-wrap_pdu_authenticated :
    (crypto : Crypto) (s r : UsmModel) (local_iv : Bytes) (engine : UsmLocalEngine) (pdu : Pdu)
    (bs : Bytes)
    → HasLongDigests crypto
    → HasStreamCipher crypto
    → auth_enabled s ≡ true
    → length local_iv ≡ 8
    → AreCanonical pdu.varbinds
    → select_outbound_engine s pdu.pdu_type ≡ ok engine
    → (wrap_pdu crypto s local_iv pdu).1 ≡ ok bs
    → Fits bs
    → r.user ≡ s.user
    → Expects r engine.engine_id
    → unwrap_message crypto r bs ≡ ok (some pdu)
unfolding wrap_pdu wrap_selected
unwrap_message-wrap_pdu_authenticated crypto s r local_iv engine pdu bs long cipher on eight c
      selected h fits same known =
    unwrap_message-wrap_with crypto (record s { msg_id_counter = suc s.msg_id_counter }) r local_iv
      engine pdu bs long cipher on eight c
      (sym (ap (λ e. (wrap_selected crypto s local_iv pdu e).1) selected) ∙ h) fits same known
