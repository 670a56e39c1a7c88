-- ===== src/Security/Authentic.antt =====
-- What a message that the user-based security accepts has been checked for.
use trishul_snmp.Prelude.{
  ℕ, ◌≡◌, ◌∙◌, refl, sym, ap, Bool, true, false, not, ◌&&◌, inl, inr, Option, none, some, Result,
  ok, authentication_error, unless-eq-ok, raise_if-eq-ok, >>=-eq-ok, Bool-cases, seq_eq, seq_eq_iff,
  if_true, if_false, take,
}
use trishul_snmp.Wire.Bytes.{Bytes}
use trishul_snmp.Wire.Utf8.{utf8_encode}
use trishul_snmp.Wire.Pdus.{Pdu}
use trishul_snmp.Wire.V3Messages.{V3MessageView, decode_v3_message}
use trishul_snmp.Security.Keys.{
  Crypto, UsmModel, auth_tag_len, zero_tag, put_tag, auth_enabled, compute_auth_tag, verify_auth,
}
use trishul_snmp.Security.Usm.{engine_accepted, verify_view, open_view, unwrap_view, unwrap_message}

-- The tag in the message is the truncated digest of the message with zeros in place of the tag.
abbrev pub HasTag : Crypto → UsmModel → Bytes → V3MessageView → Type 0
HasTag crypto s data' view =
    compute_auth_tag crypto s (put_tag data' view.auth_params_offset zero_tag)
      (some view.usm_params.engine_id)
    ≡ ok (take auth_tag_len view.usm_params.auth_params)

pub not-eq-false : (b : Bool) → not b ≡ false → b ≡ true
not-eq-false true h = refl
not-eq-false false h = cc

pub both_true : (a b : Bool) → (a && b) ≡ true → (a ≡ true) × (b ≡ true)
both_true true b h = (refl, h)
both_true false b h = cc

pub verify_auth-tag :
    (crypto : Crypto) (s : UsmModel) (raw : Bytes) (offset : ℕ) (received engine_id : Bytes)
    (u : Unit {0})
    → verify_auth crypto s raw offset received engine_id ≡ ok u
    → compute_auth_tag crypto s (put_tag raw offset zero_tag) (some engine_id)
      ≡ ok (take auth_tag_len received)
unfolding verify_auth
verify_auth-tag crypto s raw offset received engine_id u h =
    let (expected, e, h₁) = >>=-eq-ok (compute_auth_tag crypto s _ (some engine_id)) _ h in
    let t = not-eq-false _ (raise_if-eq-ok _ authentication_error h₁) in
    let same = (seq_eq_iff expected (take auth_tag_len received)).0 t in rw (e, same) refl

open_view-tag :
    (crypto : Crypto) (s : UsmModel) (data' : Bytes) (view : V3MessageView) (r : Option Pdu)
    → open_view crypto s data' view ≡ ok r
    → auth_enabled s ≡ true
    → HasTag crypto s data' view
unfolding open_view verify_view
open_view-tag crypto s data' view r h on =
    let (u, e, _) = >>=-eq-ok (verify_view crypto s data' view) _ h in
    verify_auth-tag crypto s data' view.auth_params_offset view.usm_params.auth_params
      view.usm_params.engine_id u (if_true (auth_enabled s) _ on e)

none_pdu : {pdu : Pdu} → ◌≡◌ {A = Result (Option Pdu)} (ok none) (ok (some pdu)) → ⊥
none_pdu h = cc

unwrap_view-Authentic :
    (crypto : Crypto) (s : UsmModel) (data' : Bytes) (view : V3MessageView) (pdu : Pdu)
    → unwrap_view crypto s data' view ≡ ok (some pdu)
    → auth_enabled s ≡ true
    → (utf8_encode s.user.username ≡ ok view.usm_params.username)
      × (engine_accepted s view ≡ true)
      × HasTag crypto s data' view
unfolding unwrap_view
unwrap_view-Authentic crypto s data' view pdu h on =
    let (username, e, h₁) = >>=-eq-ok (utf8_encode s.user.username) _ h in
    elim (Bool-cases (seq_eq view.usm_params.username username && engine_accepted s view)) [
      | inl t ↦
          let (same, accepted) = both_true _ _ t in
          let user = (seq_eq_iff view.usm_params.username username).0 same in
          (
            e ∙ ap ok (sym user),
            accepted,
            open_view-tag crypto s data' view (some pdu) (if_true _ _ t h₁) on,
          )
      | inr t ↦ absurd (none_pdu (if_false _ _ t h₁))
    ]

-- A PDU that `unwrap_message` returns to a user with authentication comes from a message of that user
-- and, once an engine is discovered, of that engine, and the message carries the truncated digest of
-- itself, with zeros in the place of the tag, under the user's key for the engine that it names.
pub unwrap_message-Authentic :
    (crypto : Crypto) (s : UsmModel) (data' : Bytes) (pdu : Pdu)
    → unwrap_message crypto s data' ≡ ok (some pdu)
    → auth_enabled s ≡ true
    → (view : V3MessageView) × (decode_v3_message data' ≡ ok view)
      × (utf8_encode s.user.username ≡ ok view.usm_params.username)
      × (engine_accepted s view ≡ true)
      × HasTag crypto s data' view
unfolding unwrap_message
unwrap_message-Authentic crypto s data' pdu h on =
    let (view, e, h₁) =
      unless-eq-ok (decode_v3_message data') none (some pdu) (unwrap_view crypto s data') h
        (λ p. cc) in
    let (user, accepted, tag) = unwrap_view-Authentic crypto s data' view pdu h₁ on in
    (view, e, user, accepted, tag)
