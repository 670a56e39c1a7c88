-- ===== src/Notify/Authentic.antt =====
-- What an SNMPv3 notification has been checked for when it is decoded.
use trishul_snmp.Prelude.{
  ℕ, ◌+◌, ◌%◌, ◌≡◌, ◌∙◌, sym, ap, arith, Bool, true, false, not, ◌&&◌, Option, none, some, Result,
  ok, protocol_error, index_error, raise_if, raise_if-eq-ok, require, >>=-eq-ok, Bool-cases,
  if_true, if_false, ◌==◌, ==_iff, if◌then◌else◌, seq_eq, seq_eq_iff, length, head_option, inl, inr,
}
use mathlib.Core.Path.{subst}
use trishul_snmp.Wire.Bytes.{Bytes}
use trishul_snmp.Wire.Utf8.{utf8_encode}
use trishul_snmp.Wire.Pdus.{Pdu}
use trishul_snmp.Wire.V3Messages.{V3MessageView, decode_v3_message, priv_set}
use trishul_snmp.Security.Keys.{Crypto, UsmUser, auth_tag_len, auth_on, priv_on}
use trishul_snmp.Security.Authentic.{HasTag, not-eq-false, verify_auth-tag}
use trishul_snmp.Notify.Levels.{
  SecurityLevel, no_auth_no_priv, auth_no_priv, auth_priv, auth_set, security_level_from_flags,
  expected_security_flags, validate_security_level, validate_notification_reportable_flag,
}
use trishul_snmp.Notify.V3.{
  V3NotificationEnvelope, ScopedFields, decode_scoped_fields, decode_notification_pdu, usm_codec,
  envelope_of, check_auth, scoped_data, decode_own_notification, decode_v3_notification_message,
}

-- The level that the protocols of a user with authentication stand for.
abbrev pub level_of : Bool → SecurityLevel
level_of true = auth_priv
level_of false = auth_no_priv

-- The flags of a valid message, with the user's protocols as Booleans.
flags-auth :
    (flags : ℕ) (auth priv : Bool)
    → flags % 4 ≡ (if auth then 1 else 0) + (if priv then 2 else 0)
    → auth ≡ true
    → (auth_set flags ≡ true)
      × ((if priv_set flags
            then auth_priv
            else if auth_set flags
            then auth_no_priv
            else no_auth_no_priv)
          ≡ level_of priv)
flags-auth flags true true h on = ground arith
flags-auth flags true false h on = ground arith
flags-auth flags false priv h on = absurd (cc)

validate-auth :
    (flags : ℕ) (user : UsmUser) (u : Unit {0})
    → validate_security_level flags user ≡ ok u
    → auth_on user.auth_protocol ≡ true
    → (auth_set flags ≡ true)
      × (security_level_from_flags flags ≡ level_of (priv_on user.priv_protocol))
unfolding validate_security_level expected_security_flags security_level_from_flags
validate-auth flags user u h on =
    let (_, _, h₁) =
      >>=-eq-ok (raise_if (priv_set flags && not (auth_set flags)) protocol_error) _ h in
    let same = not-eq-false _ (raise_if-eq-ok _ protocol_error h₁) in
    flags-auth flags (auth_on user.auth_protocol) (priv_on user.priv_protocol) ((==_iff _ _).0 same)
      on

view_of : V3NotificationEnvelope → Result (Option V3NotificationEnvelope) → V3MessageView
view_of other (ok (some e)) = e.view
view_of other _ = other.view

level_of_result : V3NotificationEnvelope → Result (Option V3NotificationEnvelope) → SecurityLevel
level_of_result other (ok (some e)) = e.security_level
level_of_result other _ = other.security_level

envelope-eq :
    (view : V3MessageView) (flags : ℕ) (fields : ScopedFields) (pdu : Option Pdu)
    (e : V3NotificationEnvelope)
    → envelope_of view flags fields pdu ≡ ok (some e)
    → (e.view ≡ view) × (e.security_level ≡ security_level_from_flags flags)
unfolding envelope_of view_of level_of_result
envelope-eq view flags fields none e h = cc
envelope-eq view flags fields (some pdu) e h =
    let (_, _, h₁) = >>=-eq-ok (validate_notification_reportable_flag flags pdu.pdu_type) _ h in
    (sym (ap (view_of e) h₁), sym (ap (level_of_result e) h₁))

check_auth-tag :
    (crypto : Crypto) (user : UsmUser) (data' : Bytes) (view : V3MessageView) (flags : ℕ)
    (u : Unit {0})
    → check_auth crypto user data' view flags ≡ ok u
    → auth_set flags ≡ true
    → HasTag crypto (usm_codec user none) data' view
unfolding check_auth
check_auth-tag crypto user data' view flags u h on =
    let (_, _, h₁) =
      >>=-eq-ok (raise_if (not (length view.usm_params.auth_params == auth_tag_len)) protocol_error)
        _ (if_true (auth_set flags) _ on h) in
    verify_auth-tag crypto (usm_codec user none) data' view.auth_params_offset
      view.usm_params.auth_params view.usm_params.engine_id u h₁

own-Authentic :
    (crypto : Crypto) (user : UsmUser) (data' : Bytes) (view : V3MessageView)
    (e : V3NotificationEnvelope)
    → decode_own_notification crypto user data' view ≡ ok (some e)
    → auth_on user.auth_protocol ≡ true
    → (e.view ≡ view)
      × (e.security_level ≡ level_of (priv_on user.priv_protocol))
      × HasTag crypto (usm_codec user none) data' view
unfolding decode_own_notification
own-Authentic crypto user data' view e h on =
    let (flags, _, h₁) = >>=-eq-ok (require (head_option view.msg_flags) index_error) _ h in
    let (u, e₁, h₂) = >>=-eq-ok (validate_security_level flags user) _ h₁ in
    let (v, e₂, h₃) = >>=-eq-ok (check_auth crypto user data' view flags) _ h₂ in
    let (msg_data, _, h₄) = >>=-eq-ok (scoped_data crypto user view flags) _ h₃ in
    let (fields, _, h₅) = >>=-eq-ok (decode_scoped_fields msg_data) _ h₄ in
    let (pdu, _, h₆) = >>=-eq-ok (decode_notification_pdu fields) _ h₅ in
    let (set, level) = validate-auth flags user u e₁ on in
    let (same, from_flags) = envelope-eq view flags fields pdu e h₆ in
    (same, from_flags ∙ level, check_auth-tag crypto user data' view flags v e₂ set)

move_tag :
    (crypto : Crypto) (user : UsmUser) (data' : Bytes) (v w : V3MessageView)
    → v ≡ w
    → HasTag crypto (usm_codec user none) data' v
    → HasTag crypto (usm_codec user none) data' w
move_tag crypto user data' v w same tag =
    subst (λ x. HasTag crypto (usm_codec user none) data' x) same tag

no_envelope :
    {e : V3NotificationEnvelope}
    → ◌≡◌ {A = Result (Option V3NotificationEnvelope)} (ok none) (ok (some e))
    → ⊥
no_envelope h = cc

-- A notification that is decoded for a user with authentication comes from a message of that user,
-- has the security level of the user's protocols, and carries the truncated digest of itself, with
-- zeros in the place of the tag, under the user's key for the engine that it names.
pub decode_v3_notification_message-Authentic :
    (crypto : Crypto) (user : UsmUser) (data' : Bytes) (e : V3NotificationEnvelope)
    → decode_v3_notification_message crypto user data' ≡ ok (some e)
    → auth_on user.auth_protocol ≡ true
    → (decode_v3_message data' ≡ ok e.view)
      × (utf8_encode user.username ≡ ok e.view.usm_params.username)
      × (e.security_level ≡ level_of (priv_on user.priv_protocol))
      × HasTag crypto (usm_codec user none) data' e.view
unfolding decode_v3_notification_message
decode_v3_notification_message-Authentic crypto user data' e h on =
    let (view, e₁, h₁) = >>=-eq-ok (decode_v3_message data') _ h in
    let (username, e₂, h₂) = >>=-eq-ok (utf8_encode user.username) _ h₁ in
    elim (Bool-cases (seq_eq view.usm_params.username username)) [
      | inl t ↦
          let (same, level, tag) = own-Authentic crypto user data' view e (if_true _ _ t h₂) on in
          let name = (seq_eq_iff view.usm_params.username username).0 t in
          (
            e₁ ∙ ap ok (sym same),
            e₂ ∙ ap ok (sym name ∙ ap (λ (v : V3MessageView). v.usm_params.username) (sym same)),
            level,
            move_tag crypto user data' view e.view (sym same) tag,
          )
      | inr t ↦ absurd (no_envelope (if_false _ _ t h₂))
    ]
