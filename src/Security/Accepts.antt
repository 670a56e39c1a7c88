-- ===== src/Security/Accepts.antt =====
-- Which messages `unwrap_message` opens: the tag that `_stamp_auth` writes is the one `_verify_auth`
-- expects.
use trishul_snmp.Prelude.{
  >>=-ok, pick_true, ℕ, ◌+◌, ◌≤◌, ◌≡◌, ◌∙◌, refl, sym, ap, arith, ◌++◌, Bool, true, false, not,
  ◌&&◌, authentication_error, unless_protocol_error, ◌⊎◌, inl, inr, Option, none, some, Result, ok,
  protocol_error, raise_if, >>=-eq-ok, length, length-append, append_assoc, take, drop, take-append,
  drop-append, take_of_le, length-take, seq_eq, seq_eq_self,
}
use trishul_snmp.Wire.Bytes.{Bytes}
use trishul_snmp.Wire.Utf8.{utf8_encode}
use trishul_snmp.Wire.Pdus.{
  PduType, get, get_next, response, set, get_bulk, inform_request, snmpv2_trap,
}
use trishul_snmp.Wire.V3Messages.{V3MessageView, priv_set, decode_scoped_pdu, ScopedPdu}
use trishul_snmp.Wire.V3Messages.Placed.{Placed, ok_of}
use trishul_snmp.Security.Keys.{
  Crypto, AuthProtocol, auth_on, UsmModel, auth_tag_len, zero_tag, put_tag, auth_enabled, priv_on,
  hmac_key, compute_auth_tag, verify_auth,
}
use trishul_snmp.Security.Usm.{
  reportable_flag, msg_flags_of, engine_accepted, verify_view, unprotect_scoped, open_view,
  unwrap_view,
}

-- The tag is written over the authentication parameters and over nothing else.
pub put_tag-Placed :
    {encode : Bytes → Result Bytes} {auth out : Bytes} {at : ℕ} (tag : Bytes)
    → Placed encode auth out at
    → length auth ≡ auth_tag_len
    → length tag ≡ auth_tag_len
    → encode tag ≡ ok (put_tag out at tag)
unfolding put_tag
put_tag-Placed {encode} {auth} {out} {at} tag p same l =
    let before : take at out ≡ p.pre =
      rw (p.split, p.offset) (take-append p.pre (auth ++ p.post)) in
    let end : at + auth_tag_len ≡ length (p.pre ++ auth) =
      omega (arith, p.offset, same, length-append p.pre auth) in
    let after : drop (at + auth_tag_len) out ≡ p.post =
      rw (end, p.split, sym (append_assoc p.pre auth p.post))
        (drop-append (p.pre ++ auth) p.post) in
    p.other tag (l ∙ sym same) ∙ ap ok (rw (before, after))

-- A keyed digest has at least the bytes of the tag.
abbrev pub HasLongDigests : Crypto → Type 0
HasLongDigests crypto =
    (protocol : AuthProtocol) (key data' : Bytes)
    → auth_tag_len ≤ length (crypto.hmac protocol key data')

length-cut :
    (digest : Bytes)
    → auth_tag_len ≤ length digest
    → length (take auth_tag_len digest) ≡ auth_tag_len
length-cut digest long = omega (arith, length-take auth_tag_len digest)

pub length-tag :
    (crypto : Crypto) (s : UsmModel) (msg : Bytes) (engine_id : Option Bytes) (tag : Bytes)
    → HasLongDigests crypto
    → compute_auth_tag crypto s msg engine_id ≡ ok tag
    → length tag ≡ auth_tag_len
unfolding compute_auth_tag ok_of
length-tag crypto s msg engine_id tag long h =
    let (u, e₁, h₁) =
      >>=-eq-ok (raise_if (not (auth_on s.user.auth_protocol)) protocol_error) _ h in
    let (key, e₂, h₂) =
      >>=-eq-ok (hmac_key crypto s engine_id)
        (λ key. ok (take auth_tag_len (crypto.hmac s.user.auth_protocol key msg))) h₁ in
    let digest = crypto.hmac s.user.auth_protocol key msg in
    let same : take auth_tag_len digest ≡ tag = ap (ok_of tag) h₂ in
    sym (ap length same) ∙ length-cut digest (long s.user.auth_protocol key msg)

-- The key depends on the user and on the engine that is named.
pub compute_auth_tag-user :
    (crypto : Crypto) (r s : UsmModel) (msg engine_id : Bytes)
    → r.user ≡ s.user
    → compute_auth_tag crypto r msg (some engine_id)
      ≡ compute_auth_tag crypto s msg (some engine_id)
unfolding compute_auth_tag hmac_key
compute_auth_tag-user crypto r s msg engine_id e =
    ap (λ user. compute_auth_tag crypto (record s { user = user }) msg (some engine_id)) e

reportable_cases : (t : PduType) → (reportable_flag t ≡ 0) ⊎ (reportable_flag t ≡ 4)
unfolding reportable_flag
reportable_cases get = inr refl
reportable_cases get_next = inr refl
reportable_cases response = inl refl
reportable_cases set = inr refl
reportable_cases get_bulk = inr refl
reportable_cases inform_request = inr refl
reportable_cases snmpv2_trap = inl refl

-- The flag that announces an encrypted PDU is set with privacy.
pub priv_set-msg_flags_of :
    (s : UsmModel) (t : PduType) (b : Bool)
    → auth_enabled s ≡ true
    → priv_on s.user.priv_protocol ≡ b
    → priv_set (msg_flags_of s t) ≡ b
unfolding msg_flags_of
priv_set-msg_flags_of s t true on off = elim (reportable_cases t) [
  | inl e ↦ rw (on, off, e) refl
  | inr e ↦ rw (on, off, e) refl
]
priv_set-msg_flags_of s t false on off = elim (reportable_cases t) [
  | inl e ↦ rw (on, off, e) refl
  | inr e ↦ rw (on, off, e) refl
]

same_tag :
    (tag : Bytes) → length tag ≡ auth_tag_len → not (seq_eq tag (take auth_tag_len tag)) ≡ false
same_tag tag l =
    ap (λ t. not (seq_eq tag t)) (take_of_le auth_tag_len tag (omega (arith, l)))
    ∙ ap not (seq_eq_self tag)

pub verify_auth-accepts :
    (crypto : Crypto) (r : UsmModel) (out : Bytes) (at : ℕ) (tag engine_id raw : Bytes)
    → put_tag out at zero_tag ≡ raw
    → compute_auth_tag crypto r raw (some engine_id) ≡ ok tag
    → length tag ≡ auth_tag_len
    → verify_auth crypto r out at tag engine_id ≡ ok tt
unfolding verify_auth
verify_auth-accepts crypto r out at tag engine_id raw e h l =
    >>=-ok (compute_auth_tag crypto r _ (some engine_id)) _
      (ap (λ m. compute_auth_tag crypto r m (some engine_id)) e ∙ h)
      (ap (λ b. raise_if b authentication_error) (same_tag tag l))

-- A view that has the user's name, an accepted engine and the tag of the message is opened.
pub unwrap_view-accepts :
    (crypto : Crypto) (r : UsmModel) (out : Bytes) (view : V3MessageView) (msg_data : Bytes)
    (scoped : ScopedPdu)
    → utf8_encode r.user.username ≡ ok view.usm_params.username
    → engine_accepted r view ≡ true
    → verify_auth crypto r out view.auth_params_offset view.usm_params.auth_params
        view.usm_params.engine_id
      ≡ ok tt
    → auth_enabled r ≡ true
    → unprotect_scoped crypto r view ≡ ok msg_data
    → decode_scoped_pdu msg_data ≡ ok scoped
    → unwrap_view crypto r out view ≡ ok (some scoped.pdu)
unfolding unwrap_view open_view verify_view
unwrap_view-accepts crypto r out view msg_data scoped user engine tag on opened read =
    let known =
      ap (λ b. b && engine_accepted r view) (seq_eq_self view.usm_params.username) ∙ engine in
    >>=-ok (utf8_encode r.user.username) _ user (
      pick_true (seq_eq view.usm_params.username view.usm_params.username && engine_accepted r view)
        _ known
        (>>=-ok (verify_view crypto r out view) _ (pick_true (auth_enabled r) _ on tag) (
          >>=-ok (unprotect_scoped crypto r view) _ opened
            (ap (λ m. unless_protocol_error m (ok none) (λ s. ok (some s.pdu))) read))))
