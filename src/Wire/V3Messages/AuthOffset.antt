-- ===== src/Wire/V3Messages/AuthOffset.antt =====
-- `auth_params_offset` of a decoded message points at the authentication parameters.
use trishul_snmp.Prelude.{
  ℕ, ◌+◌, ◌-◌, ◌≡◌, sym, ap, arith, pos, not, Result, ok, err, protocol_error, raise_if, eq_ℤ, ◌==◌,
  length, slice, require, head_option, if◌then◌else◌, >>=-eq-ok,
}
use trishul_snmp.Wire.Bytes.{Bytes}
use trishul_snmp.Wire.Ber.{Tlv, decode_tlv, expect_end}
use trishul_snmp.Wire.Ber.Bounds.{decode_tlv_bounds}
use trishul_snmp.Wire.Ber.Placement.{
  Stands, Stands-trans, Stands-slice, decode_tlv-Stands, expect_end-eq,
}
use trishul_snmp.Wire.Pdus.{decode_integer_from}
use trishul_snmp.Wire.V3Messages.{
  UsmParams, V3MessageView, HeaderData, priv_set, decode_octet_bytes, decode_header_data,
  decode_usm_content, decode_usm_params_with_offset, decode_msg_data, decode_v3_message,
}

auth_of : Bytes → Result (UsmParams × ℕ) → Bytes
auth_of other (ok (q, o)) = q.auth_params
auth_of other (err e) = other

offset_of : ℕ → Result (UsmParams × ℕ) → ℕ
offset_of other (ok (q, o)) = o
offset_of other (err e) = other

field-Stands :
    (content : Bytes) (start from end offset : ℕ) (auth : Tlv) (params : Bytes)
    → decode_tlv content from ≡ ok (auth, end)
    → start + end - length auth.content ≡ offset
    → auth.content ≡ params
    → (k : ℕ) × (offset ≡ start + k) × Stands content k params
field-Stands content start from end offset auth params h at same = (
  end - length auth.content,
  omega (arith, at, (decode_tlv_bounds content from auth end h).2),
  rw (← same) (decode_tlv-Stands content from auth end h),
)

usm_content-Stands :
    (content : Bytes) (start : ℕ) (p : UsmParams) (offset : ℕ)
    → decode_usm_content content start ≡ ok (p, offset)
    → (k : ℕ) × (offset ≡ start + k) × Stands content k p.auth_params
unfolding decode_usm_content auth_of offset_of
usm_content-Stands content start p offset h =
    let ((engine_id, o₁), _, h₁) = >>=-eq-ok (decode_octet_bytes content 0) _ h in
    let ((engine_boots, o₂), _, h₂) = >>=-eq-ok (decode_integer_from content o₁) _ h₁ in
    let ((engine_time, o₃), _, h₃) = >>=-eq-ok (decode_integer_from content o₂) _ h₂ in
    let ((username, o₄), _, h₄) = >>=-eq-ok (decode_octet_bytes content o₃) _ h₃ in
    let ((auth, auth_end), e₅, h₅) = >>=-eq-ok (decode_tlv content o₄) _ h₄ in
    let (_, _, h₆) = >>=-eq-ok (raise_if (not (auth.tag == 0x04)) protocol_error) _ h₅ in
    let ((priv_params, o₅), _, h₇) = >>=-eq-ok (decode_octet_bytes content auth_end) _ h₆ in
    let (_, _, h₈) = >>=-eq-ok (expect_end content o₅) _ h₇ in
    field-Stands content start o₄ auth_end offset auth p.auth_params e₅ (ap (offset_of offset) h₈)
      (ap (auth_of p.auth_params) h₈)

-- The content of a field that is all of the input.
whole-Stands :
    (whole : Bytes) (t : Tlv) (end : ℕ) (u : Unit {0})
    → decode_tlv whole 0 ≡ ok (t, end)
    → expect_end whole end ≡ ok u
    → Stands whole (length whole - length t.content) t.content
whole-Stands whole t end u h k =
    let e = expect_end-eq whole end u k in rw (← e) (decode_tlv-Stands whole 0 t end h)

usm_params-Stands :
    (whole : Bytes) (p : UsmParams) (offset : ℕ)
    → decode_usm_params_with_offset whole ≡ ok (p, offset)
    → Stands whole offset p.auth_params
unfolding decode_usm_params_with_offset
usm_params-Stands whole p offset h =
    let ((t, end), e₁, h₁) = >>=-eq-ok (decode_tlv whole 0) _ h in
    let (_, _, h₂) = >>=-eq-ok (raise_if (not (t.tag == 0x30)) protocol_error) _ h₁ in
    let (u, e₃, h₃) = >>=-eq-ok (expect_end whole end) _ h₂ in
    let (k, e, inner) =
      usm_content-Stands t.content (length whole - length t.content) p offset h₃ in
    rw e (Stands-trans whole t.content p.auth_params _ k (whole-Stands whole t end u e₁ e₃) inner)

view_params : V3MessageView → Result V3MessageView → UsmParams
view_params v (ok w) = w.usm_params
view_params v (err e) = v.usm_params

view_offset : V3MessageView → Result V3MessageView → ℕ
view_offset v (ok w) = w.auth_params_offset
view_offset v (err e) = v.auth_params_offset

msg_data-eq :
    (header : HeaderData) (p : UsmParams) (at offset : ℕ) (content : Bytes) (v : V3MessageView)
    → decode_msg_data header p at content offset ≡ ok v
    → (v.usm_params ≡ p) × (v.auth_params_offset ≡ at)
unfolding decode_msg_data view_params view_offset
msg_data-eq header p at offset content v h =
    let (flags, _, h₁) = >>=-eq-ok (require (head_option header.msg_flags) protocol_error) _ h in
    let ((t, end), _, h₂) = >>=-eq-ok (decode_tlv content offset) _ h₁ in
    let tag : ℕ = if priv_set flags then 0x04 else 0x30 in
    let (_, _, h₃) = >>=-eq-ok (raise_if (not (t.tag == tag)) protocol_error) _ h₂ in
    let (_, _, h₄) = >>=-eq-ok (expect_end content end) _ h₃ in
    (sym (ap (view_params v) h₄), sym (ap (view_offset v) h₄))

slice_of_stands :
    (whole : Bytes) (t : Tlv) (end : ℕ) (u : Unit {0}) (sp : Tlv) (o₂ o₃ : ℕ) (p : UsmParams)
    (in_sp : ℕ) (v : V3MessageView)
    → decode_tlv whole 0 ≡ ok (t, end)
    → expect_end whole end ≡ ok u
    → decode_tlv t.content o₂ ≡ ok (sp, o₃)
    → decode_usm_params_with_offset sp.content ≡ ok (p, in_sp)
    → (v.usm_params ≡ p)
      × (v.auth_params_offset ≡ length whole - length t.content + o₃ - length sp.content + in_sp)
    → slice whole v.auth_params_offset (v.auth_params_offset + length v.usm_params.auth_params)
      ≡ v.usm_params.auth_params
slice_of_stands whole t end u sp o₂ o₃ p in_sp v h₁ h₂ h₃ h₄ (same, at) =
    let start = length whole - length t.content in
    let outer =
      Stands-trans whole t.content sp.content start (o₃ - length sp.content)
        (whole-Stands whole t end u h₁ h₂) (decode_tlv-Stands t.content o₂ sp o₃ h₃) in
    let inner =
      Stands-trans whole sp.content p.auth_params _ in_sp outer
        (usm_params-Stands sp.content p in_sp h₄) in
    let sum : start + (o₃ - length sp.content) + in_sp ≡ start + o₃ - length sp.content + in_sp =
      omega (arith, (decode_tlv_bounds t.content o₂ sp o₃ h₃).2) in
    rw (same, at) (rw (← sum) (Stands-slice whole _ p.auth_params inner))

-- In every SNMPv3 message that is decoded, in whatever form its lengths are, the bytes at
-- `auth_params_offset` are the authentication parameters.
pub decode_v3_message-auth_params_offset :
    (whole : Bytes) (v : V3MessageView)
    → decode_v3_message whole ≡ ok v
    → slice whole v.auth_params_offset (v.auth_params_offset + length v.usm_params.auth_params)
      ≡ v.usm_params.auth_params
unfolding decode_v3_message
decode_v3_message-auth_params_offset whole v h =
    let ((t, end), e₁, h₁) = >>=-eq-ok (decode_tlv whole 0) _ h in
    let (_, _, h₂) = >>=-eq-ok (raise_if (not (t.tag == 0x30)) protocol_error) _ h₁ in
    let (u, e₃, h₃) = >>=-eq-ok (expect_end whole end) _ h₂ in
    let ((version, o₁), _, h₄) = >>=-eq-ok (decode_integer_from t.content 0) _ h₃ in
    let (_, _, h₅) = >>=-eq-ok (raise_if (not (eq_ℤ version (pos 3))) protocol_error) _ h₄ in
    let ((header, o₂), _, h₆) = >>=-eq-ok (decode_header_data t.content o₁) _ h₅ in
    let (_, _, h₇) =
      >>=-eq-ok (raise_if (not (eq_ℤ header.msg_security_model (pos 3))) protocol_error) _ h₆ in
    let ((sp, o₃), e₈, h₈) = >>=-eq-ok (decode_tlv t.content o₂) _ h₇ in
    let (_, _, h₉) = >>=-eq-ok (raise_if (not (sp.tag == 0x04)) protocol_error) _ h₈ in
    let ((p, in_sp), e₁₀, h₁₀) = >>=-eq-ok (decode_usm_params_with_offset sp.content) _ h₉ in
    slice_of_stands whole t end u sp o₂ o₃ p in_sp v e₁ e₃ e₈ e₁₀
      (msg_data-eq header p _ o₃ t.content v h₁₀)
