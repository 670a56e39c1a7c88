-- ===== src/Security/Stamped.antt =====
-- `_stamp_auth` writes a message that `_verify_auth` accepts.
use trishul_snmp.Prelude.{
  ℕ, ◌+◌, ◌≤◌, ◌≡◌, ◌∙◌, refl, sym, ap, arith, ◌++◌, ℤ, some, Result, ok, >>=-eq-ok, length,
  length-append, take, drop, length-take, length-drop,
}
use trishul_snmp.Wire.Bytes.{Bytes}
use trishul_snmp.Wire.Ber.{encode_tlv}
use trishul_snmp.Wire.Ber.RoundTrip.{Fits}
use trishul_snmp.Wire.V3Messages.{UsmParams, V3MessageView, encode_v3_message, decode_v3_message}
use trishul_snmp.Wire.V3Messages.Placed.{ok_of}
use trishul_snmp.Wire.V3Messages.Params.{tagged}
use trishul_snmp.Wire.V3Messages.Codec.{header_of, view_with, data_tag, read_v3_message}
use trishul_snmp.Security.Keys.{
  Crypto, UsmModel, auth_tag_len, zero_tag, put_tag, compute_auth_tag, stamp_auth, verify_auth,
}
use trishul_snmp.Security.Accepts.{
  HasLongDigests, put_tag-Placed, length-tag, compute_auth_tag-user, verify_auth-accepts,
}

length-put_tag :
    (raw : Bytes) (at : ℕ) (tag : Bytes)
    → length tag ≡ auth_tag_len
    → length raw ≤ length (put_tag raw at tag)
unfolding put_tag
length-put_tag raw at tag l = omega (
  arith,
  l,
  length-append (take at raw) (tag ++ drop (at + auth_tag_len) raw),
  length-append tag (drop (at + auth_tag_len) raw),
  length-take at raw,
  length-drop (at + auth_tag_len) raw,
)

offset_of : ℕ → Result V3MessageView → ℕ
offset_of other (ok view) = view.auth_params_offset
offset_of other _ = other

-- A message that `_stamp_auth` has stamped decodes to the message with the tag, which is verified.
pub stamp_auth-verified :
    (crypto : Crypto) (s r : UsmModel) (msg_id msg_max_size : ℤ) (flags : ℕ) (p : UsmParams)
    (inner data' raw bs engine_id : Bytes)
    → HasLongDigests crypto
    → encode_tlv (data_tag flags) inner ≡ ok data'
    → encode_v3_message msg_id msg_max_size flags (tagged p zero_tag) data' ≡ ok raw
    → stamp_auth crypto s raw (some engine_id) ≡ ok bs
    → Fits bs
    → r.user ≡ s.user
    → (at : ℕ) × (tag : Bytes) × (decode_v3_message bs
        ≡ ok (view_with (header_of msg_id msg_max_size flags) (tagged p tag) data' at))
      × (encode_v3_message msg_id msg_max_size flags (tagged p tag) data' ≡ ok bs)
      × (verify_auth crypto r bs at tag engine_id ≡ ok tt)
unfolding stamp_auth ok_of offset_of
stamp_auth-verified crypto s r msg_id msg_max_size flags p inner data' raw bs engine_id long d e h
      fits same =
    let encode : Bytes → Result Bytes =
      λ tag. encode_v3_message msg_id msg_max_size flags (tagged p tag) data' in
    let (tag, e₁, h₁) = >>=-eq-ok (compute_auth_tag crypto s raw (some engine_id)) _ h in
    let (view, e₂, h₂) =
      >>=-eq-ok (decode_v3_message raw) (λ view. ok (put_tag raw view.auth_params_offset tag)) h₁ in
    let l = length-tag crypto s raw (some engine_id) tag long e₁ in
    let out : put_tag raw view.auth_params_offset tag ≡ bs = ap (ok_of bs) h₂ in
    let less = length-put_tag raw view.auth_params_offset tag l in
    let small : Fits raw = omega (arith, fits, less, ap length out) in
    let (at, read, placed) =
      read_v3_message msg_id msg_max_size flags (tagged p zero_tag) inner data' raw d e small in
    let there : at ≡ view.auth_params_offset = ap (offset_of 0) (sym read ∙ e₂) in
    let stamped : encode tag ≡ ok bs =
      put_tag-Placed tag placed refl l ∙ ap (λ n. ok (put_tag raw n tag)) there ∙ ap ok out in
    let (at', read', placed') =
      read_v3_message msg_id msg_max_size flags (tagged p tag) inner data' bs d stamped fits in
    let cleared : put_tag bs at' zero_tag ≡ raw =
      ap (ok_of raw) (sym (put_tag-Placed zero_tag placed' l refl) ∙ e) in
    (
      at',
      tag,
      read',
      stamped,
      verify_auth-accepts crypto r bs at' tag engine_id raw cleared
          (compute_auth_tag-user crypto r s raw engine_id same ∙ e₁) l,
    )
