-- ===== src/Wire/V3Messages/Codec.antt =====
-- What `encode_v3_message` writes, `decode_v3_message` reads.
use trishul_snmp.Prelude.{
  ℕ, ◌+◌, ◌-◌, ◌≡◌, ◌∙◌, refl, sym, ap, arith, [], ◌∷◌, ◌++◌, ℤ, pos, Result, ok, err, ◌>>=◌,
  >>=-eq-ok, length, length-append, append-nil, append_assoc, if◌then◌else◌, ltb, Bool-cases, inl,
  inr, if_true, if_false, ==_self,
}
use trishul_snmp.Wire.Bytes.{Bytes, byte}
use trishul_snmp.Wire.Bytes.Reader.{At, Reads, At-start, At-next, At-slice}
use trishul_snmp.Wire.Ber.{encode_tlv}
use trishul_snmp.Wire.Ber.RoundTrip.{
  Fits, decode_tlv-encode_tlv, encode_tlv-inverts, expect_end-At, decode_tlv-whole,
}
use trishul_snmp.Wire.Pdus.{encode_integer}
use trishul_snmp.Wire.Pdus.RoundTrip.{read_integer}
use trishul_snmp.Wire.V3Messages.{
  UsmParams, V3MessageView, HeaderData, priv_set, encode_header_data, decode_header_data,
  encode_usm_params, encode_v3_message, decode_msg_data, decode_v3_message,
}
use trishul_snmp.Wire.V3Messages.Placed.{Placed, Placed-tlv, Placed-via}
use trishul_snmp.Wire.V3Messages.Params.{tagged, >>=-same, read_usm}

byte-eq : (n : ℕ) (bs : Bytes) → byte n ≡ ok bs → bs ≡ n ∷ []
byte-eq n bs h = elim (Bool-cases (ltb n 256)) [
  | inl t ↦ let e = if_true (ltb n 256) _ t h in cc
  | inr f ↦ let e = if_false (ltb n 256) _ f h in absurd (cc)
]

abbrev pub header_of : ℤ → ℤ → ℕ → HeaderData
header_of msg_id msg_max_size flags = record {
  msg_id = msg_id;
  msg_max_size = msg_max_size;
  msg_flags = flags ∷ [];
  msg_security_model = pos 3;
}

read_header :
    (msg_id msg_max_size : ℤ) (flags : ℕ) (bs : Bytes)
    → encode_header_data msg_id msg_max_size flags ≡ ok bs
    → Fits bs
    → Reads decode_header_data bs (header_of msg_id msg_max_size flags)
unfolding encode_header_data decode_header_data
read_header msg_id msg_max_size flags bs h fits =
    let (id, e₁, h₁) = >>=-eq-ok (encode_integer msg_id) _ h in
    let (size, e₂, h₂) = >>=-eq-ok (encode_integer msg_max_size) _ h₁ in
    let (flag, e₃, h₃) = >>=-eq-ok (byte flags) _ h₂ in
    let (field, e₄, h₄) = >>=-eq-ok (encode_tlv 0x04 flag) _ h₃ in
    let (model, e₅, t) =
      >>=-eq-ok (encode_integer (pos 3)) (λ m. encode_tlv 0x30 (id ++ (size ++ (field ++ m)))) h₄ in
    let content : Bytes = id ++ (size ++ (field ++ model)) in
    let e₄' = ap (encode_tlv 0x04) (sym (byte-eq flags flag e₃)) ∙ e₄ in
    let long = (encode_tlv-inverts 0x30 content bs t).1 in
    let l₁ = length-append id (size ++ (field ++ model)) in
    let l₂ = length-append size (field ++ model) in
    let l₃ = length-append field model in
    let a₁ = At-start content in
    let a₂ = At-next id (size ++ (field ++ model)) a₁ in
    let a₃ = At-next size (field ++ model) a₂ in
    let a₄ : At content (0 + length id + length size + length field) (model ++ []) =
      rw append-nil (At-next field model a₃) in
    record {
      at = λ whole offset rest a.
          rw ((decode_tlv-encode_tlv 0x30 content bs t fits).at whole offset rest a) (
            rw
              (
                (read_integer msg_id id e₁ (omega arith)).at content 0 _ a₁,
                (read_integer msg_max_size size e₂ (omega arith)).at content _ _ a₂,
                (decode_tlv-encode_tlv 0x04 (flags ∷ []) field e₄' (omega arith)).at content _ _ a₃,
                (read_integer (pos 3) model e₅ (omega arith)).at content _ [] a₄,
                expect_end-At (At-next model [] a₄),
              )
              refl);
    }

abbrev pub view_with : HeaderData → UsmParams → Bytes → ℕ → V3MessageView
view_with header p data' at = record {
  msg_id = header.msg_id;
  msg_max_size = header.msg_max_size;
  msg_flags = header.msg_flags;
  msg_security_model = header.msg_security_model;
  usm_params = p;
  msg_data_bytes = data';
  auth_params_offset = at;
}

-- The tag of the message data.
abbrev pub data_tag : ℕ → ℕ
data_tag flags = if priv_set flags then 0x04 else 0x30

read_msg_data :
    (msg_id msg_max_size : ℤ) (flags : ℕ) (p : UsmParams) (inner data' content : Bytes)
    (at offset : ℕ)
    → encode_tlv (data_tag flags) inner ≡ ok data'
    → Fits data'
    → At content offset (data' ++ [])
    → decode_msg_data (header_of msg_id msg_max_size flags) p at content offset
      ≡ ok (view_with (header_of msg_id msg_max_size flags) p data' at)
unfolding decode_msg_data
read_msg_data msg_id msg_max_size flags p inner data' content at offset t fits a =
    let read = (decode_tlv-encode_tlv (data_tag flags) inner data' t fits).at content offset [] a in
    rw (read, ==_self (data_tag flags), expect_end-At (At-next data' [] a), At-slice data' [] a)
      refl

bind_twice :
    {A B C : Type 0} (r : Result A) (f f' : A → Result B) (g g' : B → Result C)
    → ((x : A) → f x ≡ f' x)
    → ((y : B) → g y ≡ g' y)
    → (r >>= λ x. f x >>= g) ≡ ((r >>= f') >>= g')
bind_twice (ok x) f f' g g' h k = ap (λ m. m >>= g) (h x) ∙ >>=-same (f' x) g g' k
bind_twice (err e) f f' g g' h k = refl

place_v3 :
    (msg_id msg_max_size : ℤ) (flags : ℕ) (p : UsmParams) (header usm sp version data' bs : Bytes)
    (in_sp at : ℕ)
    → encode_header_data msg_id msg_max_size flags ≡ ok header
    → encode_tlv 0x04 usm ≡ ok sp
    → encode_integer (pos 3) ≡ ok version
    → encode_tlv 0x30 (version ++ (header ++ (sp ++ data'))) ≡ ok bs
    → Placed (λ tag. encode_usm_params (tagged p tag)) p.auth_params usm in_sp
    → at
      ≡ length bs
        - length (version ++ (header ++ (sp ++ data')))
        + length (version ++ header)
        + (length sp - length usm + 0 + in_sp)
    → Placed
        (λ tag. encode_v3_message msg_id msg_max_size flags (tagged p tag) data')
        p.auth_params
        bs
        at
unfolding encode_v3_message
place_v3 msg_id msg_max_size flags p header usm sp version data' bs in_sp at e₁ e₃ e₄ t placed
      same =
    let shape : (b : Bytes)
        → version ++ (header ++ (b ++ data')) ≡ (version ++ header) ++ (b ++ data') =
      λ b. simp append_assoc in
    let inner = Placed-tlv 0x04 [] [] sp placed (ap (encode_tlv 0x04) (append-nil usm) ∙ e₃) in
    Placed-via
      (λ tag l.
        rw (e₁, e₄)
          (bind_twice (encode_usm_params (tagged p tag)) (encode_tlv 0x04)
            (λ b. encode_tlv 0x04 (b ++ [])) _ _ (λ b. ap (encode_tlv 0x04) (sym (append-nil b)))
            (λ b. ap (encode_tlv 0x30) (shape b))))
      (same
        ∙ ap
            (λ c.
              length bs
              - length c
              + length (version ++ header)
              + (length sp - length usm + 0 + in_sp))
            (shape sp)
        ∙ ap
            (λ c.
              length bs
              - length ((version ++ header) ++ (sp ++ data'))
              + length (version ++ header)
              + (length sp - length c + 0 + in_sp))
            (sym (append-nil usm)))
      (Placed-tlv 0x30 (version ++ header) data' bs inner
        (ap (encode_tlv 0x30) (sym (shape sp)) ∙ t))

pub read_v3_message :
    (msg_id msg_max_size : ℤ) (flags : ℕ) (p : UsmParams) (inner data' bs : Bytes)
    → encode_tlv (data_tag flags) inner ≡ ok data'
    → encode_v3_message msg_id msg_max_size flags p data' ≡ ok bs
    → Fits bs
    → (at : ℕ) × (decode_v3_message bs
        ≡ ok (view_with (header_of msg_id msg_max_size flags) p data' at))
      × Placed
          (λ tag. encode_v3_message msg_id msg_max_size flags (tagged p tag) data')
          p.auth_params
          bs
          at
unfolding encode_v3_message decode_v3_message
read_v3_message msg_id msg_max_size flags p inner data' bs d h fits =
    let (header, e₁, h₁) = >>=-eq-ok (encode_header_data msg_id msg_max_size flags) _ h in
    let (usm, e₂, h₂) = >>=-eq-ok (encode_usm_params p) _ h₁ in
    let (sp, e₃, h₃) = >>=-eq-ok (encode_tlv 0x04 usm) _ h₂ in
    let (version, e₄, t) =
      >>=-eq-ok (encode_integer (pos 3)) (λ v. encode_tlv 0x30 (v ++ (header ++ (sp ++ data'))))
        h₃ in
    let content : Bytes = version ++ (header ++ (sp ++ data')) in
    let (read, end) = decode_tlv-whole 0x30 content bs t fits in
    let long = (encode_tlv-inverts 0x30 content bs t).1 in
    let long_sp = (encode_tlv-inverts 0x04 usm sp e₃).1 in
    let l₁ = length-append version (header ++ (sp ++ data')) in
    let l₂ = length-append header (sp ++ data') in
    let l₃ = length-append sp data' in
    let (in_sp, read_params, placed) = read_usm p usm e₂ (omega arith) in
    let a₁ = At-start content in
    let a₂ = At-next version (header ++ (sp ++ data')) a₁ in
    let a₃ = At-next header (sp ++ data') a₂ in
    let a₄ : At content (0 + length version + length header + length sp) (data' ++ []) =
      rw append-nil (At-next sp data' a₃) in
    let at =
      length bs
      - length content
      + (0 + length version + length header + length sp)
      - length usm
      + in_sp in
    (
      at,
      rw (read, end)
          (rw
            (
              (read_integer (pos 3) version e₄ (omega arith)).at content 0 _ a₁,
              (read_header msg_id msg_max_size flags header e₁ (omega arith)).at content _ _ a₂,
              (decode_tlv-encode_tlv 0x04 usm sp e₃ (omega arith)).at content _ _ a₃,
              read_params,
            )
            (read_msg_data msg_id msg_max_size flags p inner data' content at _ d (omega arith)
              a₄)),
      place_v3 msg_id msg_max_size flags p header usm sp version data' bs in_sp at e₁ e₃ e₄ t placed
          (omega (arith, length-append version header)),
    )

-- From fewer than 2^32 bytes `decode_v3_message` gives back what `encode_v3_message` encodes, if the
-- message data is one field of the kind that the flags say: an OCTET STRING if it is encrypted, or
-- else a SEQUENCE.
pub decode_v3_message-encode_v3_message :
    (msg_id msg_max_size : ℤ) (flags : ℕ) (p : UsmParams) (inner data' bs : Bytes)
    → encode_tlv (if priv_set flags then 0x04 else 0x30) inner ≡ ok data'
    → encode_v3_message msg_id msg_max_size flags p data' ≡ ok bs
    → Fits bs
    → (at : ℕ) × (decode_v3_message bs
        ≡ ok (record {
          msg_id = msg_id;
          msg_max_size = msg_max_size;
          msg_flags = flags ∷ [];
          msg_security_model = pos 3;
          usm_params = p;
          msg_data_bytes = data';
          auth_params_offset = at;
        }))
decode_v3_message-encode_v3_message msg_id msg_max_size flags p inner data' bs d h fits =
    let (at, read, placed) = read_v3_message msg_id msg_max_size flags p inner data' bs d h fits in
    (at, read)
