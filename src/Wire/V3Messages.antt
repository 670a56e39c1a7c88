-- ===== src/Wire/V3Messages.antt =====
-- trishul_snmp/wire/v3message.py: SNMPv3 messages with the parameters of the user-based security.
pub mod AuthOffset
pub mod RoundTrip
pub mod Placed
pub mod Params
pub mod Codec
use trishul_snmp.Prelude.{
  ℕ, ◌+◌, ◌-◌, ◌/◌, ◌%◌, List, [], ◌∷◌, ◌++◌, ℤ, pos, Bool, not, Result, ok, err, protocol_error,
  ◌>>=◌, ◌>>◌, raise_if, eq_ℤ, ◌==◌, if◌then◌else◌, length, slice, require, head_option,
}
use trishul_snmp.Wire.Bytes.{Bytes, byte}
use trishul_snmp.Wire.Ber.{encode_tlv, decode_tlv, expect_end}
use trishul_snmp.Wire.Pdus.{Pdu, encode_pdu, decode_pdu, encode_integer, decode_integer_from}

pub record UsmParams : Type 0 where
  pub engine_id : Bytes
  pub engine_boots : ℤ
  pub engine_time : ℤ
  pub username : Bytes
  pub auth_params : Bytes
  pub priv_params : Bytes

pub record V3MessageView : Type 0 where
  pub msg_id : ℤ
  pub msg_max_size : ℤ
  pub msg_flags : Bytes
  pub msg_security_model : ℤ
  pub usm_params : UsmParams
  pub msg_data_bytes : Bytes
  pub auth_params_offset : ℕ

pub record HeaderData : Type 0 where
  pub msg_id : ℤ
  pub msg_max_size : ℤ
  pub msg_flags : Bytes
  pub msg_security_model : ℤ

unfoldable pub decode_octet_bytes : Bytes → ℕ → Result (Bytes × ℕ)
decode_octet_bytes data' offset = do
  (t, new_offset) ← decode_tlv data' offset
  raise_if (not (t.tag == 0x04)) protocol_error
  ok (t.content, new_offset)

unfoldable pub encode_header_data : ℤ → ℤ → ℕ → Result Bytes
encode_header_data msg_id msg_max_size flags = do
  id ← encode_integer msg_id
  size ← encode_integer msg_max_size
  flag ← byte flags
  flag_field ← encode_tlv 0x04 flag
  model ← encode_integer (pos 3)
  encode_tlv 0x30 (id ++ (size ++ (flag_field ++ model)))

unfoldable pub decode_header_data : Bytes → ℕ → Result (HeaderData × ℕ)
decode_header_data data' offset = do
  (t, end) ← decode_tlv data' offset
  raise_if (not (t.tag == 0x30)) protocol_error
  (msg_id, o₁) ← decode_integer_from t.content 0
  (msg_max_size, o₂) ← decode_integer_from t.content o₁
  (flags, o₃) ← decode_tlv t.content o₂
  raise_if (not (flags.tag == 0x04)) protocol_error
  raise_if (not (length flags.content == 1)) protocol_error
  (model, o₄) ← decode_integer_from t.content o₃
  expect_end t.content o₄
  ok (
    record {
      msg_id = msg_id;
      msg_max_size = msg_max_size;
      msg_flags = flags.content;
      msg_security_model = model;
    },
    end,
  )

unfoldable pub encode_usm_params : UsmParams → Result Bytes
encode_usm_params p = do
  engine_id ← encode_tlv 0x04 p.engine_id
  boots ← encode_integer p.engine_boots
  time ← encode_integer p.engine_time
  username ← encode_tlv 0x04 p.username
  auth ← encode_tlv 0x04 p.auth_params
  priv ← encode_tlv 0x04 p.priv_params
  encode_tlv 0x30 (engine_id ++ (boots ++ (time ++ (username ++ (auth ++ priv)))))

-- The part of `_decode_usm_params_with_offset` on the content of the SEQUENCE, which starts at
-- `content_start`.
unfoldable pub decode_usm_content : Bytes → ℕ → Result (UsmParams × ℕ)
unfolding decode_octet_bytes
decode_usm_content content content_start = do
  (engine_id, o₁) ← decode_octet_bytes content 0
  (engine_boots, o₂) ← decode_integer_from content o₁
  (engine_time, o₃) ← decode_integer_from content o₂
  (username, o₄) ← decode_octet_bytes content o₃
  (auth, auth_end) ← decode_tlv content o₄
  raise_if (not (auth.tag == 0x04)) protocol_error
  (priv_params, o₅) ← decode_octet_bytes content auth_end
  expect_end content o₅
  ok (
    record {
      engine_id = engine_id;
      engine_boots = engine_boots;
      engine_time = engine_time;
      username = username;
      auth_params = auth.content;
      priv_params = priv_params;
    },
    content_start + auth_end - length auth.content,
  )

unfoldable pub decode_usm_params_with_offset : Bytes → Result (UsmParams × ℕ)
unfolding decode_usm_content
decode_usm_params_with_offset data' = do
  (t, end) ← decode_tlv data' 0
  raise_if (not (t.tag == 0x30)) protocol_error
  expect_end data' end
  decode_usm_content t.content (length data' - length t.content)

unfoldable pub encode_v3_message : ℤ → ℤ → ℕ → UsmParams → Bytes → Result Bytes
unfolding encode_header_data encode_usm_params
encode_v3_message msg_id msg_max_size flags usm_params msg_data_bytes = do
  header_data ← encode_header_data msg_id msg_max_size flags
  usm_bytes ← encode_usm_params usm_params
  security_params ← encode_tlv 0x04 usm_bytes
  version ← encode_integer (pos 3)
  encode_tlv 0x30 (version ++ (header_data ++ (security_params ++ msg_data_bytes)))

-- `msg_flags[0] & MSG_FLAG_PRIV`
abbrev pub priv_set : ℕ → Bool
priv_set flags = flags / 2 % 2 == 1

-- `decode_v3_message` behind the security parameters, which end at `offset` in `content`.
unfoldable pub decode_msg_data : HeaderData → UsmParams → ℕ → Bytes → ℕ → Result V3MessageView
decode_msg_data header usm_params auth_params_offset content offset = do
  flags ← require (head_option header.msg_flags) protocol_error
  (t, end) ← decode_tlv content offset
  raise_if (not (t.tag == (if priv_set flags then 0x04 else 0x30))) protocol_error
  expect_end content end
  ok (record {
    msg_id = header.msg_id;
    msg_max_size = header.msg_max_size;
    msg_flags = header.msg_flags;
    msg_security_model = header.msg_security_model;
    usm_params = usm_params;
    msg_data_bytes = slice content offset end;
    auth_params_offset = auth_params_offset;
  })

unfoldable pub decode_v3_message : Bytes → Result V3MessageView
unfolding decode_header_data decode_usm_params_with_offset decode_msg_data
decode_v3_message data' = do
  (t, end) ← decode_tlv data' 0
  raise_if (not (t.tag == 0x30)) protocol_error
  expect_end data' end
  (version, o₁) ← decode_integer_from t.content 0
  raise_if (not (eq_ℤ version (pos 3))) protocol_error
  (header, o₂) ← decode_header_data t.content o₁
  raise_if (not (eq_ℤ header.msg_security_model (pos 3))) protocol_error
  (sp, o₃) ← decode_tlv t.content o₂
  raise_if (not (sp.tag == 0x04)) protocol_error
  (usm_params, in_sp) ← decode_usm_params_with_offset sp.content
  let sp_start = length data' - length t.content + o₃ - length sp.content
  decode_msg_data header usm_params (sp_start + in_sp) t.content o₃

unfoldable pub encode_scoped_pdu : Bytes → Bytes → Pdu → Result Bytes
encode_scoped_pdu engine_id context_name pdu = do
  engine ← encode_tlv 0x04 engine_id
  context ← encode_tlv 0x04 context_name
  body ← encode_pdu pdu
  encode_tlv 0x30 (engine ++ (context ++ body))

pub record ScopedPdu : Type 0 where
  pub engine_id : Bytes
  pub context_name : Bytes
  pub pdu : Pdu

unfoldable pub decode_scoped_pdu : Bytes → Result ScopedPdu
unfolding decode_octet_bytes
decode_scoped_pdu data' = do
  (t, end) ← decode_tlv data' 0
  raise_if (not (t.tag == 0x30)) protocol_error
  expect_end data' end
  (engine_id, o₁) ← decode_octet_bytes t.content 0
  (context_name, o₂) ← decode_octet_bytes t.content o₁
  (p, o₃) ← decode_tlv t.content o₂
  encoded ← encode_tlv p.tag p.content
  pdu ← decode_pdu encoded
  expect_end t.content o₃
  ok (record { engine_id = engine_id; context_name = context_name; pdu = pdu })
