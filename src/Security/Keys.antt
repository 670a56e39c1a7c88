-- ===== src/Security/Keys.antt =====
-- trishul_snmp/security/usm.py: users, keys and the authentication tag.
use trishul_snmp.Prelude.{
  ℕ, zero, suc, ◌+◌, ◌%◌, [], ◌∷◌, ◌++◌, ℤ, pos, negsuc, Bool, true, false, not, Option, none, some,
  Result, ok, err, protocol_error, authentication_error, zero_division_error, index_error,
  struct_error, ◌>>=◌, ◌>>◌, raise_if, require, ltb, ◌==◌, if◌then◌else◌, length, get_elem?, take,
  drop, replicate, seq_eq,
}
use trishul_snmp.Types.{Text}
use trishul_snmp.Wire.Bytes.{Bytes, to_bytes}
use trishul_snmp.Wire.V3Messages.{decode_v3_message}

-- The members `NONE` are `no_auth` and `no_priv`.
pub data AuthProtocol : Type 0 where
  no_auth md5 sha1 sha256 : AuthProtocol

pub data PrivProtocol : Type 0 where
  no_priv des aes128 : PrivProtocol

pub record UsmLocalEngine : Type 0 where
  pub engine_id : Bytes
  pub engine_boots : ℤ
  pub engine_time : ℤ

pub record UsmUser : Type 0 where
  pub username : Text
  pub auth_protocol : AuthProtocol
  pub auth_key : Bytes
  pub auth_key_localized : Bool
  pub priv_protocol : PrivProtocol
  pub priv_key : Bytes

-- The state of the security model. `auth_key` and the peer's engine are the bytes of the source.
pub record UsmModel : Type 0 where
  pub user : UsmUser
  pub context_name : Bytes
  pub local_engine : Option UsmLocalEngine
  pub peer_engine_id : Bytes
  pub peer_engine_boots : ℤ
  pub peer_engine_time : ℤ
  pub msg_id_counter : ℕ

-- hashlib, hmac and the cipher of the cryptography package, which the code calls: a digest, a keyed
-- digest of key and message, and AES in CFB mode with a key and an initial vector.
pub record Crypto : Type 0 where
  pub digest : AuthProtocol → Bytes → Bytes
  pub hmac : AuthProtocol → Bytes → Bytes → Bytes
  pub encrypt : Bytes → Bytes → Bytes → Bytes
  pub decrypt : Bytes → Bytes → Bytes → Bytes

abbrev pub auth_tag_len : ℕ
auth_tag_len = 12

-- `b"\x00" * _AUTH_TAG_LEN`
abbrev pub zero_tag : Bytes
zero_tag = replicate auth_tag_len 0

abbrev pub is_empty : Bytes → Bool
is_empty [] = true
is_empty (b ∷ bs) = false

unfoldable pub auth_on : AuthProtocol → Bool
auth_on no_auth = false
auth_on _ = true

unfoldable pub priv_on : PrivProtocol → Bool
priv_on no_priv = false
priv_on _ = true

unfoldable pub auth_enabled : UsmModel → Bool
unfolding auth_on
auth_enabled s = auth_on s.user.auth_protocol

-- The rounds `i` to `i + n - 1` of the loop that fills the buffer.
unfoldable pub fill_buffer : ℕ → ℕ → Bytes → Result Bytes
fill_buffer zero i password = ok []
fill_buffer (suc n) i password = do
  raise_if (length password == 0) zero_division_error
  b ← require (get_elem? password (i % length password)) index_error
  rest ← fill_buffer n (suc i) password
  ok (b ∷ rest)

-- 1 MB.
abbrev pub buffer_size : ℕ
buffer_size = 1048576

-- `struct.pack(">I", n)`
unfoldable pub pack_u32 : ℤ → Result Bytes
pack_u32 (pos n) = if ltb n 4294967296 then ok (to_bytes 4 n) else err struct_error
pack_u32 (negsuc n) = err struct_error

-- `raw[:offset] + tag + raw[offset + _AUTH_TAG_LEN:]`
unfoldable pub put_tag : Bytes → ℕ → Bytes → Bytes
put_tag raw offset tag = take offset raw ++ (tag ++ drop (offset + auth_tag_len) raw)

module _ (crypto : Crypto) where
  -- `_localize_key` and `_localize_priv_key`, which differ in their error's text.
  unfoldable pub localize_key : AuthProtocol → Bytes → Bytes → Result Bytes
  unfolding auth_on fill_buffer
  localize_key auth_protocol password engine_id = do
    raise_if (not (auth_on auth_protocol)) protocol_error
    buf ← fill_buffer buffer_size 0 password
    let ku = crypto.digest auth_protocol buf
    ok (crypto.digest auth_protocol (ku ++ (engine_id ++ ku)))

  abbrev pub selected_engine : UsmModel → Option Bytes → Bytes
  selected_engine s none = s.peer_engine_id
  selected_engine s (some engine_id) = engine_id

  unfoldable pub hmac_key : UsmModel → Option Bytes → Result Bytes
  unfolding localize_key
  hmac_key s engine_id =
      if is_empty s.user.auth_key
      then ok []
      else if s.user.auth_key_localized
      then ok s.user.auth_key
      else localize_key s.user.auth_protocol s.user.auth_key (selected_engine s engine_id)

  unfoldable pub compute_auth_tag : UsmModel → Bytes → Option Bytes → Result Bytes
  unfolding auth_on hmac_key
  compute_auth_tag s msg engine_id = do
    raise_if (not (auth_on s.user.auth_protocol)) protocol_error
    key ← hmac_key s engine_id
    ok (take auth_tag_len (crypto.hmac s.user.auth_protocol key msg))

  unfoldable pub stamp_auth : UsmModel → Bytes → Option Bytes → Result Bytes
  unfolding compute_auth_tag put_tag decode_v3_message
  stamp_auth s raw engine_id = do
    tag ← compute_auth_tag s raw engine_id
    view ← decode_v3_message raw
    ok (put_tag raw view.auth_params_offset tag)

  unfoldable pub verify_auth : UsmModel → Bytes → ℕ → Bytes → Bytes → Result (Unit {0})
  unfolding compute_auth_tag put_tag seq_eq
  verify_auth s raw auth_params_offset received_tag engine_id = do
    expected ← compute_auth_tag s (put_tag raw auth_params_offset zero_tag) (some engine_id)
    raise_if (not (seq_eq expected (take auth_tag_len received_tag))) authentication_error
