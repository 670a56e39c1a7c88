-- ===== src/Security/Privacy.antt =====
-- trishul_snmp/security/usm.py: the encryption of a scoped PDU.
use trishul_snmp.Prelude.{
  ◌++◌, ℤ, not, Result, ok, err, protocol_error, ◌>>=◌, ◌>>◌, raise_if, ◌==◌, length, take,
}
use trishul_snmp.Wire.Bytes.{Bytes}
use trishul_snmp.Wire.Ber.{encode_tlv, decode_tlv}
use trishul_snmp.Security.Keys.{
  Crypto, PrivProtocol, no_priv, des, aes128, UsmLocalEngine, UsmModel, is_empty, pack_u32,
  localize_key,
}

-- `struct.pack(">I", boots) + struct.pack(">I", time) + local_iv`
unfoldable pub initial_vector : ℤ → ℤ → Bytes → Result Bytes
unfolding pack_u32
initial_vector boots time local_iv = do
  b ← pack_u32 boots
  t ← pack_u32 time
  ok (b ++ (t ++ local_iv))

module _ (crypto : Crypto) where
  unfoldable pub priv_key_aes128 : UsmModel → Bytes → Result Bytes
  unfolding localize_key
  priv_key_aes128 s engine_id = do
    raise_if (is_empty s.user.priv_key) protocol_error
    raw ← localize_key crypto s.user.auth_protocol s.user.priv_key engine_id
    ok (take 16 raw)

  -- `local_iv` is what `os.urandom(8)` returns.
  unfoldable pub encrypt_aes128 : UsmModel → Bytes → Bytes → Bytes → ℤ → ℤ → Result (Bytes × Bytes)
  unfolding priv_key_aes128 initial_vector
  encrypt_aes128 s local_iv plaintext engine_id engine_boots engine_time = do
    aes_key ← priv_key_aes128 s engine_id
    iv ← initial_vector engine_boots engine_time local_iv
    encrypted ← encode_tlv 0x04 (crypto.encrypt aes_key iv plaintext)
    ok (local_iv, encrypted)

  unfoldable pub decrypt_aes128 : UsmModel → Bytes → Bytes → Bytes → ℤ → ℤ → Result Bytes
  unfolding priv_key_aes128 initial_vector
  decrypt_aes128 s msg_data priv_params engine_id msg_engine_boots msg_engine_time = do
    (t, end) ← decode_tlv msg_data 0
    raise_if (not (t.tag == 0x04)) protocol_error
    raise_if (not (length priv_params == 8)) protocol_error
    aes_key ← priv_key_aes128 s engine_id
    iv ← initial_vector msg_engine_boots msg_engine_time (take 8 priv_params)
    ok (crypto.decrypt aes_key iv t.content)

  -- DES is refused in `_encrypt_des` and `_decrypt_des`, and `NONE` behind the tests.
  unfoldable pub encrypt_scoped_pdu :
      UsmModel → PrivProtocol → Bytes → Bytes → UsmLocalEngine → Result (Bytes × Bytes)
  unfolding encrypt_aes128
  encrypt_scoped_pdu s aes128 local_iv scoped_bytes engine =
      encrypt_aes128 s local_iv scoped_bytes engine.engine_id engine.engine_boots engine.engine_time
  encrypt_scoped_pdu s des local_iv scoped_bytes engine = err protocol_error
  encrypt_scoped_pdu s no_priv local_iv scoped_bytes engine = err protocol_error

  unfoldable pub decrypt_scoped_pdu :
      UsmModel → PrivProtocol → Bytes → Bytes → Bytes → ℤ → ℤ → Result Bytes
  unfolding decrypt_aes128
  decrypt_scoped_pdu s aes128 msg_data priv_params engine_id boots time =
      decrypt_aes128 s msg_data priv_params engine_id boots time
  decrypt_scoped_pdu s des msg_data priv_params engine_id boots time = err protocol_error
  decrypt_scoped_pdu s no_priv msg_data priv_params engine_id boots time = err protocol_error
