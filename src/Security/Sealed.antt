-- ===== src/Security/Sealed.antt =====
-- `_encrypt_scoped_pdu` writes a field that `_decrypt_scoped_pdu` opens for the same user.
use trishul_snmp.Prelude.{
  >>=-ok, pick_true, pick_false, ℕ, ◌≤◌, ◌≡◌, ◌∙◌, sym, ap, if◌then◌else◌, arith, Bool, Bool-cases,
  true, false, not, inl, inr, Result, ok, >>=-eq-ok, raise_if, protocol_error, ◌==◌, length, take,
  take_of_le, if_true, if_false,
}
use mathlib.Core.Path.{subst}
use trishul_snmp.Wire.Bytes.{Bytes}
use trishul_snmp.Wire.Ber.{encode_tlv, decode_tlv}
use trishul_snmp.Wire.Ber.RoundTrip.{Fits, encode_tlv-inverts, decode_tlv-whole}
use trishul_snmp.Wire.V3Messages.{UsmParams, HeaderData}
use trishul_snmp.Wire.V3Messages.Codec.{view_with}
use trishul_snmp.Security.Keys.{
  Crypto, PrivProtocol, no_priv, des, aes128, UsmLocalEngine, UsmModel, priv_on,
}
use trishul_snmp.Security.Privacy.{
  initial_vector, priv_key_aes128, decrypt_aes128, encrypt_scoped_pdu, decrypt_scoped_pdu,
}
use trishul_snmp.Security.Usm.{protect_scoped, unprotect_scoped}

-- The cipher is a stream: what it encrypts has the length of the text, and it decrypts to the text.
abbrev pub HasStreamCipher : Crypto → Type 0
HasStreamCipher crypto =
    (key iv text : Bytes)
    → (crypto.decrypt key iv (crypto.encrypt key iv text) ≡ text)
      × (length (crypto.encrypt key iv text) ≡ length text)

-- `protected` is a field with the given tag that has the scoped PDU in it.
abbrev pub Sealed : ℕ → Bytes → Bytes → Type 0
Sealed tag scoped bytes =
    ((inner : Bytes) × (encode_tlv tag inner ≡ ok bytes)) × (length scoped ≤ length bytes)

priv_key_aes128-user :
    (crypto : Crypto) (r s : UsmModel) (engine_id : Bytes)
    → r.user ≡ s.user
    → priv_key_aes128 crypto r engine_id ≡ priv_key_aes128 crypto s engine_id
unfolding priv_key_aes128
priv_key_aes128-user crypto r s engine_id e =
    ap (λ user. priv_key_aes128 crypto (record s { user = user }) engine_id) e

decrypt_aes128-opens :
    (crypto : Crypto) (r : UsmModel) (local_iv scoped key iv bytes : Bytes)
    (engine : UsmLocalEngine)
    → HasStreamCipher crypto
    → length local_iv ≡ 8
    → priv_key_aes128 crypto r engine.engine_id ≡ ok key
    → initial_vector engine.engine_boots engine.engine_time local_iv ≡ ok iv
    → encode_tlv 0x04 (crypto.encrypt key iv scoped) ≡ ok bytes
    → Fits bytes
    → decrypt_aes128 crypto r bytes local_iv engine.engine_id engine.engine_boots engine.engine_time
      ≡ ok scoped
unfolding decrypt_aes128
decrypt_aes128-opens crypto r local_iv scoped key iv bytes engine cipher eight e₁ e₂ e₃ fits =
    let (read, end) = decode_tlv-whole 0x04 (crypto.encrypt key iv scoped) bytes e₃ fits in
    let whole = take_of_le 8 local_iv (omega (arith, eight)) in
    >>=-ok (decode_tlv bytes 0) _ read (
      >>=-ok (raise_if (not (length local_iv == 8)) protocol_error) _
        (ap (λ n. raise_if (not (n == 8)) protocol_error) eight)
        (>>=-ok (priv_key_aes128 crypto r engine.engine_id) _ e₁ (
          >>=-ok (initial_vector engine.engine_boots engine.engine_time (take 8 local_iv)) _
            (ap (initial_vector engine.engine_boots engine.engine_time) whole ∙ e₂)
            (ap ok (cipher key iv scoped).0))))

pair_of : Bytes × Bytes → Result (Bytes × Bytes) → Bytes × Bytes
pair_of other (ok bs) = bs
pair_of other _ = other

encrypt_scoped_pdu-Sealed :
    (crypto : Crypto) (s r : UsmModel) (protocol : PrivProtocol) (local_iv scoped : Bytes)
    (engine : UsmLocalEngine) (protected : Bytes × Bytes)
    → HasStreamCipher crypto
    → length local_iv ≡ 8
    → r.user ≡ s.user
    → encrypt_scoped_pdu crypto s protocol local_iv scoped engine ≡ ok protected
    → Sealed 0x04 scoped protected.1
      × (Fits protected.1
          → decrypt_scoped_pdu crypto r protocol protected.1 protected.0 engine.engine_id
              engine.engine_boots engine.engine_time
            ≡ ok scoped)
unfolding encrypt_scoped_pdu decrypt_scoped_pdu pair_of
encrypt_scoped_pdu-Sealed crypto s r des local_iv scoped engine protected cipher eight same h = cc
encrypt_scoped_pdu-Sealed crypto s r no_priv local_iv scoped engine protected cipher eight same h =
    cc
encrypt_scoped_pdu-Sealed crypto s r aes128 local_iv scoped engine protected cipher eight same h =
    let (key, e₁, h₁) = >>=-eq-ok (priv_key_aes128 crypto s engine.engine_id) _ h in
    let (iv, e₂, h₂) =
      >>=-eq-ok (initial_vector engine.engine_boots engine.engine_time local_iv) _ h₁ in
    let (bytes, e₃, h₃) =
      >>=-eq-ok (encode_tlv 0x04 (crypto.encrypt key iv scoped)) (λ b. ok (local_iv, b)) h₂ in
    let known = priv_key_aes128-user crypto r s engine.engine_id same ∙ e₁ in
    subst
      (λ q.
        Sealed 0x04 scoped q.1
        × (Fits q.1
            → decrypt_aes128 crypto r q.1 q.0 engine.engine_id engine.engine_boots
                engine.engine_time
              ≡ ok scoped))
      (ap (pair_of protected) h₃)
      (
        (
          (crypto.encrypt key iv scoped, e₃),
          omega (
            arith,
            (encode_tlv-inverts 0x04 (crypto.encrypt key iv scoped) bytes e₃).1,
            (cipher key iv scoped).1,
          ),
        ),
        decrypt_aes128-opens crypto r local_iv scoped key iv bytes engine cipher eight known e₂ e₃,
      )

-- The parameters of a message of the engine.
abbrev pub params_of : UsmLocalEngine → Bytes → Bytes → Bytes → UsmParams
params_of engine username tag priv_params = record {
  engine_id = engine.engine_id;
  engine_boots = engine.engine_boots;
  engine_time = engine.engine_time;
  username = username;
  auth_params = tag;
  priv_params = priv_params;
}

-- A model of the same user recovers the scoped PDU from the message data.
abbrev pub Opens : Crypto → UsmModel → UsmLocalEngine → Bytes × Bytes → Bytes → Type 0
Opens crypto r engine protected scoped =
    (header : HeaderData) (username tag : Bytes) (at : ℕ)
    → Fits protected.1
    → unprotect_scoped crypto r
        (view_with header (params_of engine username tag protected.0) protected.1 at)
      ≡ ok scoped

pub protect_scoped-Sealed :
    (crypto : Crypto) (s r : UsmModel) (local_iv inner scoped : Bytes) (engine : UsmLocalEngine)
    (protected : Bytes × Bytes)
    → HasStreamCipher crypto
    → length local_iv ≡ 8
    → r.user ≡ s.user
    → encode_tlv 0x30 inner ≡ ok scoped
    → protect_scoped crypto s local_iv scoped engine ≡ ok protected
    → Sealed (if priv_on s.user.priv_protocol then 0x04 else 0x30) scoped protected.1
      × Opens crypto r engine protected scoped
unfolding protect_scoped unprotect_scoped pair_of
protect_scoped-Sealed crypto s r local_iv inner scoped engine protected cipher eight same e h =
    let seal : (b : Bool)
        → Sealed (if b then 0x04 else 0x30) scoped protected.1
        → priv_on s.user.priv_protocol ≡ b
        → Sealed (if priv_on s.user.priv_protocol then 0x04 else 0x30) scoped protected.1 =
      λ b sealed p.
        subst (λ c. Sealed (if c then 0x04 else 0x30) scoped protected.1) (sym p) sealed in
    let for_r = ap (λ u. priv_on u.priv_protocol) same in
    elim (Bool-cases (priv_on s.user.priv_protocol)) [
      | inl p ↦
          let (sealed, opens) =
            encrypt_scoped_pdu-Sealed crypto s r s.user.priv_protocol local_iv scoped engine
              protected cipher eight same (if_true _ _ p h) in
          (
            seal true sealed p,
            λ header username tag at fits. pick_true (priv_on r.user.priv_protocol) _ (for_r ∙ p) (
                ap
                  (λ u.
                    decrypt_scoped_pdu crypto r u.priv_protocol protected.1 protected.0
                      engine.engine_id engine.engine_boots engine.engine_time)
                  same
                ∙ opens fits),
          )
      | inr p ↦
          let plain = ap (pair_of protected) (if_false _ _ p h) in
          (
            seal false (subst (λ q. Sealed 0x30 scoped q.1) plain ((inner, e), omega arith)) p,
            λ header username tag at fits.
                pick_false (priv_on r.user.priv_protocol) _ (for_r ∙ p)
                  (ap (λ q. ok q.1) (sym plain)),
          )
    ]
