-- ===== src/Wire/V3Messages/Params.antt =====
-- What `encode_usm_params` writes, `decode_usm_params_with_offset` reads, and where the authentication
-- parameters stand in it.
use trishul_snmp.Prelude.{
  ℕ, ◌+◌, ◌-◌, ◌≡◌, ◌∙◌, refl, sym, ap, arith, [], ◌++◌, Result, ok, err, ◌>>=◌, >>=-eq-ok, length,
  length-append, append-nil, append_assoc,
}
use trishul_snmp.Wire.Bytes.{Bytes}
use trishul_snmp.Wire.Bytes.Reader.{At, At-start, At-next}
use trishul_snmp.Wire.Ber.{encode_tlv}
use trishul_snmp.Wire.Ber.RoundTrip.{
  Fits, decode_tlv-encode_tlv, encode_tlv-inverts, expect_end-At, decode_tlv-whole,
}
use trishul_snmp.Wire.Pdus.{encode_integer}
use trishul_snmp.Wire.Pdus.RoundTrip.{read_integer}
use trishul_snmp.Wire.V3Messages.{
  UsmParams, encode_usm_params, decode_usm_content, decode_usm_params_with_offset,
}
use trishul_snmp.Wire.V3Messages.RoundTrip.{read_octet_bytes}
use trishul_snmp.Wire.V3Messages.Placed.{Placed, Placed-field, Placed-tlv, Placed-via}

pub >>=-same :
    {A B : Type 0} (r : Result A) (f g : A → Result B)
    → ((x : A) → f x ≡ g x)
    → (r >>= f) ≡ (r >>= g)
>>=-same (ok x) f g h = h x
>>=-same (err e) f g h = refl

-- The parameters with another tag.
abbrev pub tagged : UsmParams → Bytes → UsmParams
tagged p tag = record p { auth_params = tag }

place_usm :
    (p : UsmParams) (engine boots time username auth priv bs : Bytes) (at : ℕ)
    → encode_tlv 0x04 p.engine_id ≡ ok engine
    → encode_integer p.engine_boots ≡ ok boots
    → encode_integer p.engine_time ≡ ok time
    → encode_tlv 0x04 p.username ≡ ok username
    → encode_tlv 0x04 p.auth_params ≡ ok auth
    → encode_tlv 0x04 p.priv_params ≡ ok priv
    → encode_tlv 0x30 (engine ++ (boots ++ (time ++ (username ++ (auth ++ priv))))) ≡ ok bs
    → at
      ≡ length bs
        - length (engine ++ (boots ++ (time ++ (username ++ (auth ++ priv)))))
        + length (engine ++ (boots ++ (time ++ username)))
        + (length auth - length p.auth_params)
    → Placed (λ tag. encode_usm_params (tagged p tag)) p.auth_params bs at
unfolding encode_usm_params
place_usm p engine boots time username auth priv bs at e₁ e₂ e₃ e₄ e₅ e₆ t same =
    let front : Bytes = engine ++ (boots ++ (time ++ username)) in
    let shape : (b : Bytes)
        → engine ++ (boots ++ (time ++ (username ++ (b ++ priv)))) ≡ front ++ (b ++ priv) =
      λ b. simp append_assoc in
    Placed-via
      (λ tag l.
        rw (e₁, e₂, e₃, e₄, e₆)
          (>>=-same (encode_tlv 0x04 tag) _ _ (λ b. ap (encode_tlv 0x30) (shape b))))
      (same
        ∙ ap (λ c. length bs - length c + length front + (length auth - length p.auth_params))
            (shape auth))
      (Placed-tlv 0x30 front priv bs (Placed-field 0x04 p.auth_params auth e₅)
        (ap (encode_tlv 0x30) (sym (shape auth)) ∙ t))

-- The offset behind the parameters is some `at`, by the length of what stands before them.
pub read_usm :
    (p : UsmParams) (bs : Bytes)
    → encode_usm_params p ≡ ok bs
    → Fits bs
    → (at : ℕ) × (decode_usm_params_with_offset bs ≡ ok (p, at))
      × Placed (λ tag. encode_usm_params (tagged p tag)) p.auth_params bs at
unfolding encode_usm_params decode_usm_params_with_offset decode_usm_content
read_usm p bs h fits =
    let (engine, e₁, h₁) = >>=-eq-ok (encode_tlv 0x04 p.engine_id) _ h in
    let (boots, e₂, h₂) = >>=-eq-ok (encode_integer p.engine_boots) _ h₁ in
    let (time, e₃, h₃) = >>=-eq-ok (encode_integer p.engine_time) _ h₂ in
    let (username, e₄, h₄) = >>=-eq-ok (encode_tlv 0x04 p.username) _ h₃ in
    let (auth, e₅, h₅) = >>=-eq-ok (encode_tlv 0x04 p.auth_params) _ h₄ in
    let (priv, e₆, t) =
      >>=-eq-ok (encode_tlv 0x04 p.priv_params)
        (λ x. encode_tlv 0x30 (engine ++ (boots ++ (time ++ (username ++ (auth ++ x)))))) h₅ in
    let content : Bytes = engine ++ (boots ++ (time ++ (username ++ (auth ++ priv)))) in
    let (read, end) = decode_tlv-whole 0x30 content bs t fits in
    let long = (encode_tlv-inverts 0x30 content bs t).1 in
    let l₁ = length-append engine (boots ++ (time ++ (username ++ (auth ++ priv)))) in
    let l₂ = length-append boots (time ++ (username ++ (auth ++ priv))) in
    let l₃ = length-append time (username ++ (auth ++ priv)) in
    let l₄ = length-append username (auth ++ priv) in
    let l₅ = length-append auth priv in
    let a₁ = At-start content in
    let a₂ = At-next engine (boots ++ (time ++ (username ++ (auth ++ priv)))) a₁ in
    let a₃ = At-next boots (time ++ (username ++ (auth ++ priv))) a₂ in
    let a₄ = At-next time (username ++ (auth ++ priv)) a₃ in
    let a₅ = At-next username (auth ++ priv) a₄ in
    let a₆ : At content
        (0 + length engine + length boots + length time + length username + length auth)
        (priv ++ []) =
      rw append-nil (At-next auth priv a₅) in
    (
      length bs
          - length content
          + (0 + length engine + length boots + length time + length username + length auth)
          - length p.auth_params,
      rw (read, end)
          (rw
            (
              (read_octet_bytes p.engine_id engine e₁ (omega arith)).at content 0 _ a₁,
              (read_integer p.engine_boots boots e₂ (omega arith)).at content _ _ a₂,
              (read_integer p.engine_time time e₃ (omega arith)).at content _ _ a₃,
              (read_octet_bytes p.username username e₄ (omega arith)).at content _ _ a₄,
              (decode_tlv-encode_tlv 0x04 p.auth_params auth e₅ (omega arith)).at content _ _ a₅,
              (read_octet_bytes p.priv_params priv e₆ (omega arith)).at content _ [] a₆,
              expect_end-At (At-next priv [] a₆),
            )
            refl),
      place_usm p engine boots time username auth priv bs _ e₁ e₂ e₃ e₄ e₅ e₆ t (
          omega (
            arith,
            length-append engine (boots ++ (time ++ username)),
            length-append boots (time ++ username),
            length-append time username,
            encode_tlv-inverts 0x04 p.auth_params auth e₅,
          )),
    )
