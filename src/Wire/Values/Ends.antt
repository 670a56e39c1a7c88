-- ===== src/Wire/Values/Ends.antt =====
-- `decode_value` ends on every input.
use trishul_snmp.Prelude.{
  ℕ, arith, [], ◌∷◌, ok, err, Ends, Ends-bind, ◌==◌, if◌then◌else◌, Bool, true, false, Result,
  ◌>>=◌,
}
use trishul_snmp.Types.{
  SnmpValue, integer, null, object_identifier, ip_address, counter32, gauge32, time_ticks,
  counter64, no_such_object, no_such_instance, end_of_mib_view,
}
use trishul_snmp.Wire.Bytes.{Bytes}
use trishul_snmp.Wire.Ber.{decode_tlv, expect_end}
use trishul_snmp.Wire.Ber.Bounds.{decode_tlv-Ends, expect_end-Ends}
use trishul_snmp.Wire.Integers.{decode_signed_integer, decode_unsigned_integer}
use trishul_snmp.Wire.IpAddresses.{decode_ip_address}
use trishul_snmp.Wire.Oids.Ends.{decode_oid-Ends}
use trishul_snmp.Wire.Values.{require_empty, decode_content, decode_value}

Ends-if {ℓ} : {A : Type ℓ} (b : Bool) (r s : Result A) → Ends r → Ends s → Ends (if b then r else s)
Ends-if true r s h k = h
Ends-if false r s h k = k

require_empty-Ends : (content : Bytes) (value : SnmpValue) → Ends (require_empty content value)
unfolding require_empty
require_empty-Ends [] value = λ p. cc
require_empty-Ends (b ∷ rest) value = λ p. cc

pub decode_signed_integer-Ends : (content : Bytes) → Ends (decode_signed_integer content)
unfolding decode_signed_integer
decode_signed_integer-Ends [] = λ p. cc
decode_signed_integer-Ends (b ∷ rest) = λ p. cc

decode_unsigned_integer-Ends : (content : Bytes) → Ends (decode_unsigned_integer content)
unfolding decode_unsigned_integer
decode_unsigned_integer-Ends [] = λ p. cc
decode_unsigned_integer-Ends (b ∷ rest) = λ p. cc

decode_ip_address-Ends : (content : Bytes) → Ends (decode_ip_address content)
unfolding decode_ip_address
decode_ip_address-Ends content = λ p. ground arith

-- A value returned by a constructor of the chain.
Ends-map {ℓ} :
    {A : Type ℓ} {B : Type 0} (r : Result A) (f : A → B) → Ends r → Ends (◌>>=◌ r (λ a. ok (f a)))
Ends-map (ok a) f h = λ p. cc
Ends-map (err e) f h = λ p. h (cc)

decode_content-Ends : (tag : ℕ) (content : Bytes) → Ends (decode_content tag content)
unfolding decode_content
decode_content-Ends tag content =
    let empty = λ (v : SnmpValue). require_empty-Ends content v in
    let unsigned = decode_unsigned_integer-Ends content in
    let branch =
      λ (n : ℕ) (r s : Result SnmpValue) (h : Ends r) (k : Ends s). Ends-if (tag == n) r s h k in
    branch 0x02 _ _ (Ends-map _ integer (decode_signed_integer-Ends content)) (
      branch 0x04 _ _ (λ p. cc)
        (branch 0x05 _ _ (empty null) (
          branch 0x06 _ _ (Ends-map _ object_identifier (decode_oid-Ends content)) (
            branch 0x40 _ _ (Ends-map _ ip_address (decode_ip_address-Ends content)) (
              branch 0x41 _ _ (Ends-map _ counter32 unsigned) (
                branch 0x42 _ _ (Ends-map _ gauge32 unsigned) (
                  branch 0x43 _ _ (Ends-map _ time_ticks unsigned) (
                    branch 0x44 _ _ (λ p. cc)
                      (branch 0x46 _ _ (Ends-map _ counter64 unsigned) (
                        branch 0x80 _ _ (empty no_such_object) (
                          branch 0x81 _ _ (empty no_such_instance)
                            (branch 0x82 _ _ (empty end_of_mib_view) (λ p. cc)))))))))))))

pub decode_value-Ends : (bs : Bytes) → Ends (decode_value bs)
unfolding decode_value
decode_value-Ends bs = Ends-bind (decode_tlv bs 0) _ (decode_tlv-Ends bs 0) (λ p e.
    Ends-bind (expect_end bs p.1) _ (expect_end-Ends bs p.1)
      (λ u f. decode_content-Ends p.0.tag p.0.content))
