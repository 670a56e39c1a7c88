-- ===== src/Wire/Values/RoundTrip.antt =====
-- `decode_value` gives back the value that `encode_value` wrote.
use trishul_snmp.Prelude.{ℕ, ◌≡◌, refl, sym, ap, ◌∙◌, [], ◌∷◌, ok, Result, >>=-eq-ok, All}
use trishul_snmp.Types.{
  SnmpValue, integer, octet_string, null, object_identifier, ip_address, counter32, gauge32,
  time_ticks, opaque, counter64, no_such_object, no_such_instance, end_of_mib_view,
}
use trishul_snmp.Wire.Bytes.{Bytes, IsByte}
use trishul_snmp.Wire.Ber.{encode_tlv}
use trishul_snmp.Wire.Ber.RoundTrip.{Fits, decode_tlv-whole}
use trishul_snmp.Wire.Integers.RoundTrip.{decode-encode_signed, decode-encode_unsigned}
use trishul_snmp.Wire.IpAddresses.{decode_ip_address}
use trishul_snmp.Wire.IpAddresses.RoundTrip.{encode-decode_ip}
use trishul_snmp.Wire.Oids.RoundTrip.{decode_oid-encode_oid}
use trishul_snmp.Wire.Values.{
  value_tag, encode_content, encode_value, require_empty, decode_content, decode_value,
}

-- An IPv4 address is in the form that the decoder prints. Other values are not restricted.
abbrev pub IsCanonical : SnmpValue → Type 0
IsCanonical (ip_address text) = (bs : Bytes) × All IsByte bs × (decode_ip_address bs ≡ ok text)
IsCanonical _ = Unit {0}

require_empty-ok :
    (content : Bytes) (value : SnmpValue)
    → ok [] ≡ ok content
    → require_empty content value ≡ ok value
unfolding require_empty
require_empty-ok [] value h = refl
require_empty-ok (b ∷ rest) value h = cc

decode-encode_content :
    (value : SnmpValue) (content : Bytes)
    → IsCanonical value
    → encode_content value ≡ ok content
    → decode_content (value_tag value) content ≡ ok value
unfolding encode_content decode_content value_tag require_empty
decode-encode_content (integer v) content c h =
    cc (ap (λ (r : Result Bytes). r) h, decode-encode_signed v)
decode-encode_content (octet_string v) content c h = cc
decode-encode_content null content c h = require_empty-ok content null h
decode-encode_content (object_identifier v) content c h =
    rw (decode_oid-encode_oid v content h) refl
decode-encode_content (ip_address v) content (bs, bytes, e) h =
    let same : ok content ≡ ok bs = sym h ∙ encode-decode_ip bs v bytes e in
    let same' : content ≡ bs = cc in rw (same', e) refl
decode-encode_content (counter32 v) content c h = rw (decode-encode_unsigned v content h) refl
decode-encode_content (gauge32 v) content c h = rw (decode-encode_unsigned v content h) refl
decode-encode_content (time_ticks v) content c h = rw (decode-encode_unsigned v content h) refl
decode-encode_content (opaque v) content c h = cc
decode-encode_content (counter64 v) content c h = rw (decode-encode_unsigned v content h) refl
decode-encode_content no_such_object content c h = require_empty-ok content no_such_object h
decode-encode_content no_such_instance content c h = require_empty-ok content no_such_instance h
decode-encode_content end_of_mib_view content c h = require_empty-ok content end_of_mib_view h

-- A whole field decodes as its tag and content do.
pub decode_value-encode_tlv :
    (tag : ℕ) (content bs : Bytes)
    → encode_tlv tag content ≡ ok bs
    → Fits bs
    → decode_value bs ≡ decode_content tag content
unfolding decode_value
decode_value-encode_tlv tag content bs h fits =
    let (read, end) = decode_tlv-whole tag content bs h fits in rw (read, end) refl

pub encode_value-inverts :
    (value : SnmpValue) (bs : Bytes)
    → encode_value value ≡ ok bs
    → (content : Bytes) × (encode_content value ≡ ok content)
      × (encode_tlv (value_tag value) content ≡ ok bs)
unfolding encode_value
encode_value-inverts value bs h = >>=-eq-ok (encode_content value) (encode_tlv (value_tag value)) h

-- From fewer than 2^32 bytes `decode_value` gives back every value that `encode_value` encodes, an
-- IPv4 address if it is in the printed form.
pub decode_value-encode_value :
    (value : SnmpValue) (bs : Bytes)
    → IsCanonical value
    → encode_value value ≡ ok bs
    → Fits bs
    → decode_value bs ≡ ok value
decode_value-encode_value value bs c h fits =
    let (content, e, t) = encode_value-inverts value bs h in
    decode_value-encode_tlv (value_tag value) content bs t fits
    ∙ decode-encode_content value content c e
