-- ===== src/Wire/Ber.antt =====
-- trishul_snmp/wire/ber.py: BER lengths and tag-length-value fields.
pub mod RoundTrip
pub mod Bounds
pub mod Placement
use trishul_snmp.Prelude.{
  ℕ, ◌+◌, ◌/◌, ◌%◌, ◌++◌, [], ◌∷◌, Result, ok, err, protocol_error, ◌>>=◌, ◌>>◌, raise_if, require,
  ltb, leb, ◌==◌, if◌then◌else◌, not, length, get_elem?, slice,
}
use trishul_snmp.Wire.Bytes.{Bytes, byte, set_top_bit, bit_length, to_bytes, from_bytes}

-- The length is `len(content)` wherever the code calls this, so the guard against a negative one
-- is the type ℕ.
unfoldable pub encode_length : ℕ → Result Bytes
encode_length length' = if ltb length' 0x80 then byte length' else do
  let content = to_bytes ((bit_length length' + 7) / 8) length'
  first ← byte (set_top_bit (length content))
  ok (first ++ content)

-- The part of `decode_length` after the test of `first`.
unfoldable pub decode_long_length : Bytes → ℕ → ℕ → Result (ℕ × ℕ)
decode_long_length data' first offset = do
  let count = first % 128
  raise_if (count == 0) protocol_error
  let end = offset + count
  raise_if (ltb (length data') end) protocol_error
  ok (from_bytes (slice data' offset end), end)

unfoldable pub decode_length : Bytes → ℕ → Result (ℕ × ℕ)
unfolding decode_long_length
decode_length data' offset = do
  first ← require (get_elem? data' offset) protocol_error
  if ltb first 0x80 then ok (first, offset + 1) else decode_long_length data' first (offset + 1)

pub record Tlv : Type 0 where
  pub tag : ℕ
  pub content : Bytes

unfoldable pub encode_tlv : ℕ → Bytes → Result Bytes
encode_tlv tag content = do
  first ← byte tag
  size ← encode_length (length content)
  ok (first ++ (size ++ content))

unfoldable pub decode_tlv : Bytes → ℕ → Result (Tlv × ℕ)
decode_tlv data' offset = do
  tag ← require (get_elem? data' offset) protocol_error
  (length', content_offset) ← decode_length data' (offset + 1)
  let end = content_offset + length'
  raise_if (ltb (length data') end) protocol_error
  ok (record { tag = tag; content = slice data' content_offset end }, end)

unfoldable pub expect_end : Bytes → ℕ → Result (Unit {0})
expect_end data' offset = raise_if (not (offset == length data')) protocol_error
