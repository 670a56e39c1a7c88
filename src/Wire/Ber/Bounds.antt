-- ===== src/Wire/Ber/Bounds.antt =====
-- What the BER decoders return lies within their input.
use trishul_snmp.Prelude.{
  Ends-bind, ℕ, ◌+◌, ◌-◌, ◌≤◌, ◌≡◌, arith, ok, length, Result-cases, inl, inr, Ends, length-take,
  slice, drop,
}
use trishul_snmp.Wire.Bytes.{Bytes, byte}
use trishul_snmp.Wire.Ber.{
  encode_length, encode_tlv, decode_long_length, decode_length, Tlv, decode_tlv, expect_end,
}

pub length-slice : (bs : Bytes) (a b : ℕ) → length (slice bs a b) ≤ b - a
length-slice bs a b = omega (arith, length-take (b - a) (drop a bs))

decode_length_bounds :
    (content : Bytes) (offset n end : ℕ)
    → decode_length content offset ≡ ok (n, end)
    → offset + 1 ≤ end
unfolding decode_length decode_long_length
decode_length_bounds content offset n end h = ground arith

-- A field that is read ends within the input, with room for a tag and a length before its content.
pub decode_tlv_bounds :
    (content : Bytes) (offset : ℕ) (t : Tlv) (end : ℕ)
    → decode_tlv content offset ≡ ok (t, end)
    → (offset + 2 ≤ end) × (end ≤ length content) × (length t.content + (offset + 2) ≤ end)
unfolding decode_tlv
decode_tlv_bounds content offset t end h =
    elim (Result-cases (decode_length content (offset + 1))) [
      | inl ((n, start), e) ↦ ground (
        arith,
        e,
        decode_length_bounds content (offset + 1) n start e,
        length-slice content start (start + n),
      )
      | inr (x, e) ↦ ground (arith, e)
    ]

decode_length-Ends : (content : Bytes) (offset : ℕ) → Ends (decode_length content offset)
unfolding decode_length decode_long_length
decode_length-Ends content offset = λ h. ground arith

pub decode_tlv-Ends : (content : Bytes) (offset : ℕ) → Ends (decode_tlv content offset)
unfolding decode_tlv
decode_tlv-Ends content offset = λ h. ground (arith, decode_length-Ends content (offset + 1))

pub expect_end-Ends : (content : Bytes) (offset : ℕ) → Ends (expect_end content offset)
unfolding expect_end
expect_end-Ends content offset = λ h. ground arith

byte-Ends : (x : ℕ) → Ends (byte x)
byte-Ends x = λ h. ground arith

encode_length-Ends : (n : ℕ) → Ends (encode_length n)
unfolding encode_length
encode_length-Ends n = λ h. ground arith

pub encode_tlv-Ends : (tag : ℕ) (content : Bytes) → Ends (encode_tlv tag content)
unfolding encode_tlv
encode_tlv-Ends tag content = Ends-bind (byte tag) _ (byte-Ends tag) (λ first e.
    Ends-bind (encode_length (length content)) _ (encode_length-Ends (length content))
      (λ size f p. cc))
