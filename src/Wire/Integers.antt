-- ===== src/Wire/Integers.antt =====
-- The INTEGER contents of trishul_snmp/wire/asn1.py.
pub mod RoundTrip
use trishul_snmp.Prelude.{
  ℕ, zero, suc, ◌+◌, ◌-◌, ◌*◌, ◌/◌, ◌%◌, ◌^◌, max, List, [], ◌∷◌, ◌++◌, ℤ, pos, negsuc, Bool, false,
  ◌&&◌, ◌||◌, Result, ok, err, protocol_error, ltb, leb, ◌==◌, if◌then◌else◌, length,
}
use trishul_snmp.Wire.Bytes.{Bytes, bit_length, to_bytes, from_bytes}

-- `int.bit_length` takes the absolute value.
unfoldable pub bit_length_ℤ : ℤ → ℕ
unfolding bit_length
bit_length_ℤ (pos n) = bit_length n
bit_length_ℤ (negsuc n) = bit_length (suc n)

-- `value.to_bytes(length, "big", signed=True)`: two's complement.
unfoldable pub to_signed_bytes : ℕ → ℤ → Bytes
unfolding to_bytes
to_signed_bytes k (pos n) = to_bytes k n
to_signed_bytes k (negsuc n) = to_bytes k (256 ^ k - suc n)

-- The test of the `while` loop: the first byte repeats the sign bit of the second.
unfoldable pub is_redundant : ℕ → ℕ → Bool
is_redundant a b = a == 0x00 && b / 128 % 2 == 0 || a == 0xff && b / 128 % 2 == 1

unfoldable pub strip_redundant : Bytes → Bytes
unfolding is_redundant
strip_redundant [] = []
strip_redundant (a ∷ []) = a ∷ []
strip_redundant (a ∷ b ∷ rest) =
    let shorter = strip_redundant (b ∷ rest) in if is_redundant a b then shorter else a ∷ b ∷ rest

unfoldable pub encode_signed_integer : ℤ → Bytes
unfolding bit_length_ℤ to_signed_bytes strip_redundant
encode_signed_integer (pos zero) = 0x00 ∷ []
encode_signed_integer value =
    strip_redundant (to_signed_bytes (max 1 ((bit_length_ℤ value + 8) / 8)) value)

unfoldable pub is_negative : Bytes → Bool
is_negative [] = false
is_negative (b ∷ rest) = leb 128 b

-- `int.from_bytes(content, "big", signed=True)`
unfoldable pub from_signed_bytes : Bytes → ℤ
unfolding is_negative from_bytes
from_signed_bytes content =
    if is_negative content
    then negsuc (256 ^ length content - from_bytes content - 1)
    else pos (from_bytes content)

unfoldable pub decode_signed_integer : Bytes → Result ℤ
unfolding from_signed_bytes
decode_signed_integer [] = err protocol_error
decode_signed_integer (b ∷ rest) = ok (from_signed_bytes (b ∷ rest))

-- `encoded[0] & 0x80`: a leading zero keeps the value unsigned.
unfoldable pub pad_unsigned : Bytes → Bytes
pad_unsigned [] = []
pad_unsigned (b ∷ rest) = if b / 128 % 2 == 1 then 0x00 ∷ b ∷ rest else b ∷ rest

unfoldable pub encode_unsigned_integer : ℤ → Result Bytes
unfolding pad_unsigned bit_length to_bytes
encode_unsigned_integer (negsuc n) = err protocol_error
encode_unsigned_integer (pos zero) = ok (0x00 ∷ [])
encode_unsigned_integer (pos (suc n)) =
    ok (pad_unsigned (to_bytes ((bit_length (suc n) + 7) / 8) (suc n)))

unfoldable pub decode_unsigned_integer : Bytes → Result ℤ
unfolding from_bytes
decode_unsigned_integer [] = err protocol_error
decode_unsigned_integer (b ∷ rest) = ok (pos (from_bytes (b ∷ rest)))
