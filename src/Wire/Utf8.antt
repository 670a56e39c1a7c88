-- ===== src/Wire/Utf8.antt =====
-- `text.encode("utf-8")` and `data.decode("utf-8")` of Python, as the codec of community strings and
-- user names calls them.
pub mod RoundTrip
use trishul_snmp.Prelude.{
  ℕ, zero, suc, ◌+◌, ◌-◌, ◌*◌, ◌/◌, ◌%◌, List, [], ◌∷◌, ◌++◌, Bool, ◌&&◌, not, Option, none, some,
  Result, ok, err, protocol_error, value_error, out_of_fuel, ◌>>=◌, ltb, leb, if◌then◌else◌, length,
}
use trishul_snmp.Types.{Text}
use trishul_snmp.Wire.Bytes.{Bytes}

abbrev is_surrogate : ℕ → Bool
is_surrogate c = leb 0xd800 c && ltb c 0xe000

-- A lone surrogate raises UnicodeEncodeError, which is a ValueError.
unfoldable pub encode_char : ℕ → Result Bytes
encode_char c =
    if ltb c 0x80
    then ok (c ∷ [])
    else if ltb c 0x800
    then ok ((0xc0 + c / 64) ∷ (0x80 + c % 64) ∷ [])
    else if is_surrogate c
    then err value_error
    else if ltb c 0x10000
    then ok ((0xe0 + c / 4096) ∷ (0x80 + c / 64 % 64) ∷ (0x80 + c % 64) ∷ [])
    else if ltb c 0x110000
    then ok
        ((0xf0 + c / 262144) ∷ (0x80 + c / 4096 % 64) ∷ (0x80 + c / 64 % 64) ∷ (0x80 + c % 64) ∷ [])
    else err value_error

unfoldable pub utf8_encode : Text → Result Bytes
unfolding encode_char
utf8_encode [] = ok []
utf8_encode (c ∷ text) = do first ← encode_char c; rest ← utf8_encode text; ok (first ++ rest)

abbrev is_continuation : ℕ → Bool
is_continuation b = leb 0x80 b && ltb b 0xc0

unfoldable pub two_bytes : ℕ → Bytes → Option (ℕ × Bytes)
two_bytes a (b ∷ rest) =
    if is_continuation b then some ((a - 0xc0) * 64 + (b - 0x80), rest) else none
two_bytes a _ = none

-- An overlong form and a surrogate are refused.
unfoldable pub three_bytes : ℕ → Bytes → Option (ℕ × Bytes)
three_bytes a (b ∷ c ∷ rest) =
    let v = (a - 0xe0) * 4096 + (b - 0x80) * 64 + (c - 0x80) in
    if is_continuation b && is_continuation c && leb 0x800 v && not (is_surrogate v)
    then some (v, rest)
    else none
three_bytes a _ = none

unfoldable pub four_bytes : ℕ → Bytes → Option (ℕ × Bytes)
four_bytes a (b ∷ c ∷ d ∷ rest) =
    let v = (a - 0xf0) * 262144 + (b - 0x80) * 4096 + (c - 0x80) * 64 + (d - 0x80) in
    if is_continuation b
      && is_continuation c
      && is_continuation d
      && leb 0x10000 v
      && ltb v 0x110000
    then some (v, rest)
    else none
four_bytes a _ = none

-- The next character and the bytes behind it.
unfoldable pub next_char : ℕ → Bytes → Option (ℕ × Bytes)
unfolding two_bytes three_bytes four_bytes
next_char a rest =
    if ltb a 0x80
    then some (a, rest)
    else if ltb a 0xc2
    then none
    else if ltb a 0xe0
    then two_bytes a rest
    else if ltb a 0xf0
    then three_bytes a rest
    else if ltb a 0xf5
    then four_bytes a rest
    else none

-- A character takes a byte at least. UnicodeDecodeError is raised anew as a ProtocolError.
unfoldable pub utf8_decode_loop : ℕ → Bytes → Result Text
unfolding next_char
utf8_decode_loop fuel [] = ok []
utf8_decode_loop zero (a ∷ bytes) = err out_of_fuel
utf8_decode_loop (suc fuel) (a ∷ bytes) = elim (next_char a bytes) [
  | none ↦ err protocol_error
  | some (c, rest) ↦ do text ← utf8_decode_loop fuel rest; ok (c ∷ text)
]

unfoldable pub utf8_decode : Bytes → Result Text
unfolding utf8_decode_loop
utf8_decode bytes = utf8_decode_loop (length bytes) bytes
