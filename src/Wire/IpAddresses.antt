-- ===== src/Wire/IpAddresses.antt =====
-- The IpAddress contents of trishul_snmp/wire/asn1.py: dotted text to four octets and back, with
-- the parts of `str.split`, `str.join`, `int` and `str` that they use, over ASCII texts.
pub mod RoundTrip
use trishul_snmp.Prelude.{
  ℕ, zero, suc, ◌+◌, ◌-◌, ◌*◌, ◌/◌, ◌%◌, List, [], ◌∷◌, ◌++◌, map, ℤ, pos, negsuc, Option, none,
  some, Bool, true, false, ◌&&◌, ◌||◌, Result, ok, err, protocol_error, value_error, ◌>>=◌, ◌>>◌,
  raise_if, ltb, leb, ◌==◌, if◌then◌else◌, length, not,
}
use trishul_snmp.Types.{Text}
use trishul_snmp.Wire.Bytes.{Bytes}

-- `text.split(sep)`, at a separator of one character.
unfoldable pub cons_first : ℕ → List Text → List Text
cons_first c [] = (c ∷ []) ∷ []
cons_first c (part ∷ parts) = (c ∷ part) ∷ parts

unfoldable pub split : ℕ → Text → List Text
unfolding cons_first
split sep [] = [] ∷ []
split sep (c ∷ text) =
    let parts = split sep text in if c == sep then [] ∷ parts else cons_first c parts

-- `sep.join(parts)`
unfoldable pub join : ℕ → List Text → Text
join sep [] = []
join sep (part ∷ []) = part
join sep (part ∷ next ∷ parts) = part ++ (sep ∷ join sep (next ∷ parts))

abbrev pub is_digit : ℕ → Bool
is_digit c = leb b'0' c && leb c b'9'

-- The ASCII characters that `int` strips.
abbrev pub is_space : ℕ → Bool
is_space c = c == 32 || leb 9 c && leb c 13 || leb 28 c && leb c 31

unfoldable pub all_space : Text → Bool
all_space [] = true
all_space (c ∷ text) = is_space c && all_space text

-- The digits of `int(text)`: single underscores may stand between digits, spaces behind them.
unfoldable pub parse_digits : ℕ → Bool → Text → Option ℕ
unfolding all_space
parse_digits value seen [] = if seen then some value else none
parse_digits value seen (c ∷ text) =
    let digit = parse_digits (value * 10 + (c - b'0')) true text in
    let underscore = parse_digits value false text in
    if is_digit c
    then digit
    else if seen && c == b'_'
    then underscore
    else if seen && all_space (c ∷ text)
    then some value
    else none

abbrev pub negate : ℕ → ℤ
negate zero = pos 0
negate (suc n) = negsuc n

unfoldable pub parse_sign : Text → Option ℤ
unfolding parse_digits
parse_sign [] = none
parse_sign (c ∷ text) =
    if c == b'-'
    then elim (parse_digits 0 false text) [ none ↦ none | some n ↦ some (negate n) ]
    else elim (parse_digits 0 false (if c == b'+' then text else c ∷ text)) [
      | none ↦ none
      | some n ↦ some (pos n)
    ]

-- `int(text)`; `none` is its ValueError.
unfoldable pub parse_int : Text → Option ℤ
unfolding parse_sign
parse_int [] = none
parse_int (c ∷ text) =
    let rest = parse_int text in if is_space c then rest else parse_sign (c ∷ text)

-- `str(n)`: the digits of `n`, and `n + 1` rounds are enough.
unfoldable pub decimal_loop : ℕ → ℕ → Text
decimal_loop zero n = []
decimal_loop (suc fuel) n =
    let front = decimal_loop fuel (n / 10) in
    if ltb n 10 then (b'0' + n) ∷ [] else front ++ (b'0' + n % 10) ∷ []

unfoldable pub decimal : ℕ → Text
unfolding decimal_loop
decimal n = decimal_loop (suc n) n

-- `[int(part) for part in parts]`, whose ValueError is raised anew as a ProtocolError.
unfoldable pub parse_octets : List Text → Result (List ℤ)
unfolding parse_int
parse_octets [] = ok []
parse_octets (part ∷ parts) = elim (parse_int part) [
  | none ↦ err protocol_error
  | some octet ↦ do octets ← parse_octets parts; ok (octet ∷ octets)
]

-- The range test of every octet, and `bytes(octets)`.
unfoldable pub octet_bytes : List ℤ → Result Bytes
octet_bytes [] = ok []
octet_bytes (negsuc n ∷ octets) = err protocol_error
octet_bytes (pos n ∷ octets) =
    if ltb 255 n then err protocol_error else do bs ← octet_bytes octets; ok (n ∷ bs)

unfoldable pub encode_ip_address : Text → Result Bytes
unfolding split parse_octets octet_bytes
encode_ip_address value = do
  let parts = split b'.' value
  raise_if (not (length parts == 4)) protocol_error
  octets ← parse_octets parts
  octet_bytes octets

unfoldable pub decode_ip_address : Bytes → Result Text
unfolding join decimal
decode_ip_address content = do
  raise_if (not (length content == 4)) protocol_error
  ok (join b'.' (map decimal content))
