-- ===== src/Mib/Names.antt =====
-- trishul_snmp/mib/registry.py: identifiers as text, dotted or symbolic, over ASCII texts.
pub mod Digits
pub mod RoundTrip
pub mod Symbolic
use trishul_snmp.Prelude.{
  ℕ, List, [], ◌∷◌, ◌++◌, map, ℤ, pos, negsuc, Option, none, some, Bool, true, false, not, ◌&&◌,
  ◌||◌, Result, ok, err, invalid_oid_error, unknown_symbol_error, ◌>>=◌, ◌>>◌, raise_if, require,
  ◌==◌, if◌then◌else◌,
}
use trishul_snmp.Types.{Oid, Text}
use trishul_snmp.Wire.IpAddresses.{split, join, is_digit, is_space, parse_int, decimal}

-- `value: str | Sequence[int]`
pub data Target : Type 0 where
  named : Text → Target
  numbered : List ℤ → Target

unfoldable pub oid_to_string : Oid → Text
unfolding join decimal
oid_to_string oid = join b'.' (map decimal oid)

abbrev pub is_blank : Text → Bool
is_blank [] = true
is_blank (c ∷ text) = false

-- `text.lstrip()`, and `text.strip()` with the spaces behind the text.
unfoldable pub strip_left : Text → Text
strip_left [] = []
strip_left (c ∷ text) = let rest = strip_left text in if is_space c then rest else c ∷ text

unfoldable pub strip_right : Text → Text
strip_right [] = []
strip_right (c ∷ text) =
    let rest = strip_right text in if is_blank rest && is_space c then [] else c ∷ rest

unfoldable pub strip : Text → Text
unfolding strip_left strip_right
strip text = strip_right (strip_left text)

-- `text.lstrip(".")`
unfoldable pub strip_dots : Text → Text
strip_dots [] = []
strip_dots (c ∷ text) = let rest = strip_dots text in if c == b'.' then rest else c ∷ text

-- `tuple(int(part) for part in parts)`, whose ValueError is raised anew as InvalidOidError.
unfoldable pub parse_arcs : List Text → Result (List ℤ)
unfolding parse_int
parse_arcs [] = ok []
parse_arcs (part ∷ parts) = do
  arc ← require (parse_int part) invalid_oid_error
  rest ← parse_arcs parts
  ok (arc ∷ rest)

-- The test for negative arcs.
unfoldable pub natural_arcs : List ℤ → Result Oid
natural_arcs [] = ok []
natural_arcs (negsuc n ∷ rest) = err invalid_oid_error
natural_arcs (pos n ∷ rest) = do oid ← natural_arcs rest; ok (n ∷ oid)

unfoldable pub parse_oid_text : Text → Result Oid
unfolding strip strip_dots split parse_arcs natural_arcs
parse_oid_text value = do
  raise_if (is_blank (strip value)) invalid_oid_error
  let dotted = strip_dots (strip value)
  raise_if (is_blank dotted) invalid_oid_error
  oid ← parse_arcs (split b'.' dotted)
  natural_arcs oid

unfoldable pub parse_oid : Target → Result Oid
unfolding parse_oid_text natural_arcs
parse_oid (named value) = parse_oid_text value
parse_oid (numbered []) = err invalid_oid_error
parse_oid (numbered (arc ∷ rest)) = natural_arcs (arc ∷ rest)

-- `part.isdigit()`, false on the empty text.
unfoldable pub all_digits : Text → Bool
all_digits [] = true
all_digits (c ∷ text) = is_digit c && all_digits text

unfoldable pub is_digits : Text → Bool
unfolding all_digits
is_digits part = not (is_blank part) && all_digits part

unfoldable pub all_numeric : List Text → Bool
unfolding is_digits
all_numeric [] = true
all_numeric (part ∷ parts) = is_digits part && all_numeric parts

unfoldable pub is_numeric_oid_text : Text → Bool
unfolding strip strip_dots split all_numeric
is_numeric_oid_text value =
    let dotted = strip_dots (strip value) in
    not (is_blank dotted) && all_numeric (split b'.' dotted)

abbrev pub cons_front : ℕ → Option (Text × Text) → Option (Text × Text)
cons_front c none = none
cons_front c (some (front, rest)) = some (c ∷ front, rest)

-- `text.partition("::")`, `none` if there is no separator.
unfoldable pub partition_colons : Text → Option (Text × Text)
partition_colons [] = none
partition_colons (c ∷ []) = none
partition_colons (c ∷ d ∷ text) =
    let later = partition_colons (d ∷ text) in
    if c == b':' && d == b':' then some ([], text) else cons_front c later

-- `text.split(".", 1)`, `none` if there is no dot.
unfoldable pub split_dot : Text → Option (Text × Text)
split_dot [] = none
split_dot (c ∷ text) =
    let later = split_dot text in if c == b'.' then some ([], text) else cons_front c later

unfoldable pub parse_suffixed : Text → Text → Text → Result (Text × (Text × Oid))
unfolding is_numeric_oid_text parse_oid_text
parse_suffixed module_name symbol suffix = do
  raise_if (is_blank symbol) unknown_symbol_error
  raise_if (is_blank suffix || not (is_numeric_oid_text suffix)) unknown_symbol_error
  oid ← parse_oid_text suffix
  ok (module_name, (symbol, oid))

-- Behind the test of the two parts.
unfoldable pub parse_remainder : Text → Text → Option (Text × Text) → Result (Text × (Text × Oid))
unfolding parse_suffixed
parse_remainder module_name remainder none = ok (module_name, (remainder, []))
parse_remainder module_name remainder (some (symbol, suffix)) =
    parse_suffixed module_name symbol suffix

unfoldable pub parse_symbolic_target : Text → Result (Text × (Text × Oid))
unfolding partition_colons split_dot parse_remainder
parse_symbolic_target target = do
  (module_name, remainder) ← require (partition_colons target) unknown_symbol_error
  raise_if (is_blank module_name || is_blank remainder) unknown_symbol_error
  parse_remainder module_name remainder (split_dot remainder)

-- `f"{module}::{symbol}"`
abbrev pub symbolic_name : Text → Text → Text
symbolic_name module_name symbol = module_name ++ (b':' ∷ b':' ∷ symbol)
