-- ===== src/Mib/Display.antt =====
-- trishul_snmp/mib/registry.py and trishul_snmp/types.py: symbolic names and translation.
use trishul_snmp.Prelude.{
  ℕ, ◌-◌, [], ◌∷◌, ◌++◌, Option, none, some, Bool, false, not, ◌&&◌, Result, ok, translation_error,
  ◌>>=◌, ◌>>◌, raise_if, seq_eq, ◌==◌, if◌then◌else◌, length, take, get_elem?,
}
use trishul_snmp.Types.{Oid, Text, OidMatch}
use trishul_snmp.Dict.{lookup, is_some}
use trishul_snmp.Mib.Models.{MibNode}
use trishul_snmp.Mib.Names.{
  Target, named, numbered, oid_to_string, is_blank, strip, is_numeric_oid_text, partition_colons,
  symbolic_name,
}
use trishul_snmp.Mib.Registry.{MibRegistry, resolve_symbolic, lookup_oid}

-- `OidMatch.symbolic`
unfoldable pub with_suffix : Text → Oid → Text
unfolding oid_to_string
with_suffix base [] = base
with_suffix base (arc ∷ suffix) = base ++ (b'.' ∷ oid_to_string (arc ∷ suffix))

unfoldable pub symbolic : OidMatch → Text
unfolding with_suffix
symbolic m = with_suffix (symbolic_name m.module_name m.symbol) m.suffix

unfoldable pub text_is : Text → Option Text → Bool
unfolding seq_eq
text_is expected none = false
text_is expected (some value) = seq_eq value expected

abbrev pub object_identifier_type : Text
object_identifier_type =
    b'O' ∷ b'B' ∷ b'J' ∷ b'E' ∷ b'C' ∷ b'T' ∷ b' ' ∷ b'I' ∷ b'D' ∷ b'E' ∷ b'N' ∷ b'T' ∷ b'I' ∷ b'F'
    ∷ b'I' ∷ b'E' ∷ b'R' ∷ []

abbrev pub object_type_type : Text
object_type_type = b'O' ∷ b'B' ∷ b'J' ∷ b'E' ∷ b'C' ∷ b'T' ∷ b'-' ∷ b'T' ∷ b'Y' ∷ b'P' ∷ b'E' ∷ []

abbrev pub scalar : Text
scalar = b's' ∷ b'c' ∷ b'a' ∷ b'l' ∷ b'a' ∷ b'r' ∷ []

abbrev pub is_zero : Option ℕ → Bool
is_zero none = false
is_zero (some n) = n == 0

-- The first test of `_display_match` fails: an exact match of an OBJECT IDENTIFIER that ends in 0.
unfoldable pub is_instance_like : OidMatch → Bool
unfolding text_is
is_instance_like m =
    is_blank m.suffix
    && text_is object_identifier_type m.object_type
    && is_zero (get_elem? m.oid (length m.oid - 1))

unfoldable pub is_scalar_node : MibNode → Bool
unfolding text_is seq_eq
is_scalar_node node = seq_eq node.object_type object_type_type && text_is scalar node.nodetype

-- The instance 0 of a scalar that is found as the parent.
unfoldable pub scalar_match : OidMatch → Option MibNode → OidMatch
unfolding is_scalar_node
scalar_match m none = m
scalar_match m (some parent) =
    if is_scalar_node parent
    then record {
      oid = m.oid;
      module_name = parent.module_name;
      symbol = parent.name;
      matched_oid = parent.oid;
      suffix = 0 ∷ [];
      class_name = some parent.class_name;
      object_type = some parent.object_type;
      nodetype = parent.nodetype;
    }
    else m

unfoldable pub display_match : MibRegistry → OidMatch → OidMatch
unfolding is_instance_like scalar_match lookup
display_match s m =
    if is_instance_like m
    then scalar_match m (lookup (take (length m.oid - 1) m.oid) s.exact_oid_index)
    else m

unfoldable pub display_symbolic_from_match : MibRegistry → OidMatch → Text
unfolding display_match symbolic
display_symbolic_from_match s m = symbolic (display_match s m)

unfoldable pub display_symbolic : MibRegistry → Target → Result Text
unfolding lookup_oid display_symbolic_from_match
display_symbolic s value = do m ← lookup_oid s value; ok (display_symbolic_from_match s m)

-- `isinstance(target, str) and not is_numeric_oid_text(target) and "::" in target`
unfoldable pub is_symbolic_text : Text → Bool
unfolding is_numeric_oid_text partition_colons
is_symbolic_text value = not (is_numeric_oid_text value) && is_some (partition_colons value)

unfoldable pub translate_text : MibRegistry → Text → Result Text
unfolding strip is_symbolic_text resolve_symbolic oid_to_string display_symbolic
translate_text s value = do
  raise_if (is_blank (strip value)) translation_error
  if is_symbolic_text value
      then (do oid ← resolve_symbolic s value; ok (oid_to_string oid))
      else display_symbolic s (named value)

unfoldable pub translate : MibRegistry → Target → Result Text
unfolding translate_text display_symbolic
translate s (named value) = translate_text s value
translate s (numbered arcs) = display_symbolic s (numbered arcs)
