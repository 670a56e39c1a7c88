-- ===== src/Mib/Fields.antt =====
-- trishul_snmp/mib/registry.py: the validation of the fields of a module's JSON.
use trishul_snmp.Prelude.{
  List, [], ◌∷◌, pos, Option, none, some, not, Result, ok, err, bundle_validation_error, ◌>>=◌,
  ◌>>◌, raise_if, seq_eq, if◌then◌else◌,
}
use trishul_snmp.Types.{Oid, Text}
use trishul_snmp.Mib.Names.{parse_oid_text}
use trishul_snmp.Mib.Keys
use trishul_snmp.Mib.Json.{
  Json, null_json, bool_json, int_json, string_json, list_json, object_json, Fields, items_of,
  get_field,
}
use trishul_snmp.Mib.Models.{MibMemberRef}

-- `isinstance(x, dict)`, or the error.
unfoldable pub require_object : Json → Result Fields
require_object (object_json fields) = ok fields
require_object _ = err bundle_validation_error

unfoldable pub require_list : Json → Result (List Json)
unfolding items_of
require_list (list_json items) = ok (items_of items)
require_list _ = err bundle_validation_error

-- `isinstance(value, str) and value`
unfoldable pub require_text : Option Json → Result Text
require_text (some (string_json (c ∷ value))) = ok (c ∷ value)
require_text _ = err bundle_validation_error

unfoldable pub require_string : Fields → Text → Result Text
unfolding require_text get_field
require_string raw key = require_text (get_field key raw)

unfoldable pub optional_string : Option Json → Result (Option Text)
optional_string none = ok none
optional_string (some null_json) = ok none
optional_string (some (string_json value)) = ok (some value)
optional_string (some _) = err bundle_validation_error

-- `value if isinstance(value, str) else default`
unfoldable pub text_or : Option Text → Option Json → Option Text
text_or default' (some (string_json value)) = some value
text_or default' _ = default'

-- `all(isinstance(name, str) for name in names)`, and the tuple.
unfoldable pub text_list : List Json → Result (List Text)
text_list [] = ok []
text_list (string_json name ∷ rest) = do names ← text_list rest; ok (name ∷ names)
text_list (_ ∷ rest) = err bundle_validation_error

-- The arcs are integers from 0 on; a bool is an int in Python.
unfoldable pub arc_list : List Json → Result Oid
arc_list [] = ok []
arc_list (int_json (pos n) ∷ rest) = do oid ← arc_list rest; ok (n ∷ oid)
arc_list (bool_json b ∷ rest) = do oid ← arc_list rest; ok ((if b then 1 else 0) ∷ oid)
arc_list (_ ∷ rest) = err bundle_validation_error

unfoldable pub check_same : Oid → Option Json → Result (Unit {0})
unfolding parse_oid_text seq_eq
check_same oid (some (string_json value)) = do
  written ← parse_oid_text value
  raise_if (not (seq_eq written oid)) bundle_validation_error
check_same oid _ = ok tt

unfoldable pub oid_of_text : Option Json → Result Oid
unfolding parse_oid_text
oid_of_text (some (string_json value)) = parse_oid_text value
oid_of_text _ = err bundle_validation_error

unfoldable pub oid_of_path : Json → Option Json → Result Oid
unfolding require_list arc_list check_same
oid_of_path oid_path oid_value = do
  arcs ← require_list oid_path
  oid ← arc_list arcs
  check_same oid oid_value
  ok oid

unfoldable pub normalize_node_oid : Option Json → Option Json → Result Oid
unfolding oid_of_path oid_of_text
normalize_node_oid none oid_value = oid_of_text oid_value
normalize_node_oid (some null_json) oid_value = oid_of_text oid_value
normalize_node_oid (some oid_path) oid_value = oid_of_path oid_path oid_value

unfoldable pub normalize_index : Option Json → Result (Option (List Text))
unfolding require_list text_list
normalize_index none = ok none
normalize_index (some null_json) = ok none
normalize_index (some raw) = do items ← require_list raw; names ← text_list items; ok (some names)

unfoldable pub normalize_constraints : Option Json → Result (Option Fields)
unfolding require_object
normalize_constraints none = ok none
normalize_constraints (some null_json) = ok none
normalize_constraints (some raw) = do fields ← require_object raw; ok (some fields)

unfoldable pub member_refs : List Json → Result (List MibMemberRef)
unfolding require_object require_string
member_refs [] = ok []
member_refs (raw_member ∷ rest) = do
  fields ← require_object raw_member
  module_name ← require_string fields Keys.module_name
  object ← require_string fields Keys.object
  later ← member_refs rest
  ok (record { module_name = module_name; object = object } ∷ later)

unfoldable pub normalize_member_refs : Option Json → Result (Option (List MibMemberRef))
unfolding require_list member_refs
normalize_member_refs none = ok none
normalize_member_refs (some null_json) = ok none
normalize_member_refs (some raw_members) = do
  items ← require_list raw_members
  refs ← member_refs items
  ok (some refs)
