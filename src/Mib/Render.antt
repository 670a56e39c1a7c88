-- ===== src/Mib/Render.antt =====
-- trishul_snmp/mib/render.py and `to_display_string` of trishul_snmp/types.py: what is shown of
-- variable bindings.
use trishul_snmp.Prelude.{
  ℕ, suc, ◌/◌, ◌%◌, ◌+◌, List, [], ◌∷◌, ◌++◌, map, ℤ, pos, negsuc, Option, none, some, Bool, true,
  false, ◌&&◌, Result, ok, err, unknown_oid_error, ◌>>=◌, eq_ℤ, ltb, seq_eq, if◌then◌else◌, ◌-◌,
}
use trishul_snmp.Types.{
  Text, OidMatch, VarBind, SnmpValue, integer, octet_string, null, object_identifier, ip_address,
  counter32, gauge32, time_ticks, opaque, counter64, no_such_object, no_such_instance,
  end_of_mib_view,
}
use trishul_snmp.Wire.Bytes.{Bytes}
use trishul_snmp.Wire.Utf8.{utf8_decode}
use trishul_snmp.Wire.IpAddresses.{decimal}
use trishul_snmp.Wire.Pdus.{RawVarBind}
use trishul_snmp.Dict.{lookup}
use trishul_snmp.Mib.Json.{
  Json, string_json, int_json, bool_json, list_json, Fields, Items, item, no_items, get_field,
}
use trishul_snmp.Mib.Models.{MibNode, MibTypeRecord, MibModuleRecord}
use trishul_snmp.Mib.Names.{numbered, oid_to_string}
use trishul_snmp.Mib.Registry.{MibRegistry, or_else, lookup_oid, resolve_type}
use trishul_snmp.Mib.Display.{translate, display_symbolic_from_match}

-- `str(n)`
unfoldable pub integer_text : ℤ → Text
unfolding decimal
integer_text (pos n) = decimal n
integer_text (negsuc n) = b'-' ∷ decimal (suc n)

abbrev pub hex_digit : ℕ → ℕ
hex_digit n = if ltb n 10 then b'0' + n else b'a' + n - 10

-- `value.hex()`
unfoldable pub hex : Bytes → Text
hex [] = []
hex (b ∷ bytes) = hex_digit (b / 16) ∷ hex_digit (b % 16) ∷ hex bytes

-- `is_printable` is the method `isprintable` of a character.
module _ (is_printable : ℕ → Bool) where
  unfoldable pub all_printable : Text → Bool
  all_printable [] = true
  all_printable (c ∷ text) = is_printable c && all_printable text

  unfoldable pub octets_text : Bytes → Result Text → Text
  unfolding all_printable hex
  octets_text value (err e) = hex value
  octets_text value (ok decoded) = if all_printable decoded then decoded else hex value

  -- The empty byte string is decoded to the empty text.
  unfoldable pub to_display_string : SnmpValue → Text
  unfolding integer_text octets_text oid_to_string hex utf8_decode
  to_display_string (integer value) = integer_text value
  to_display_string (octet_string value) = octets_text value (utf8_decode value)
  to_display_string null = b'n' ∷ b'u' ∷ b'l' ∷ b'l' ∷ []
  to_display_string (object_identifier value) = oid_to_string value
  to_display_string (ip_address value) = value
  to_display_string (counter32 value) = integer_text value
  to_display_string (gauge32 value) = integer_text value
  to_display_string (time_ticks value) = integer_text value
  to_display_string (opaque value) = hex value
  to_display_string (counter64 value) = integer_text value
  to_display_string no_such_object =
      b'n' ∷ b'o' ∷ b'S' ∷ b'u' ∷ b'c' ∷ b'h' ∷ b'O' ∷ b'b' ∷ b'j' ∷ b'e' ∷ b'c' ∷ b't' ∷ []
  to_display_string no_such_instance =
      b'n' ∷ b'o' ∷ b'S' ∷ b'u' ∷ b'c' ∷ b'h' ∷ b'I' ∷ b'n' ∷ b's' ∷ b't' ∷ b'a' ∷ b'n' ∷ b'c'
      ∷ b'e' ∷ []
  to_display_string end_of_mib_view =
      b'e' ∷ b'n' ∷ b'd' ∷ b'O' ∷ b'f' ∷ b'M' ∷ b'i' ∷ b'b' ∷ b'V' ∷ b'i' ∷ b'e' ∷ b'w' ∷ []

abbrev pub json_is : ℤ → Json → Bool
json_is value (int_json n) = eq_ℤ n value
json_is value (bool_json b) = eq_ℤ (if b then pos 1 else pos 0) value
json_is value _ = false

-- The label of an item `[label, number]` with the number `value`.
unfoldable pub label_of_item : ℤ → Json → Option Text
label_of_item value (list_json (item (string_json label) (item number no_items))) =
    if json_is value number then some label else none
label_of_item value _ = none

unfoldable pub label_of_items : ℤ → Items → Option Text
unfolding label_of_item
label_of_items value no_items = none
label_of_items value (item x rest) = or_else (label_of_item value x) (label_of_items value rest)

unfoldable pub label_of_data : ℤ → Option Json → Option Text
unfolding label_of_items
label_of_data value (some (list_json items)) = label_of_items value items
label_of_data value _ = none

unfoldable pub is_enum : Option Json → Bool
unfolding seq_eq
is_enum (some (string_json kind)) = seq_eq kind (b'e' ∷ b'n' ∷ b'u' ∷ b'm' ∷ [])
is_enum _ = false

unfoldable pub enum_label_from_constraints : Option Fields → ℤ → Option Text
unfolding is_enum label_of_data get_field
enum_label_from_constraints none value = none
enum_label_from_constraints (some constraints) value =
    if is_enum (get_field (b'k' ∷ b'i' ∷ b'n' ∷ b'd' ∷ []) constraints)
    then label_of_data value (get_field (b'd' ∷ b'a' ∷ b't' ∷ b'a' ∷ []) constraints)
    else none

unfoldable pub node_of_module : Text → Option MibModuleRecord → Option MibNode
unfolding lookup
node_of_module symbol none = none
node_of_module symbol (some record') =
    or_else (lookup symbol record'.objects) (lookup symbol record'.notifications)

unfoldable pub resolve_match_node : MibRegistry → OidMatch → Option MibNode
unfolding node_of_module lookup
resolve_match_node s m = node_of_module m.symbol (lookup m.module_name s.modules)

unfoldable pub label_of_type : Option MibTypeRecord → ℤ → Option Text
unfolding enum_label_from_constraints
label_of_type none value = none
label_of_type (some record') value = enum_label_from_constraints record'.constraints value

unfoldable pub label_of_syntax : MibRegistry → Text → Option Text → ℤ → Option Text
unfolding resolve_type label_of_type
label_of_syntax s module_name none value = none
label_of_syntax s module_name (some syntax) value =
    label_of_type (resolve_type s module_name syntax) value

unfoldable pub label_of_node : MibRegistry → Text → Option MibNode → ℤ → Option Text
unfolding enum_label_from_constraints label_of_syntax
label_of_node s module_name none value = none
label_of_node s module_name (some node) value =
    or_else (enum_label_from_constraints node.constraints value)
      (label_of_syntax s module_name node.syntax value)

unfoldable pub resolve_enum_label : MibRegistry → OidMatch → ℤ → Option Text
unfolding resolve_match_node label_of_node
resolve_enum_label s m value = label_of_node s m.module_name (resolve_match_node s m) value

-- `f"{enum_label}({value})"`
unfoldable pub labelled : Option Text → ℤ → Text
unfolding integer_text
labelled none value = integer_text value
labelled (some label) value = label ++ (b'(' ∷ integer_text value ++ (b')' ∷ []))

-- `try: ... except UnknownOidError`
unfoldable pub unless_unknown {ℓ} : {A : Type ℓ} → A → Result A → Result A
unless_unknown other (err unknown_oid_error) = ok other
unless_unknown other r = r

unfoldable pub optional_match : Result OidMatch → Result (Option OidMatch)
optional_match (ok m) = ok (some m)
optional_match (err unknown_oid_error) = ok none
optional_match (err e) = err e

module _ (is_printable : ℕ → Bool) (s : MibRegistry) where
  unfoldable pub render_name : Option OidMatch → Option Text
  unfolding display_symbolic_from_match
  render_name none = none
  render_name (some m) = some (display_symbolic_from_match s m)

  unfoldable pub render_value : SnmpValue → Option OidMatch → Result Text
  unfolding translate unless_unknown to_display_string resolve_enum_label labelled
  render_value (object_identifier value) m =
      unless_unknown (to_display_string is_printable (object_identifier value))
        (translate s (numbered (map pos value)))
  render_value (integer value) (some m) = ok (labelled (resolve_enum_label s m value) value)
  render_value value m = ok (to_display_string is_printable value)

  unfoldable pub enrich_varbind : RawVarBind → Result VarBind
  unfolding lookup_oid optional_match render_name render_value
  enrich_varbind varbind = do
    m ← optional_match (lookup_oid s (numbered (map pos varbind.oid)))
    display_value ← render_value varbind.value m
    ok (record {
      oid = varbind.oid;
      value = varbind.value;
      resolved = m;
      display_name = render_name m;
      display_value = some display_value;
    })

  unfoldable pub enrich_each : List RawVarBind → Result (List VarBind)
  unfolding enrich_varbind
  enrich_each [] = ok []
  enrich_each (varbind ∷ rest) = do
    first ← enrich_varbind varbind
    later ← enrich_each rest
    ok (first ∷ later)

unfoldable pub plain_varbind : (ℕ → Bool) → RawVarBind → VarBind
unfolding to_display_string
plain_varbind is_printable varbind = record {
  oid = varbind.oid;
  value = varbind.value;
  resolved = none;
  display_name = none;
  display_value = some (to_display_string is_printable varbind.value);
}

-- A binding from the wire has nothing but its identifier and its value.
unfoldable pub enrich_varbinds :
    (ℕ → Bool) → Option MibRegistry → List RawVarBind → Result (List VarBind)
unfolding plain_varbind enrich_each
enrich_varbinds is_printable none varbinds = ok (map (plain_varbind is_printable) varbinds)
enrich_varbinds is_printable (some s) varbinds = enrich_each is_printable s varbinds
