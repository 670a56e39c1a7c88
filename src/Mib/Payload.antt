-- ===== src/Mib/Payload.antt =====
-- trishul_snmp/mib/registry.py: the normalization of a module's JSON.
use trishul_snmp.Prelude.{
  List, [], ◌∷◌, Option, none, some, not, Result, ok, bundle_validation_error, ◌>>=◌, ◌>>◌,
  raise_if, seq_eq,
}
use trishul_snmp.Types.{Text}
use trishul_snmp.Dict.{Dict, insert}
use trishul_snmp.Mib.Keys
use trishul_snmp.Mib.Json.{Json, object_json, null_json, no_fields, entries_of, get_field}
use trishul_snmp.Mib.Fields.{
  require_object, require_list, require_string, optional_string, text_or, text_list,
  normalize_node_oid, normalize_index, normalize_constraints, normalize_member_refs,
}
use trishul_snmp.Mib.Models.{MibNode, MibTypeRecord, MibModuleRecord}

-- The record of the node `name`. The first checks come in the order of the source.
unfoldable pub normalize_node : Text → Option Text → Text → Json → Result MibNode
unfolding require_object normalize_node_oid require_string text_or normalize_index
    normalize_constraints optional_string normalize_member_refs get_field
normalize_node module_name default_nodetype name raw_node = do
  raw ← require_object raw_node
  oid ← normalize_node_oid (get_field Keys.oid_path raw) (get_field Keys.oid raw)
  object_type ← require_string raw Keys.object_type
  class_name ← require_string raw Keys.class_name
  index ← normalize_index (get_field Keys.index raw)
  constraints ← normalize_constraints (get_field Keys.constraints raw)
  syntax ← optional_string (get_field Keys.syntax raw)
  max_access ← optional_string (get_field Keys.max_access raw)
  status ← optional_string (get_field Keys.status raw)
  augments ← optional_string (get_field Keys.augments raw)
  description ← optional_string (get_field Keys.description raw)
  members ← normalize_member_refs (get_field Keys.members raw)
  ok (record {
    module_name = module_name;
    name = name;
    oid = oid;
    class_name = class_name;
    object_type = object_type;
    nodetype = text_or default_nodetype (get_field Keys.nodetype raw);
    syntax = syntax;
    max_access = max_access;
    status = status;
    index = index;
    augments = augments;
    description = description;
    members = members;
    constraints = constraints;
  })

-- The loop over the entries, which adds to `normalized`.
unfoldable pub normalize_nodes :
    Text → Option Text → List (Text × Json) → Dict MibNode → Result (Dict MibNode)
unfolding normalize_node insert
normalize_nodes module_name default_nodetype [] normalized = ok normalized
normalize_nodes module_name default_nodetype ((name, raw_node) ∷ rest) normalized = do
  node ← normalize_node module_name default_nodetype name raw_node
  normalize_nodes module_name default_nodetype rest (insert name node normalized)

unfoldable pub normalize_node_map : Text → Option Text → Json → Result (Dict MibNode)
unfolding require_object entries_of normalize_nodes
normalize_node_map module_name default_nodetype raw_nodes = do
  raw ← require_object raw_nodes
  normalize_nodes module_name default_nodetype (entries_of raw) []

unfoldable pub normalize_type : Text → Text → Json → Result MibTypeRecord
unfolding require_object normalize_constraints require_string optional_string get_field
normalize_type module_name name raw_type = do
  raw ← require_object raw_type
  constraints ← normalize_constraints (get_field Keys.constraints raw)
  class_name ← require_string raw Keys.class_name
  base_type ← optional_string (get_field Keys.base_type raw)
  display_hint ← optional_string (get_field Keys.display_hint raw)
  status ← optional_string (get_field Keys.status raw)
  ok (record {
    module_name = module_name;
    name = name;
    class_name = class_name;
    base_type = base_type;
    display_hint = display_hint;
    status = status;
    constraints = constraints;
  })

unfoldable pub normalize_types :
    Text → List (Text × Json) → Dict MibTypeRecord → Result (Dict MibTypeRecord)
unfolding normalize_type insert
normalize_types module_name [] normalized = ok normalized
normalize_types module_name ((name, raw_type) ∷ rest) normalized = do
  record' ← normalize_type module_name name raw_type
  normalize_types module_name rest (insert name record' normalized)

unfoldable pub normalize_type_map : Text → Json → Result (Dict MibTypeRecord)
unfolding require_object entries_of normalize_types
normalize_type_map module_name raw_types = do
  raw ← require_object raw_types
  normalize_types module_name (entries_of raw) []

unfoldable pub normalize_import_list :
    List (Text × Json) → Dict (List Text) → Result (Dict (List Text))
unfolding require_list text_list insert
normalize_import_list [] normalized = ok normalized
normalize_import_list ((module_name, raw_names) ∷ rest) normalized = do
  items ← require_list raw_names
  names ← text_list items
  normalize_import_list rest (insert module_name names normalized)

unfoldable pub normalize_imports : Json → Result (Dict (List Text))
unfolding require_object entries_of normalize_import_list
normalize_imports raw_imports = do
  raw ← require_object raw_imports
  normalize_import_list (entries_of raw) []

unfoldable pub normalize_module_metadata : Option Json → Result (List (Text × Json))
unfolding require_object entries_of
normalize_module_metadata none = ok []
normalize_module_metadata (some null_json) = ok []
normalize_module_metadata (some raw) = do fields ← require_object raw; ok (entries_of fields)

-- `payload.get(key, {})`
abbrev pub or_empty : Option Json → Json
or_empty none = object_json no_fields
or_empty (some raw) = raw

-- `_SUPPORTED_PRODUCER`
abbrev pub supported_producer : Text
supported_producer = b't' ∷ b'r' ∷ b'i' ∷ b's' ∷ b'h' ∷ b'u' ∷ b'l' ∷ b'-' ∷ b's' ∷ b'm' ∷ b'i' ∷ []

unfoldable pub validate_module_record : MibModuleRecord → Result (Unit {0})
unfolding seq_eq
validate_module_record record' =
    raise_if (not (seq_eq record'.generated_by supported_producer)) bundle_validation_error

abbrev notification_nodetype : Text
notification_nodetype =
    b'n' ∷ b'o' ∷ b't' ∷ b'i' ∷ b'f' ∷ b'i' ∷ b'c' ∷ b'a' ∷ b't' ∷ b'i' ∷ b'o' ∷ b'n' ∷ []

unfoldable pub normalize_module_payload : Json → Result MibModuleRecord
unfolding require_object require_string text_or normalize_imports normalize_node_map
    normalize_type_map normalize_module_metadata validate_module_record get_field
normalize_module_payload payload = do
  raw ← require_object payload
  module_name ← require_string raw Keys.module_name
  generated_by ← require_string raw Keys.generated_by
  imports ← normalize_imports (or_empty (get_field Keys.imports raw))
  objects ← normalize_node_map module_name none (or_empty (get_field Keys.objects raw))
  notifications ←
      normalize_node_map module_name (some notification_nodetype)
        (or_empty (get_field Keys.notifications raw))
  types ← normalize_type_map module_name (or_empty (get_field Keys.types raw))
  metadata ← normalize_module_metadata (get_field Keys.module_metadata raw)
  let record' : MibModuleRecord = record {
    module_name = module_name;
    language = text_or none (get_field Keys.language raw);
    generated_by = generated_by;
    generated_at = text_or none (get_field Keys.generated_at raw);
    schema_version = text_or none (get_field Keys.schema_version raw);
    producer_version = text_or none (get_field Keys.producer_version raw);
    imports = imports;
    objects = objects;
    notifications = notifications;
    types = types;
    module_metadata = metadata;
  }
  validate_module_record record'
  ok record'
