-- ===== src/Mib/Json.antt =====
-- What `json.load` returns, as trishul_snmp/mib/registry.py reads it.
use trishul_snmp.Prelude.{List, [], ◌∷◌, ℤ, Option, none, some, Bool, seq_eq, if◌then◌else◌}
use trishul_snmp.Types.{Text}

mutual
  pub data Json : Type 0 where
    null_json : Json
    bool_json : Bool → Json
    int_json : ℤ → Json
    float_json : Text → Json
    string_json : Text → Json
    list_json : Items → Json
    object_json : Fields → Json

  pub data Items : Type 0 where
    no_items : Items
    item : Json → Items → Items

  pub data Fields : Type 0 where
    no_fields : Fields
    field : Text → Json → Fields → Fields

-- The elements of a JSON list, and the entries of an object with its distinct keys.
unfoldable pub items_of : Items → List Json
items_of no_items = []
items_of (item x rest) = x ∷ items_of rest

unfoldable pub entries_of : Fields → List (Text × Json)
entries_of no_fields = []
entries_of (field key x rest) = (key, x) ∷ entries_of rest

-- `raw.get(key)`
unfoldable pub get_field : Text → Fields → Option Json
unfolding seq_eq
get_field key no_fields = none
get_field key (field name x rest) =
    let later = get_field key rest in if seq_eq key name then some x else later
