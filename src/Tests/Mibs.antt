-- ===== src/Tests/Mibs.antt =====
-- A registry of one module with the object 1.3.6.1 and the table column 1.3.6.1.4.
use trishul_snmp.Prelude.{◌≡◌, refl, arith, [], ◌∷◌, ◌++◌, none, some, ok, seq_eq}
use trishul_snmp.Types.{Oid, Text, OidMatch}
use trishul_snmp.Dict.{Dict}
use trishul_snmp.Mib.Models.{MibNode, MibModuleRecord}
use trishul_snmp.Wire.IpAddresses.RoundTrip.{has_no_dot}
use trishul_snmp.Mib.Names.{named, oid_to_string, parse_oid}
use trishul_snmp.Mib.Names.RoundTrip.{parse_oid-oid_to_string}
use trishul_snmp.Mib.Names.Symbolic.{has_no_colon, resolve_symbolic-symbolic}
use trishul_snmp.Mib.Display.{symbolic}
use trishul_snmp.Mib.Registry.{
  resolve_node, resolve_symbolic, MibRegistry, new_registry, find_exact, lookup_arcs,
}
use trishul_snmp.Mib.Registry.Consistent.{new_registry-IsConsistent, find_exact-new_registry}
use trishul_snmp.Mib.Registry.Longest.{lookup_arcs-prefix, lookup_arcs-longest}

abbrev pub node : Text → Oid → MibNode
node name oid = record {
  module_name = b'M' ∷ [];
  name = name;
  oid = oid;
  class_name = b'c' ∷ [];
  object_type = b'o' ∷ [];
  nodetype = none;
  syntax = none;
  max_access = none;
  status = none;
  index = none;
  augments = none;
  description = none;
  members = none;
  constraints = none;
}

abbrev root : Oid
root = 1 ∷ 3 ∷ 6 ∷ 1 ∷ []

abbrev column : Oid
column = 1 ∷ 3 ∷ 6 ∷ 1 ∷ 4 ∷ []

abbrev modules : Dict MibModuleRecord
modules =
    (
      b'M' ∷ [],
      record {
        module_name = b'M' ∷ [];
        language = none;
        generated_by = [];
        generated_at = none;
        schema_version = none;
        producer_version = none;
        imports = [];
        objects = (b'r' ∷ [], node (b'r' ∷ []) root) ∷ (b'c' ∷ [], node (b'c' ∷ []) column) ∷ [];
        notifications = [];
        types = [];
        module_metadata = [];
      },
    )
    ∷ []

abbrev pub registry : MibRegistry
registry = new_registry modules []

abbrev instance_oid : Oid
instance_oid = 1 ∷ 3 ∷ 6 ∷ 1 ∷ 4 ∷ 9 ∷ 2 ∷ []

abbrev found : OidMatch
found = record {
  oid = instance_oid;
  module_name = b'M' ∷ [];
  symbol = b'c' ∷ [];
  matched_oid = column;
  suffix = 9 ∷ 2 ∷ [];
  class_name = some (b'c' ∷ []);
  object_type = some (b'o' ∷ []);
  nodetype = none;
}

lookup_run : lookup_arcs registry instance_oid ≡ ok found
unfolding lookup_arcs new_registry seq_eq
lookup_run = refl

find_exact-new_registry_example : (node (b'c' ∷ []) column).oid ≡ column
unfolding find_exact new_registry seq_eq
find_exact-new_registry_example =
    find_exact-new_registry modules column (node (b'c' ∷ []) column) refl

lookup_arcs-prefix_example :
    (found.oid ≡ instance_oid)
    × (found.matched_oid ++ found.suffix ≡ instance_oid)
    × (n : MibNode) × (find_exact registry column ≡ some n)
lookup_arcs-prefix_example =
    lookup_arcs-prefix registry instance_oid found (new_registry-IsConsistent modules) lookup_run

lookup_arcs-longest_example : find_exact registry (1 ∷ 3 ∷ 6 ∷ 1 ∷ 4 ∷ 9 ∷ []) ≡ none
lookup_arcs-longest_example =
    lookup_arcs-longest registry instance_oid found 6 (new_registry-IsConsistent modules) lookup_run
      (omega arith) (omega arith)

resolve_symbolic-symbolic_example : resolve_symbolic registry (symbolic found) ≡ ok instance_oid
unfolding resolve_node new_registry seq_eq has_no_colon has_no_dot
resolve_symbolic-symbolic_example =
    resolve_symbolic-symbolic registry instance_oid found (node (b'c' ∷ []) column)
      (new_registry-IsConsistent modules) lookup_run refl refl refl refl refl refl

parse_oid-oid_to_string_example :
    parse_oid (named (oid_to_string (1 ∷ 3 ∷ 255 ∷ []))) ≡ ok (1 ∷ 3 ∷ 255 ∷ [])
parse_oid-oid_to_string_example = parse_oid-oid_to_string 1 (3 ∷ 255 ∷ [])
