-- ===== src/Mib/Registry.antt =====
-- trishul_snmp/mib/registry.py: the indexes over the loaded modules.
pub mod Consistent
pub mod Longest
use trishul_snmp.Prelude.{
  ℕ, zero, suc, ◌-◌, List, [], ◌∷◌, ◌++◌, Option, none, some, Bool, false, ◌||◌, Result, ok, err,
  unknown_symbol_error, unknown_oid_error, ◌>>=◌, require, seq_eq, if◌then◌else◌, length, take,
  drop,
}
use trishul_snmp.Types.{Oid, Text, OidMatch}
use trishul_snmp.Dict.{Dict, lookup, insert}
use trishul_snmp.Mib.Models.{MibNode, MibTypeRecord, MibModuleRecord, values, iter_nodes}
use trishul_snmp.Mib.Names.{Target, parse_oid, parse_symbolic_target}

-- The key of the pair of a module and a symbol: the length of the first part keeps pairs apart.
abbrev pub pair_key : Text → Text → List ℕ
pair_key module_name symbol = length module_name ∷ module_name ++ symbol

pub record OidIndexEntry : Type 0 where
  pub module_name : Text
  pub symbol : Text

pub record MibRegistry : Type 0 where
  pub modules : Dict MibModuleRecord
  pub symbol_index : Dict MibNode
  pub exact_oid_index : Dict MibNode
  pub type_index : Dict MibTypeRecord
  pub oid_index : Dict OidIndexEntry

unfoldable pub index_node : Text → MibRegistry → MibNode → MibRegistry
unfolding insert
index_node module_name s node = record s {
  symbol_index = insert (pair_key module_name node.name) node s.symbol_index;
  exact_oid_index = insert node.oid node s.exact_oid_index;
}

unfoldable pub index_nodes : Text → MibRegistry → List MibNode → MibRegistry
unfolding index_node
index_nodes module_name s [] = s
index_nodes module_name s (node ∷ nodes) =
    index_nodes module_name (index_node module_name s node) nodes

unfoldable pub index_types : Text → MibRegistry → List MibTypeRecord → MibRegistry
unfolding insert
index_types module_name s [] = s
index_types module_name s (record' ∷ rest) =
    index_types module_name
      (record s { type_index = insert (pair_key module_name record'.name) record' s.type_index })
      rest

unfoldable pub index_modules : MibRegistry → List MibModuleRecord → MibRegistry
unfolding index_nodes index_types values iter_nodes
index_modules s [] = s
index_modules s (record' ∷ rest) =
    let nodes = index_nodes record'.module_name s (iter_nodes record') in
    index_modules (index_types record'.module_name nodes (values record'.types)) rest

-- `MibRegistry.__init__`
unfoldable pub new_registry : Dict MibModuleRecord → Dict OidIndexEntry → MibRegistry
unfolding index_modules values
new_registry modules oid_index =
    index_modules
      (record {
        modules = modules;
        symbol_index = [];
        exact_oid_index = [];
        type_index = [];
        oid_index = oid_index;
      })
      (values modules)

unfoldable pub resolve_node : MibRegistry → Text → Text → Option MibNode
unfolding lookup
resolve_node s module_name symbol = lookup (pair_key module_name symbol) s.symbol_index

unfoldable pub resolve_symbolic : MibRegistry → Text → Result Oid
unfolding parse_symbolic_target resolve_node
resolve_symbolic s target = do
  (module_name, (symbol, suffix)) ← parse_symbolic_target target
  node ← require (resolve_node s module_name symbol) unknown_symbol_error
  ok (node.oid ++ suffix)

unfoldable pub resolve_entry : MibRegistry → Option OidIndexEntry → Option MibNode
unfolding resolve_node
resolve_entry s none = none
resolve_entry s (some entry) = resolve_node s entry.module_name entry.symbol

unfoldable pub lookup_exact_from_accelerator : MibRegistry → Oid → Option MibNode
unfolding lookup resolve_entry
lookup_exact_from_accelerator s oid = resolve_entry s (lookup oid s.oid_index)

abbrev pub or_else {ℓ} : {A : Type ℓ} → Option A → Option A → Option A
or_else none other = other
or_else (some a) other = some a

-- The accelerator first, then the index.
unfoldable pub find_exact : MibRegistry → Oid → Option MibNode
unfolding lookup_exact_from_accelerator lookup
find_exact s oid = or_else (lookup_exact_from_accelerator s oid) (lookup oid s.exact_oid_index)

unfoldable pub match_of : Oid → ℕ → MibNode → OidMatch
match_of oid prefix_len node = record {
  oid = oid;
  module_name = node.module_name;
  symbol = node.name;
  matched_oid = node.oid;
  suffix = drop prefix_len oid;
  class_name = some node.class_name;
  object_type = some node.object_type;
  nodetype = node.nodetype;
}

unfoldable pub match_or : Oid → ℕ → Option MibNode → Result OidMatch → Result OidMatch
unfolding match_of
match_or oid prefix_len none later = later
match_or oid prefix_len (some node) later = ok (match_of oid prefix_len node)

-- The prefixes of `n` arcs and fewer, down to one.
unfoldable pub lookup_prefixes : MibRegistry → Oid → ℕ → Result OidMatch
unfolding find_exact match_or
lookup_prefixes s oid zero = err unknown_oid_error
lookup_prefixes s oid (suc n) =
    match_or oid (suc n) (find_exact s (take (suc n) oid)) (lookup_prefixes s oid n)

-- `lookup_oid` behind `parse_oid`. The exact match has the empty suffix.
unfoldable pub lookup_arcs : MibRegistry → Oid → Result OidMatch
unfolding find_exact match_or lookup_prefixes
lookup_arcs s oid =
    match_or oid (length oid) (find_exact s oid) (lookup_prefixes s oid (length oid - 1))

unfoldable pub lookup_oid : MibRegistry → Target → Result OidMatch
unfolding parse_oid lookup_arcs
lookup_oid s value = do oid ← parse_oid value; lookup_arcs s oid

-- The type `type_name` of the first import that lists it.
unfoldable pub names_type : Text → List Text → Bool
unfolding seq_eq
names_type type_name [] = false
names_type type_name (name ∷ names) = seq_eq type_name name || names_type type_name names

unfoldable pub imported_type : MibRegistry → Text → Dict (List Text) → Option MibTypeRecord
unfolding names_type lookup
imported_type s type_name [] = none
imported_type s type_name ((imported_module, names) ∷ rest) =
    let later = imported_type s type_name rest in
    if names_type type_name names
    then lookup (pair_key imported_module type_name) s.type_index
    else later

unfoldable pub type_from_imports :
    MibRegistry → Text → Option MibModuleRecord → Option MibTypeRecord
unfolding imported_type
type_from_imports s type_name none = none
type_from_imports s type_name (some record') = imported_type s type_name record'.imports

unfoldable pub resolve_type : MibRegistry → Text → Text → Option MibTypeRecord
unfolding lookup type_from_imports
resolve_type s module_name type_name =
    or_else (lookup (pair_key module_name type_name) s.type_index)
      (type_from_imports s type_name (lookup module_name s.modules))
