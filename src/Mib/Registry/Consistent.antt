-- ===== src/Mib/Registry/Consistent.antt =====
-- The index by identifier of a registry that is built from modules.
use trishul_snmp.Prelude.{
  List, [], ◌∷◌, ◌≡◌, ◌∙◌, refl, sym, ap, some, Bool-cases, inl, inr, seq_eq, seq_eq_iff, if_true,
  if_false,
}
use trishul_snmp.Types.{Oid, Text}
use trishul_snmp.Dict.{Dict, lookup, insert, lookup-insert}
use trishul_snmp.Mib.Models.{MibNode, MibTypeRecord, MibModuleRecord, values, iter_nodes}
use trishul_snmp.Mib.Registry.{
  MibRegistry, pair_key, index_node, index_nodes, index_types, index_modules, new_registry,
  resolve_entry, lookup_exact_from_accelerator, find_exact,
}

-- A node is found under its own identifier.
abbrev pub IsKeyed : Dict MibNode → Type 0
IsKeyed d = (k : Oid) (node : MibNode) → lookup k d ≡ some node → node.oid ≡ k

-- Also through the accelerator.
abbrev pub IsConsistent : MibRegistry → Type 0
IsConsistent s = (k : Oid) (node : MibNode) → find_exact s k ≡ some node → node.oid ≡ k

some-inj : {A : Type 0} {a b : A} → some a ≡ some b → a ≡ b
some-inj h = cc

insert-IsKeyed : (d : Dict MibNode) (node : MibNode) → IsKeyed d → IsKeyed (insert node.oid node d)
insert-IsKeyed d node keyed k v h =
    let e = sym (lookup-insert k node.oid node d) ∙ h in
    elim (Bool-cases (seq_eq k node.oid)) [
      | inl t ↦
          let same = some-inj (if_true _ _ t e) in
          ap (λ (n : MibNode). n.oid) (sym same) ∙ sym ((seq_eq_iff k node.oid).0 t)
      | inr t ↦ keyed k v (if_false _ _ t e)
    ]

-- What indexing keeps: the index by identifier is keyed, and the accelerator is the same.
abbrev Keeps : MibRegistry → MibRegistry → Type 0
Keeps s t = IsKeyed t.exact_oid_index × (t.oid_index ≡ s.oid_index)

index_nodes-Keeps :
    (module_name : Text) (s : MibRegistry) (nodes : List MibNode)
    → IsKeyed s.exact_oid_index
    → Keeps s (index_nodes module_name s nodes)
unfolding index_nodes index_node
index_nodes-Keeps module_name s [] keyed = (keyed, refl)
index_nodes-Keeps module_name s (node ∷ nodes) keyed =
    index_nodes-Keeps module_name (index_node module_name s node) nodes
      (insert-IsKeyed s.exact_oid_index node keyed)

index_types-Keeps :
    (module_name : Text) (s : MibRegistry) (records : List MibTypeRecord)
    → IsKeyed s.exact_oid_index
    → Keeps s (index_types module_name s records)
unfolding index_types
index_types-Keeps module_name s [] keyed = (keyed, refl)
index_types-Keeps module_name s (r ∷ records) keyed =
    index_types-Keeps module_name
      (record s { type_index = insert (pair_key module_name r.name) r s.type_index }) records keyed

index_modules-Keeps :
    (s : MibRegistry) (records : List MibModuleRecord)
    → IsKeyed s.exact_oid_index
    → Keeps s (index_modules s records)
unfolding index_modules
index_modules-Keeps s [] keyed = (keyed, refl)
index_modules-Keeps s (r ∷ records) keyed =
    let nodes = index_nodes r.module_name s (iter_nodes r) in
    let (keyed₁, same₁) = index_nodes-Keeps r.module_name s (iter_nodes r) keyed in
    let (keyed₂, same₂) = index_types-Keeps r.module_name nodes (values r.types) keyed₁ in
    let (keyed₃, same₃) =
      index_modules-Keeps (index_types r.module_name nodes (values r.types)) records keyed₂ in
    (keyed₃, same₃ ∙ same₂ ∙ same₁)

without_accelerator :
    (s : MibRegistry) → s.oid_index ≡ [] → IsKeyed s.exact_oid_index → IsConsistent s
unfolding find_exact lookup_exact_from_accelerator resolve_entry lookup
without_accelerator s empty keyed k node h = keyed k node (rw empty at h)

pub new_registry-IsConsistent :
    (modules : Dict MibModuleRecord) → IsConsistent (new_registry modules [])
unfolding new_registry lookup
new_registry-IsConsistent modules =
    let start : MibRegistry = record {
      modules = modules;
      symbol_index = [];
      exact_oid_index = [];
      type_index = [];
      oid_index = [];
    } in
    let (keyed, same) = index_modules-Keeps start (values modules) (λ k node h. cc) in
    without_accelerator (index_modules start (values modules)) same keyed

-- In a registry that is built from modules without an accelerator, what is found under an identifier
-- is a node of that identifier.
pub find_exact-new_registry :
    (modules : Dict MibModuleRecord) (k : Oid) (node : MibNode)
    → find_exact (new_registry modules []) k ≡ some node
    → node.oid ≡ k
find_exact-new_registry modules k node h = new_registry-IsConsistent modules k node h
