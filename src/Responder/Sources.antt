-- ===== src/Responder/Sources.antt =====
-- trishul_snmp/responder/sources.py: the in-memory object source, and the interface that the
-- responder has to its source.
pub mod Invariant
pub mod Lookups
pub mod Refines
use trishul_snmp.Prelude.{
  ℕ, suc, ◌+◌, List, [], ◌∷◌, Bool, true, false, Option, none, some, Result, ok, err, key_error,
  ◌>>=◌, if◌then◌else◌, get_elem?,
}
use trishul_snmp.Types.{Oid, SnmpValue}
use trishul_snmp.Dict
use trishul_snmp.Dict.{Dict}
use trishul_snmp.Responder.Rules.{Environment, SimulationRule, get_value}
use trishul_snmp.Responder.Bisect.{bisect_right, insort, remove_first}

-- A rule is a shared object: its identity, a number, finds its state in the source's heap.
pub data ObjectValue : Type 0 where
  plain : SnmpValue → ObjectValue
  rule : ℕ → ObjectValue

-- `rules` is the state of the rule objects, and `reads` counts the readings of the environment.
pub record InMemoryObjectSource : Type 0 where
  pub values : Dict ObjectValue
  pub sorted_oids : List Oid
  pub rules : ℕ → SimulationRule
  pub reads : ℕ

abbrev pub update : (ℕ → SimulationRule) → ℕ → SimulationRule → ℕ → SimulationRule
update rules r new i = if trishul_snmp.Prelude.◌==◌ i r then new else rules i

-- The protocol `ResponderSource`: what the responder calls, with the source's state passed along.
pub record ResponderSource (S : Type 0) : Type 0 where
  pub lookup_exact : S → Oid → Result (S × Option SnmpValue)
  pub lookup_next : S → Oid → Result (S × Option (Oid × SnmpValue))

module _ (env : ℕ → Environment) where
  -- `stored.get_value() if isinstance(stored, SimulationRule) else stored`
  unfoldable pub read_stored :
      InMemoryObjectSource → ObjectValue → Result (InMemoryObjectSource × SnmpValue)
  unfolding get_value
  read_stored s (plain value) = ok (s, value)
  read_stored s (rule r) = do
    (value, after) ← get_value (env s.reads) (s.rules r)
    ok (record s { rules = update s.rules r after; reads = suc s.reads }, value)

  unfoldable pub lookup_exact :
      InMemoryObjectSource → Oid → Result (InMemoryObjectSource × Option SnmpValue)
  unfolding read_stored
  lookup_exact s oid = elim (Dict.lookup oid s.values) [
    | none ↦ ok (s, none)
    | some stored ↦ (do (s', value) ← read_stored s stored; ok (s', some value))
  ]

  -- The entry of `self._values` for a listed identifier, which is a KeyError if there is none.
  unfoldable pub read_listed :
      InMemoryObjectSource → Oid → Result (InMemoryObjectSource × Option (Oid × SnmpValue))
  unfolding read_stored
  read_listed s next_oid = elim (Dict.lookup next_oid s.values) [
    | none ↦ err key_error
    | some stored ↦ (do (s', value) ← read_stored s stored; ok (s', some (next_oid, value)))
  ]

  unfoldable pub lookup_next :
      InMemoryObjectSource → Oid → Result (InMemoryObjectSource × Option (Oid × SnmpValue))
  unfolding read_listed
  lookup_next s oid = elim (get_elem? s.sorted_oids (bisect_right s.sorted_oids oid)) [
    | none ↦ ok (s, none)
    | some next_oid ↦ read_listed s next_oid
  ]

  abbrev pub in_memory : ResponderSource InMemoryObjectSource
  in_memory = record { lookup_exact = lookup_exact; lookup_next = lookup_next }

-- The part of `set_object` behind the normalisation of the target.
unfoldable pub set_oid : InMemoryObjectSource → Oid → ObjectValue → InMemoryObjectSource
set_oid s oid value = record s {
  sorted_oids = if Dict.has oid s.values then s.sorted_oids else insort s.sorted_oids oid;
  values = Dict.insert oid value s.values;
}

unfoldable pub delete_oid : InMemoryObjectSource → Oid → InMemoryObjectSource × Bool
delete_oid s oid =
    if Dict.has oid s.values
    then (
      record s { values = Dict.delete oid s.values; sorted_oids = remove_first oid s.sorted_oids },
      true,
    )
    else (s, false)

unfoldable pub clear : InMemoryObjectSource → InMemoryObjectSource
clear s = record s { values = []; sorted_oids = [] }

-- `_normalize_target` is a parameter of these methods: `normalize_targets` of _runtime.py.
module _ {Target : Type 0} (normalize_target : Target → Result Oid) where
  unfoldable pub set_object :
      InMemoryObjectSource → Target → ObjectValue → Result (InMemoryObjectSource × Oid)
  unfolding set_oid
  set_object s target value = do oid ← normalize_target target; ok (set_oid s oid value, oid)

  -- What was set before a target that is refused stays set.
  unfoldable pub set_objects :
      InMemoryObjectSource → List (Target × ObjectValue) → InMemoryObjectSource × Result (List Oid)
  unfolding set_object
  set_objects s [] = (s, ok [])
  set_objects s ((target, value) ∷ objects) = elim (set_object s target value) [
    | err e ↦ (s, err e)
    | ok (s', oid) ↦
        let (s'', oids) = set_objects s' objects in (s'', (do rest ← oids; ok (oid ∷ rest)))
  ]

  unfoldable pub delete_object :
      InMemoryObjectSource → Target → Result (InMemoryObjectSource × Bool)
  unfolding delete_oid
  delete_object s target = do oid ← normalize_target target; ok (delete_oid s oid)

abbrev pub empty_source : (ℕ → SimulationRule) → InMemoryObjectSource
empty_source rules = record { values = []; sorted_oids = []; rules = rules; reads = 0 }
