-- ===== src/Responder/Server/ReadOnly.antt =====
-- The responder over the in-memory source: its answers and its exceptions.
use trishul_snmp.Prelude.{◌⊎◌, Bool, true, false, err, Error, ℕ, ◌≡◌, some, Result, ok}
use trishul_snmp.Types.{Oid}
use trishul_snmp.Dict
use trishul_snmp.Wire.Pdus.{PduType, get, get_next, set, get_bulk, RawVarBind}
use trishul_snmp.Responder.Rules.{Environment, SimulationRule, get_value}
use trishul_snmp.Responder.Sources.{rule, InMemoryObjectSource}
use trishul_snmp.Responder.Sources.Invariant.{IsValid}

-- The same objects, whatever the state of the rules.
pub record SameObjects (s s' : InMemoryObjectSource) : Type 0 where
  pub values : s'.values ≡ s.values
  pub sorted_oids : s'.sorted_oids ≡ s.sorted_oids

-- The types of PDU that the responder answers.
unfoldable pub is_answered : PduType → Bool
is_answered get = true
is_answered get_next = true
is_answered get_bulk = true
is_answered set = true
is_answered _ = false

module _ (env : ℕ → Environment) where
  -- `e` is what `get_value` raises for a rule that is stored in `s`, in some state of it.
  abbrev pub RaisedByRule : InMemoryObjectSource → Error → Type 0
  RaisedByRule s e =
      (oid : Oid) × (r : ℕ) × (Dict.lookup oid s.values ≡ some (rule r))
      × (i : ℕ) × (state : SimulationRule) × (get_value (env i) state ≡ err e)

  -- `result` is a value with `P` and a source that still has the objects of `s`, or else what a rule
  -- of `s` raises.
  pub Outcome :
      {A : Type 0}
      → (A → Type 0)
      → InMemoryObjectSource
      → Result (InMemoryObjectSource × A)
      → Type 0
  Outcome {A = A} P s result =
      ((s' : InMemoryObjectSource) × (a : A) × (result ≡ ok (s', a)) × SameObjects s s' × P a)
      ⊎ ((e : Error) × (result ≡ err e) × RaisedByRule s e)

  -- No condition on the value.
  abbrev Any : {A : Type 0} → A → Type 0
  Any a = Unit {0}

  Reads : (InMemoryObjectSource → Oid → Result (InMemoryObjectSource × RawVarBind)) → Type 0
  Reads look = (s : InMemoryObjectSource) (oid : Oid) → IsValid s → Outcome Any s (look s oid)
