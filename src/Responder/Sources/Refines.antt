-- ===== src/Responder/Sources/Refines.antt =====
-- The in-memory source against a map from identifiers to objects.
use trishul_snmp.Prelude.{
  List, [], ◌∷◌, ◌≡◌, ◌∙◌, refl, ap, Bool, true, Bool-cases, inl, inr, Option, none, some, arith,
  seq_eq, seq_eq_iff, if◌then◌else◌,
}
use trishul_snmp.Types.{Oid}
use trishul_snmp.Dict.{lookup, has, is_some, lookup-insert, lookup-delete}
use trishul_snmp.Responder.Sources.{InMemoryObjectSource, ObjectValue, set_oid, delete_oid, clear}
use trishul_snmp.Responder.Sources.Invariant.{
  IsValid, set_oid-IsValid, delete_oid-IsValid, clear-IsValid,
}

-- The changes of a source, with normalized targets.
pub data Command : Type 0 where
  set_command : Oid → ObjectValue → Command
  delete_command : Oid → Command
  clear_command : Command

-- The abstract view: what is stored under an identifier.
abbrev pub Objects : Type 0
Objects = Oid → Option ObjectValue

abbrev pub objects_of : InMemoryObjectSource → Objects
objects_of s oid = lookup oid s.values

-- The source after a command, and its answer: whether a deletion found an object.
unfoldable pub execute : Command → InMemoryObjectSource → InMemoryObjectSource × Bool
unfolding set_oid delete_oid clear
execute (set_command oid value) s = (set_oid s oid value, true)
execute (delete_command oid) s = delete_oid s oid
execute clear_command s = (clear s, true)

unfoldable pub run : List Command → InMemoryObjectSource → InMemoryObjectSource × List Bool
unfolding execute
run [] s = (s, [])
run (command ∷ commands) s =
    let (s', answer) = execute command s in
    let (s'', answers) = run commands s' in (s'', answer ∷ answers)

unfoldable pub act : Command → Objects → Objects × Bool
act (set_command oid value) m = ((λ j. if seq_eq j oid then some value else m j), true)
act (delete_command oid) m = ((λ j. if seq_eq j oid then none else m j), is_some (m oid))
act clear_command m = ((λ j. none), true)

unfoldable pub replay : List Command → Objects → Objects × List Bool
unfolding act
replay [] m = (m, [])
replay (command ∷ commands) m =
    let (m', answer) = act command m in
    let (m'', answers) = replay commands m' in (m'', answer ∷ answers)

execute-IsValid :
    (command : Command) (s : InMemoryObjectSource) → IsValid s → IsValid (execute command s).0
unfolding execute
execute-IsValid (set_command oid value) s v = set_oid-IsValid s oid value v
execute-IsValid (delete_command oid) s v = delete_oid-IsValid s oid v
execute-IsValid clear_command s v = clear-IsValid s

lookup-delete_oid :
    (s : InMemoryObjectSource) (k j : Oid)
    → (lookup j (delete_oid s k).0.values ≡ (if seq_eq j k then none else lookup j s.values))
      × ((delete_oid s k).1 ≡ has k s.values)
unfolding delete_oid has
lookup-delete_oid s k j = elim (Bool-cases (is_some (lookup k s.values))) [
  | inl old ↦ rw old (lookup-delete j k s.values, refl)
  | inr new ↦ rw new (ground (arith, seq_eq_iff j k), refl)
]

pair-eq :
    {A : Type 0} {B : Type 0} {a a' : A} {b b' : B}
    → a ≡ a'
    → b ≡ b'
    → ◌≡◌ {A = A × B} (a, b) (a', b')
pair-eq p q = λ i. (p i, q i)

execute-act :
    (command : Command) (s : InMemoryObjectSource)
    → ◌≡◌ {A = Objects × Bool}
        (objects_of (execute command s).0, (execute command s).1)
        (act command (objects_of s))
unfolding execute act clear set_oid lookup has
execute-act (set_command oid value) s = pair-eq (λ i j. lookup-insert j oid value s.values i) refl
execute-act (delete_command oid) s =
    pair-eq (λ i j. (lookup-delete_oid s oid j).0 i) (lookup-delete_oid s oid oid).1
execute-act clear_command s = refl

-- After any sequence of changes from a valid source, the source is valid, it stores under each
-- identifier what the map has there after the same changes, and its answers are the map's.
pub run-refines :
    (commands : List Command) (s : InMemoryObjectSource) (oid : Oid)
    → IsValid s
    → IsValid (run commands s).0
      × (lookup oid (run commands s).0.values ≡ (replay commands (objects_of s)).0 oid)
      × ((run commands s).1 ≡ (replay commands (objects_of s)).1)
unfolding run replay
run-refines [] s oid v = (v, refl, refl)
run-refines (command ∷ commands) s oid v =
    let s' = (execute command s).0 in
    let e = execute-act command s in
    let (v', objects, answers) = run-refines commands s' oid (execute-IsValid command s v) in
    let m : objects_of s' ≡ (act command (objects_of s)).0 = λ i. (e i).0 in
    let a : (execute command s).1 ≡ (act command (objects_of s)).1 = λ i. (e i).1 in
    (
      v',
      objects ∙ ap (λ (n : Objects). (replay commands n).0 oid) m,
      λ i. a i ∷ (answers ∙ ap (λ (n : Objects). (replay commands n).1) m) i,
    )
