-- ===== src/Responder/Sources/Invariant.antt =====
-- The sorted list and the dict of an in-memory source always name the same objects.
use trishul_snmp.Prelude.{
  ◌≡◌, refl, ◌∙◌, arith, List, [], ◌∷◌, true, false, Result, ok, if◌then◌else◌, seq_eq, seq_eq_iff,
  Bool-cases, Result-cases, >>=-eq-ok, inl, inr,
}
use trishul_snmp.Types.{Oid}
use trishul_snmp.Dict
use trishul_snmp.Dict.{Dict, has, lookup-insert, lookup-delete}
use trishul_snmp.Responder.Bisect.Sorted.{
  IsSorted, member, insert_sorted-IsSorted, member-insert_sorted, member-remove_first,
  remove_first-IsSorted,
}
use trishul_snmp.Responder.Bisect.Correct.{insort-insert_sorted}
use trishul_snmp.Responder.Sources.{
  ObjectValue, InMemoryObjectSource, set_oid, delete_oid, clear, set_object, set_objects,
}

pub record IsValid (s : InMemoryObjectSource) : Type 0 where
  pub sorted : IsSorted s.sorted_oids
  pub listed : (oid : Oid) → member oid s.sorted_oids ≡ has oid s.values

has-insert :
    (j k : Oid) (v : ObjectValue) (d : Dict ObjectValue)
    → has j (Dict.insert k v d) ≡ (if seq_eq j k then true else has j d)
unfolding has
has-insert j k v d = ground (arith, lookup-insert j k v d)

has-delete :
    (j k : Oid) (d : Dict ObjectValue)
    → has j (Dict.delete k d) ≡ (if seq_eq j k then false else has j d)
unfolding has
has-delete j k d = ground (arith, lookup-delete j k d)

pub set_oid-IsValid :
    (s : InMemoryObjectSource) (oid : Oid) (value : ObjectValue)
    → IsValid s
    → IsValid (set_oid s oid value)
unfolding set_oid
set_oid-IsValid s oid value v = elim (Bool-cases (has oid s.values)) [
  | inl old ↦ rw old (record {
    sorted = v.sorted;
    listed = λ o. ground (arith, v.listed o, has-insert o oid value s.values, seq_eq_iff o oid);
  })
  | inr new ↦
      let e = insort-insert_sorted s.sorted_oids oid v.sorted in
      rw (new, e)
        (record {
          sorted = insert_sorted-IsSorted oid s.sorted_oids v.sorted (v.listed oid ∙ new);
          listed = λ o. ground (
            arith,
            v.listed o,
            has-insert o oid value s.values,
            member-insert_sorted o oid s.sorted_oids,
          );
        })
]

-- Deleting an object, stored or not, from a valid source leaves the list sorted and in step with the
-- dict.
pub delete_oid-IsValid :
    (s : InMemoryObjectSource) (oid : Oid) → IsValid s → IsValid (delete_oid s oid).0
unfolding delete_oid
delete_oid-IsValid s oid v = elim (Bool-cases (has oid s.values)) [
  | inl old ↦ rw old (record {
    sorted = remove_first-IsSorted oid s.sorted_oids v.sorted;
    listed = λ o. ground (
      arith,
      v.listed o,
      has-delete o oid s.values,
      member-remove_first o oid s.sorted_oids v.sorted,
    );
  })
  | inr new ↦ rw new v
]

pub clear-IsValid : (s : InMemoryObjectSource) → IsValid (clear s)
unfolding clear has member Dict.lookup
clear-IsValid s = record { sorted = tt; listed = λ o. refl }

module _ {Target : Type 0} (normalize_target : Target → Result Oid) where
  pub set_object-IsValid :
      (s : InMemoryObjectSource) (target : Target) (value : ObjectValue) (s' : InMemoryObjectSource)
      (oid : Oid)
      → IsValid s
      → set_object normalize_target s target value ≡ ok (s', oid)
      → IsValid s'
  unfolding set_object
  set_object-IsValid s target value s' oid v h =
      let (o, e, h') = >>=-eq-ok (normalize_target target) (λ o. ok (set_oid s o value, o)) h in
      let same : set_oid s o value ≡ s' = cc in rw (← same) (set_oid-IsValid s o value v)

  -- Whatever the targets, and whether or not one of them is refused on the way, setting objects
  -- leaves the list sorted and in step with the dict.
  pub set_objects-IsValid :
      (objects : List (Target × ObjectValue)) (s : InMemoryObjectSource)
      → IsValid s
      → IsValid (set_objects normalize_target s objects).0
  unfolding set_objects
  set_objects-IsValid [] s v = v
  set_objects-IsValid ((target, value) ∷ objects) s v =
      elim (Result-cases (set_object normalize_target s target value)) [
        | inl ((s', oid), e) ↦
            rw (e, set_objects)
              (set_objects-IsValid objects s' (set_object-IsValid s target value s' oid v e))
        | inr (x, e) ↦ rw (e, set_objects) v
      ]
