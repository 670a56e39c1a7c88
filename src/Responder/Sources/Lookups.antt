-- ===== src/Responder/Sources/Lookups.antt =====
-- What the lookups of an in-memory source return.
use trishul_snmp.Prelude.{
  suc, Option, Result, Error, err, ◌>>=◌, >>=-eq-ok, Result-cases, ℕ, ◌≡◌, refl, sym, ◌∙◌, ◌⊎◌,
  arith, true, false, ◌&&◌, none, some, ok, seq_lt, Option-cases, inl, inr, get_elem?,
}
use trishul_snmp.Types.{Oid, SnmpValue}
use trishul_snmp.Dict
use trishul_snmp.Dict.{Dict, has, is_some, lookup-insert, lookup-delete}
use trishul_snmp.Responder.Rules.{Environment, get_value}
use trishul_snmp.Responder.Bisect.{bisect_right}
use trishul_snmp.Responder.Bisect.Sorted.{next_above, next_above-IsNext, next_above-none}
use trishul_snmp.Responder.Bisect.Correct.{bisect_right-count_le, get_elem?-count_le}
use trishul_snmp.Responder.Sources.{
  ObjectValue, plain, rule, update, InMemoryObjectSource, read_stored, read_listed, lookup_next,
}
use trishul_snmp.Responder.Sources.Invariant.{IsValid}

-- `next` is the least stored identifier above `oid`.
pub record IsNextObject (s : InMemoryObjectSource) (oid next : Oid) : Type 0 where
  pub above : seq_lt oid next ≡ true
  pub stored : has next s.values ≡ true
  pub least : (p : Oid) → (has p s.values && (seq_lt oid p && seq_lt p next)) ≡ false

-- A value that is read, with its identifier.
abbrev pub with_oid :
    Oid
    → Result (InMemoryObjectSource × SnmpValue)
    → Result (InMemoryObjectSource × Option (Oid × SnmpValue))
with_oid next read = do (s, value) ← read; ok (s, some (next, value))

module _ (env : ℕ → Environment) (s : InMemoryObjectSource) where
  found :
      (oid : Oid)
      → IsValid s
      → get_elem? s.sorted_oids (bisect_right s.sorted_oids oid) ≡ next_above oid s.sorted_oids
  found oid v =
      rw (bisect_right-count_le s.sorted_oids oid v.sorted) (get_elem?-count_le oid s.sorted_oids)

  lookup_next-eq-none :
      (oid : Oid)
      → IsValid s
      → next_above oid s.sorted_oids ≡ none
      → lookup_next env s oid ≡ ok (s, none)
  unfolding lookup_next
  lookup_next-eq-none oid v e = rw (found oid v ∙ e, lookup_next) refl

  lookup_next-eq-some :
      (oid next : Oid) (stored : ObjectValue)
      → IsValid s
      → next_above oid s.sorted_oids ≡ some next
      → Dict.lookup next s.values ≡ some stored
      → lookup_next env s oid ≡ with_oid next (read_stored env s stored)
  unfolding lookup_next read_listed
  lookup_next-eq-some oid next stored v e f =
      rw (found oid v ∙ e, lookup_next) (rw (f, read_listed) refl)

  has-lookup :
      (oid : Oid)
      → has oid s.values ≡ true
      → (stored : ObjectValue) × (Dict.lookup oid s.values ≡ some stored)
  unfolding has
  has-lookup oid h = elim (Option-cases (Dict.lookup oid s.values)) [
    | inl e ↦ absurd (cc (rw e at h))
    | inr (stored, e) ↦ (stored, e)
  ]

  -- On a valid source `lookup_next` reads the least object above `oid`: it returns that identifier with
  -- the value read, or raises what the reading raises; or it returns nothing, and then there is no
  -- object above `oid`.
  pub lookup_next-least :
      (oid : Oid)
      → IsValid s
      → (lookup_next env s oid ≡ ok (s, none))
          × ((p : Oid) → (has p s.values && seq_lt oid p) ≡ false)
        ⊎ ((next : Oid) × (stored : ObjectValue) × IsNextObject s oid next
            × (Dict.lookup next s.values ≡ some stored)
            × (lookup_next env s oid ≡ with_oid next (read_stored env s stored)))
  lookup_next-least oid v = elim (Option-cases (next_above oid s.sorted_oids)) [
    | inl e ↦ inl (
      lookup_next-eq-none oid v e,
      λ p. ground (arith, v.listed p, next_above-none oid s.sorted_oids e p),
    )
    | inr (next, e) ↦
        let n = next_above-IsNext oid s.sorted_oids next v.sorted e in
        let (stored, f) = has-lookup next (sym (v.listed next) ∙ n.listed) in
        inr (
          next,
          stored,
          record {
            above = n.above;
            stored = sym (v.listed next) ∙ n.listed;
            least = λ p. ground (arith, v.listed p, n.least p);
          },
          f,
          lookup_next-eq-some oid next stored v e f,
        )
  ]

  -- A read changes no stored object and not the list, only the state of rules.
  pub read_stored-values :
      (stored : ObjectValue) (s' : InMemoryObjectSource) (value : SnmpValue)
      → read_stored env s stored ≡ ok (s', value)
      → (s'.values ≡ s.values) × (s'.sorted_oids ≡ s.sorted_oids)
  unfolding read_stored
  read_stored-values (plain v) s' value h = let e : s ≡ s' = cc in rw (← e) (refl, refl)
  read_stored-values (rule r) s' value h =
      let ((v, after), e, h₁) = >>=-eq-ok (get_value (env s.reads) (s.rules r)) _ h in
      let same : record s { rules = update s.rules r after; reads = suc s.reads } ≡ s' = cc in
      rw (← same) (refl, refl)

  -- Only a rule fails to be read, with the exception of its `get_value`.
  pub read_stored-raises :
      (stored : ObjectValue) (e : Error)
      → read_stored env s stored ≡ err e
      → (r : ℕ) × (stored ≡ rule r) × (get_value (env s.reads) (s.rules r) ≡ err e)
  unfolding read_stored
  read_stored-raises (plain v) e h = cc
  read_stored-raises (rule r) e h = elim (Result-cases (get_value (env s.reads) (s.rules r))) [
    | inl (a, f) ↦ absurd (cc (rw f at h))
    | inr (x, f) ↦ (r, refl, f ∙ cc (rw f at h))
  ]
