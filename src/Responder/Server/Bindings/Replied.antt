-- ===== src/Responder/Server/Bindings/Replied.antt =====
-- The replies of `V2cResponder` against the relations of their bindings.
use trishul_snmp.Prelude.{
  ℕ, zero, suc, ◌≡◌, refl, ap, arith, List, [], ◌∷◌, ◌++◌, ℤ, pos, Option, none, some, Result, ok,
  inl, inr, ◌==◌, if◌then◌else◌, >>=-eq-ok, length, take, drop, min,
}
use trishul_snmp.Types.{Oid, SnmpValue, no_such_object, end_of_mib_view}
use trishul_snmp.Wire.Pdus.{
  PduType, get, get_next, response, set, get_bulk, inform_request, snmpv2_trap, RawVarBind, Pdu,
}
use trishul_snmp.Responder.Sources.{ResponderSource}
use trishul_snmp.Responder.Server.{
  varbind, clamp, not_writable, response_pdu, oids_of, lookup_exact_varbind, lookup_next_varbind,
  map_varbinds, advance, repetition, repetitions, build_bulk_varbinds, answer, build_response_pdu,
}
use trishul_snmp.Responder.Server.Bindings.{
  Each, each_done, each_more, following, IsExact, IsNextOf, Rounds, rounds_done, rounds_more,
  Bindings,
}
use trishul_snmp.Responder.Server.Replies.{Answers, Answers-response_pdu}

cut-min :
    (k : ℕ) (l : List Oid)
    → (take (min k (length l)) l ≡ take k l) × (drop (min k (length l)) l ≡ drop k l)
cut-min zero l = let e : min 0 (length l) ≡ 0 = omega arith in rw e (refl, refl)
cut-min (suc k) [] = let e : min (suc k) 0 ≡ 0 = omega arith in rw e (refl, refl)
cut-min (suc k) (x ∷ xs) =
    let e : min (suc k) (suc (length xs)) ≡ suc (min k (length xs)) = omega arith in
    let (t, d) = cut-min k xs in rw e (ap (◌∷◌ x) t, d)

module _ {S : Type 0} (source : ResponderSource S) where
  found_value :
      (s : S) (oid : Oid) (s' : S) (found : RawVarBind) (s₁ : S) (o : Option SnmpValue)
      → source.lookup_exact s oid ≡ ok (s₁, o)
      → ◌≡◌ {A = Result (S × RawVarBind)}
          (ok (s₁, elim o [ none ↦ varbind oid no_such_object | some value ↦ varbind oid value ]))
          (ok (s', found))
      → IsExact source s oid s' found
  found_value s oid s' found s₁ none e h =
      let a : s₁ ≡ s' = cc in
      let b : varbind oid no_such_object ≡ found = cc in rw (← a, ← b) (refl, inr (e, refl))
  found_value s oid s' found s₁ (some value) e h =
      let a : s₁ ≡ s' = cc in let b : varbind oid value ≡ found = cc in rw (← a, ← b) (refl, inl e)

  found_object :
      (s : S) (oid : Oid) (s' : S) (found : RawVarBind) (s₁ : S) (o : Option (Oid × SnmpValue))
      → source.lookup_next s oid ≡ ok (s₁, o)
      → ◌≡◌ {A = Result (S × RawVarBind)}
          (ok (
            s₁,
            elim o [ none ↦ varbind oid end_of_mib_view | some match' ↦ varbind match'.0 match'.1 ],
          ))
          (ok (s', found))
      → IsNextOf source s oid s' found
  found_object s oid s' found s₁ none e h =
      let a : s₁ ≡ s' = cc in
      let b : varbind oid end_of_mib_view ≡ found = cc in rw (← a, ← b) (inr (e, refl))
  found_object s oid s' found s₁ (some (next, value)) e h =
      let a : s₁ ≡ s' = cc in let b : varbind next value ≡ found = cc in rw (← a, ← b) (inl e)

  lookup_exact_varbind-IsExact :
      (s : S) (oid : Oid) (s' : S) (found : RawVarBind)
      → lookup_exact_varbind source s oid ≡ ok (s', found)
      → IsExact source s oid s' found
  unfolding lookup_exact_varbind
  lookup_exact_varbind-IsExact s oid s' found h =
      let ((s₁, o), e, h₁) = >>=-eq-ok (source.lookup_exact s oid) _ h in
      found_value s oid s' found s₁ o e h₁

  lookup_next_varbind-IsNextOf :
      (s : S) (oid : Oid) (s' : S) (found : RawVarBind)
      → lookup_next_varbind source s oid ≡ ok (s', found)
      → IsNextOf source s oid s' found
  unfolding lookup_next_varbind
  lookup_next_varbind-IsNextOf s oid s' found h =
      let ((s₁, o), e, h₁) = >>=-eq-ok (source.lookup_next s oid) _ h in
      found_object s oid s' found s₁ o e h₁

  map_varbinds-Each :
      (Look : S → Oid → S → RawVarBind → Type 0) (look : S → Oid → Result (S × RawVarBind))
      (known : (s : S) (oid : Oid) (s' : S) (v : RawVarBind)
        → look s oid ≡ ok (s', v)
        → Look s oid s' v)
      (s : S) (oids : List Oid) (s' : S) (varbinds : List RawVarBind)
      → map_varbinds source look s oids ≡ ok (s', varbinds)
      → Each Look s oids s' varbinds
  unfolding map_varbinds
  map_varbinds-Each Look look known s [] s' varbinds h =
      let a : s' ≡ s = cc in let b : varbinds ≡ [] = cc in rw (a, b) each_done
  map_varbinds-Each Look look known s (oid ∷ oids) s' varbinds h =
      let ((s₁, first), e, h₁) = >>=-eq-ok (look s oid) _ h in
      let ((s₂, rest), e₂, h₂) = >>=-eq-ok (map_varbinds source look s₁ oids) _ h₁ in
      let a : s' ≡ s₂ = cc in
      let b : varbinds ≡ first ∷ rest = cc in
      rw (a, b)
        (each_more (known s oid s₁ first e) (map_varbinds-Each Look look known s₁ oids s₂ rest e₂))

  repetition-Each :
      (s : S) (currents : List Oid) (s' : S) (varbinds : List RawVarBind) (oids : List Oid)
      → repetition source s currents ≡ ok (s', (varbinds, oids))
      → Each (IsNextOf source) s currents s' varbinds × (oids ≡ following currents varbinds)
  unfolding repetition following advance
  repetition-Each s [] s' varbinds oids h =
      let a : s' ≡ s = cc in
      let b : varbinds ≡ [] = cc in let c : oids ≡ [] = cc in rw (a, b, c) (each_done, refl)
  repetition-Each s (current ∷ currents) s' varbinds oids h =
      let ((s₁, next), e, h₁) = >>=-eq-ok (lookup_next_varbind source s current) _ h in
      let ((s₂, (rest, others)), e₂, h₂) = >>=-eq-ok (repetition source s₁ currents) _ h₁ in
      let a : s' ≡ s₂ = cc in
      let b : varbinds ≡ next ∷ rest = cc in
      let c : oids ≡ advance source current next ∷ others = cc in
      let (each, same) = repetition-Each s₁ currents s₂ rest others e₂ in
      rw (a, b, c)
        (
          each_more (lookup_next_varbind-IsNextOf s current s₁ next e) each,
          ap (◌∷◌ (advance source current next)) same,
        )

  repetitions-Rounds :
      (n : ℕ) (s : S) (currents : List Oid) (s' : S) (varbinds : List RawVarBind)
      → repetitions source n s currents ≡ ok (s', varbinds)
      → Rounds source n s currents s' varbinds
  unfolding repetitions
  repetitions-Rounds zero s currents s' varbinds h =
      let a : s' ≡ s = cc in let b : varbinds ≡ [] = cc in rw (a, b) rounds_done
  repetitions-Rounds (suc n) s currents s' varbinds h =
      let ((s₁, (first, oids)), e, h₁) = >>=-eq-ok (repetition source s currents) _ h in
      let ((s₂, rest), e₂, h₂) = >>=-eq-ok (repetitions source n s₁ oids) _ h₁ in
      let a : s' ≡ s₂ = cc in
      let b : varbinds ≡ first ++ rest = cc in
      let (each, same) = repetition-Each s currents s₁ first oids e in
      let later = repetitions-Rounds n s₁ oids s₂ rest e₂ in
      rw (a, b) (rounds_more each (rw (← same) later))

  bulk-Rounds :
      (s : S) (request : Pdu) (s' : S) (varbinds : List RawVarBind)
      → build_bulk_varbinds source s request.varbinds request.error_status request.error_index
        ≡ ok (s', varbinds)
      → (s₁ : S) × (singles : List RawVarBind) × (repeated : List RawVarBind) × Each
          (IsNextOf source)
          s
          (take (clamp request.error_status) (oids_of request))
          s₁
          singles
        × Rounds source
            (clamp request.error_index)
            s₁
            (drop (clamp request.error_status) (oids_of request))
            s'
            repeated
        × (varbinds ≡ singles ++ repeated)
  unfolding build_bulk_varbinds
  bulk-Rounds s request s' varbinds h =
      let oids = oids_of request in
      let split = min (clamp request.error_status) (length oids) in
      let ((s₁, singles), e, h₁) =
        >>=-eq-ok (map_varbinds source (lookup_next_varbind source) s (take split oids)) _ h in
      let ((s₂, repeated), e₂, h₂) =
        >>=-eq-ok (repetitions source (clamp request.error_index) s₁ (drop split oids)) _ h₁ in
      let a : s' ≡ s₂ = cc in
      let b : varbinds ≡ singles ++ repeated = cc in
      let (t, d) = cut-min (clamp request.error_status) oids in
      let each =
        map_varbinds-Each (IsNextOf source) _ lookup_next_varbind-IsNextOf s (take split oids) s₁
          singles e in
      let rounds =
        repetitions-Rounds (clamp request.error_index) s₁ (drop split oids) s₂ repeated e₂ in
      rw a (s₁, singles, repeated, rw (← t) each, rw (← d) rounds, b)

  set_index :
      (varbinds : List RawVarBind)
      → ◌≡◌ {A = ℤ}
          (elim varbinds [ [] ↦ pos 0 | _ ∷ _ ↦ pos 1 ])
          (if length varbinds == 0 then pos 0 else pos 1)
  set_index [] = refl
  set_index (v ∷ vs) = ground arith

  answer-Bindings :
      (t : PduType) (s : S) (request : Pdu) (s' : S) (reply : Pdu)
      → answer source t s request ≡ ok (s', some reply)
      → Answers request reply × Bindings source t s request s' reply
  unfolding answer Bindings response_pdu build_bulk_varbinds
  answer-Bindings get s request s' reply h =
      let ((s₁, varbinds), e, h₁) =
        >>=-eq-ok (map_varbinds source (lookup_exact_varbind source) s (oids_of request)) _ h in
      let a : s' ≡ s₁ = cc in
      let b : reply ≡ response_pdu request varbinds (pos 0) (pos 0) = cc in
      let each =
        map_varbinds-Each (IsExact source) _ lookup_exact_varbind-IsExact s (oids_of request) s₁
          varbinds e in
      rw (a, b) (Answers-response_pdu source request _ _ _, (refl, refl, each))
  answer-Bindings get_next s request s' reply h =
      let ((s₁, varbinds), e, h₁) =
        >>=-eq-ok (map_varbinds source (lookup_next_varbind source) s (oids_of request)) _ h in
      let a : s' ≡ s₁ = cc in
      let b : reply ≡ response_pdu request varbinds (pos 0) (pos 0) = cc in
      let each =
        map_varbinds-Each (IsNextOf source) _ lookup_next_varbind-IsNextOf s (oids_of request) s₁
          varbinds e in
      rw (a, b) (Answers-response_pdu source request _ _ _, (refl, refl, each))
  answer-Bindings get_bulk s request s' reply h =
      let ((s₂, varbinds), e, h₁) =
        >>=-eq-ok
          (build_bulk_varbinds source s request.varbinds request.error_status request.error_index) _
          h in
      let a : s' ≡ s₂ = cc in
      let b : reply ≡ response_pdu request varbinds (pos 0) (pos 0) = cc in
      let (s₁, singles, repeated, each, rounds, f) = bulk-Rounds s request s₂ varbinds e in
      rw (a, b)
        (
          Answers-response_pdu source request _ _ _,
          (refl, refl, s₁, singles, repeated, each, rounds, f),
        )
  answer-Bindings set s request s' reply h =
      let index : ℤ = elim request.varbinds [ [] ↦ pos 0 | _ ∷ _ ↦ pos 1 ] in
      let a : s' ≡ s = cc in
      let b : reply ≡ response_pdu request request.varbinds not_writable index = cc in
      rw (a, b)
        (Answers-response_pdu source request _ _ _, (refl, set_index request.varbinds, refl, refl))
  answer-Bindings response s request s' reply h = cc
  answer-Bindings inform_request s request s' reply h = cc
  answer-Bindings snmpv2_trap s request s' reply h = cc

  -- A reply is a RESPONSE with the request's id, to a GET, GETNEXT, GETBULK or SET. To a GET it holds,
  -- without an error, for each identifier in order the value that the source has there, or
  -- noSuchObject; to a GETNEXT the source's next object, or endOfMibView; to a GETBULK the same for the
  -- first `error_status` identifiers, and then `error_index` repetitions over the others, each from
  -- where the last one came to (a negative number is 0). To a SET it has the status notWritable, the
  -- index 1, or 0 if there is no binding, and the request's bindings, and the source stays as it is.
  pub build_response_pdu-Bindings :
      (s : S) (request : Pdu) (s' : S) (reply : Pdu)
      → build_response_pdu source s request ≡ ok (s', some reply)
      → Answers request reply × Bindings source request.pdu_type s request s' reply
  unfolding build_response_pdu
  build_response_pdu-Bindings s request s' reply h =
      answer-Bindings request.pdu_type s request s' reply h
