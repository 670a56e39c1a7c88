-- ===== src/Responder/Server/Bindings.antt =====
-- The bindings of a reply, described by what the source is asked for and what it returns.
pub mod Replied
use trishul_snmp.Prelude.{
  ℕ, zero, suc, ◌≡◌, refl, ap, arith, List, [], ◌∷◌, ◌++◌, ℤ, pos, Option, none, some, Result, ok,
  ◌⊎◌, inl, inr, ◌==◌, if◌then◌else◌, >>=-eq-ok, length, take, drop, min,
}
use trishul_snmp.Types.{Oid, SnmpValue, no_such_object, end_of_mib_view, is_end_of_mib_view}
use trishul_snmp.Wire.Pdus.{
  PduType, get, get_next, response, set, get_bulk, inform_request, snmpv2_trap, RawVarBind, Pdu,
}
use trishul_snmp.Responder.Sources.{ResponderSource}
use trishul_snmp.Responder.Server.{
  varbind, clamp, not_writable, response_pdu, oids_of, lookup_exact_varbind, lookup_next_varbind,
  map_varbinds, advance, repetition, repetitions, build_bulk_varbinds, answer, build_response_pdu,
}
use trishul_snmp.Responder.Server.Replies.{Answers, Answers-response_pdu}

-- From each state, one look at each identifier, from left to right, gives the bindings and the state
-- behind them.
pub data Each {S : Type 0} (Look : S → Oid → S → RawVarBind → Type 0)
    : S → List Oid → S → List RawVarBind → Type 0 where
  each_done : {s : S} → Each Look s [] s []
  each_more :
      {s s₁ s₂ : S} {oid : Oid} {oids : List Oid} {first : RawVarBind} {rest : List RawVarBind}
      → Look s oid s₁ first
      → Each Look s₁ oids s₂ rest
      → Each Look s (oid ∷ oids) s₂ (first ∷ rest)

-- The identifiers behind a repetition: those of the bindings, but where the view has ended.
unfoldable pub following : List Oid → List RawVarBind → List Oid
following (current ∷ oids) (next ∷ varbinds) =
    (if is_end_of_mib_view next.value then current else next.oid) ∷ following oids varbinds
following _ _ = []

module _ {S : Type 0} (source : ResponderSource S) where
  -- The value of the identifier, or noSuchObject where the source has none.
  abbrev pub IsExact : S → Oid → S → RawVarBind → Type 0
  IsExact s oid s' found =
      (found.oid ≡ oid)
      × ((source.lookup_exact s oid ≡ ok (s', some found.value))
          ⊎ ((source.lookup_exact s oid ≡ ok (s', none)) × (found.value ≡ no_such_object)))

  -- The next object and its value, or endOfMibView with the identifier where the source has none.
  abbrev pub IsNextOf : S → Oid → S → RawVarBind → Type 0
  IsNextOf s oid s' found =
      (source.lookup_next s oid ≡ ok (s', some (found.oid, found.value)))
      ⊎ ((source.lookup_next s oid ≡ ok (s', none)) × (found ≡ varbind oid end_of_mib_view))

  -- The repetitions of a GETBULK.
  pub data Rounds : ℕ → S → List Oid → S → List RawVarBind → Type 0 where
    rounds_done : {s : S} {oids : List Oid} → Rounds 0 s oids s []
    rounds_more :
        {n : ℕ} {s s₁ s₂ : S} {oids : List Oid} {first rest : List RawVarBind}
        → Each IsNextOf s oids s₁ first
        → Rounds n s₁ (following oids first) s₂ rest
        → Rounds (suc n) s oids s₂ (first ++ rest)

  -- What a reply holds, by the type of the request.
  pub Bindings : PduType → S → Pdu → S → Pdu → Type 0
  Bindings get s request s' reply =
      (reply.error_status ≡ pos 0)
      × (reply.error_index ≡ pos 0)
      × Each IsExact s (oids_of request) s' reply.varbinds
  Bindings get_next s request s' reply =
      (reply.error_status ≡ pos 0)
      × (reply.error_index ≡ pos 0)
      × Each IsNextOf s (oids_of request) s' reply.varbinds
  Bindings get_bulk s request s' reply =
      (reply.error_status ≡ pos 0)
      × (reply.error_index ≡ pos 0)
      × (s₁ : S) × (singles : List RawVarBind) × (repeated : List RawVarBind) × Each IsNextOf s
          (take (clamp request.error_status) (oids_of request)) s₁ singles
      × Rounds (clamp request.error_index) s₁ (drop (clamp request.error_status) (oids_of request))
          s' repeated
      × (reply.varbinds ≡ singles ++ repeated)
  Bindings set s request s' reply =
      (reply.error_status ≡ not_writable)
      × (reply.error_index ≡ (if length request.varbinds == 0 then pos 0 else pos 1))
      × (reply.varbinds ≡ request.varbinds)
      × (s' ≡ s)
  Bindings response s request s' reply = ⊥
  Bindings inform_request s request s' reply = ⊥
  Bindings snmpv2_trap s request s' reply = ⊥
