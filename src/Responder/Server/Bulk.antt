-- ===== src/Responder/Server/Bulk.antt =====
-- How many bindings a reply of the responder has.
use trishul_snmp.Prelude.{
  ℕ, zero, suc, ◌+◌, ◌-◌, ◌*◌, ◌≡◌, refl, ap, arith, List, [], ◌∷◌, ◌++◌, ℤ, Result, ok, >>=-eq-ok,
  length, length-append, length-map, length-take, length-drop, take, drop, min, map,
}
use trishul_snmp.Types.{Oid}
use trishul_snmp.Wire.Pdus.{RawVarBind}
use trishul_snmp.Responder.Sources.{ResponderSource}
use trishul_snmp.Responder.Server.{
  clamp, map_varbinds, lookup_next_varbind, advance, repetition, repetitions, build_bulk_varbinds,
}

module _ {S : Type 0} (source : ResponderSource S) where
  pub map_varbinds-length :
      (look : S → Oid → Result (S × RawVarBind)) (s : S) (oids : List Oid) (s' : S)
      (varbinds : List RawVarBind)
      → map_varbinds source look s oids ≡ ok (s', varbinds)
      → length varbinds ≡ length oids
  unfolding map_varbinds
  map_varbinds-length look s [] s' varbinds h = let e : varbinds ≡ [] = cc in rw e
  map_varbinds-length look s (oid ∷ oids) s' varbinds h =
      let ((s₁, first), e, h₁) = >>=-eq-ok (look s oid) _ h in
      let ((s₂, rest), e₂, h₂) = >>=-eq-ok (map_varbinds source look s₁ oids) _ h₁ in
      let same : varbinds ≡ first ∷ rest = cc in
      rw same (ap suc (map_varbinds-length look s₁ oids s₂ rest e₂))

  repetition-length :
      (s : S) (currents : List Oid) (s' : S) (varbinds : List RawVarBind) (oids : List Oid)
      → repetition source s currents ≡ ok (s', (varbinds, oids))
      → (length varbinds ≡ length currents) × (length oids ≡ length currents)
  unfolding repetition
  repetition-length s [] s' varbinds oids h =
      let e : varbinds ≡ [] = cc in let f : oids ≡ [] = cc in rw (e, f) (refl, refl)
  repetition-length s (current ∷ currents) s' varbinds oids h =
      let ((s₁, next), e, h₁) = >>=-eq-ok (lookup_next_varbind source s current) _ h in
      let ((s₂, (rest, others)), e₂, h₂) = >>=-eq-ok (repetition source s₁ currents) _ h₁ in
      let same : varbinds ≡ next ∷ rest = cc in
      let same' : oids ≡ advance source current next ∷ others = cc in
      let (l, k) = repetition-length s₁ currents s₂ rest others e₂ in
      rw (same, same') (ap suc l, ap suc k)

  repetitions-length :
      (n : ℕ) (s : S) (currents : List Oid) (s' : S) (varbinds : List RawVarBind)
      → repetitions source n s currents ≡ ok (s', varbinds)
      → length varbinds ≡ n * length currents
  unfolding repetitions
  repetitions-length zero s currents s' varbinds h =
      let e : varbinds ≡ [] = cc in rw e (omega arith)
  repetitions-length (suc n) s currents s' varbinds h =
      let ((s₁, (first, oids)), e, h₁) = >>=-eq-ok (repetition source s currents) _ h in
      let ((s₂, rest), e₂, h₂) = >>=-eq-ok (repetitions source n s₁ oids) _ h₁ in
      let same : varbinds ≡ first ++ rest = cc in
      let (l, k) = repetition-length s currents s₁ first oids e in
      let l₂ = repetitions-length n s₁ oids s₂ rest e₂ in
      rw (same, length-append first rest, l, l₂, k) (omega arith)

  -- A GETBULK that is answered has one binding for each non-repeater and `max_repetitions` for each
  -- other identifier of the request, where negative counts are 0 and there are no more
  -- non-repeaters than identifiers.
  pub build_bulk_varbinds-length :
      (s : S) (request_varbinds : List RawVarBind) (non_repeaters max_repetitions : ℤ) (s' : S)
      (varbinds : List RawVarBind)
      → build_bulk_varbinds source s request_varbinds non_repeaters max_repetitions
        ≡ ok (s', varbinds)
      → length varbinds
        ≡ min (clamp non_repeaters) (length request_varbinds)
          + clamp max_repetitions
            * (length request_varbinds - min (clamp non_repeaters) (length request_varbinds))
  unfolding build_bulk_varbinds
  build_bulk_varbinds-length s request_varbinds non_repeaters max_repetitions s' varbinds h =
      let oids = map (λ (v : RawVarBind). v.oid) request_varbinds in
      let split = min (clamp non_repeaters) (length oids) in
      let ((s₁, singles), e, h₁) =
        >>=-eq-ok (map_varbinds source (lookup_next_varbind source) s (take split oids)) _ h in
      let ((s₂, repeated), e₂, h₂) =
        >>=-eq-ok (repetitions source (clamp max_repetitions) s₁ (drop split oids)) _ h₁ in
      let same : varbinds ≡ singles ++ repeated = cc in
      let l = map_varbinds-length (lookup_next_varbind source) s (take split oids) s₁ singles e in
      let k = repetitions-length (clamp max_repetitions) s₁ (drop split oids) s₂ repeated e₂ in
      let m : length oids ≡ length request_varbinds = length-map _ request_varbinds in
      let t : length (take split oids) ≡ split = omega (arith, length-take split oids) in
      rw (same, length-append singles repeated, l, k, length-drop split oids, t, m) refl
