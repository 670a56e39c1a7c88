-- ===== src/Mib/Registry/Longest.antt =====
-- `lookup_oid` finds the longest known prefix.
use trishul_snmp.Prelude.{
  ℕ, zero, suc, ◌-◌, ◌≤◌, ◌<◌, [], ◌∷◌, ◌++◌, ◌≡◌, ◌∙◌, sym, ap, arith, none, some, Option-cases,
  ◌⊎◌, inl, inr, Result, ok, length, take, take-append-drop, take_of_le, length-take,
}
use mathlib.Core.Path.{subst}
use trishul_snmp.Types.{Oid, OidMatch}
use trishul_snmp.Mib.Models.{MibNode}
use trishul_snmp.Mib.Registry.{
  MibRegistry, find_exact, match_of, match_or, lookup_prefixes, lookup_arcs,
}
use trishul_snmp.Mib.Registry.Consistent.{IsConsistent}

-- `m` comes from the node found under the first `k` arcs, and no longer prefix of up to `n` arcs is
-- known.
abbrev Found : MibRegistry → Oid → ℕ → OidMatch → Type 0
Found s oid n m =
    (k : ℕ) × (node : MibNode) × (k ≤ n)
    × (find_exact s (take k oid) ≡ some node)
    × (match_of oid k node ≡ m)
    × ((j : ℕ) → k < j → j ≤ n → find_exact s (take j oid) ≡ none)

ok-inj : {A : Type 0} {a b : A} → ok a ≡ ok b → a ≡ b
ok-inj h = cc

le_cases : (j n : ℕ) → j ≤ suc n → (j ≤ n) ⊎ (j ≡ suc n)
le_cases j n h = ground arith

skipped :
    (s : MibRegistry) (oid : Oid) (n : ℕ) (m : OidMatch)
    → find_exact s (take (suc n) oid) ≡ none
    → Found s oid n m
    → Found s oid (suc n) m
skipped s oid n m e (k, node, le, found, same, unknown) = (
  k,
  node,
  omega arith,
  found,
  same,
  λ j lt le'. elim (le_cases j n le') [
    | inl less ↦ unknown j lt less
    | inr last ↦ ap (λ i. find_exact s (take i oid)) last ∙ e
  ],
)

match_or-Found :
    (s : MibRegistry) (oid : Oid) (n : ℕ) (m : OidMatch) (later : Result OidMatch) (node : MibNode)
    → find_exact s (take n oid) ≡ some node
    → match_or oid n (find_exact s (take n oid)) later ≡ ok m
    → Found s oid n m
unfolding match_or
match_or-Found s oid n m later node e h = (
  n,
  node,
  omega arith,
  e,
  ok-inj (sym (ap (λ o. match_or oid n o later) e) ∙ h),
  λ j lt le. absurd (omega arith),
)

prefixes-Found :
    (s : MibRegistry) (oid : Oid) (n : ℕ) (m : OidMatch)
    → lookup_prefixes s oid n ≡ ok m
    → Found s oid n m
unfolding lookup_prefixes match_or
prefixes-Found s oid zero m h = cc
prefixes-Found s oid (suc n) m h = elim (Option-cases (find_exact s (take (suc n) oid))) [
  | inr (node, e) ↦ match_or-Found s oid (suc n) m (lookup_prefixes s oid n) node e h
  | inl e ↦ skipped s oid n m e (
      prefixes-Found s oid n m
        (sym (ap (λ o. match_or oid (suc n) o (lookup_prefixes s oid n)) e) ∙ h))
]

widen :
    (s : MibRegistry) (oid : Oid) (m : OidMatch)
    → find_exact s (take (length oid) oid) ≡ none
    → Found s oid (length oid - 1) m
    → Found s oid (length oid) m
widen s [] m e found = found
widen s (arc ∷ rest) m e found =
    let same : suc (length rest) - 1 ≡ length rest = omega arith in
    skipped s (arc ∷ rest) (length rest) m e (subst (λ n. Found s (arc ∷ rest) n m) same found)

arcs-Found :
    (s : MibRegistry) (oid : Oid) (m : OidMatch)
    → lookup_arcs s oid ≡ ok m
    → Found s oid (length oid) m
unfolding lookup_arcs match_or
arcs-Found s oid m h =
    let whole = take_of_le (length oid) oid (omega arith) in
    elim (Option-cases (find_exact s oid)) [
      | inr (node, e) ↦
          match_or-Found s oid (length oid) m (lookup_prefixes s oid (length oid - 1)) node
            (ap (find_exact s) whole ∙ e)
            (ap
                (λ o.
                  match_or oid (length oid) (find_exact s o)
                    (lookup_prefixes s oid (length oid - 1)))
                whole
              ∙ h)
      | inl e ↦
          let rest =
            sym (ap (λ o. match_or oid (length oid) o (lookup_prefixes s oid (length oid - 1))) e)
            ∙ h in
          widen s oid m (ap (find_exact s) whole ∙ e) (prefixes-Found s oid (length oid - 1) m rest)
    ]

-- The matched identifier and the suffix of a match are together the identifier that was looked up,
-- and the first is known, if the registry finds each node under its own identifier.
pub lookup_arcs-prefix :
    (s : MibRegistry) (oid : Oid) (m : OidMatch)
    → IsConsistent s
    → lookup_arcs s oid ≡ ok m
    → (m.oid ≡ oid)
      × (m.matched_oid ++ m.suffix ≡ oid)
      × (node : MibNode) × (find_exact s m.matched_oid ≡ some node)
unfolding match_of
lookup_arcs-prefix s oid m consistent h =
    let (k, node, le, found, same, unknown) = arcs-Found s oid m h in
    let at = consistent (take k oid) node found in
    let matched = ap (λ (x : OidMatch). x.matched_oid) (sym same) ∙ at in
    let suffix = ap (λ (x : OidMatch). x.suffix) (sym same) in
    (
      ap (λ (x : OidMatch). x.oid) (sym same),
      rw (matched, suffix) (take-append-drop k oid),
      node,
      ap (find_exact s) matched ∙ found,
    )

-- No longer prefix of the identifier than the matched one is known, under the same condition.
pub lookup_arcs-longest :
    (s : MibRegistry) (oid : Oid) (m : OidMatch) (n : ℕ)
    → IsConsistent s
    → lookup_arcs s oid ≡ ok m
    → length m.matched_oid < n
    → n ≤ length oid
    → find_exact s (take n oid) ≡ none
unfolding match_of
lookup_arcs-longest s oid m n consistent h lt le =
    let (k, node, le_k, found, same, unknown) = arcs-Found s oid m h in
    let at = consistent (take k oid) node found in
    let matched : m.matched_oid ≡ take k oid =
      ap (λ (x : OidMatch). x.matched_oid) (sym same) ∙ at in
    let size = ap length matched in unknown n (omega (arith, size, length-take k oid)) le
