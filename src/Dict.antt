-- ===== src/Dict.antt =====
-- Python's dict with keys that are tuples of numbers or texts. The program never shows the order of
-- the entries that the properties are about.
use trishul_snmp.Prelude.{
  ℕ, ◌≡◌, refl, arith, List, [], ◌∷◌, Bool, true, false, Option, none, some, seq_eq, seq_eq_iff,
  if◌then◌else◌,
}

abbrev pub Dict {ℓ} : Type ℓ → Type ℓ
Dict V = List (List ℕ × V)

module _ {ℓ} {V : Type ℓ} where
  -- `d.get(k)`
  unfoldable pub lookup : List ℕ → Dict V → Option V
  lookup k [] = none
  lookup k ((j, v) ∷ d) = let rest = lookup k d in if seq_eq k j then some v else rest

  -- `d[k] = v`
  unfoldable pub insert : List ℕ → V → Dict V → Dict V
  insert k v [] = (k, v) ∷ []
  insert k v ((j, w) ∷ d) =
      let rest = insert k v d in if seq_eq k j then (k, v) ∷ d else (j, w) ∷ rest

  -- `del d[k]`
  unfoldable pub delete : List ℕ → Dict V → Dict V
  delete k [] = []
  delete k ((j, w) ∷ d) = let rest = delete k d in if seq_eq k j then rest else (j, w) ∷ rest

  abbrev pub is_some : Option V → Bool
  is_some none = false
  is_some (some v) = true

  -- `k in d`
  unfoldable pub has : List ℕ → Dict V → Bool
  unfolding lookup
  has k d = is_some (lookup k d)

  pub lookup-insert :
      (j k : List ℕ) (v : V) (d : Dict V)
      → lookup j (insert k v d) ≡ (if seq_eq j k then some v else lookup j d)
  unfolding lookup insert
  lookup-insert j k v [] = refl
  lookup-insert j k v ((i, w) ∷ d) =
      ground (arith, seq_eq_iff k i, seq_eq_iff j k, seq_eq_iff j i, lookup-insert j k v d)

  pub lookup-delete :
      (j k : List ℕ) (d : Dict V)
      → lookup j (delete k d) ≡ (if seq_eq j k then none else lookup j d)
  unfolding lookup delete
  lookup-delete j k [] = ground arith
  lookup-delete j k ((i, w) ∷ d) =
      ground (arith, seq_eq_iff k i, seq_eq_iff j k, seq_eq_iff j i, lookup-delete j k d)
