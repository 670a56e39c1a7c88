-- ===== src/Manager/Walk/Results.antt =====
-- What a walk returns.
use trishul_snmp.Prelude.{
  ℕ, zero, suc, ◌≡◌, refl, arith, List, [], ◌∷◌, ◌++◌, Bool, true, false, Option, Result, ok,
  >>=-eq-ok, seq_lt, seq_lt_trans, All, All-append, Bool-cases, inl, inr, ◌⊎◌,
}
use trishul_snmp.Types.{Oid, VarBind, Response, is_end_of_mib_view}
use trishul_snmp.Responder.Bisect.Sorted.{IsSorted}
use trishul_snmp.Manager.Walk.{
  WalkState, is_within_subtree, is_stale, append_result, consume, end_round, walk_loop,
  walk_subtree,
}

abbrev pub oids : List VarBind → List Oid
oids [] = []
oids (v ∷ vs) = v.oid ∷ oids vs

oids-append : (xs ys : List VarBind) → oids (xs ++ ys) ≡ oids xs ++ oids ys
oids-append [] ys = refl
oids-append (x ∷ xs) ys = rw (oids-append xs ys)

Below : Oid → List Oid → Type 0
Below x = All (λ y. seq_lt y x ≡ true)

Below-trans : (x y : Oid) (l : List Oid) → seq_lt x y ≡ true → Below x l → Below y l
unfolding Below
Below-trans x y [] h k = tt
Below-trans x y (z ∷ l) h k = (seq_lt_trans z x y k.0 h, Below-trans x y l h k.1)

IsSorted-append_last : (x : Oid) (l : List Oid) → IsSorted l → Below x l → IsSorted (l ++ x ∷ [])
unfolding Below
IsSorted-append_last x [] h k = (tt, tt)
IsSorted-append_last x (y ∷ l) h k =
    (All-append _ l (x ∷ []) h.0 (k.0, tt), IsSorted-append_last x l h.1 k.1)

-- The results so far: strictly ascending, inside the subtree, and below what is not stale.
record IsWalked (root : Oid) (s : WalkState) : Type 0 where
  sorted : IsSorted (oids s.results)
  below : (x : Oid) → is_stale s.last_oid x ≡ false → Below x (oids s.results)
  within : All (λ oid. is_within_subtree root oid ≡ true) (oids s.results)

append_result-IsWalked :
    (root : Oid) (s : WalkState) (v : VarBind)
    → is_within_subtree root v.oid ≡ true
    → is_stale s.last_oid v.oid ≡ false
    → IsWalked root s
    → IsWalked root (append_result s v)
unfolding append_result is_stale Below
append_result-IsWalked root s v inside fresh w = record {
  sorted =
      rw (oids-append s.results (v ∷ []))
        (IsSorted-append_last v.oid (oids s.results) w.sorted (w.below v.oid fresh));
  below = λ x h.
      let less : seq_lt v.oid x ≡ true = ground (arith, h) in
      rw (oids-append s.results (v ∷ [])) (
        All-append _ (oids s.results) (v.oid ∷ [])
          (Below-trans v.oid x (oids s.results) less (w.below v.oid fresh)) (less, tt));
  within =
      rw (oids-append s.results (v ∷ []))
        (All-append _ (oids s.results) (v.oid ∷ []) w.within (inside, tt));
}

consume-IsWalked :
    (root : Oid) (s : WalkState) (vs : List VarBind)
    → IsWalked root s
    → IsWalked root (consume root s vs).0
unfolding consume
consume-IsWalked root s [] w = w
consume-IsWalked root s (v ∷ vs) w = elim (Bool-cases (is_end_of_mib_view v.value)) [
  | inl e ↦ rw e w
  | inr e ↦ elim (Bool-cases (is_within_subtree root v.oid)) [
    | inl f ↦ elim (Bool-cases (is_stale s.last_oid v.oid)) [
      | inl g ↦ rw (e, f, g) w
      | inr g ↦
          rw (e, f, g)
            (consume-IsWalked root (append_result s v) vs (append_result-IsWalked root s v f g w))
    ]
    | inr f ↦ rw (e, f) w
  ]
]

module _ {W : Type 0} (request_fn : W → Oid → Option ℕ → Result (W × Response)) where
  end_round-cases :
      (vs : List VarBind) (w : W) (s : WalkState) (consumed : WalkState × Bool)
      (more : Result (W × List VarBind)) (w' : W) (results : List VarBind)
      → end_round request_fn vs w s consumed more ≡ ok (w', results)
      → (s.results ≡ results) ⊎ (consumed.0.results ≡ results) ⊎ (more ≡ ok (w', results))
  unfolding end_round
  end_round-cases [] w s consumed more w' results h = inl (cc)
  end_round-cases (v ∷ vs) w s (s', true) more w' results h = inr (inl (cc))
  end_round-cases (v ∷ vs) w s (s', false) more w' results h = inr (inr h)

  walk_loop_sound :
      (fuel : ℕ) (root : Oid) (repetitions : Option ℕ) (w : W) (s : WalkState) (w' : W)
      (results : List VarBind)
      → IsWalked root s
      → walk_loop request_fn fuel root repetitions w s ≡ ok (w', results)
      → IsSorted (oids results) × All (λ oid. is_within_subtree root oid ≡ true) (oids results)
  unfolding walk_loop
  walk_loop_sound zero root repetitions w s w' results i h = cc
  walk_loop_sound (suc fuel) root repetitions w s w' results i h =
      let ((w₁, response), e, h₁) = >>=-eq-ok (request_fn w s.current repetitions) _ h in
      let j = consume-IsWalked root s response.varbinds i in
      let consumed = consume root s response.varbinds in
      let more = walk_loop request_fn fuel root repetitions w₁ consumed.0 in
      elim (end_round-cases response.varbinds w₁ s consumed more w' results h₁) [
        | inl same ↦ rw (← same) (i.sorted, i.within)
        | inr (inl same) ↦ rw (← same) (j.sorted, j.within)
        | inr (inr rest) ↦ walk_loop_sound fuel root repetitions w₁ consumed.0 w' results j rest
      ]

  -- Whatever the agent answers, the identifiers that a walk returns are strictly ascending and all
  -- inside the subtree.
  pub walk_subtree_sound :
      (fuel : ℕ) (w : W) (root : Oid) (bulk : Bool) (max_repetitions : ℕ) (w' : W)
      (results : List VarBind)
      → walk_subtree request_fn fuel w root bulk max_repetitions ≡ ok (w', results)
      → IsSorted (oids results) × All (λ oid. is_within_subtree root oid ≡ true) (oids results)
  unfolding walk_subtree Below
  walk_subtree_sound fuel w root bulk max_repetitions w' results h =
      walk_loop_sound fuel root _ w _ w' results
        (record { sorted = tt; below = λ x k. tt; within = tt }) h
