-- ===== src/Manager/Walk/Termination.antt =====
-- A walk of an agent with finitely many objects comes to an end.
use trishul_snmp.Prelude.{
  ℕ, zero, suc, ◌+◌, ◌≤◌, ◌<◌, ◌≡◌, refl, arith, List, [], ◌∷◌, Bool, true, false, Option, none,
  some, Result, ok, Ends, Ends-bind, length, seq_lt_trans, seq_lt_irrefl, seq_eq, seq_eq_iff, All,
  Bool-cases, inl, inr, if◌then◌else◌,
}
use trishul_snmp.Types.{Oid, VarBind, Response, is_end_of_mib_view}
use trishul_snmp.Responder.Bisect.Sorted.{member}
use trishul_snmp.Manager.Walk.{
  WalkState, is_within_subtree, is_stale, append_result, consume, end_round, walk_loop,
  walk_subtree,
}

-- How many of the agent's identifiers are still above the last one.
remaining : Option Oid → List Oid → ℕ
remaining last [] = 0
remaining last (oid ∷ oids) =
    let rest = remaining last oids in if is_stale last oid then rest else suc rest

remaining-le-length : (last : Option Oid) (u : List Oid) → remaining last u ≤ length u
unfolding remaining
remaining-le-length last [] = omega arith
remaining-le-length last (oid ∷ u) = ground (arith, remaining-le-length last u)

-- What is above `x` is above the last identifier before it.
is_stale_mono :
    (last : Option Oid) (x y : Oid)
    → is_stale last x ≡ false
    → is_stale last y ≡ true
    → is_stale (some x) y ≡ true
unfolding is_stale
is_stale_mono none x y h k = cc
is_stale_mono (some l) x y h k = ground (arith, seq_lt_trans l x y)

is_stale_self : (x : Oid) → is_stale (some x) x ≡ true
unfolding is_stale
is_stale_self x = ground (arith, seq_lt_irrefl x)

remaining_mono :
    (last : Option Oid) (x : Oid) (u : List Oid)
    → is_stale last x ≡ false
    → remaining (some x) u ≤ remaining last u
unfolding remaining
remaining_mono last x [] h = omega arith
remaining_mono last x (y ∷ u) h =
    ground (arith, remaining_mono last x u h, is_stale_mono last x y h)

remaining-lt :
    (last : Option Oid) (x : Oid) (u : List Oid)
    → is_stale last x ≡ false
    → member x u ≡ true
    → remaining (some x) u < remaining last u
unfolding remaining member
remaining-lt last x [] h k = cc
remaining-lt last x (y ∷ u) h k = elim (Bool-cases (seq_eq x y)) [
  | inl e ↦
      let same : x ≡ y = (seq_eq_iff x y).0 e in
      let stale : is_stale (some x) y ≡ true = rw (← same) (is_stale_self x) in
      let fresh : is_stale last y ≡ false = rw (← same) h in
      rw (stale, fresh) (omega (arith, remaining_mono last x u h))
  | inr e ↦
      let k' : member x u ≡ true = rw e at k in
      ground (arith, remaining-lt last x u h k', is_stale_mono last x y h)
]

-- The bindings of an agent that has only the identifiers `u`.
AreOf : List Oid → List VarBind → Type 0
AreOf u = All (λ (v : VarBind). member v.oid u ≡ true)

consume-remaining :
    (u : List Oid) (root : Oid) (s : WalkState) (vs : List VarBind)
    → AreOf u vs
    → (consume root s vs).1 ≡ false
    → remaining (consume root s vs).0.last_oid u + length vs ≤ remaining s.last_oid u
unfolding consume AreOf append_result
consume-remaining u root s [] a h = omega arith
consume-remaining u root s (v ∷ vs) a h = elim (Bool-cases (is_end_of_mib_view v.value)) [
  | inl e ↦ absurd (cc (rw e at h))
  | inr e ↦ elim (Bool-cases (is_within_subtree root v.oid)) [
    | inr f ↦ absurd (cc (rw (e, f) at h))
    | inl f ↦ elim (Bool-cases (is_stale s.last_oid v.oid)) [
      | inl g ↦ absurd (cc (rw (e, f, g) at h))
      | inr g ↦
          let h' : (consume root (append_result s v) vs).1 ≡ false = rw (e, f, g) at h in
          let rest = consume-remaining u root (append_result s v) vs a.1 h' in
          rw (e, f, g) (omega (arith, rest, remaining-lt s.last_oid v.oid u g a.0))
    ]
  ]
]

module _ {W : Type 0} (request_fn : W → Oid → Option ℕ → Result (W × Response)) (u : List Oid)
    (ends : (w : W) (oid : Oid) (repetitions : Option ℕ) → Ends (request_fn w oid repetitions))
    (lists : (w : W) (oid : Oid) (repetitions : Option ℕ) (w' : W) (response : Response)
      → request_fn w oid repetitions ≡ ok (w', response)
      → All (λ (v : VarBind). member v.oid u ≡ true) response.varbinds) where
  end_round-Ends :
      (vs : List VarBind) (w : W) (s : WalkState) (consumed : WalkState × Bool)
      (more : Result (W × List VarBind))
      → (consumed.1 ≡ false → 1 ≤ length vs → Ends more)
      → Ends (end_round request_fn vs w s consumed more)
  unfolding end_round
  end_round-Ends [] w s consumed more k = λ p. cc
  end_round-Ends (v ∷ vs) w s (s', true) more k = λ p. cc
  end_round-Ends (v ∷ vs) w s (s', false) more k = k refl (omega arith)

  walk_loop-Ends :
      (fuel : ℕ) (root : Oid) (repetitions : Option ℕ) (w : W) (s : WalkState)
      → remaining s.last_oid u < fuel
      → Ends (walk_loop request_fn fuel root repetitions w s)
  unfolding walk_loop AreOf
  walk_loop-Ends zero root repetitions w s h = absurd (omega arith)
  walk_loop-Ends (suc fuel) root repetitions w s h =
      Ends-bind (request_fn w s.current repetitions) _ (ends w s.current repetitions) (λ p e.
        let vs = p.1.varbinds in
        let a = lists w s.current repetitions p.0 p.1 e in
        end_round-Ends vs p.0 s (consume root s vs) _ (λ k l.
          walk_loop-Ends fuel root repetitions p.0 (consume root s vs).0
            (omega (arith, consume-remaining u root s vs a k))))

  -- If each request ends and the agent's responses bind only identifiers of a finite list, a walk does
  -- not run out of fuel that is one more than the length of the list: it returns or raises.
  pub walk_subtree-Ends :
      (w : W) (root : Oid) (bulk : Bool) (max_repetitions : ℕ)
      → Ends (walk_subtree request_fn (suc (length u)) w root bulk max_repetitions)
  unfolding walk_subtree
  walk_subtree-Ends w root bulk max_repetitions =
      walk_loop-Ends (suc (length u)) root (if bulk then some max_repetitions else none) w
        (record { current = root; results = []; last_oid = none })
        (omega (arith, remaining-le-length none u))
