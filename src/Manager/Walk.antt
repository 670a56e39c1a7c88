-- ===== src/Manager/Walk.antt =====
-- trishul_snmp/manager/walk.py: a walk over a subtree, by GETNEXT or GETBULK.
pub mod Results
pub mod Termination
use trishul_snmp.Prelude.{
  ℕ, zero, suc, ◌≡◌, List, [], ◌∷◌, ◌++◌, ℤ, Bool, true, false, Option, none, some, Result, ok, err,
  out_of_fuel, ◌>>=◌, seq_eq, seq_lt, leb, if◌then◌else◌, length, take, not,
}
use trishul_snmp.Types.{Oid, VarBind, Response, is_end_of_mib_view}

unfoldable pub is_within_subtree : Oid → Oid → Bool
is_within_subtree root oid =
    if leb (length root) (length oid) then seq_eq (take (length root) oid) root else false

pub record WalkState : Type 0 where
  pub current : Oid
  pub results : List VarBind
  pub last_oid : Option Oid

-- `last_oid is not None and oid <= last_oid`
unfoldable pub is_stale : Option Oid → Oid → Bool
is_stale none oid = false
is_stale (some last) oid = not (seq_lt last oid)

unfoldable pub append_result : WalkState → VarBind → WalkState
append_result s v = record { current = v.oid; results = s.results ++ v ∷ []; last_oid = some v.oid }

-- The inner loop over the bindings of a response, and whether it stopped the walk.
unfoldable pub consume : Oid → WalkState → List VarBind → WalkState × Bool
unfolding is_within_subtree is_stale append_result is_end_of_mib_view
consume root s [] = (s, false)
consume root s (v ∷ vs) =
    let rest = consume root (append_result s v) vs in
    if is_end_of_mib_view v.value
    then (s, true)
    else if not (is_within_subtree root v.oid)
    then (s, true)
    else if is_stale s.last_oid v.oid
    then (s, true)
    else rest

-- `request_fn` is a parameter that reads and changes the world `W`: it is sent the identifier, and
-- `max_repetitions` in a bulk walk.
module _ {W : Type 0} (request_fn : W → Oid → Option ℕ → Result (W × Response)) where
  -- What follows the inner loop: the ends of the walk, or the next round, `more`.
  unfoldable pub end_round :
      List VarBind
      → W
      → WalkState
      → WalkState × Bool
      → Result (W × List VarBind)
      → Result (W × List VarBind)
  end_round [] w s consumed more = ok (w, s.results)
  end_round (_ ∷ _) w s consumed more = if consumed.1 then ok (w, consumed.0.results) else more

  -- A round of the loop on `fuel`.
  unfoldable pub walk_loop : ℕ → Oid → Option ℕ → W → WalkState → Result (W × List VarBind)
  unfolding consume end_round
  walk_loop zero root repetitions w s = err out_of_fuel
  walk_loop (suc fuel) root repetitions w s = do
    (w', response) ← request_fn w s.current repetitions
    let consumed = consume root s response.varbinds
    let more = walk_loop fuel root repetitions w' consumed.0
    end_round response.varbinds w' s consumed more

  unfoldable pub walk_subtree : ℕ → W → Oid → Bool → ℕ → Result (W × List VarBind)
  unfolding walk_loop
  walk_subtree fuel w root bulk max_repetitions =
      walk_loop fuel root (if bulk then some max_repetitions else none) w
        (record { current = root; results = []; last_oid = none })
