-- ===== src/Tests/Walks.antt =====
-- Walks of small agents.
use trishul_snmp.Prelude.{
  ℕ, ◌≡◌, refl, [], ◌∷◌, true, false, Option, none, Result, ok, All, Ends, seq_eq, seq_lt,
  if◌then◌else◌, pos,
}
use trishul_snmp.Types.{Oid, SnmpValue, null, end_of_mib_view, VarBind, Response}
use trishul_snmp.Responder.Bisect.Sorted.{IsSorted, member}
use trishul_snmp.Manager.Walk.{walk_subtree, is_within_subtree}
use trishul_snmp.Manager.Walk.Results.{walk_subtree_sound}
use trishul_snmp.Manager.Walk.Termination.{walk_subtree-Ends}
use trishul_snmp.Tests.Agent.{low, high}

abbrev agent_varbind : Oid → SnmpValue → VarBind
agent_varbind oid value = record {
  oid = oid;
  value = value;
  resolved = none;
  display_name = none;
  display_value = none;
}

abbrev agent_response : VarBind → Response
agent_response v = record {
  request_id = pos 1;
  error_status = 0;
  error_index = pos 0;
  varbinds = v ∷ [];
}

-- An agent with `low` and `high`, whose world is nothing.
abbrev agent : Unit {0} → Oid → Option ℕ → Result (Unit {0} × Response)
agent w oid repetitions =
    if seq_lt oid low
    then ok (w, agent_response (agent_varbind low null))
    else if seq_lt oid high
    then ok (w, agent_response (agent_varbind high null))
    else ok (w, agent_response (agent_varbind oid end_of_mib_view))

walk_subtree_sound_example :
    IsSorted (low ∷ high ∷ [])
    × All (λ oid. is_within_subtree (1 ∷ 3 ∷ []) oid ≡ true) (low ∷ high ∷ [])
unfolding walk_subtree seq_lt seq_eq
walk_subtree_sound_example =
    walk_subtree_sound agent 3 tt (1 ∷ 3 ∷ []) false 10 tt
      (agent_varbind low null ∷ agent_varbind high null ∷ []) refl

-- An agent that binds nothing but `low`, to any request.
abbrev stuck_agent : Unit {0} → Oid → Option ℕ → Result (Unit {0} × Response)
stuck_agent w oid repetitions = ok (w, agent_response (agent_varbind low null))

stuck_agent-lists :
    (w : Unit {0}) (oid : Oid) (repetitions : Option ℕ) (w' : Unit {0}) (answer : Response)
    → stuck_agent w oid repetitions ≡ ok (w', answer)
    → All (λ (v : VarBind). member v.oid (low ∷ []) ≡ true) answer.varbinds
unfolding member seq_eq
stuck_agent-lists w oid repetitions w' answer h =
    let same : agent_response (agent_varbind low null) ≡ answer = cc in rw (← same) (refl, tt)

walk_subtree-Ends_example : Ends (walk_subtree stuck_agent 2 tt (1 ∷ 3 ∷ []) true 10)
walk_subtree-Ends_example =
    walk_subtree-Ends stuck_agent (low ∷ []) (λ w oid repetitions p. cc) stuck_agent-lists tt
      (1 ∷ 3 ∷ []) true 10
