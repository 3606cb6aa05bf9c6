-- ===== src/Store/Tests.antt =====
-- Two agents and a call that rings in a queue, with the statements run on them and the theorems there.
use callio.Prelude.{inr, ℕ, ◌≡◌, ◌⊎◌, refl, true, false, none, some, List, [], ◌∷◌, ◌==◌}
use callio.Store.Rows.{
  sip, Agent, Call, Db, available, on_call, find_agent, find_call, inbound, is_active, put_agent,
  put_call, queue, ringing, timeout, system, terminated, failed, update_agent, update_call,
  completed,
}
use callio.Store.Rows.Laws.{AgentHoldsAt}
use callio.Store.Calls.{
  assign_call_to_agent_if_eligible, assign_call_to_agent_if_unassigned,
  terminate_call_if_not_terminated, update_call_state, withdraw_offer,
}
use callio.Store.Calls.Finality.{
  apply, run, Write, answer, terminate, fail, assign, accept, by_terminate, by_failure,
  ended_stays_ended, over_once,
}
use callio.Store.Agents.{
  claim_agent_and_assign_call, claim_agent_for_call, hold_for_own_call, hold_free_agent,
  no_other_active_call, reported_availability,
}
use callio.Store.Agents.Holding.{claim, release, run_agent, held_exclusively}

statements : Unit {0}
unfolding find_agent find_call put_agent put_call update_agent update_call
    assign_call_to_agent_if_eligible assign_call_to_agent_if_unassigned
    terminate_call_if_not_terminated update_call_state withdraw_offer apply run
    claim_agent_and_assign_call claim_agent_for_call hold_for_own_call hold_free_agent
    no_other_active_call reported_availability
statements = tt

-- Call 7 rings in queue 2, nobody assigned.
abbrev waiting_call : Call
waiting_call = record {
  id = 7;
  tenant_id = 1;
  channel_id = some 1;
  channel = sip;
  customer_address = some "100";
  queue_id = some 2;
  agent_id = none;
  ivr_flow_id = none;
  provider_call_id = none;
  state = some queue;
  direction = inbound;
  status = ringing;
  ringing_at = some 100;
  queued_at = some 100;
  offered_at = none;
  answered_at = none;
  ended_at = none;
  ringing_duration = 0;
  call_duration = 0;
  overflow_count = 0;
  termination_reason = none;
  terminated_by = none;
}

abbrev ended_call : Call
ended_call = record waiting_call { status = terminated; state = none }

abbrev free_agent : ℕ → Agent
free_agent id = record {
  id = id;
  tenant_id = 1;
  is_supervisor = false;
  availability = available;
  busy_call_id = none;
  is_deleted = false;
}

abbrev db : Db
db = record { calls = waiting_call ∷ []; agents = free_agent 4 ∷ free_agent 5 ∷ [] }

abbrev ended_db : Db
ended_db = record db { calls = ended_call ∷ [] }

-- Agent 4 was offered the call at 120.
abbrev offered_db : Db
offered_db = record db {
  calls = record waiting_call { agent_id = some 4; offered_at = some 120 } ∷ [];
}

abbrev held_db : Db
held_db = record db { agents = record (free_agent 4) { busy_call_id = some 7 } ∷ free_agent 5 ∷ [] }

abbrev later_writes : List (ℕ × Write)
later_writes = (130, answer 7) ∷ (131, assign 7 5) ∷ (132, accept 7 5) ∷ []

abbrev timed_out : Write
timed_out = terminate 7 (some timeout) system none none

ended_stays_ended_example :
    (c' : Call) × (find_call 7 (run later_writes ended_db).calls ≡ some c')
    × (is_active c'.status ≡ false)
    × (c'.state ≡ none)
    × ((c'.status ≡ terminated) ⊎ (c'.status ≡ failed))
unfolding statements
ended_stays_ended_example = ended_stays_ended 7 ended_call later_writes ended_db refl refl refl

over_once_example :
    (apply 140 (fail 7 completed system) (run later_writes (apply 120 timed_out db).0)).1 ≡ false
unfolding statements
over_once_example =
    over_once 7 120 140 timed_out (fail 7 completed system) later_writes db
      (by_terminate (some timeout) system none none) (by_failure completed system) (inr refl) refl

held_exclusively_example :
    (claim_agent_and_assign_call 130 true 4 8
        (run_agent ((121, claim 4 9) ∷ (122, release 4 9) ∷ []) held_db)
      ≡ (
        run_agent ((121, claim 4 9) ∷ (122, release 4 9) ∷ []) held_db,
        record { claimed = false; assigned = false },
      ))
    × (claim_agent_for_call 4 8 (run_agent ((121, claim 4 9) ∷ (122, release 4 9) ∷ []) held_db)
        ≡ (run_agent ((121, claim 4 9) ∷ (122, release 4 9) ∷ []) held_db, false))
    × ((hold_for_own_call 4 8 (run_agent ((121, claim 4 9) ∷ (122, release 4 9) ∷ []) held_db)).1
        ≡ (7 == 8))
    × AgentHoldsAt 4
        (λ a. reported_availability a ≡ on_call)
        (run_agent ((121, claim 4 9) ∷ (122, release 4 9) ∷ []) held_db)
unfolding statements
held_exclusively_example =
    held_exclusively 4 7 8 130 true ((121, claim 4 9) ∷ (122, release 4 9) ∷ []) held_db
      (record (free_agent 4) { busy_call_id = some 7 }, refl, refl) (refl, (refl, tt))

claim_takes_the_call :
    (claim_agent_and_assign_call 120 false 4 7 db).1 ≡ record { claimed = true; assigned = true }
unfolding statements
claim_takes_the_call = refl
