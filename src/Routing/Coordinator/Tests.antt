-- ===== src/Routing/Coordinator/Tests.antt =====
-- Two calls that wait in a queue with two members, and the theorems there.
use callio.Prelude.{ℕ, ◌≡◌, ◌⊎◌, refl, true, false, Option, none, some, [], ◌∷◌, ◌==◌}
use callio.Store.Rows.{
  sip, Agent, Availability, Call, Db, available, offline, on_call, inbound, queue, ringing,
  find_agent, find_call, put_agent, put_call, update_agent, update_call,
}
use callio.Store.Agents.{
  claim_agent_and_assign_call, hold_free_agent, no_other_active_call, release_from_call,
  reported_availability, update_agent_availability,
}
use callio.Store.Rows.Laws.{HoldsAt}
use callio.Store.Calls.{assign_call_to_agent_if_unassigned, withdraw_offer}
use callio.Routing.OfferHistory.{declined, eligible, fresh, not_declined, record_offer}
use callio.Routing.Picking.{
  claim_in_order, insert_member, pick_priority, priority_order, sort_members,
}
use callio.Routing.Inbound.{
  Queue, claim_for, claim_for_waiting_call, find_owner, get_queue, pick, priority,
}
use callio.Routing.Coordinator.{
  Floor, Setup, after_claim, announce_release, broadcast_current, claim_waiting,
  deliver_assigned_call, deliver_in_queue, drain_attempts, drain_calls, drain_once, drain_queue,
  emit_agent_queues, emit_queue_update, emit_queues, first_calls, insert_call,
  oldest_unassigned_calls, read_members, release_agent, sort_calls,
}
use callio.Routing.Coordinator.Draining.Rounds.{Round, drain_queue-Round}
use callio.Routing.Coordinator.Offers.{let_go, pass_offer, route_in_turn, route_waiting_call}
use callio.Routing.Coordinator.Offers.Passing.{IsElsewhere, IsStillOffered, pass_offer_declined}
use callio.Routing.Coordinator.Offers.{to_queue, assign_transferred_call}
use callio.Routing.Coordinator.Offers.Transfers.{Handed, assign_transferred_call-Handed}
use callio.Routing.Coordinator.Shifts.{set_availability, set_shift, settable_agent}
use callio.Routing.Coordinator.Shifts.Access.{MaySet, set_availability-MaySet}

coordinating : Unit {0}
unfolding find_agent find_call put_agent put_call update_agent update_call
    claim_agent_and_assign_call hold_free_agent no_other_active_call release_from_call
    reported_availability update_agent_availability assign_call_to_agent_if_unassigned
    withdraw_offer eligible fresh not_declined record_offer claim_in_order insert_member
    pick_priority priority_order sort_members claim_for claim_for_waiting_call find_owner get_queue
    pick after_claim announce_release broadcast_current claim_waiting deliver_assigned_call
    deliver_in_queue drain_attempts drain_calls drain_once drain_queue emit_agent_queues
    emit_queue_update emit_queues first_calls insert_call oldest_unassigned_calls read_members
    release_agent sort_calls let_go pass_offer route_in_turn route_waiting_call set_availability
    set_shift settable_agent
coordinating = tt

abbrev support : Queue
support = record { id = 2; tenant_id = 1; strategy = priority; is_active = true }

-- A call that began to ring at a time, maybe offered to an agent.
abbrev ringing_call : ℕ → ℕ → Option ℕ → Call
ringing_call id since agent_id = record {
  id = id;
  tenant_id = 1;
  channel_id = some 1;
  channel = sip;
  customer_address = some "100";
  queue_id = some 2;
  agent_id = agent_id;
  ivr_flow_id = none;
  provider_call_id = none;
  state = some queue;
  direction = inbound;
  status = ringing;
  ringing_at = some since;
  queued_at = some since;
  offered_at = elim agent_id [ none ↦ none | some a ↦ some 110 ];
  answered_at = none;
  ended_at = none;
  ringing_duration = 0;
  call_duration = 0;
  overflow_count = 0;
  termination_reason = none;
  terminated_by = none;
}

abbrev agent : ℕ → Availability → Option ℕ → Agent
agent id availability busy_call_id = record {
  id = id;
  tenant_id = 1;
  is_supervisor = id == 5;
  availability = availability;
  busy_call_id = busy_call_id;
  is_deleted = false;
}

-- Call 8 is the older one, though its id is higher. Agent 4 has call 9 ringing.
abbrev db : Db
db = record {
  calls = ringing_call 7 105 none ∷ ringing_call 8 100 none ∷ ringing_call 9 90 (some 4) ∷ [];
  agents = agent 4 available (some 9) ∷ agent 5 available none ∷ [];
}

abbrev setup : Setup
setup = record {
  queues = support ∷ [];
  memberships = λ q. (4, some 1) ∷ (5, some 2) ∷ [];
  policy = λ t. record { enabled = true; threshold = 3 };
  now = 120;
  now_ms = 120000;
}

abbrev floor : Floor
floor = record {
  world = record { db = db; streaks = λ a. 0; announced = [] };
  histories = λ c. record { declined = []; missed = [] };
  stored = λ q. record { order = []; meta = []; seq = 0 };
  events = [];
}

drain_queue-Round_example :
    Round setup support db
      (λ i. (floor.histories i).declined)
      (drain_queue setup support floor).1
      (drain_queue setup support floor).0.world.db
drain_queue-Round_example = drain_queue-Round setup support floor

oldest_is_drained :
    (find_call 8 (drain_queue setup support floor).0.world.db.calls)
    ≡ some (record (ringing_call 8 100 (some 5)) { offered_at = some 120 })
unfolding coordinating
oldest_is_drained = refl

pass_offer_declined_example :
    (HoldsAt 9 (IsStillOffered 4 none) db
      × ((pass_offer setup (ringing_call 9 90 (some 4)) 4 declined none floor).1 ≡ true)
      × IsElsewhere 9 4
          (pass_offer setup (ringing_call 9 90 (some 4)) 4 declined none floor).0.world.db)
    ⊎ ((¬ HoldsAt 9 (IsStillOffered 4 none) db)
        × (pass_offer setup (ringing_call 9 90 (some 4)) 4 declined none floor ≡ (floor, false)))
pass_offer_declined_example = pass_offer_declined setup (ringing_call 9 90 (some 4)) 4 none floor

declined_offer_passes :
    (pass_offer setup (ringing_call 9 90 (some 4)) 4 declined none floor).1 ≡ true
unfolding coordinating
declined_offer_passes = refl

set_availability-MaySet_example :
    (set_availability setup 1 5 4 offline floor ≡ (floor, none))
    ⊎ ((reported : Availability) × (target : Agent) × ((set_availability setup 1 5 4 offline
            floor).1
          ≡ some reported)
        × MaySet 1 5 4 offline db.agents target)
set_availability-MaySet_example = set_availability-MaySet setup 1 5 4 offline floor

supervisor_sets : (set_availability setup 1 5 4 offline floor).1 ≡ some on_call
unfolding coordinating
supervisor_sets = refl

assign_transferred_call-Handed_example :
    Handed 7 db
      (assign_transferred_call setup 7 (some 2) 1 (to_queue none) floor).0.world.db
      (assign_transferred_call setup 7 (some 2) 1 (to_queue none) floor).1
assign_transferred_call-Handed_example =
    assign_transferred_call-Handed setup 7 (some 2) 1 (to_queue none) floor
