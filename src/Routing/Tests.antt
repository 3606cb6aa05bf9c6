-- ===== src/Routing/Tests.antt =====
-- A queue with three members, run on concrete states, and the theorems there.
use callio.Prelude.{
  arith, Option, if◌then◌else◌, ℕ, suc, ◌≡◌, inl, inr, refl, Bool, true, false, none, some, List,
  [], ◌∷◌, ◌==◌, filter, find,
}
use callio.Store.Rows.{
  sip, terminated, Agent, Availability, Call, Db, available, offline, find_agent, find_call,
  inbound, queue, ringing,
}
use callio.Store.Rows.Laws.{AgentHoldsAt, HoldsAt}
use callio.Routing.Members.{Member}
use callio.Routing.OfferHistory.{History, eligible, fresh, not_declined}
use callio.Routing.Picking.{
  claim_in_order, insert_member, pick_priority, priority_order, sort_members,
}
use callio.Routing.QueueOrder.{
  Stored, available_ids, distinct_from, holds_position, insert_id, is_available_id, kept_order, mem,
  meta_of, newcomers, previous_meta, reconcile, sort_ids, stays,
}
use callio.Routing.QueueOrder.Laws.{NoRepeats, ids_of, reconcile-fair}
use callio.Routing.Inbound.{
  round_robin, Candidate, Queue, Stats, all_agents_busy, claim_for_waiting_call, get_queue,
  has_unassigned_calls, holds, priority, select_ivr_flow,
}
use callio.Routing.Inbound.Picks.{Chosen}
use callio.Routing.Inbound.Laws.{
  IsIn, Outcome, claim_for_waiting_call-Outcome, flow_id, select_ivr_flow-first,
}
use callio.Routing.Waiting.Bound.{IsWaiting, expire_waits, waiting_ends}
use callio.Routing.AutoOffline.{
  Policy, World, auto_offline_settings, counts_in, has_agent_active_call, record_miss,
}
use callio.Routing.AutoOffline.Laws.{missed, offline_at_threshold}

routing : Unit {0}
unfolding eligible fresh not_declined claim_in_order insert_member pick_priority priority_order
    sort_members distinct_from holds_position is_available_id meta_of newcomers previous_meta
    reconcile stays get_queue has_unassigned_calls holds select_ivr_flow kept_order sort_ids
    available_ids insert_id auto_offline_settings counts_in has_agent_active_call find_agent
    find_call
routing = tt

abbrev member : ℕ → Availability → ℕ → Member
member id a p = record { id = id; availability = a; priority = some p }

abbrev members : List Member
members = member 4 available 2 ∷ member 5 available 1 ∷ member 6 offline 1 ∷ []

-- Agent 5 missed the call, agent 6 declined it.
abbrev history : History
history = record { declined = 6 ∷ []; missed = 5 ∷ [] }

-- A claim that takes nobody but agent 4, and counts how often it is asked.
abbrev only_four : ℕ → ℕ → ℕ × Bool
only_four id n = (suc n, id == 4)

abbrev stored : Stored
stored = record { order = 5 ∷ 6 ∷ 5 ∷ []; meta = []; seq = 3 }

reconciled : (reconcile 1000 members stored).0.order ≡ 5 ∷ 6 ∷ 4 ∷ []
unfolding routing
reconciled = refl

reconcile-fair_example :
    NoRepeats (reconcile 1000 members stored).0.order
    × NoRepeats (ids_of (reconcile 1000 members stored).1)
    × ((id : ℕ) → mem id (ids_of (reconcile 1000 members stored).1) ≡ is_available_id members id)
    × (ids_of (reconcile 1000 members stored).1
        ≡ filter (is_available_id members) (reconcile 1000 members stored).0.order)
reconcile-fair_example = reconcile-fair 1000 members stored

abbrev busy_stats : Stats
busy_stats = record { total = 2; available = 0; on_call = 1; offline = 1 }

abbrev flows : List Candidate
flows =
    record { id = 3; trigger_condition = some all_agents_busy; scope_order = 0 }
    ∷ record { id = 9; trigger_condition = none; scope_order = 1 }
    ∷ []

select_ivr_flow-first_example :
    select_ivr_flow busy_stats flows
    ≡ flow_id (find (λ (f : Candidate). holds busy_stats f.trigger_condition) flows)
select_ivr_flow-first_example =
    select_ivr_flow-first busy_stats flows (inl refl, (inr (refl, tt), tt))

abbrev support : Queue
support = record { id = 2; tenant_id = 1; strategy = priority; is_active = true }

abbrev new_call : Call
new_call = record {
  id = 7;
  tenant_id = 1;
  channel_id = some 1;
  channel = sip;
  customer_address = some "100";
  queue_id = some 2;
  agent_id = none;
  ivr_flow_id = none;
  provider_call_id = none;
  state = some queue;
  direction = inbound;
  status = ringing;
  ringing_at = some 100;
  queued_at = some 100;
  offered_at = none;
  answered_at = none;
  ended_at = none;
  ringing_duration = 0;
  call_duration = 0;
  overflow_count = 0;
  termination_reason = none;
  terminated_by = none;
}

abbrev free_agent : ℕ → Agent
free_agent id = record {
  id = id;
  tenant_id = 1;
  is_supervisor = false;
  availability = available;
  busy_call_id = none;
  is_deleted = false;
}

abbrev db : Db
db = record { calls = new_call ∷ []; agents = free_agent 4 ∷ free_agent 5 ∷ [] }

claim_for_waiting_call-Outcome_example :
    Outcome 7 db
      (claim_for_waiting_call 1000 120 support 7 members stored db).1.0
      (claim_for_waiting_call 1000 120 support 7 members stored db).2
    × Chosen (λ m. IsIn m members) (claim_for_waiting_call 1000 120 support 7 members stored db).2
claim_for_waiting_call-Outcome_example =
    claim_for_waiting_call-Outcome 1000 120 7 support members stored db

abbrev world : World
world = record { db = db; streaks = λ a. 0; announced = [] }

abbrev policy : Policy
policy = record { enabled = true; threshold = 3 }

abbrev last_miss_of : World → World × Bool
last_miss_of w = record_miss policy (support ∷ []) (some 2) false 12 (some 4) w

offline_at_threshold_example :
    ((missed policy (support ∷ []) (some 2) false 4 (10 ∷ 11 ∷ []) world).db ≡ db)
    × ((missed policy (support ∷ []) (some 2) false 4 (10 ∷ 11 ∷ []) world).announced ≡ [])
    × ((last_miss_of (missed policy (support ∷ []) (some 2) false 4 (10 ∷ 11 ∷ []) world)).1 ≡ true)
    × AgentHoldsAt 4
        (λ a. a.availability ≡ offline)
        (last_miss_of (missed policy (support ∷ []) (some 2) false 4 (10 ∷ 11 ∷ []) world)).0.db
    × ((last_miss_of (missed policy (support ∷ []) (some 2) false 4 (10 ∷ 11 ∷ []) world)).0.streaks
          4
        ≡ 0)
    × ((last_miss_of
          (missed policy (support ∷ []) (some 2) false 4 (10 ∷ 11 ∷ []) world)).0.announced
        ≡ (4, 3) ∷ [])
unfolding routing
offline_at_threshold_example =
    offline_at_threshold policy (support ∷ []) (some 2) false 4 refl refl (10 ∷ 11 ∷ []) 12 world
      (free_agent 4, refl, refl) (refl, (refl, (refl, tt))) refl

abbrev sales : Queue
sales = record { id = 3; tenant_id = 1; strategy = round_robin; is_active = true }

-- The two queues overflow to each other.
abbrev overflow_of : Option ℕ → Option ℕ
overflow_of none = none
overflow_of (some q) = if q == 2 then some 3 else some 2

waiting : IsWaiting 0 new_call
waiting = record {
  rings = refl;
  comes_in = refl;
  queued = (2, refl);
  unoffered = refl;
  overflows = refl;
}

waiting_ends_example :
    HoldsAt 7
      (λ c. c.status ≡ terminated)
      (expire_waits (support ∷ sales ∷ []) overflow_of 7 (200 ∷ 300 ∷ 400 ∷ 500 ∷ []) db)
unfolding routing
waiting_ends_example =
    waiting_ends (support ∷ sales ∷ []) overflow_of 7 200 300 400 500 [] 0 db
      (new_call, refl, waiting) (omega arith)
