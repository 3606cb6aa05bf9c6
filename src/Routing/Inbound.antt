-- ===== src/Routing/Inbound.antt =====
-- core/routing/QueueRouter.js and core/routing/InboundRouter.js: where a new inbound call goes, and the
-- claim of a member for it. The rows that the queries read are arguments.
pub mod Picks
pub mod Others
pub mod Laws
use callio.Prelude.{
  ℕ, suc, Bool, true, false, not, ◌&&◌, ◌||◌, Option, none, some, List, [], ◌∷◌, ◌==◌, ltb, leb,
  filter, find, any, length, if◌then◌else◌,
}
use callio.Store.Rows.{
  Availability, available, on_call, offline, Agent, Call, Db, is_ringing, is_null, is_id,
  is_inbound, is_not_ivr, is_in_progress, is_initiated, is_active_state,
}
use callio.Store.Agents.{reported_availability, claim_agent_and_assign_call, claim_agent_for_call}
use callio.Routing.Members.{Member, is_available}
use callio.Routing.OfferHistory.{mem}
use callio.Routing.Picking.{pick_priority}
use callio.Routing.QueueOrder.{Stored, pick_round_robin}

pub data Strategy : Type 0 where
  ring_all round_robin priority : Strategy

pub record Queue : Type 0 where
  pub id : ℕ
  pub tenant_id : ℕ
  pub strategy : Strategy
  pub is_active : Bool

pub record Channel : Type 0 where
  pub owner_agent_id : Option ℕ
  pub inbound_queue_id : Option ℕ

pub data Condition : Type 0 where
  always all_agents_busy all_agents_offline all_agents_unavailable : Condition

-- A row of `findCandidateFlows`: the channel's own flows have scope 0, the tenant's scope 1.
pub record Candidate : Type 0 where
  pub id : ℕ
  pub trigger_condition : Option Condition
  pub scope_order : ℕ

pub record Stats : Type 0 where
  pub total : ℕ
  pub available : ℕ
  pub on_call : ℕ
  pub offline : ℕ

-- `findById` of AgentRepository.
unfoldable pub find_owner : ℕ → List Agent → Option Agent
find_owner id agents = find (λ (a : Agent). a.id == id && not a.is_deleted) agents

abbrev count_one : Availability → Stats → Stats
count_one available s = record s { total = suc s.total; available = suc s.available }
count_one on_call s = record s { total = suc s.total; on_call = suc s.on_call }
count_one offline s = record s { total = suc s.total; offline = suc s.offline }

-- `getAvailabilityStatsForAgentIds`
unfoldable pub availability_stats : List ℕ → List Agent → Stats
availability_stats ids [] = record { total = 0; available = 0; on_call = 0; offline = 0 }
availability_stats ids (a ∷ agents) =
    let rest = availability_stats ids agents in
    if mem a.id ids && not a.is_deleted then count_one (reported_availability a) rest else rest

-- `availabilityStats`: a line without a queue has no agents to count.
unfoldable pub queue_stats : (ℕ → List ℕ) → List Agent → Option Queue → Stats
queue_stats member_ids agents none = record { total = 0; available = 0; on_call = 0; offline = 0 }
queue_stats member_ids agents (some q) = availability_stats (member_ids q.id) agents

-- `getQueue`
unfoldable pub get_queue : List Queue → Option ℕ → Option Queue
get_queue queues none = none
get_queue queues (some id) = find (λ (q : Queue). q.id == id && q.is_active) queues

-- `holds` of `selectIvrFlow`, on the statistics of the queue's members.
unfoldable pub holds : Stats → Option Condition → Bool
holds s none = true
holds s (some always) = true
holds s (some all_agents_busy) = ltb 0 s.total && (s.available == 0 && ltb 0 s.on_call)
holds s (some all_agents_offline) = ltb 0 s.total && (s.available == 0 && s.on_call == 0)
holds s (some all_agents_unavailable) = s.available == 0

unfoldable pub first_in_scope : Stats → ℕ → List Candidate → Option ℕ
first_in_scope s scope [] = none
first_in_scope s scope (f ∷ fs) =
    if f.scope_order == scope && holds s f.trigger_condition
    then some f.id
    else first_in_scope s scope fs

unfoldable pub select_ivr_flow : Stats → List Candidate → Option ℕ
select_ivr_flow s flows = elim (first_in_scope s 0 flows) [
  | some id ↦ some id
  | none ↦ first_in_scope s 1 flows
]

pub data Route : Type 0 where
  to_owner : Agent → Route
  to_ivr : ℕ → Option Queue → Route
  to_queue : Queue → Route
  nowhere : Route

abbrev queue_route : Option Queue → Route
queue_route none = nowhere
queue_route (some q) = to_queue q

-- `InboundRouter.route`, on the members of each queue by id. Ids of rows are not 0.
unfoldable pub route : (ℕ → List ℕ) → List Agent → List Queue → List Candidate → Channel → Route
route member_ids agents queues flows channel = elim channel.owner_agent_id [
  | some owner_id ↦ elim (find_owner owner_id agents) [
    | some owner ↦ to_owner owner
    | none ↦ nowhere
  ]
  | none ↦
      let queue = get_queue queues channel.inbound_queue_id in
      elim (select_ivr_flow (queue_stats member_ids agents queue) flows) [
        | some flow_id ↦ to_ivr flow_id queue
        | none ↦ queue_route queue
      ]
]

-- `hasUnassignedCalls`: an older call waits in the queue. `ivr_flow_id` is null for a call that no flow
-- took.
unfoldable pub has_unassigned_calls : ℕ → ℕ → List Call → Bool
has_unassigned_calls queue_id before_call_id calls =
    any
      (λ c.
        is_id c.queue_id queue_id
        && (ltb c.id before_call_id
            && (is_ringing c.status
                && (is_null c.agent_id
                    && (is_inbound c.direction && (is_null c.ivr_flow_id && is_not_ivr c.state))))))
      calls

abbrev pub is_ring_all : Strategy → Bool
is_ring_all ring_all = true
is_ring_all _ = false

-- `#pick`, on the order that Redis keeps for the queue and a state that the claim changes.
unfoldable pub pick {ℓ} :
    {S : Type ℓ}
    → Strategy
    → (ℕ → S → S × Bool)
    → ℕ
    → List Member
    → Stored
    → S
    → Stored × S × Option Member
pick priority claim now members stored s =
    let (t, m) = pick_priority claim members s in (stored, t, m)
pick _ claim now members stored s = pick_round_robin claim now members stored s

-- The claim of `claimForWaitingCall`, with its `takenByAnotherWorker`.
unfoldable pub claim_for : ℕ → ℕ → ℕ → Db × Bool → (Db × Bool) × Bool
claim_for now call_id agent_id (db, taken) =
    let (after, c) = claim_agent_and_assign_call now false agent_id call_id db in
    ((after, (c.claimed && not c.assigned) || taken), c.assigned)

unfoldable pub claim_for_waiting_call :
    ℕ → ℕ → Queue → ℕ → List Member → Stored → Db → Stored × (Db × Bool) × Option Member
claim_for_waiting_call now_ms now queue call_id members stored db =
    pick queue.strategy (claim_for now call_id) now_ms members stored (db, false)

-- `claimForNewCall`: a new call never jumps ahead of one that waits.
unfoldable pub claim_for_new_call :
    ℕ → ℕ → Option Queue → ℕ → List Member → Stored → Db → Stored × (Db × Bool) × Option Member
claim_for_new_call now_ms now none call_id members stored db = (stored, (db, false), none)
claim_for_new_call now_ms now (some queue) call_id members stored db =
    if is_ring_all queue.strategy || has_unassigned_calls queue.id call_id db.calls
    then (stored, (db, false), none)
    else claim_for_waiting_call now_ms now queue call_id members stored db

abbrev transfer_strategy : Strategy → Strategy
transfer_strategy ring_all = round_robin
transfer_strategy s = s

abbrev not_excluded : Option ℕ → Member → Bool
not_excluded none m = true
not_excluded (some id) m = not (m.id == id)

-- `claimMemberForTransfer`: one agent, and never the one who transfers.
unfoldable pub claim_member_for_transfer :
    ℕ → Queue → ℕ → Option ℕ → List Member → Stored → Db → Stored × Db × Option Member
claim_member_for_transfer now_ms queue call_id exclude members stored db =
    pick (transfer_strategy queue.strategy) (λ agent_id. claim_agent_for_call agent_id call_id)
      now_ms (filter (not_excluded exclude) members) stored db

-- `ringAllTargets`
unfoldable pub ring_all_targets : List Member → List Member
ring_all_targets members = filter is_available members

-- `countOtherActiveCallsInQueue`: answered calls, and outbound ones being placed.
abbrev is_handled : Call → Bool
is_handled c =
    (is_in_progress c.status && is_active_state c.state)
    || ((is_initiated c.status || is_ringing c.status) && not (is_inbound c.direction))

unfoldable pub count_other_active_calls : ℕ → ℕ → List Call → ℕ
count_other_active_calls queue_id exclude_call_id calls = length (
    filter (λ c. is_id c.queue_id queue_id && (not (c.id == exclude_call_id) && is_handled c))
      calls)

-- `isAtCapacity`, on the queue's `max_active_calls`; 0 is no cap, as null is.
unfoldable pub is_at_capacity : Option ℕ → ℕ → ℕ → List Call → Bool
is_at_capacity none queue_id exclude_call_id calls = false
is_at_capacity (some most) queue_id exclude_call_id calls =
    not (most == 0) && leb most (count_other_active_calls queue_id exclude_call_id calls)
