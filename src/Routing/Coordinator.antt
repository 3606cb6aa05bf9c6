-- ===== src/Routing/Coordinator.antt =====
-- core/routing/AgentAssignmentCoordinator.js: what changes the state of agents and queues. One handler runs at
-- a time here; what it emits is a list, the latest first. The logs of a call and the SDP offers are left out.
pub mod Draining
pub mod Offers
pub mod Shifts
mod Tests
use callio.Prelude.{
  ℕ, zero, suc, Bool, true, false, not, ◌&&◌, ◌||◌, Option, none, some, List, [], ◌∷◌, ◌==◌, leb,
  filter, find, any, map, if◌then◌else◌,
}
use callio.Store.Rows.{
  Availability, State, available, on_call, offline, ivr, queue, Agent, Call, Db, is_active,
  is_inbound, is_null, is_id, is_ringing, find_agent, find_call,
}
use callio.Store.Calls.{withdraw_offer}
use callio.Store.Agents.{
  claim_agent_and_assign_call, reported_availability, release_from_call, update_agent_availability,
}
use callio.Routing.Members.{Member, is_available, is_available_status}
use callio.Routing.OfferHistory.{
  History, Kind, declined, missed, clear_missed, eligible, record_offer,
}
use callio.Routing.QueueOrder.{Stored, distinct_from}
use callio.Routing.Inbound.{
  Queue, claim_for_waiting_call, find_owner, get_queue, is_ring_all, ring_all_targets,
}
use callio.Routing.AutoOffline.{Policy, World, record_miss}

pub data Event : Type 0 where
  agent_availability : ℕ → Availability → Event
  incoming : ℕ → Option ℕ → List ℕ → Event
  offer_withdrawn : ℕ → List ℕ → Event
  is_waiting : ℕ → Event
  overflowed : ℕ → ℕ → Event
  queue_update : ℕ → Event

-- What does not change here: the queues, each one's members with their priority, in offer order, and each
-- tenant's policy on missed offers.
pub record Setup : Type 0 where
  pub queues : List Queue
  pub memberships : ℕ → List (ℕ × Option ℕ)
  pub policy : ℕ → Policy
  pub now : ℕ
  pub now_ms : ℕ

pub record Floor : Type 0 where
  pub world : World
  pub histories : ℕ → History
  pub stored : ℕ → Stored
  pub events : List Event

abbrev pub with_db : Db → Floor → Floor
with_db db f = record f { world = record f.world { db = db } }

abbrev pub emit : Event → Floor → Floor
emit e f = record f { events = e ∷ f.events }

abbrev pub set_at {ℓ} : {A : Type ℓ} → ℕ → A → (ℕ → A) → ℕ → A
set_at id a f j = if j == id then a else f j

abbrev add_member : Option Agent → Option ℕ → List Member → List Member
add_member none priority ms = ms
add_member (some a) priority ms =
    if a.is_deleted
    then ms
    else record { id = a.id; availability = reported_availability a; priority = priority } ∷ ms

-- `getMembers`
unfoldable pub read_members : Db → List (ℕ × Option ℕ) → List Member
read_members db [] = []
read_members db ((id, priority) ∷ rest) =
    add_member (find_agent id db.agents) priority (read_members db rest)

-- `WAITING_IN_QUEUE`
abbrev pub waits : Option State → Bool
waits none = true
waits (some queue) = true
waits (some _) = false

abbrev pub is_waiting_in_queue : Call → Bool
is_waiting_in_queue c =
    is_ringing c.status && (is_null c.agent_id && (is_inbound c.direction && waits c.state))

-- `ORDER BY ringing_at ASC`, where a null comes first.
abbrev rang_before : Option ℕ → Option ℕ → Bool
rang_before none b = true
rang_before (some s) none = false
rang_before (some s) (some t) = leb s t

unfoldable pub insert_call : Call → List Call → List Call
insert_call c [] = c ∷ []
insert_call c (x ∷ xs) =
    if rang_before c.ringing_at x.ringing_at then c ∷ x ∷ xs else x ∷ insert_call c xs

unfoldable pub sort_calls : List Call → List Call
sort_calls [] = []
sort_calls (c ∷ cs) = insert_call c (sort_calls cs)

unfoldable pub first_calls : ℕ → List Call → List Call
first_calls zero cs = []
first_calls (suc n) [] = []
first_calls (suc n) (c ∷ cs) = c ∷ first_calls n cs

-- `findOldestUnassignedCalls`, with the limit of `drainQueue`.
unfoldable pub oldest_unassigned_calls : ℕ → Db → List Call
oldest_unassigned_calls queue_id db =
    first_calls 25
      (sort_calls (filter (λ c. is_id c.queue_id queue_id && is_waiting_in_queue c) db.calls))

unfoldable pub queue_ids : List Call → List ℕ
queue_ids [] = []
queue_ids (c ∷ cs) = elim c.queue_id [ none ↦ queue_ids cs | some id ↦ id ∷ queue_ids cs ]

-- `findQueuesWithWaitingCalls`: a queue stands where its oldest call does.
unfoldable pub queues_with_waiting_calls : ℕ → Db → List ℕ
queues_with_waiting_calls tenant_id db = distinct_from [] (
    queue_ids
      (sort_calls (filter (λ c. c.tenant_id == tenant_id && is_waiting_in_queue c) db.calls)))

-- `emitQueueUpdate` for one queue.
unfoldable pub emit_queue_update : Setup → ℕ → Option ℕ → Floor → Floor
emit_queue_update s tenant_id none f = f
emit_queue_update s tenant_id (some id) f =
    if any (λ (q : Queue). q.id == id && q.tenant_id == tenant_id) s.queues
    then emit (queue_update id) f
    else f

abbrev has_member : Setup → ℕ → ℕ → Bool
has_member s agent_id queue_id = any (λ m. m.0 == agent_id) (s.memberships queue_id)

unfoldable pub emit_queues : Setup → ℕ → ℕ → List Queue → Floor → Floor
unfolding emit_queue_update
emit_queues s tenant_id agent_id [] f = f
emit_queues s tenant_id agent_id (q ∷ qs) f =
    let rest = emit_queues s tenant_id agent_id qs in
    if q.is_active && has_member s agent_id q.id
    then rest (emit_queue_update s tenant_id (some q.id) f)
    else rest f

-- `emitAgentQueues`
unfoldable pub emit_agent_queues : Setup → ℕ → ℕ → Floor → Floor
unfolding emit_queues
emit_agent_queues s tenant_id agent_id f = emit_queues s tenant_id agent_id s.queues f

-- `_broadcastCurrent`, with the agent's tenant, if the agent is there.
unfoldable pub broadcast_current : ℕ → Floor → Floor × Option ℕ
broadcast_current agent_id f = elim (find_owner agent_id f.world.db.agents) [
  | none ↦ (f, none)
  | some a ↦ (emit (agent_availability agent_id (reported_availability a)) f, some a.tenant_id)
]

-- The broadcasts of `releaseAgent`.
unfoldable pub announce_release : Setup → ℕ → Floor → Floor
unfolding broadcast_current emit_agent_queues
announce_release s agent_id f =
    let (g, tenant) = broadcast_current agent_id f in
    elim tenant [ none ↦ g | some tenant_id ↦ emit_agent_queues s tenant_id agent_id g ]

unfoldable pub release_agent : Setup → ℕ → ℕ → Bool → Floor → Floor × Bool
unfolding announce_release
release_agent s agent_id call_id gone f =
    let (released_db, released) = release_from_call agent_id call_id f.world.db in
    let db =
      if gone then (update_agent_availability agent_id offline released_db).0 else released_db in
    let g = with_db db f in
    (if released || gone then announce_release s agent_id g else g, released)

-- `#deliverAssignedCall`
unfoldable pub deliver_assigned_call : ℕ → Member → Floor → Floor
deliver_assigned_call call_id m f =
    emit (agent_availability m.id on_call) (emit (incoming call_id (some m.id) []) f)

-- The end of a round of `drainQueue` for one call: somebody has it, or the next call's turn comes.
unfoldable pub after_claim :
    Option Member → (Member → Floor) → Bool → Floor × (Bool × Bool) → Floor × (Bool × Bool)
after_claim none deliver taken rest = (rest.0, (rest.1.0, taken || rest.1.1))
after_claim (some m) deliver taken rest = (deliver m, (true, false))

-- The claim for one waiting call: whether one was lost to another worker, and the member.
unfoldable pub claim_waiting :
    Setup → Queue → List Member → Call → Floor → Floor × (Bool × Option Member)
claim_waiting s q members c f =
    let (allowed, history) = eligible (f.histories c.id) members in
    let (order, (db, taken), m) =
      claim_for_waiting_call s.now_ms s.now q c.id allowed (f.stored q.id) f.world.db in
    let g : Floor = record f {
      world = record f.world { db = db };
      histories = set_at c.id history f.histories;
      stored = set_at q.id order f.stored;
    } in
    (g, (taken, m))

-- The call's member is told, and so are those who watch the queue.
unfoldable pub deliver_in_queue : Setup → Queue → Call → Floor → Member → Floor
deliver_in_queue s q c f m =
    emit_queue_update s c.tenant_id (some q.id) (deliver_assigned_call c.id m f)

-- The waiting calls in turn: whether one was assigned, and whether a claim was lost to another worker.
unfoldable pub drain_calls : Setup → Queue → List Member → List Call → Floor → Floor × (Bool × Bool)
unfolding after_claim claim_waiting deliver_in_queue
drain_calls s q members [] f = (f, (false, false))
drain_calls s q members (c ∷ cs) f =
    let (g, (taken, m)) = claim_waiting s q members c f in
    after_claim m (deliver_in_queue s q c g) taken (drain_calls s q members cs g)

abbrev pub is_empty_list : List Call → Bool
is_empty_list [] = true
is_empty_list (_ ∷ _) = false

-- One attempt of `drainQueue`.
unfoldable pub drain_once : Setup → Queue → Floor → Floor × (Bool × Bool)
unfolding drain_calls
drain_once s q f =
    let members = read_members f.world.db (s.memberships q.id) in
    let waiting = oldest_unassigned_calls q.id f.world.db in
    if not (any is_available members)
    then (f, (false, false))
    else if is_empty_list waiting
    then (f, (false, false))
    else drain_calls s q members waiting f

unfoldable pub drain_attempts : ℕ → Setup → Queue → Floor → Floor × Bool
unfolding drain_once
drain_attempts zero s q f = (f, false)
drain_attempts (suc n) s q f =
    let (g, (assigned, race_lost)) = drain_once s q f in
    let rest = drain_attempts n s q g in
    if assigned then (g, true) else if race_lost then rest else (g, false)

unfoldable pub drain_queue : Setup → Queue → Floor → Floor × Bool
drain_queue s q f = drain_attempts 3 s q f

abbrev pub drain_if_one : Setup → Option Queue → Floor → Floor × Bool
drain_if_one s none f = (f, false)
drain_if_one s (some q) f = if is_ring_all q.strategy then (f, false) else drain_queue s q f

unfoldable pub drain_queues : Setup → List ℕ → Floor → Floor × Bool
drain_queues s [] f = (f, false)
drain_queues s (id ∷ ids) f =
    let (g, assigned) = drain_if_one s (get_queue s.queues (some id)) f in
    let (h, later) = drain_queues s ids g in (h, assigned || later)

-- `drainForTenant`
unfoldable pub drain_for_tenant : Setup → ℕ → Floor → Floor × Bool
unfolding drain_queues
drain_for_tenant s tenant_id f = drain_queues s (queues_with_waiting_calls tenant_id f.world.db) f
