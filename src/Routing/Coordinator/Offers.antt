-- ===== src/Routing/Coordinator/Offers.antt =====
-- core/routing/AgentAssignmentCoordinator.js: offers that pass on, calls that move to another queue, and calls
-- that were transferred.
pub mod Passing
pub mod Transfers
use callio.Prelude.{
  ℕ, zero, suc, Bool, true, false, not, ◌&&◌, ◌||◌, Option, none, some, List, [], ◌∷◌, ◌==◌, find,
  map, if◌then◌else◌,
}
use callio.Store.Rows.{Agent, Call, Db, coalesce, is_null, is_ringing, find_call}
use callio.Store.Calls.{withdraw_offer}
use callio.Store.Agents.{claim_agent_and_assign_call, reported_availability}
use callio.Routing.Members.{Member, is_available_status}
use callio.Routing.OfferHistory.{Kind, declined, missed, clear_missed, eligible, record_offer}
use callio.Routing.Inbound.{
  Queue, claim_for_waiting_call, find_owner, get_queue, is_ring_all, ring_all_targets,
}
use callio.Routing.AutoOffline.{record_miss}
use callio.Routing.Coordinator.{
  Event, Floor, Setup, deliver_assigned_call, drain_queue, emit, emit_queue_update, incoming,
  is_waiting, offer_withdrawn, overflowed, read_members, release_agent, set_at, with_db,
}

abbrev member_ids : List Member → List ℕ
member_ids [] = []
member_ids (m ∷ ms) = m.id ∷ member_ids ms

abbrev offer_event : ℕ → List ℕ → Event
offer_event call_id [] = is_waiting call_id
offer_event call_id (id ∷ ids) = incoming call_id none (id ∷ ids)

-- `#offerToAll`
unfoldable pub offer_to_all : Setup → Queue → ℕ → Floor → Floor
offer_to_all s q call_id f = elim (find_call call_id f.world.db.calls) [
  | none ↦ f
  | some c ↦
      let targets = ring_all_targets (read_members f.world.db (s.memberships q.id)) in
      let (offered, history) = eligible (f.histories call_id) targets in
      emit (offer_event call_id (member_ids offered))
        (record f { histories = set_at call_id history f.histories })
]

abbrev pub agent_of : Option Call → Option ℕ
agent_of none = none
agent_of (some c) = c.agent_id

abbrev pub rings : Option Call → Bool
rings none = false
rings (some c) = is_ringing c.status

-- `routeWaitingCall` in a queue that offers to one agent at a time.
unfoldable pub route_in_turn : Setup → Queue → Call → Floor → Floor × Bool
route_in_turn s q c f =
    let g = (drain_queue s q f).0 in
    let after = find_call c.id g.world.db.calls in
    let told = if is_null (agent_of after) && rings after then emit (is_waiting c.id) g else g in
    (emit_queue_update s c.tenant_id (some q.id) told, not (is_null (agent_of after)))

unfoldable pub route_waiting_call : Setup → Call → Floor → Floor × Bool
unfolding offer_to_all route_in_turn
route_waiting_call s c f = elim (get_queue s.queues c.queue_id) [
  | none ↦ (emit (is_waiting c.id) f, false)
  | some q ↦
      if is_ring_all q.strategy
      then (emit_queue_update s c.tenant_id (some q.id) (offer_to_all s q c.id f), false)
      else route_in_turn s q c f
]

abbrev is_missed : Kind → Bool
is_missed missed = true
is_missed declined = false

-- `passOffer` once the offer is withdrawn: the history, the release, the policy on missed offers.
unfoldable pub let_go : Setup → Call → ℕ → Kind → Floor → Floor
let_go s c agent_id kind f =
    let noted : Floor = record f {
      histories = set_at c.id (record_offer agent_id kind (f.histories c.id)) f.histories;
    } in
    let freed =
      (release_agent s agent_id c.id false (emit (offer_withdrawn c.id (agent_id ∷ [])) noted)).0 in
    if is_missed kind
    then record freed {
      world =
          (record_miss (s.policy c.tenant_id) s.queues c.queue_id false c.id (some agent_id)
            freed.world).0;
    }
    else freed

unfoldable pub pass_offer : Setup → Call → ℕ → Kind → Option ℕ → Floor → Floor × Bool
unfolding let_go route_waiting_call
pass_offer s c agent_id kind expired_before f =
    let (db, withdrawn) = withdraw_offer c.id agent_id expired_before f.world.db in
    if withdrawn
    then (
      (route_waiting_call s (record c { agent_id = none })
          (let_go s c agent_id kind (with_db db f))).0,
      true,
    )
    else (f, false)

abbrev queue_members : Setup → Option Queue → List ℕ
queue_members s none = []
queue_members s (some q) =
    if is_ring_all q.strategy then map (λ m. m.0) (s.memberships q.id) else []

-- Whom a call rings as it leaves a queue.
abbrev ringing_agents : Option ℕ → List ℕ → List ℕ
ringing_agents (some a) ids = a ∷ []
ringing_agents none ids = ids

abbrev withdraw_event : ℕ → List ℕ → Floor → Floor
withdraw_event call_id [] f = f
withdraw_event call_id (a ∷ as') f = emit (offer_withdrawn call_id (a ∷ as')) f

-- `callOverflowed`; `findById` reads a queue that is not active, too.
unfoldable pub call_overflowed : Setup → Call → Queue → Floor → Floor
call_overflowed s c to_queue f =
    let from_queue : Option Queue = elim c.queue_id [
      | none ↦ none
      | some id ↦ find (λ (q : Queue). q.id == id) s.queues
    ] in
    let told = withdraw_event c.id (ringing_agents c.agent_id (queue_members s from_queue)) f in
    let freed : Floor = elim c.agent_id [
      | none ↦ told
      | some a ↦ (release_agent s a c.id false told).0
    ] in
    let cleared : Floor = record freed {
      histories = set_at c.id (clear_missed (freed.histories c.id)) freed.histories;
    } in
    let moved =
      emit_queue_update s c.tenant_id c.queue_id (emit (overflowed c.id to_queue.id) cleared) in
    (route_waiting_call s (record c { queue_id = some to_queue.id; agent_id = none }) moved).0

pub data Target : Type 0 where
  to_agent : ℕ → Target
  to_queue : Option ℕ → Target

abbrev as_member : Agent → Member
as_member a = record { id = a.id; availability = reported_availability a; priority = none }

abbrev pub is_free_in : ℕ → Agent → Bool
is_free_in tenant_id a = a.tenant_id == tenant_id && is_available_status (reported_availability a)

-- The claim for a transferred call: of that agent, or of a member of the queue.
unfoldable pub claim_target_agent : Setup → ℕ → ℕ → ℕ → Floor → Floor × Option Member
claim_target_agent s call_id tenant_id agent_id f = elim (find_owner agent_id f.world.db.agents) [
  | none ↦ (f, none)
  | some a ↦
      let (db, claim) = claim_agent_and_assign_call s.now false a.id call_id f.world.db in
      if is_free_in tenant_id a && claim.assigned
      then (with_db db f, some (as_member a))
      else (f, none)
]

unfoldable pub claim_target_queue : Setup → ℕ → Queue → Floor → Floor × Option Member
claim_target_queue s call_id q f =
    let (order, (db, taken), m) =
      claim_for_waiting_call s.now_ms s.now q call_id (read_members f.world.db (s.memberships q.id))
        (f.stored q.id) f.world.db in
    (record f { world = record f.world { db = db }; stored = set_at q.id order f.stored }, m)

-- The end of `assignTransferredCall`, for the agent that was claimed, if any.
unfoldable pub hand_over : Setup → ℕ → ℕ → Option ℕ → Floor × Option Member → Floor × Bool
hand_over s call_id tenant_id queue_id (f, none) =
    (emit (is_waiting call_id) (emit_queue_update s tenant_id queue_id f), false)
hand_over s call_id tenant_id queue_id (f, some m) =
    let told : Floor = elim (find_call call_id f.world.db.calls) [
      | none ↦ f
      | some c ↦ deliver_assigned_call call_id m f
    ] in
    (emit_queue_update s tenant_id queue_id told, true)

unfoldable pub assign_transferred_call : Setup → ℕ → Option ℕ → ℕ → Target → Floor → Floor × Bool
unfolding claim_target_agent claim_target_queue hand_over
assign_transferred_call s call_id queue_id tenant_id (to_agent agent_id) f =
    hand_over s call_id tenant_id queue_id (claim_target_agent s call_id tenant_id agent_id f)
assign_transferred_call s call_id queue_id tenant_id (to_queue target_id) f =
    elim (get_queue s.queues (coalesce target_id queue_id)) [
      | none ↦ hand_over s call_id tenant_id queue_id (f, none)
      | some q ↦
          if is_ring_all q.strategy
          then (emit_queue_update s tenant_id (some q.id) (offer_to_all s q call_id f), false)
          else hand_over s call_id tenant_id queue_id (claim_target_queue s call_id q f)
    ]
