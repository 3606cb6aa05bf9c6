-- ===== src/Channels/Offered.antt =====
-- `inboundCall` of core/channels/ChannelIngress.js: a provider offers a call, and `_handleCallEnded` for a
-- call that has no row yet. The handler has three stages, since other workers run while it waits: it looks for
-- an end that came first, then creates the row and claims somebody, and then looks for an end that came
-- meanwhile and rings somebody. A tombstone
-- stands for 120 seconds. What is only told or logged, the media and the details of a failure are left out.
pub mod Arrival
pub mod Silence
pub mod Meanwhile
use callio.Prelude.{
  ℕ, String, Bool, true, false, ◌&&◌, ◌||◌, not, Option, none, some, List, [], ◌∷◌, ◌++◌, map, any,
  get_or, is_truthy, is_some, ltb, ◌==◌, ◌===◌, if◌then◌else◌,
}
use callio.Store.Rows.{
  ChannelType, inbound, ringing, in_progress, ivr, cancelled, rejected, busy, no_answer,
  system_error, provider_error, TerminationReason, TerminatedBy, system, customer, provider, Call,
  Db, is_ringing, is_in_progress, is_inbound, terminated, coalesce, Agent,
}
use callio.Store.Calls.{
  Times, finalize_from_webhook, finalize_call_as_failed, mark_ivr_auto_accepted,
  assign_call_to_agent_if_unassigned,
}
use callio.Store.Calls.Patches.{
  answered_stamp, update_timestamp, create, same_channel, same_text, find_by_provider_call_id,
}
use callio.Store.Agents.{claim_agent_and_assign_call}
use callio.Lifecycle.Termination.{
  Ending, Notice, reject_notice, busy_notice, broadcast, end_by_id, queues_drained, queue_updated,
}
use callio.Routing.Members.{Member}
use callio.Routing.QueueOrder.{Stored}
use callio.Routing.Inbound.{
  Queue, Candidate, Route, to_owner, to_ivr, to_queue, nowhere, route, is_ring_all,
  claim_for_new_call, ring_all_targets,
}
use callio.Channels.Lines.{
  Line, Act, belongs_to, effect, customer_joined, offered_to, offered_to_all, waiting_told,
  line_ring_set, ivr_started, settle_by_id, provider_ending,
}
use callio.Channels.Ended.{EndEvent, handle_end}

-- What the end of a call leaves for an offer that comes later.
pub record Tombstone : Type 0 where
  pub has_failed : Bool
  pub ended_at : Option ℕ
  pub expires_at : ℕ

-- `TERMINATE_TOMBSTONE_TTL_SECONDS`
abbrev pub tombstone_ttl_seconds : ℕ
tombstone_ttl_seconds = 120

-- What a key still has at a time: Redis forgets it when it expires.
unfoldable pub standing : ℕ → Option Tombstone → Option Tombstone
standing now none = none
standing now (some t) = if ltb now t.expires_at then some t else none

abbrev pub Tombstones : Type 0
Tombstones = ChannelType → String → Option Tombstone

unfoldable pub set_tombstone : ChannelType → String → Option Tombstone → Tombstones → Tombstones
set_tombstone type id t stones type' id' =
    if same_channel type type' && id === id' then t else stones type' id'

pub record World : Type 0 where
  pub db : Db
  pub tombstones : Tombstones
  pub order : ℕ → Stored

pub record OfferEvent : Type 0 where
  pub provider_call_id : String
  pub customer_address : Option String
  pub offered_at : Option ℕ

-- What the handler reads besides, and what its partners answer: whether the consumer's hook rejects the
-- call, whether an agent can be reached, and whether the provider takes the answer of an IVR call.
pub record Around : Type 0 where
  pub member_ids : ℕ → List ℕ
  pub queues : List Queue
  pub flows : List Candidate
  pub members : ℕ → List Member
  pub is_reachable : ℕ → Bool
  pub is_rejected : Bool
  pub is_accepted : Bool

-- The row that the handler inserts, where nothing more is known.
unfoldable pub base_row : ℕ → ℕ → Line → OfferEvent → Call
base_row now id line e = record {
  id = id;
  tenant_id = line.tenant_id;
  channel_id = some line.id;
  channel = line.type;
  customer_address = e.customer_address;
  queue_id = line.inbound_queue_id;
  agent_id = none;
  ivr_flow_id = none;
  provider_call_id = some e.provider_call_id;
  state = none;
  direction = inbound;
  status = ringing;
  ringing_at = some (get_or e.offered_at now);
  queued_at = none;
  offered_at = none;
  answered_at = none;
  ended_at = none;
  ringing_duration = 0;
  call_duration = 0;
  overflow_count = 0;
  termination_reason = none;
  terminated_by = none;
}

abbrev flow_of : Route → Option ℕ
flow_of (to_ivr flow_id q) = some flow_id
flow_of _ = none

abbrev pub queue_of : Route → Option Queue
queue_of (to_ivr flow_id q) = q
queue_of (to_queue q) = some q
queue_of _ = none

abbrev is_queued : Route → Bool
is_queued (to_queue q) = true
is_queued _ = false

unfoldable pub routed_row : ℕ → ℕ → Line → OfferEvent → Route → Call
routed_row now id line e r =
    let row = base_row now id line e in
    record row {
      ivr_flow_id = flow_of r;
      state = if is_some (flow_of r) then some ivr else none;
      queued_at = if is_queued r then row.ringing_at else none;
    }

-- `findActiveInboundByCustomer`: whether there is such a call.
unfoldable pub has_active_inbound : ℕ → Option String → List Call → Bool
has_active_inbound tenant_id none calls = false
has_active_inbound tenant_id (some address) calls =
    is_truthy address
    && any
        (λ c.
          c.tenant_id == tenant_id
          && (same_text c.customer_address address
              && (is_inbound c.direction && (is_ringing c.status || is_in_progress c.status))))
        calls

-- The times of a call that is over as soon as it is there.
abbrev pub at_once : Option ℕ → Times
at_once ended = record {
  ended_at = ended;
  answered_at = none;
  call_duration = some 0;
  ringing_duration = some 0;
}

unfoldable pub finalize_cancelled : ℕ → ℕ → TerminatedBy → Option ℕ → Db → Db
finalize_cancelled now id by ended db =
    (finalize_from_webhook now id terminated (some cancelled) (some by) (at_once ended) db).0

-- `_handleMissedBeforeOffer`
unfoldable pub missed_before_offer :
    ℕ → ℕ → Line → OfferEvent → Tombstone → World → World × List Act
missed_before_offer now id line e stone w =
    let row = base_row now id line e in
    let created = create row w.db in
    let ended = coalesce stone.ended_at row.ringing_at in
    let after =
      if stone.has_failed
      then (finalize_call_as_failed now id (some provider) (at_once ended) created).0
      else finalize_cancelled now id customer ended created in
    (
      record w {
        db = after;
        tombstones = set_tombstone line.type e.provider_call_id none w.tombstones;
      },
      settle_by_id id (if stone.has_failed then provider_error else cancelled)
          (if stone.has_failed then provider else customer) after,
    )

-- A second offer of a caller who has a call: recorded, and over at once.
unfoldable pub record_duplicate : ℕ → ℕ → Line → OfferEvent → World → World
record_duplicate now id line e w =
    let row = base_row now id line e in
    record w { db = finalize_cancelled now id system row.ringing_at (create row w.db) }

-- Who has the call on its arrival.
pub data Taken : Type 0 where
  by_nobody unreachable occupied : Taken
  by_agent : ℕ → Taken

abbrev taken_by : Option Member → Taken
taken_by none = by_nobody
taken_by (some m) = by_agent m.id

unfoldable pub take : ℕ → ℕ → ℕ → Around → Route → World → World × Taken
take now_ms now id around (to_owner owner) w =
    let (after, claim) = claim_agent_and_assign_call now true owner.id id w.db in
    if not (around.is_reachable owner.id)
    then (w, unreachable)
    else if claim.assigned
    then (record w { db = after }, by_agent owner.id)
    else (record w { db = after }, occupied)
take now_ms now id around (to_queue q) w =
    let (stored, (after, taken), m) =
      claim_for_new_call now_ms now (some q) id (around.members q.id) (w.order q.id) w.db in
    (record w { db = after; order = λ j. if j == q.id then stored else w.order j }, taken_by m)
take now_ms now id around (to_ivr flow_id q) w = (w, by_nobody)
take now_ms now id around nowhere w = (w, by_nobody)

abbrev line_route : Around → Line → List Agent → Route
line_route around line agents =
    if around.is_rejected
    then nowhere
    else route around.member_ids agents around.queues around.flows
        (record { owner_agent_id = line.owner_agent_id; inbound_queue_id = line.inbound_queue_id })

-- Where the handler stands before its last stage.
pub data Stage : Type 0 where
  over : Stage
  under_way : Route → Taken → Stage

-- `_handleIncomingCall` up to the consumer's verdict: an offer whose end came first, or of a caller who has a
-- call, goes no further.
unfoldable pub look : ℕ → ℕ → Line → OfferEvent → World → World × List Act × Bool
look now id line e w = elim (standing now (w.tombstones line.type e.provider_call_id)) [
  | some stone ↦
      let (after, acts) = missed_before_offer now id line e stone w in (after, acts, false)
  | none ↦
      if has_active_inbound line.tenant_id e.customer_address w.db.calls
      then (record_duplicate now id line e w, [], false)
      else (w, [], true)
]

-- The row and the claim.
unfoldable pub admit : ℕ → ℕ → ℕ → Line → OfferEvent → Around → World → World × Route × Taken
admit now_ms now id line e around w =
    let r = line_route around line w.db.agents in
    let (after, taken) =
      take now_ms now id around r (record w { db = create (routed_row now id line e r) w.db }) in
    (after, r, taken)

-- Both, undisturbed.
unfoldable pub begin : ℕ → ℕ → ℕ → Line → OfferEvent → Around → World → World × List Act × Stage
begin now_ms now id line e around w =
    let (looked, acts, goes_on) = look now id line e w in
    let (after, r, taken) = admit now_ms now id line e around looked in
    if goes_on then (after, [], under_way r taken) else (looked, acts, over)
