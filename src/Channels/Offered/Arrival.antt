-- ===== src/Channels/Offered/Arrival.antt =====
-- The last stage of `_handleIncomingCall` in core/channels/ChannelIngress.js, and what arrives first: an
-- offer or an end.
use callio.Prelude.{ℕ, ◌+◌, Option, none, some, List, [], ◌∷◌, ◌++◌, map, get_or, if◌then◌else◌}
use callio.Store.Rows.{
  cancelled, rejected, busy, no_answer, ringing, TerminationReason, system, customer,
}
use callio.Store.Calls.{mark_ivr_auto_accepted, assign_call_to_agent_if_unassigned}
use callio.Store.Calls.Patches.{answered_stamp, update_timestamp, find_by_provider_call_id}
use callio.Lifecycle.Termination.{
  Ending, Notice, reject_notice, end_notice, busy_notice, end_by_id, queues_drained, queue_updated,
}
use callio.Routing.Members.{Member}
use callio.Routing.Inbound.{Queue, Route, to_owner, to_ivr, nowhere, is_ring_all, ring_all_targets}
use callio.Channels.Lines.{
  Line, Act, belongs_to, effect, customer_joined, offered_to, offered_to_all, waiting_told,
  line_ring_set, ivr_started, settle_by_id, provider_ending,
}
use callio.Channels.Ended.{EndEvent, handle_end}
use callio.Channels.Offered.{
  World, OfferEvent, Around, Stage, over, under_way, Taken, unreachable, occupied, by_agent,
  tombstone_ttl_seconds, standing, set_tombstone, finalize_cancelled, begin, queue_of,
}

abbrev pub refusal : TerminationReason → Notice → Ending
refusal reason notice = record (provider_ending reason system) { provider = notice }

unfoldable pub end_at : ℕ → ℕ → Ending → World → World × List Act
end_at now id o w =
    let (after, es, won) = end_by_id now id o w.db in (record w { db = after }, map effect es)

-- `_lineMissed`
unfoldable pub line_missed : ℕ → ℕ → ℕ → Ending → World → World × List Act
line_missed now id owner_id o w =
    end_at now id o (record w { db = (assign_call_to_agent_if_unassigned now id owner_id w.db).0 })

-- The part of an IVR call: the system answers it.
unfoldable pub start_ivr : ℕ → ℕ → ℕ → Around → World → World × List Act
start_ivr now id flow_id around w =
    if around.is_accepted
    then (
      record w { db = update_timestamp id answered_stamp now (mark_ivr_auto_accepted id w.db).0 },
      ivr_started id flow_id ∷ [],
    )
    else (w, [])

abbrev queue_told : ℕ → Option Queue → List Act
queue_told tenant_id none = []
queue_told tenant_id (some q) = effect (queue_updated tenant_id q.id) ∷ []

abbrev owner_timer : ℕ → Route → List Act
owner_timer id (to_owner owner) = line_ring_set id ∷ []
owner_timer id _ = []

abbrev ids : List Member → List ℕ
ids [] = []
ids (m ∷ ms) = m.id ∷ ids ms

abbrev queue_offer : ℕ → ℕ → Around → Option Queue → List Act
queue_offer tenant_id id around none = waiting_told id ∷ effect (queues_drained tenant_id) ∷ []
queue_offer tenant_id id around (some q) =
    if is_ring_all q.strategy
    then offered_to_all id (ids (ring_all_targets (around.members q.id))) ∷ []
    else waiting_told id ∷ effect (queues_drained tenant_id) ∷ []

-- Somebody is rung, or the call waits.
unfoldable pub ring_someone : ℕ → ℕ → Around → Route → Taken → List Act
ring_someone tenant_id id around r (by_agent a) =
    (offered_to id a ∷ owner_timer id r) ++ queue_told tenant_id (queue_of r)
ring_someone tenant_id id around r _ =
    queue_offer tenant_id id around (queue_of r) ++ queue_told tenant_id (queue_of r)

-- What is left where no end came meanwhile.
unfoldable pub proceed : ℕ → ℕ → Line → Around → Route → Taken → World → World × List Act
proceed now id line around nowhere taken w = end_at now id (refusal rejected reject_notice) w
proceed now id line around (to_owner owner) unreachable w =
    line_missed now id owner.id (refusal no_answer reject_notice) w
proceed now id line around (to_owner owner) occupied w =
    line_missed now id owner.id (refusal busy busy_notice) w
proceed now id line around (to_ivr flow_id q) taken w =
    let (after, acts) = start_ivr now id flow_id around w in (after, customer_joined id ∷ acts)
proceed now id line around r taken w =
    (w, customer_joined id ∷ ring_someone line.tenant_id id around r taken)

-- `_handleIncomingCall` from the consumer's verdict and the second look at the tombstone.
unfoldable pub finish : ℕ → ℕ → Line → OfferEvent → Around → Stage → World → World × List Act
finish now id line e around over w = (w, [])
finish now id line e around (under_way r taken) w =
    if around.is_rejected
    then end_at now id (refusal rejected reject_notice) w
    else elim (standing now (w.tombstones line.type e.provider_call_id)) [
      | none ↦ proceed now id line around r taken w
      | some stone ↦
          let after = finalize_cancelled now id customer (some (get_or e.offered_at now)) w.db in
          (
            record w {
              db = after;
              tombstones = set_tombstone line.type e.provider_call_id none w.tombstones;
            },
            settle_by_id id cancelled customer after,
          )
    ]

-- `inboundCall`, for the worker that claims the call's id, up to its last stage.
unfoldable pub offer_arrives :
    ℕ → ℕ → ℕ → Line → OfferEvent → Around → World → World × List Act × Stage
offer_arrives now_ms now id line e around w =
    elim (find_by_provider_call_id e.provider_call_id line.type w.db.calls) [
      | some c ↦ (w, [], over)
      | none ↦ begin now_ms now id line e around w
    ]

-- `setnx` of a tombstone.
unfoldable pub leave_tombstone : ℕ → Line → EndEvent → World → World
leave_tombstone now line e w = elim (standing now (w.tombstones line.type e.provider_call_id)) [
  | some stone ↦ w
  | none ↦ record w {
    tombstones =
        set_tombstone line.type e.provider_call_id
          (some (record {
            has_failed = e.is_failed;
            ended_at = e.ended_at;
            expires_at = now + tombstone_ttl_seconds;
          }))
          w.tombstones;
  }
]

-- `_handleCallEnded` from its last look for the row, where nothing comes in between.
unfoldable pub end_arrives : ℕ → Line → EndEvent → World → World × List Act
end_arrives now line e w = elim (find_by_provider_call_id e.provider_call_id line.type w.db.calls) [
  | none ↦ (leave_tombstone now line e w, [])
  | some c ↦
      let done = handle_end now c e w.db in
      if belongs_to c line then (record w { db = done.db }, done.acts) else (w, [])
]

-- `_lineRingExpired`, the deadline of a personal line that rings.
unfoldable pub line_ring_expired : ℕ → ℕ → World → World × List Act
line_ring_expired now id w =
    end_at now id (record (refusal no_answer end_notice) { only_if_status = some ringing }) w
