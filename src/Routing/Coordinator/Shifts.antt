-- ===== src/Routing/Coordinator/Shifts.antt =====
-- core/routing/AgentAssignmentCoordinator.js: what an agent, or a supervisor, sets, and the safety nets that
-- release agents whose call is over.
pub mod Access
use callio.Prelude.{
  ℕ, zero, suc, Bool, true, false, not, ◌&&◌, ◌||◌, Option, none, some, List, [], ◌∷◌, ◌==◌, length,
  if◌then◌else◌,
}
use callio.Store.Rows.{
  Availability, available, on_call, offline, Agent, Call, Db, is_active, is_null, find_call,
}
use callio.Store.Agents.{reported_availability, release_from_call, update_agent_availability}
use callio.Routing.Members.{is_available_status}
use callio.Routing.QueueOrder.{distinct_from}
use callio.Routing.Inbound.{find_owner}
use callio.Routing.Coordinator.{
  Floor, Setup, agent_availability, broadcast_current, drain_for_tenant, emit, emit_agent_queues,
  with_db,
}

abbrev pub is_settable : Availability → Bool
is_settable on_call = false
is_settable _ = true

abbrev pub is_supervisor_of : ℕ → Option Agent → Bool
is_supervisor_of tenant_id none = false
is_supervisor_of tenant_id (some a) = a.is_supervisor && a.tenant_id == tenant_id

-- The agent whose shift is set, if the actor may: their own, or as a supervisor of the tenant.
unfoldable pub settable_agent : ℕ → ℕ → ℕ → List Agent → Option Agent
settable_agent tenant_id actor_id target_id agents = elim (find_owner target_id agents) [
  | none ↦ none
  | some a ↦
      if a.tenant_id == tenant_id
        && (actor_id == target_id || is_supervisor_of tenant_id (find_owner actor_id agents))
      then some a
      else none
]

-- What is set for an agent who may be: their reported status, and the tenant's queues drained if they are free.
unfoldable pub set_shift : Setup → ℕ → Agent → Availability → Floor → Floor × Option Availability
set_shift s tenant_id target value f =
    let db = (update_agent_availability target.id value f.world.db).0 in
    let reported = if is_null target.busy_call_id then value else on_call in
    let told = emit (agent_availability target.id reported) (with_db db f) in
    let drained =
      if is_available_status reported then (drain_for_tenant s tenant_id told).0 else told in
    (emit_agent_queues s tenant_id target.id drained, some reported)

unfoldable pub set_availability :
    Setup → ℕ → ℕ → ℕ → Availability → Floor → Floor × Option Availability
unfolding settable_agent set_shift
set_availability s tenant_id actor_id target_id value f =
    if not (is_settable value)
    then (f, none)
    else elim (settable_agent tenant_id actor_id target_id f.world.db.agents) [
      | none ↦ (f, none)
      | some target ↦ set_shift s tenant_id target value f
    ]

abbrev pub is_over : Option Call → Bool
is_over none = true
is_over (some c) = not (is_active c.status)

abbrev is_supervisor_somewhere : Option Agent → Bool
is_supervisor_somewhere none = false
is_supervisor_somewhere (some a) = a.is_supervisor

-- The release in `syncAgentAvailability`: by the agent's own resync, of a call that is over.
unfoldable pub release_if_over : ℕ → Agent → Db → Db
release_if_over actor_id target db = elim target.busy_call_id [
  | none ↦ db
  | some call_id ↦
      if actor_id == target.id && is_over (find_call call_id db.calls)
      then (release_from_call target.id call_id db).0
      else db
]

abbrev reported_or : Option Agent → Availability → Availability
reported_or none a = a
reported_or (some a) b = reported_availability a

unfoldable pub sync_agent : Setup → ℕ → ℕ → Agent → Floor → Floor
unfolding release_if_over
sync_agent s tenant_id actor_id target f =
    let db = release_if_over actor_id target f.world.db in
    let now = reported_or (find_owner target.id db.agents) (reported_availability target) in
    let told = emit (agent_availability target.id now) (with_db db f) in
    let (drained, assigned) = drain_for_tenant s tenant_id told in
    if is_available_status now
    then (if assigned then drained else emit_agent_queues s tenant_id target.id drained)
    else told

unfoldable pub sync_agent_availability : Setup → ℕ → ℕ → ℕ → Floor → Floor
unfolding sync_agent
sync_agent_availability s tenant_id actor_id target_id f =
    elim (find_owner target_id f.world.db.agents) [
      | none ↦ f
      | some target ↦
          if target.tenant_id == tenant_id
            && (actor_id == target_id
                || is_supervisor_somewhere (find_owner actor_id f.world.db.agents))
          then sync_agent s tenant_id actor_id target f
          else f
    ]

-- `findHeldByEndedCalls`: the agent with the call.
unfoldable pub held_by_ended_calls : Db → List Agent → List (Agent × ℕ)
held_by_ended_calls db [] = []
held_by_ended_calls db (a ∷ rest) = elim a.busy_call_id [
  | none ↦ held_by_ended_calls db rest
  | some call_id ↦
      if is_over (find_call call_id db.calls)
      then (a, call_id) ∷ held_by_ended_calls db rest
      else held_by_ended_calls db rest
]

unfoldable pub first_held : ℕ → List (Agent × ℕ) → List (Agent × ℕ)
first_held zero xs = []
first_held (suc n) [] = []
first_held (suc n) (x ∷ xs) = x ∷ first_held n xs

-- The releases, with the tenants of the agents who were released.
unfoldable pub release_held : List (Agent × ℕ) → Floor → Floor × List ℕ
release_held [] f = (f, [])
release_held ((a, call_id) ∷ rest) f =
    let (db, released) = release_from_call a.id call_id f.world.db in
    let told = (broadcast_current a.id (with_db db f)).0 in
    let (g, tenants) = release_held rest (if released then told else f) in
    (g, if released then a.tenant_id ∷ tenants else tenants)

unfoldable pub drain_tenants : Setup → List ℕ → Floor → Floor
drain_tenants s [] f = f
drain_tenants s (t ∷ ts) f = drain_tenants s ts (drain_for_tenant s t f).0

unfoldable pub release_agents_of_ended_calls : Setup → Floor → Floor × ℕ
unfolding held_by_ended_calls first_held release_held drain_tenants
release_agents_of_ended_calls s f =
    let held = first_held 200 (held_by_ended_calls f.world.db f.world.db.agents) in
    let (g, tenants) = release_held held f in
    (drain_tenants s (distinct_from [] tenants) g, length held)
