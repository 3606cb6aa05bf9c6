-- ===== src/Ivr/Transfer.antt =====
-- core/ivr/IvrTransferHandler.js: what becomes of a call that its IVR flow hands over. How a session is
-- stopped (core/ivr/IvrCoordinator.js) and which audio an asset has are parameters; the agent leg's offer, the
-- lease of the call's inbox, the logs and failures of the database are left out.
pub mod Outcome
mod Tests
use callio.Prelude.{
  ℕ, String, Bool, true, false, not, ◌&&◌, ◌||◌, Option, none, some, List, [], ◌∷◌, ◌++◌, ◌==◌,
  ◌===◌, ltb, find, map, get_or, if◌then◌else◌,
}
use callio.Store.Rows.{
  Agent, Availability, Call, Db, available, on_call, offline, coalesce, find_call, is_null,
  update_call,
}
use callio.Store.Calls.{enter_queue}
use callio.Store.Agents.{reported_availability}
use callio.Routing.Inbound.{Queue, Stats, find_owner, queue_stats}
use callio.Routing.Coordinator.{Floor, Setup, emit_queue_update, with_db}
use callio.Routing.Coordinator.Offers.{Target, assign_transferred_call, to_agent, to_queue}

-- The data of the transfer node. An id is none where it is 0, too.
pub record TransferData : Type 0 where
  pub is_to_agent : Bool
  pub target_id : Option ℕ
  pub offline_action : Option String
  pub offline_audio_file_id : Option ℕ
  pub busy_action : Option String
  pub busy_audio_file_id : Option ℕ

pub record CallMeta : Type 0 where
  pub tenant_id : Option ℕ
  pub queue_id : Option ℕ

pub data TargetAvailability : Type 0 where
  is_available is_busy is_offline : TargetAvailability

-- What the caller hears, and what others are told.
pub data Effect : Type 0 where
  plays holds_with : String → Effect
  holds_with_tone replays terminated transferred : Effect

pub record Audio : Type 0 where
  pub of_file : ℕ → Option String
  pub of_queue : ℕ → Option String

abbrev availability_of : Availability → TargetAvailability
availability_of available = is_available
availability_of on_call = is_busy
availability_of offline = is_offline

abbrev same_tenant : ℕ → Option ℕ → Bool
same_tenant id none = false
same_tenant id (some t) = id == t

unfoldable pub agent_availability_of : Option ℕ → Option Agent → TargetAvailability
agent_availability_of tenant_id none = is_offline
agent_availability_of tenant_id (some a) =
    if same_tenant a.tenant_id tenant_id
    then availability_of (reported_availability a)
    else is_offline

unfoldable pub stats_availability : Stats → TargetAvailability
stats_availability stats =
    if ltb 0 stats.available
    then is_available
    else if ltb 0 stats.on_call
    then is_busy
    else is_offline

abbrev find_agent_by : Option ℕ → List Agent → Option Agent
find_agent_by none agents = none
find_agent_by (some id) agents = find_owner id agents

abbrev find_queue_for : Option ℕ → Option ℕ → List Queue → Option Queue
find_queue_for none tenant_id queues = none
find_queue_for (some id) tenant_id queues =
    find (λ (q : Queue). q.id == id && same_tenant q.tenant_id tenant_id) queues

-- `_targetAvailability`
unfoldable pub target_availability : Setup → Bool → Option ℕ → Option ℕ → Db → TargetAvailability
unfolding agent_availability_of stats_availability
target_availability s is_to_agent target_id tenant_id db =
    if is_to_agent
    then agent_availability_of tenant_id (find_agent_by target_id db.agents)
    else stats_availability (
        queue_stats (λ q. map (λ m. m.0) (s.memberships q)) db.agents
          (find_queue_for target_id tenant_id s.queues))

abbrev is_action : Option String → String → String → Bool
is_action action default' text = get_or action default' === text

-- Whether the caller is sent off: an offline target without "queue", a busy one with "hangup" or "replay".
unfoldable pub sends_off : TargetAvailability → TransferData → Bool
sends_off is_available d = false
sends_off is_offline d = not (is_action d.offline_action "hangup" "queue")
sends_off is_busy d =
    is_action d.busy_action "wait" "hangup" || is_action d.busy_action "wait" "replay"

abbrev sent_off_replays : TargetAvailability → TransferData → Bool
sent_off_replays is_offline d = is_action d.offline_action "hangup" "replay"
sent_off_replays _ d = is_action d.busy_action "wait" "replay"

abbrev sent_off_audio : TargetAvailability → TransferData → Option ℕ
sent_off_audio is_offline d = d.offline_audio_file_id
sent_off_audio _ d = d.busy_audio_file_id

abbrev play_effects : Option String → List Effect
play_effects none = []
play_effects (some a) = plays a ∷ []

abbrev resolve : (ℕ → Option String) → Option ℕ → Option String
resolve of none = none
resolve of (some id) = of id

-- `_playOnceAndAct`
unfoldable pub play_once_and_act :
    Audio → (Bool → Floor → Floor) → Option ℕ → Bool → Floor → Floor × List Effect
play_once_and_act audio stop_session file_id again f =
    let played = play_effects (resolve audio.of_file file_id) in
    if again then (f, played ++ replays ∷ []) else (stop_session false f, played ++ terminated ∷ [])

-- `updateTimestamp(callId, 'ringing_at')`
unfoldable pub reset_ringing_at : ℕ → ℕ → Db → Db × Bool
reset_ringing_at now id = update_call id (λ c. true) (λ c. record c { ringing_at = some now })

-- The queue that a node names, where it is not the call's.
abbrev pub other_queue : Bool → Option ℕ → Option ℕ → Option ℕ
other_queue is_to_agent none queue_id = none
other_queue is_to_agent (some t) none = if is_to_agent then none else some t
other_queue is_to_agent (some t) (some q) = if is_to_agent || t == q then none else some t

-- The session stopped and the call put in its queue.
unfoldable pub enter : Setup → (Bool → Floor → Floor) → ℕ → Option ℕ → Floor → Floor
unfolding reset_ringing_at
enter s stop_session call_id queue_id f =
    let stopped = stop_session true f in
    let ringing = (reset_ringing_at s.now call_id stopped.world.db).0 in
    with_db (enter_queue s.now call_id queue_id ringing).0 stopped

abbrev hold_effect : Option String → Effect
hold_effect none = holds_with_tone
hold_effect (some a) = holds_with a

abbrev is_busy_now : TargetAvailability → Bool
is_busy_now is_busy = true
is_busy_now _ = false

-- The hold music of a tenant's call: the node's busy audio, else the queue's.
unfoldable pub hold_music :
    Audio → TargetAvailability → TransferData → Option ℕ → Option ℕ → List Effect
hold_music audio a d none queue_id = []
hold_music audio a d (some tenant_id) queue_id =
    let override = if is_busy_now a then resolve audio.of_file d.busy_audio_file_id else none in
    hold_effect (coalesce override (resolve audio.of_queue queue_id)) ∷ []

abbrev pub target_of : Bool → Option ℕ → Target
target_of true (some id) = to_agent id
target_of true none = to_queue none
target_of false id = to_queue id

-- The end of `handle`: the assignment, where the call's row is there.
unfoldable pub assign : Setup → ℕ → Bool → Option ℕ → Option ℕ → Floor → Floor × Bool
assign s call_id is_to_agent target_id none f = (f, false)
assign s call_id is_to_agent target_id (some tenant_id) f =
    elim (find_call call_id f.world.db.calls) [
      | some c ↦
          assign_transferred_call s call_id c.queue_id tenant_id (target_of is_to_agent target_id) f
      | none ↦ (if is_to_agent then f else emit_queue_update s tenant_id target_id f, false)
    ]

abbrev pub target_id_of : CallMeta → TransferData → Option ℕ
target_id_of meta d = if d.is_to_agent then d.target_id else coalesce d.target_id meta.queue_id

-- `handle`
unfoldable pub handle :
    Setup
    → Audio
    → (Bool → Floor → Floor)
    → ℕ
    → CallMeta
    → TransferData
    → Floor
    → Floor × List Effect
unfolding play_once_and_act enter hold_music assign
handle s audio stop_session call_id meta d f =
    let target_id = target_id_of meta d in
    let a = target_availability s d.is_to_agent target_id meta.tenant_id f.world.db in
    let hold_queue = if d.is_to_agent then meta.queue_id else target_id in
    let entered =
      enter s stop_session call_id (other_queue d.is_to_agent target_id meta.queue_id) f in
    let given = (assign s call_id d.is_to_agent target_id meta.tenant_id entered).0 in
    if sends_off a d
    then play_once_and_act audio stop_session (sent_off_audio a d) (sent_off_replays a d) f
    else (given, hold_music audio a d meta.tenant_id hold_queue ++ transferred ∷ [])
