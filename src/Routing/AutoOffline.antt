-- ===== src/Routing/AutoOffline.antt =====
-- core/routing/AutoOfflinePolicy.js with core/routing/AgentMissedCallTracker.js: an agent who misses a
-- number of consecutive offers is taken offline. Redis' counters are a function on agent ids; their
-- expiry after 24 hours and Redis' failures are left out.
pub mod Laws
use callio.Prelude.{
  ℕ, suc, Bool, true, false, not, ◌&&◌, ◌||◌, Option, none, some, List, [], ◌∷◌, ◌==◌, ltb, any,
  if◌then◌else◌,
}
use callio.Store.Rows.{offline, Call, Db, is_active, is_id}
use callio.Store.Agents.{update_agent_availability}
use callio.Routing.Inbound.{Queue, get_queue, is_ring_all}

pub record Policy : Type 0 where
  pub enabled : Bool
  pub threshold : ℕ

-- `getAutoOfflineSettings` of TenantRepository, on a tenant's settings that hold a whole number, if any.
unfoldable pub auto_offline_settings : Bool → Option ℕ → Policy
auto_offline_settings on none = record { enabled = on; threshold = 3 }
auto_offline_settings on (some n) = record { enabled = on; threshold = if ltb 0 n then n else 3 }

-- The rows, the streak of each agent, and the announcements made so far, the latest first: an agent
-- taken offline, with their streak.
pub record World : Type 0 where
  pub db : Db
  pub streaks : ℕ → ℕ
  pub announced : List (ℕ × ℕ)

-- `hasAgentActiveCall`
unfoldable pub has_agent_active_call : ℕ → ℕ → List Call → Bool
has_agent_active_call agent_id exclude_call_id calls =
    any (λ c. is_id c.agent_id agent_id && (not (c.id == exclude_call_id) && is_active c.status))
      calls

unfoldable pub increment : ℕ → (ℕ → ℕ) → ℕ → ℕ
increment agent_id streaks a = if a == agent_id then suc (streaks a) else streaks a

unfoldable pub reset : ℕ → (ℕ → ℕ) → ℕ → ℕ
reset agent_id streaks a = if a == agent_id then 0 else streaks a

abbrev offers_to_one : Option Queue → Bool
offers_to_one none = false
offers_to_one (some q) = not (is_ring_all q.strategy)

-- Whether a miss in this queue counts: under RING_ALL nobody in particular missed the call.
unfoldable pub counts_in : List Queue → Option ℕ → Bool → Bool
counts_in queues queue_id any_queue = any_queue || offers_to_one (get_queue queues queue_id)

-- The flip at the threshold.
unfoldable pub take_offline : ℕ → World → World × Bool
take_offline agent_id w =
    let streak = suc (w.streaks agent_id) in
    let (db', flipped) = update_agent_availability agent_id offline w.db in
    let cleared = reset agent_id (increment agent_id w.streaks) in
    if flipped
    then (
      record { db = db'; streaks = cleared; announced = (agent_id, streak) ∷ w.announced },
      true,
    )
    else (record w { streaks = cleared }, false)

-- `recordMiss`
unfoldable pub record_miss :
    Policy → List Queue → Option ℕ → Bool → ℕ → Option ℕ → World → World × Bool
record_miss p queues queue_id any_queue call_id none w = (w, false)
record_miss p queues queue_id any_queue call_id (some agent_id) w =
    if not (counts_in queues queue_id any_queue)
    then (w, false)
    else if not p.enabled
    then (w, false)
    else if has_agent_active_call agent_id call_id w.db.calls
    then (w, false)
    else if ltb (suc (w.streaks agent_id)) p.threshold
    then (record w { streaks = increment agent_id w.streaks }, false)
    else take_offline agent_id w
