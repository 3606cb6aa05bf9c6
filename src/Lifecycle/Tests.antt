-- ===== src/Lifecycle/Tests.antt =====
-- A ringing call that is ended from two sides, and who may act on it, with the theorems there.
use callio.Cluster.Deadlines.{
  Entry, place, zrem, set, clear, due_entries, remove_all, claim, runs_of, tick,
}
use callio.Lifecycle.NetworkLoss.{
  drop, cancel, warn, end_lost, on_media_state, hear_media_state, goes_on, handle_run, handle_runs,
  Event, heard, ticked, handle,
}
use callio.Lifecycle.NetworkLoss.{active as audible}
use callio.Lifecycle.NetworkLoss.Pending.{silent_since, run, silence}
use callio.Lifecycle.NetworkLoss.Grace.{ends}
use callio.Prelude.{Bool, ℕ, ◌≡◌, ◌≤◌, ◌⊎◌, ◌↔◌, refl, true, false, none, some, List, [], ◌∷◌}
use callio.Store.Rows.{
  sip, Call, Db, completed, find_call, in_progress, inbound, put_call, queue, ringing, timeout,
  system, agent, update_call, active,
}
use callio.Store.Calls.{terminate_call_if_not_terminated}
use callio.Lifecycle.Termination.{
  Ending, broadcast, close_media, commit, end_call, end_notice, is_live, settle, free_agent,
  tell_provider, notify, update_queue,
}
use callio.Lifecycle.Termination.Once.{
  Move, announced_once, announcements, end_move, make, make_all,
}
use callio.Lifecycle.Access.{
  IsOwn, Tables, active_call_in_tenant, as_agent, as_supervisor, can_transfer, can_transfer_lem,
  is_offered,
}

lifecycle : Unit {0}
unfolding find_call put_call update_call terminate_call_if_not_terminated close_media commit
    end_call is_live settle announcements make make_all free_agent tell_provider notify update_queue
    active_call_in_tenant as_agent as_supervisor can_transfer is_offered
lifecycle = tt

abbrev ringing_call : Call
ringing_call = record {
  id = 7;
  tenant_id = 1;
  channel_id = some 1;
  channel = sip;
  customer_address = some "100";
  queue_id = some 2;
  agent_id = none;
  ivr_flow_id = none;
  provider_call_id = some "abc";
  state = some queue;
  direction = inbound;
  status = ringing;
  ringing_at = some 100;
  queued_at = some 100;
  offered_at = none;
  answered_at = none;
  ended_at = none;
  ringing_duration = 0;
  call_duration = 0;
  overflow_count = 0;
  termination_reason = none;
  terminated_by = none;
}

abbrev db : Db
db = record { calls = ringing_call ∷ []; agents = [] }

abbrev by_timeout : Ending
by_timeout = record {
  reason = timeout;
  terminated_by = system;
  failure = false;
  only_if_status = some ringing;
  provider = end_notice;
  media = broadcast;
  agent_goes_offline = false;
}

abbrev by_agent : Ending
by_agent = record by_timeout { reason = completed; terminated_by = agent; only_if_status = none }

abbrev both : List (ℕ × Move)
both = (120, end_move ringing_call by_timeout) ∷ (121, end_move ringing_call by_agent) ∷ []

the_first_announces : announcements 7 (make_all both db).1 ≡ 1
unfolding lifecycle
the_first_announces = refl

announced_once_example : announcements 7 (make_all both db).1 ≤ 1
announced_once_example = announced_once 7 both db

abbrev answered_call : Call
answered_call = record ringing_call { status = in_progress; state = some active; agent_id = some 4 }

abbrev answered_db : Db
answered_db = record db { calls = answered_call ∷ [] }

abbrev tables : Tables
tables = record { queues = record { id = 2; rings_all = true } ∷ []; is_member = λ q a. true }

can_transfer_lem_example :
    ((can_transfer 7 4 1 false answered_db ≡ some answered_call) ↔ (
      IsOwn 7 1 answered_db answered_call
      × ((◌≡◌ {A = Bool} false true) ⊎ (answered_call.agent_id ≡ some 4))))
    × (can_transfer 7 4 1 true answered_db ≡ as_supervisor 7 1 true answered_db)
can_transfer_lem_example = can_transfer_lem 7 4 1 false answered_call answered_db

abbrev by_due : Entry → Entry → Bool
by_due e f = true

abbrev silent : List (ℕ × Event)
silent =
    (1000, heard 7 audible)
    ∷ (1001, goes_on 0)
    ∷ (4990, heard 7 drop)
    ∷ (5000, goes_on 0)
    ∷ (20000, ticked)
    ∷ []

losses : Unit {0}
unfolding place zrem set clear due_entries remove_all claim runs_of tick cancel warn end_lost
    on_media_state hear_media_state handle_run handle_runs handle silent_since run silence ends
    find_call
losses = tt
