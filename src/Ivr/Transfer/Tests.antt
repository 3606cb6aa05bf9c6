-- ===== src/Ivr/Transfer/Tests.antt =====
-- A call that its flow sends to a queue where an agent is free, and the theorem there.
use callio.Prelude.{refl, Bool, true, false, none, some, [], ◌∷◌}
use callio.Store.Rows.{
  sip, Call, Db, available, coalesce, find_call, inbound, ivr, put_call, queue, ringing,
  update_call, in_progress,
}
use callio.Store.Agents.{reported_availability}
use callio.Store.Calls.{update_call_state}
use callio.Routing.Inbound.{Queue, availability_stats, find_owner, queue_stats, priority}
use callio.Routing.Coordinator.{Floor, Setup, with_db}
use callio.Ivr.Transfer.{
  Audio, CallMeta, TransferData, agent_availability_of, handle, other_queue, sends_off,
  stats_availability, target_availability, target_id_of,
}
use callio.Ivr.Transfer.Outcome.{Transferred, handle-Transferred}

transferring : Unit {0}
unfolding find_call put_call update_call update_call_state reported_availability availability_stats
    find_owner queue_stats agent_availability_of sends_off stats_availability target_availability
transferring = tt

abbrev sales : Queue
sales = record { id = 3; tenant_id = 1; strategy = priority; is_active = true }

abbrev ivr_call : Call
ivr_call = record {
  id = 7;
  tenant_id = 1;
  channel_id = some 1;
  channel = sip;
  customer_address = some "100";
  queue_id = some 2;
  agent_id = none;
  ivr_flow_id = some 4;
  provider_call_id = none;
  state = some ivr;
  direction = inbound;
  status = in_progress;
  ringing_at = some 100;
  queued_at = none;
  offered_at = none;
  answered_at = some 101;
  ended_at = none;
  ringing_duration = 0;
  call_duration = 0;
  overflow_count = 0;
  termination_reason = none;
  terminated_by = none;
}

abbrev db : Db
db = record {
  calls = ivr_call ∷ [];
  agents =
      record {
        id = 5;
        tenant_id = 1;
        is_supervisor = false;
        availability = available;
        busy_call_id = none;
        is_deleted = false;
      }
      ∷ [];
}

abbrev setup : Setup
setup = record {
  queues = sales ∷ [];
  memberships = λ q. (5, some 1) ∷ [];
  policy = λ t. record { enabled = true; threshold = 3 };
  now = 120;
  now_ms = 120000;
}

abbrev floor : Floor
floor = record {
  world = record { db = db; streaks = λ a. 0; announced = [] };
  histories = λ c. record { declined = []; missed = [] };
  stored = λ q. record { order = []; meta = []; seq = 0 };
  events = [];
}

-- The session is stopped by the statement of `updateCallState`.
abbrev stop_session : Bool → Floor → Floor
stop_session transferred f = with_db (update_call_state 120 7 (some queue) ringing f.world.db).0 f

abbrev no_audio : Audio
no_audio = record { of_file = λ id. none; of_queue = λ id. none }

abbrev to_sales : TransferData
to_sales = record {
  is_to_agent = false;
  target_id = some 3;
  offline_action = none;
  offline_audio_file_id = none;
  busy_action = none;
  busy_audio_file_id = none;
}

abbrev from_line : CallMeta
from_line = record { tenant_id = some 1; queue_id = some 2 }

handle-Transferred_example :
    Transferred 7 120
      (coalesce (other_queue false (target_id_of from_line to_sales) (some 2)) (some 2))
      (record ivr_call { state = some queue; status = ringing })
      (stop_session true floor).world.db
      (handle setup no_audio stop_session 7 from_line to_sales floor).0.world.db
unfolding transferring
handle-Transferred_example =
    handle-Transferred setup no_audio stop_session 7 from_line to_sales floor
      (record ivr_call { state = some queue; status = ringing }) refl refl
