-- ===== src/Channels/Tests.antt =====
-- Calls on one line whose provider's reports come early, late or crossed, with the theorems there.
use callio.Prelude.{arith, ℕ, ◌≡◌, ◌≤◌, refl, true, false, none, some, List, [], ◌∷◌}
use callio.Store.Rows.{
  Call, Db, completed, no_answer, find_call, inbound, put_call, queue, ringing, sip, agent,
  provider, terminated, update_call,
}
use callio.Store.Rows.Laws.{HoldsAt}
use callio.Store.Calls.{
  terminate_call_if_not_terminated, fill_times, finalize_status, finalize_from_webhook,
  finalize_call_as_failed, correct_no_answer_if_answered,
}
use callio.Store.Calls.Patches.{update_timestamp, find_by_provider_call_id}
use callio.Store.Calls.Budget.{budget}
use callio.Lifecycle.Termination.{
  Ending, broadcast, close_media, commit, end_call, is_live, no_notice, settle, free_agent,
  tell_provider, notify, update_queue,
}
use callio.Lifecycle.Termination.Once.{make, end_move, announcements}
use callio.Channels.Lines.{Line, accepts, belongs_to, settle_acts}
use callio.Channels.Ended.{
  EndEvent, call_duration_sec, effective_answered_at, effective_ended_at, end_reason, finalize,
  handle_end, missed_offer, patch_ended_at, patch_failure, ringing_duration_sec, call_ended,
}
use callio.Channels.Progress.{StatusEvent, handle_status, status_changed}
use callio.Channels.Announcing.{Happening, announced, happen, happen_all, move, reported_end}
use callio.Channels.Announcing.Spending.{announced_within_budget}
use callio.Channels.Apart.{other_lines_untouched}
use callio.Channels.Crossing.{InProgress, accepted_revives, failed_end_announces_again}
use callio.Channels.Healing.{Contradicts, handled_end_consistent}
use callio.Channels.Over.{IsFinal, handled_end_is_over}
use callio.Channels.Offered.{
  look, admit, standing, has_active_inbound, Around, OfferEvent, World, over, under_way,
}
use callio.Channels.Offered.Arrival.{end_arrives, finish, offer_arrives}
use callio.Channels.Offered.Silence.{IsMissed, end_beats_offer}
use callio.Channels.Offered.Meanwhile.{end_during_offer}

reports : Unit {0}
unfolding find_call put_call update_call terminate_call_if_not_terminated close_media commit
    end_call is_live settle announcements make free_agent tell_provider notify update_queue
    fill_times finalize_status finalize_from_webhook finalize_call_as_failed
    correct_no_answer_if_answered update_timestamp settle_acts call_duration_sec
    effective_answered_at effective_ended_at end_reason finalize handle_end missed_offer
    patch_ended_at patch_failure ringing_duration_sec announced happen happen_all
    find_by_provider_call_id belongs_to
reports = tt

abbrev line : Line
line = record {
  id = 1;
  tenant_id = 1;
  type = sip;
  owner_agent_id = none;
  inbound_queue_id = some 2;
}

abbrev ringing_call : Call
ringing_call = record {
  id = 7;
  tenant_id = 1;
  channel_id = some 1;
  channel = sip;
  customer_address = some "100";
  queue_id = some 2;
  agent_id = some 4;
  ivr_flow_id = none;
  provider_call_id = some "abc";
  state = some queue;
  direction = inbound;
  status = ringing;
  ringing_at = some 100;
  queued_at = some 100;
  offered_at = some 100;
  answered_at = none;
  ended_at = none;
  ringing_duration = 0;
  call_duration = 0;
  overflow_count = 0;
  termination_reason = none;
  terminated_by = none;
}

abbrev db : Db
db = record { calls = ringing_call ∷ []; agents = [] }

abbrev by_agent_end : Ending
by_agent_end = record {
  reason = completed;
  terminated_by = agent;
  failure = false;
  only_if_status = none;
  provider = no_notice;
  media = broadcast;
  agent_goes_offline = false;
}

abbrev plain_end : EndEvent
plain_end = record {
  provider_call_id = "abc";
  is_failed = false;
  answered_at = none;
  ended_at = some 109;
  duration_sec = none;
  has_errors = false;
  failure_terminated_by = provider;
}

abbrev failed_end : EndEvent
failed_end = record plain_end { is_failed = true; has_errors = true }

abbrev crossed : List (ℕ × Happening)
crossed =
    (108, move (end_move ringing_call by_agent_end))
    ∷ (110, reported_end ringing_call failed_end)
    ∷ (111, reported_end ringing_call plain_end)
    ∷ []

-- An inbound call that rang for nine seconds was not answered.
rang_nine : end_reason 110 ringing_call plain_end ≡ no_answer
unfolding reports
rang_nine = refl

-- A failure that follows the agent's end announces the call's end again, and what comes then does not.
announced_twice : announced 7 (happen_all crossed db).acts ≡ 2
unfolding reports
announced_twice = refl

announced_within_budget_example : announced 7 (happen_all crossed db).acts ≤ budget 7 db
announced_within_budget_example = announced_within_budget 7 crossed db

abbrev ended_call : Call
ended_call = record ringing_call {
  status = terminated;
  state = none;
  termination_reason = some no_answer;
}

abbrev ended_db : Db
ended_db = record db { calls = ended_call ∷ [] }

failed_end_announces_again_example :
    announced 7 (handle_end 110 ringing_call failed_end ended_db).acts ≡ 1
unfolding reports
failed_end_announces_again_example =
    failed_end_announces_again 110 ringing_call failed_end ended_call ended_db refl refl refl

abbrev acceptance : StatusEvent
acceptance = record { provider_call_id = "abc"; status = accepts; at = some 120 }

accepted_revives_example :
    HoldsAt 7 InProgress
      (handle_status 121 ringing_call (record acceptance { status = accepts }) ended_db).db
unfolding reports
accepted_revives_example =
    accepted_revives 121 ringing_call acceptance ended_call ended_db refl refl refl refl

handled_end_is_over_example : HoldsAt 7 IsFinal (handle_end 110 ringing_call plain_end db).db
unfolding reports
handled_end_is_over_example = handled_end_is_over 110 ringing_call plain_end ringing_call db refl

-- The provider knows of an answer that the row of a missed call lacks.
abbrev answered_end : EndEvent
answered_end = record plain_end { answered_at = some 104 }

abbrev healed_call : Call
healed_call = record ended_call {
  ended_at = some 109;
  answered_at = some 104;
  call_duration = 5;
  ringing_duration = 4;
  termination_reason = some completed;
}

handled_end_consistent_example : ¬ Contradicts healed_call
unfolding reports
handled_end_consistent_example =
    handled_end_consistent 110 ringing_call answered_end healed_call ended_db refl refl

abbrev other_line : Line
other_line = record line { id = 9 }

other_lines_untouched_example :
    (find_call 7 (call_ended 110 other_line plain_end db).db.calls ≡ some ringing_call)
    × (find_call 7 (status_changed 110 other_line acceptance db).db.calls ≡ some ringing_call)
unfolding reports
other_lines_untouched_example =
    other_lines_untouched 110 other_line plain_end acceptance ringing_call db (refl, tt) refl refl

abbrev offer : OfferEvent
offer = record { provider_call_id = "abc"; customer_address = some "100"; offered_at = some 100 }

abbrev around : Around
around = record {
  member_ids = λ q. [];
  queues = [];
  flows = [];
  members = λ q. [];
  is_reachable = λ a. true;
  is_rejected = false;
  is_accepted = true;
}

abbrev quiet : World
quiet = record {
  db = record { calls = []; agents = [] };
  tombstones = λ type id. none;
  order = λ q. record { order = []; meta = []; seq = 0 };
}

-- The offer of call 8 arrives after its end.
end_beats_offer_example :
    ((offer_arrives 111000 111 8 line offer around (end_arrives 110 line plain_end quiet).0).2
      ≡ over)
    × IsMissed 8 quiet.db (
      (offer_arrives 111000 111 8 line offer around (end_arrives 110 line plain_end quiet).0).0,
      (offer_arrives 111000 111 8 line offer around (end_arrives 110 line plain_end quiet).0).1,
    )
unfolding reports standing
end_beats_offer_example =
    end_beats_offer 111000 110 111 8 line plain_end offer around quiet refl (omega arith) refl refl
      refl

-- The end of call 8 comes after its offer's first look.
end_during_offer_example :
    let (there, r, taken) =
      admit 111000 111 8 line offer around (end_arrives 110 line plain_end quiet).0 in
    IsMissed 8 there.db (finish 112 8 line offer around (under_way r taken) there)
unfolding reports look standing has_active_inbound
end_during_offer_example =
    end_during_offer 111000 109 110 111 112 8 line plain_end offer around quiet refl refl
      (omega arith) refl refl (omega arith)
