-- ===== src/Outbox/Tests.antt =====
-- Two consumers and their events, and the theorems there.
use callio.Prelude.{
  ◌&&◌, ℕ, zero, suc, ◌≡◌, refl, true, false, none, some, List, [], ◌∷◌, if◌then◌else◌,
}
use callio.Outbox.Repository.{
  Consumer, Delivery, enqueue, exists_by_dedupe_key, find_delivery, find_due, first_of, insert_due,
  is_due, is_served, mark_attempt_failed, mark_delivered, redeliver, sort_due, update_where,
  pending,
}
use callio.Outbox.Dispatcher.{
  Outcome, World, batch_size, deliver, deliver_all, fail_attempt, has_webhook, hold_lease,
  live_lease, next_delay, release_lease, tick,
}
use callio.Outbox.Dispatcher.Laws.{is_reached, settle, tick_settles_once}
use callio.Outbox.Dispatcher.Plan.{
  Step, empty_world, enqueues, in_plan, take_step, take_steps, ticks, retries_keep_the_plan,
}

dispatching : Unit {0}
unfolding enqueue exists_by_dedupe_key find_delivery find_due first_of insert_due is_due is_served
    mark_attempt_failed mark_delivered redeliver sort_due update_where deliver deliver_all
    fail_attempt has_webhook hold_lease live_lease next_delay release_lease tick take_step
    take_steps
dispatching = tt

abbrev consumers : List Consumer
consumers =
    record { id = 1; event_webhook_url = some "https://one.example/events"; is_active = true }
    ∷ record { id = 2; event_webhook_url = none; is_active = true }
    ∷ []

-- The first event gets a 503, the others are accepted.
abbrev outcome : ℕ → Outcome
outcome zero = record { at = 0; status = none; was_stopped = false }
outcome (suc zero) = record { at = 103; status = some 503; was_stopped = false }
outcome (suc (suc n)) = record { at = 104; status = some 204; was_stopped = false }

abbrev history : List Step
history =
    enqueues 100 1 "e-1" "call.ringing" (some "7:call.ringing")
    ∷ enqueues 100 1 "e-2" "call.ringing" (some "7:call.ringing")
    ∷ enqueues 101 1 "e-3" "call.answered" none
    ∷ ticks 102 "w-1" consumers outcome
    ∷ []

abbrev world : World
world = take_steps history empty_world

abbrev refused_event : Delivery
refused_event = record {
  id = 1;
  consumer_id = 1;
  event_id = "e-1";
  event_type = "call.ringing";
  dedupe_key = some "7:call.ringing";
  status = pending;
  attempts = 1;
  next_attempt_at = 108;
  delivered_at = none;
  updated_at = 103;
}

retries_keep_the_plan_example : in_plan refused_event ≡ true
unfolding dispatching
retries_keep_the_plan_example = retries_keep_the_plan history 1 refused_event refl

tick_settles_once_example :
    find_delivery 1 (tick 108 "w-1" consumers outcome world).outbox.rows
    ≡ some (
        if (hold_lease 108 "w-1" world.lease).1
          && is_reached 1 outcome (find_due 108 consumers batch_size world.outbox)
        then settle consumers (outcome 1) refused_event
        else refused_event)
unfolding dispatching
tick_settles_once_example =
    tick_settles_once 108 "w-1" consumers outcome world 1 refused_event refl refl

another_worker_waits : (hold_lease 110 "w-2" world.lease).1 ≡ false
unfolding dispatching
another_worker_waits = refl
