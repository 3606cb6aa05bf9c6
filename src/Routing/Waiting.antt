-- ===== src/Routing/Waiting.antt =====
-- `#waitExpired` and `#handoverExpired` of core/routing/QueueTimeoutService.js, on a row that the scan
-- read, with the overflow queue of its queue. The ticks, their lock and the scans' batches are left out.
pub mod Bound
use callio.Prelude.{
  ℕ, Bool, true, false, not, ◌&&◌, Option, none, some, List, [], ◌∷◌, ◌==◌, ltb, is_some,
  if◌then◌else◌,
}
use callio.Store.Rows.{Call, Db, is_id, is_inbound, ringing, in_progress, timeout, system}
use callio.Store.Calls.{overflow_to_queue, return_handover_to_queue, expire_handover}
use callio.Lifecycle.Termination.{Ending, Effect, end_notice, terminate_notice, broadcast, end_call}
use callio.Routing.Inbound.{Queue, get_queue}

pub data Outcome : Type 0 where
  call_overflowed : ℕ → ℕ → Outcome
  offer_passed : ℕ → ℕ → Outcome
  call_ended : List Effect → Outcome

abbrev pub max_overflows : ℕ
max_overflows = 3

-- The queue that the call may overflow to, before its tenant is compared.
unfoldable pub overflow_queue : List Queue → Option ℕ → Call → Option Queue
overflow_queue queues none call = none
overflow_queue queues (some q) call =
    if not (is_id call.queue_id q) && ltb call.overflow_count max_overflows
    then get_queue queues (some q)
    else none

abbrev pub of_tenant : ℕ → Option Queue → Option Queue
of_tenant t none = none
of_tenant t (some q) = if q.tenant_id == t then some q else none

-- The scan joins the call's queue, so a row without a queue is not read.
unfoldable pub move_to : ℕ → Queue → Call → Db → Db × Bool
move_to now q call db = elim call.queue_id [
  | none ↦ (db, false)
  | some from ↦ overflow_to_queue now call.id from q.id call.agent_id db
]

abbrev pub wait_ending : Ending
wait_ending = record {
  reason = timeout;
  terminated_by = system;
  failure = false;
  only_if_status = some ringing;
  provider = end_notice;
  media = broadcast;
  agent_goes_offline = false;
}

unfoldable pub leave_queue : ℕ → Option Queue → Call → Db → Db × List Outcome
leave_queue now (some q) call db =
    let (after, moved) = move_to now q call db in
    (after, if moved then call_overflowed call.id q.id ∷ [] else [])
leave_queue now none call db =
    let (after, effects, won) = end_call now call wait_ending db in (after, call_ended effects ∷ [])

unfoldable pub wait_expired : ℕ → List Queue → Option ℕ → Call → Db → Db × List Outcome
wait_expired now queues overflow_id call db =
    leave_queue now (of_tenant call.tenant_id (overflow_queue queues overflow_id call)) call db

abbrev pub handover_ending : Ending
handover_ending = record wait_ending {
  only_if_status = some in_progress;
  provider = terminate_notice;
}

-- A transfer that the target, `agent_id`, did not accept since `offered_at`.
unfoldable pub handover_expired : ℕ → ℕ → ℕ → Call → Db → Db × List Outcome
handover_expired now agent_id offered_at call db =
    let (returned, back) = return_handover_to_queue now call.id agent_id offered_at db in
    let (expired, off) = expire_handover call.id agent_id offered_at db in
    let (after, effects, won) = end_call now call handover_ending expired in
    if is_inbound call.direction && is_some call.queue_id
    then (returned, if back then offer_passed call.id agent_id ∷ [] else [])
    else if off
    then (after, call_ended effects ∷ [])
    else (expired, [])
