-- ===== src/Channels/Crossing.antt =====
-- Reports of a provider that cross with other ends of the call.
use callio.Prelude.{
  ℕ, ◌≡◌, refl, Bool, true, false, not, inl, inr, Option, none, some, arith, if◌then◌else◌,
  Bool-cases, get_or,
}
use callio.Store.Rows.{
  terminated, failed, in_progress, active, Call, Db, is_failed, is_null, find_call, update_call,
  is_active, is_in_progress, coalesce, provider_error, TerminatedBy,
}
use callio.Store.Rows.Laws.{
  HoldsAt, find_call-update_call, update_call-affected, update_call-HoldsAt,
}
use callio.Store.Calls.{
  Times, update_status, update_state, correct_no_answer_if_answered, fill_times,
  finalize_call_as_failed,
}
use callio.Store.Calls.Patches.{ringing_stamp, answered_stamp, update_timestamp}
use callio.Channels.Lines.{accepts}
use callio.Channels.Ended.{EndEvent, end_terminated_by, end_times, end_reason, finalize, handle_end}
use callio.Channels.Progress.{StatusEvent, ring_at_once, on_accepts, on_status, handle_status}
use callio.Channels.Announcing.{announced, end_acts-announced}

-- A statement without a guard makes of the row what it assigns, wherever the row is.
Anything : Call → Type 0
Anything c = Unit {0}

late_failure_wins :
    (now id : ℕ) (by : Option TerminatedBy) (t : Times) (d : Call) (db : Db)
    → find_call id db.calls ≡ some d
    → is_failed d.status ≡ false
    → (finalize_call_as_failed now id by t db).1 ≡ true
unfolding finalize_call_as_failed fill_times
late_failure_wins now id by t d db there live =
    let filled = (fill_times id t db).0 in
    let read =
      find_call-update_call id id (λ c. true)
        (λ c. record c {
          ended_at = coalesce t.ended_at c.ended_at;
          answered_at = coalesce t.answered_at c.answered_at;
          call_duration = get_or t.call_duration c.call_duration;
          ringing_duration = get_or t.ringing_duration c.ringing_duration;
        })
        db (λ c. refl) in
    let affected =
      (update_call-affected id (λ c. not (is_failed c.status))
        (λ c. record c {
          status = failed;
          state = none;
          termination_reason = some provider_error;
          terminated_by = coalesce c.terminated_by by;
          ended_at = coalesce c.ended_at (some now);
        })
        filled).0 in
    ground arith

-- A provider that reports a call's end as a failure has it announced, also where another path has ended
-- the call before, as TERMINATED, and announced its end then.
pub failed_end_announces_again :
    (now : ℕ) (c : Call) (e : EndEvent) (d : Call) (db : Db)
    → find_call c.id db.calls ≡ some d
    → d.status ≡ terminated
    → e.is_failed ≡ true
    → announced c.id (handle_end now c e db).acts ≡ 1
unfolding handle_end finalize
failed_end_announces_again now c e d db there over failing = ground (
  arith,
  late_failure_wins now c.id (some (end_terminated_by e)) (end_times now c e) d db there,
  end_acts-announced c.id c e (finalize now c e db).1 (end_reason now c e),
)

-- An assignment without a guard reaches the row that is there.
set_there :
    (Q P : Call → Type 0) (id : ℕ) (assign : Call → Call) (db : Db)
    → ((c : Call) → (assign c).id ≡ c.id)
    → ((c : Call) → Q c → P (assign c))
    → HoldsAt id Q db
    → HoldsAt id P (update_call id (λ c. true) assign db).0
set_there Q P id assign db keeps gives (c, there, h) =
    let law = find_call-update_call id id (λ c. true) assign db keeps in
    (assign c, ground arith, gives c h)

stay :
    (id : ℕ) (guard : Call → Bool) (assign : Call → Call) (db : Db)
    → ((c : Call) → (assign c).id ≡ c.id)
    → HoldsAt id Anything db
    → HoldsAt id Anything (update_call id guard assign db).0
unfolding Anything
stay id guard assign db keeps h =
    update_call-HoldsAt Anything id id guard assign db keeps (λ c g a. a) h

answered_stays :
    (id t : ℕ) (db : Db)
    → HoldsAt id Anything db
    → HoldsAt id Anything (update_timestamp id answered_stamp t db)
unfolding update_timestamp correct_no_answer_if_answered
answered_stays id t db h = stay id _ _ _ (λ c. refl) (stay id _ _ db (λ c. refl) h)

ringing_stays :
    (id t : ℕ) (db : Db)
    → HoldsAt id Anything db
    → HoldsAt id Anything (update_timestamp id ringing_stamp t db)
unfolding update_timestamp
ringing_stays id t db h = stay id _ _ db (λ c. refl) h

pub ring_at_once_lem :
    (t : ℕ) (c : Call) (db : Db)
    → ring_at_once t c db
      ≡ (if is_null c.ringing_at then update_timestamp c.id ringing_stamp t db else db)
unfolding ring_at_once
ring_at_once_lem t c db = ground arith

rung_stays :
    (t : ℕ) (c : Call) (db : Db)
    → HoldsAt c.id Anything db
    → HoldsAt c.id Anything (ring_at_once t c db)
rung_stays t c db h = rw (ring_at_once_lem t c db) (elim (Bool-cases (is_null c.ringing_at)) [
  | inl e ↦ rw e (ringing_stays c.id t db h)
  | inr e ↦ rw e h
])

abbrev pub InProgress : Call → Type 0
InProgress d = (d.status ≡ in_progress) × (d.state ≡ some active)

-- A handler that found a call waiting for its answer, and then reports the customer's answer, makes the
-- row IN_PROGRESS and ACTIVE whatever became of it in between: a call that has ended is live again.
pub accepted_revives :
    (now : ℕ) (c : Call) (e : StatusEvent) (d : Call) (db : Db)
    → is_active c.status ≡ true
    → is_in_progress c.status ≡ false
    → find_call c.id db.calls ≡ some d
    → is_active d.status ≡ false
    → HoldsAt c.id InProgress (handle_status now c (record e { status = accepts }) db).db
unfolding handle_status on_status on_accepts update_status update_state Anything
accepted_revives now c e d db live waiting there over =
    let t = get_or e.at now in
    let stamped = update_timestamp c.id answered_stamp t (ring_at_once t c db) in
    let here = answered_stays c.id t (ring_at_once t c db) (rung_stays t c db (d, there, tt)) in
    rw (live, waiting)
      (set_there (λ x. x.status ≡ in_progress) InProgress c.id _ _ (λ x. refl) (λ x h. (h, refl))
        (set_there Anything (λ x. x.status ≡ in_progress) c.id _ stamped (λ x. refl) (λ x h. refl)
          here))
