-- ===== src/Channels/Ended.antt =====
-- `_handleCallEnded` of core/channels/ChannelIngress.js: the provider says that a call ended. Times are whole
-- seconds. The details of a failure, which no guard reads, are left out.
use callio.Prelude.{
  ℕ, ◌-◌, String, Bool, true, false, ◌&&◌, ◌||◌, not, Option, none, some, List, [], ◌∷◌, ◌++◌, ltb,
  get_or, is_some, if◌then◌else◌,
}
use callio.Store.Rows.{
  TerminationReason, completed, no_answer, cancelled, provider_error, TerminatedBy, customer,
  provider, Call, Db, is_initiated, is_ringing, is_in_progress, is_inbound, is_null, coalesce,
  terminated,
}
use callio.Store.Calls.{Times, finalize_from_webhook, finalize_call_as_failed}
use callio.Store.Calls.Patches.{
  ended_stamp, update_timestamp, update_terminated_by_if_failed, find_by_provider_call_id,
}
use callio.Channels.Lines.{Line, Act, error_told, miss_recorded, Outcome, belongs_to, settle_acts}

pub record EndEvent : Type 0 where
  pub provider_call_id : String
  pub is_failed : Bool
  pub answered_at : Option ℕ
  pub ended_at : Option ℕ
  pub duration_sec : Option ℕ
  pub has_errors : Bool
  pub failure_terminated_by : TerminatedBy

unfoldable pub effective_answered_at : Call → EndEvent → Option ℕ
effective_answered_at c e = coalesce e.answered_at c.answered_at

unfoldable pub effective_ended_at : ℕ → Call → EndEvent → ℕ
effective_ended_at now c e = get_or (coalesce e.ended_at c.ended_at) now

-- `Math.max(0, Math.floor(…))` of a difference: `-` stops at 0.
unfoldable pub call_duration_sec : ℕ → Call → EndEvent → ℕ
call_duration_sec now c e = elim e.duration_sec [
  | some d ↦ d
  | none ↦ elim (effective_answered_at c e) [
    | none ↦ 0
    | some answered ↦ effective_ended_at now c e - answered
  ]
]

abbrev rang_for : Option ℕ → Option ℕ → ℕ → Option ℕ
rang_for none answered until = none
rang_for (some rang) none until = some (until - rang)
rang_for (some rang) (some answered) until = some (answered - rang)

-- The ringing time, and 0 for an unanswered call that never rang, unless it failed.
unfoldable pub ringing_duration_sec : ℕ → Call → EndEvent → Option ℕ
ringing_duration_sec now c e =
    let rang = rang_for c.ringing_at (effective_answered_at c e) (get_or e.ended_at now) in
    if not e.is_failed && is_null e.answered_at then some (get_or rang 0) else rang

abbrev gave_up : Bool → ℕ → TerminationReason
gave_up incoming waited = if incoming && ltb waited 5 then cancelled else no_answer

abbrev waited_in_queue : Option ℕ → ℕ → ℕ
waited_in_queue none ended = 0
waited_in_queue (some queued) ended = ended - queued

-- `terminationReason`
unfoldable pub end_reason : ℕ → Call → EndEvent → TerminationReason
end_reason now c e =
    if e.is_failed
    then provider_error
    else if is_null e.answered_at
    then (if is_initiated c.status || is_ringing c.status
        then gave_up (is_inbound c.direction) (get_or (ringing_duration_sec now c e) 0)
        else if is_in_progress c.status
        then cancelled
        else completed)
    else if is_ringing c.status && is_some c.ivr_flow_id
    then gave_up (is_inbound c.direction) (waited_in_queue c.queued_at (effective_ended_at now c e))
    else completed

abbrev pub end_terminated_by : EndEvent → TerminatedBy
end_terminated_by e = if e.is_failed then provider else customer

abbrev pub end_times : ℕ → Call → EndEvent → Times
end_times now c e = record {
  ended_at = e.ended_at;
  answered_at = e.answered_at;
  call_duration = some (call_duration_sec now c e);
  ringing_duration = ringing_duration_sec now c e;
}

-- `finalizedByThisEvent`
unfoldable pub finalize : ℕ → Call → EndEvent → Db → Db × Bool
finalize now c e db =
    if e.is_failed
    then finalize_call_as_failed now c.id (some (end_terminated_by e)) (end_times now c e) db
    else finalize_from_webhook now c.id terminated (some (end_reason now c e))
        (some (end_terminated_by e)) (end_times now c e) db

-- What is patched after the change of the status.
unfoldable pub patch_failure : Call → EndEvent → Bool → Db → Db
patch_failure c e won db =
    if e.is_failed && (not won && e.has_errors)
    then update_terminated_by_if_failed c.id e.failure_terminated_by db
    else db

unfoldable pub patch_ended_at : ℕ → Call → EndEvent → Db → Db
patch_ended_at now c e db =
    if is_null e.ended_at && is_null c.ended_at
    then update_timestamp c.id ended_stamp now db
    else db

abbrev is_no_answer : TerminationReason → Bool
is_no_answer no_answer = true
is_no_answer _ = false

unfoldable pub missed_offer : Call → TerminationReason → List Act
missed_offer c reason = elim c.agent_id [
  | none ↦ []
  | some a ↦ if is_inbound c.direction && is_no_answer reason then miss_recorded c.id a ∷ [] else []
]

abbrev pub failure_told : Call → EndEvent → List Act
failure_told c e = if e.is_failed then error_told c.id ∷ [] else []

-- `_handleCallEnded` from the row that it found on.
unfoldable pub handle_end : ℕ → Call → EndEvent → Db → Outcome
handle_end now c e db =
    let (finalized, won) = finalize now c e db in
    let reason = end_reason now c e in
    record {
      db = patch_ended_at now c e (patch_failure c e won finalized);
      acts =
          failure_told c e
          ++ (if won
              then settle_acts c reason (end_terminated_by e) ++ missed_offer c reason
              else []);
    }

-- `_handleCallEnded` for a call that has its row. What it does for an unknown one is in `Offered`.
unfoldable pub call_ended : ℕ → Line → EndEvent → Db → Outcome
call_ended now line e db = elim (find_by_provider_call_id e.provider_call_id line.type db.calls) [
  | none ↦ record { db = db; acts = [] }
  | some c ↦ if belongs_to c line then handle_end now c e db else record { db = db; acts = [] }
]
