-- ===== src/Channels/Progress.antt =====
-- `statusChanged` of core/channels/ChannelIngress.js: the provider reports a state of a call. Times are whole
-- seconds. Log records are left out.
use callio.Prelude.{
  ℕ, ◌-◌, String, Bool, ◌&&◌, ◌||◌, not, Option, none, some, List, [], ◌∷◌, ◌++◌, get_or,
  if◌then◌else◌, is_some,
}
use callio.Store.Rows.{
  rejected, provider_error, customer, provider, Call, Db, ringing, in_progress, active,
  is_initiated, is_ringing, is_in_progress, is_inbound, is_null, is_active,
}
use callio.Store.Calls.{
  Times, update_status, update_state, terminate_call_if_not_terminated, finalize_call_as_failed,
}
use callio.Store.Calls.Patches.{
  ringing_stamp, answered_stamp, ended_stamp, update_timestamp, update_ringing_duration,
  find_by_provider_call_id,
}
use callio.Channels.Lines.{
  Line, ProviderStatus, rings, accepts, rejects, fails, other, Act, customer_joined, error_told,
  status_told, handled_told, Outcome, belongs_to, settle_acts,
}

pub record StatusEvent : Type 0 where
  pub provider_call_id : String
  pub status : ProviderStatus
  pub at : Option ℕ

-- A column that is NOT NULL is read as its number.
abbrev column : ℕ → Option ℕ
column n = some n

abbrev is_terminal : Call → Bool
is_terminal c = not (is_active c.status)

-- `RINGING`: an end that came first left no ringing time, which is set now.
unfoldable pub retro_ringing : ℕ → ℕ → Call → Db → Db
retro_ringing now t c db =
    if is_terminal c && is_null (column c.ringing_duration)
    then update_ringing_duration c.id (get_or c.answered_at (get_or c.ended_at now) - t) db
    else db

unfoldable pub on_rings : ℕ → ℕ → Call → Db → Db
on_rings now t c db =
    let patched = retro_ringing now t c (update_timestamp c.id ringing_stamp t db) in
    if not (is_terminal c) && is_initiated c.status
    then (update_status c.id ringing patched).0
    else patched

-- `ACCEPTED` without a ringing time.
unfoldable pub ring_at_once : ℕ → Call → Db → Db
ring_at_once t c db =
    if is_null c.ringing_at
    then (let stamped = update_timestamp c.id ringing_stamp t db in
        if is_terminal c && is_null (column c.ringing_duration)
        then update_ringing_duration c.id 0 stamped
        else stamped)
    else db

unfoldable pub on_accepts : ℕ → Call → Db → Db
on_accepts t c db =
    let stamped = update_timestamp c.id answered_stamp t (ring_at_once t c db) in
    if not (is_terminal c) && not (is_in_progress c.status)
    then (update_state c.id (some active) (update_status c.id in_progress stamped).0).0
    else stamped

abbrev accepted_acts : Call → List Act
accepted_acts c =
    if is_inbound c.direction
    then []
    else (if is_terminal c then [] else customer_joined c.id ∷ []) ++ (handled_told c.id ∷ [])

-- `REJECTED`, before the guarded statement.
unfoldable pub timed : ℕ → Call → Db → Db
timed t c db =
    let stamped = update_timestamp c.id ended_stamp t db in
    if is_some c.ringing_at && is_null (column c.ringing_duration)
    then update_ringing_duration c.id (t - get_or c.ringing_at 0) stamped
    else stamped

unfoldable pub on_rejects : ℕ → ℕ → Call → Db → Outcome
on_rejects now t c db =
    let (after, won) =
      terminate_call_if_not_terminated now c.id (some rejected) customer (some t) none
        (timed t c db) in
    record { db = after; acts = if won then settle_acts c rejected customer else [] }

-- The durations that a report of a failure fills in where there are none.
abbrev failed_ringing : Option ℕ → Option ℕ → ℕ → Option ℕ
failed_ringing none answered t = none
failed_ringing (some rang) none t = some (t - rang)
failed_ringing (some rang) (some answered) t = some (answered - rang)

abbrev failed_talk : Option ℕ → ℕ → ℕ
failed_talk none t = 0
failed_talk (some answered) t = t - answered

abbrev pub failed_times : ℕ → Call → Times
failed_times t c = record {
  ended_at = some t;
  answered_at = none;
  call_duration =
      if is_null (column c.call_duration) then some (failed_talk c.answered_at t) else none;
  ringing_duration =
      if is_null (column c.ringing_duration)
      then failed_ringing c.ringing_at c.answered_at t
      else none;
}

unfoldable pub on_fails : ℕ → ℕ → Call → Db → Outcome
on_fails now t c db =
    let (after, won) = finalize_call_as_failed now c.id (some provider) (failed_times t c) db in
    record {
      db = after;
      acts = if won then error_told c.id ∷ settle_acts c provider_error provider else [];
    }

unfoldable pub on_status : ℕ → ProviderStatus → ℕ → Call → Db → Outcome
on_status now rings t c db = record { db = on_rings now t c db; acts = [] }
on_status now accepts t c db = record { db = on_accepts t c db; acts = accepted_acts c }
on_status now rejects t c db = on_rejects now t c db
on_status now fails t c db = on_fails now t c db
on_status now (other s) t c db = record { db = db; acts = [] }

-- `statusChanged` from the row that it found on.
unfoldable pub handle_status : ℕ → Call → StatusEvent → Db → Outcome
handle_status now c e db =
    let done = on_status now e.status (get_or e.at now) c db in
    record { db = done.db; acts = done.acts ++ (status_told c.id e.status ∷ []) }

unfoldable pub status_changed : ℕ → Line → StatusEvent → Db → Outcome
status_changed now line e db =
    elim (find_by_provider_call_id e.provider_call_id line.type db.calls) [
      | none ↦ record { db = db; acts = [] }
      | some c ↦
          if belongs_to c line then handle_status now c e db else record { db = db; acts = [] }
    ]

-- `outboundAnswered`, for the worker that claims the call's id: the call to whose inbox the answer is posted.
unfoldable pub outbound_answered : Line → String → Db → Option ℕ
outbound_answered line provider_call_id db =
    elim (find_by_provider_call_id provider_call_id line.type db.calls) [
      | none ↦ none
      | some c ↦
          if belongs_to c line && (is_initiated c.status || is_ringing c.status)
          then some c.id
          else none
    ]
