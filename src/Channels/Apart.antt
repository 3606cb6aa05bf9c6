-- ===== src/Channels/Apart.antt =====
-- A provider's report touches no call of another channel.
use callio.Prelude.{
  String, ◌-◌, ℕ, ◌≡◌, refl, ◌∙◌, Bool, true, false, inl, inr, Option, none, some, List, [], ◌∷◌,
  arith, ◌==◌, Bool-cases, Option-cases, find, get_or,
}
use callio.Store.Rows.{
  Status, State, TerminationReason, TerminatedBy, terminated, ringing, in_progress, active,
  rejected, customer, provider, Call, Db, find_call, update_call,
}
use callio.Store.Rows.Laws.{find_call-update_call}
use callio.Store.Calls.{
  Times, update_status, update_state, correct_no_answer_if_answered, fill_times, finalize_status,
  finalize_from_webhook, finalize_call_as_failed, terminate_call_if_not_terminated,
}
use callio.Store.Calls.Patches.{
  Stamp, ringing_stamp, answered_stamp, ended_stamp, update_timestamp, update_ringing_duration,
  update_terminated_by_if_failed, find_by_provider_call_id,
}
use callio.Channels.Lines.{Line, ProviderStatus, rings, accepts, rejects, fails, other, belongs_to}
use callio.Channels.Ended.{
  end_terminated_by, end_times, end_reason, EndEvent, finalize, patch_failure, patch_ended_at,
  handle_end, call_ended,
}
use callio.Channels.Progress.{
  failed_times, StatusEvent, retro_ringing, on_rings, ring_at_once, on_accepts, timed, on_rejects,
  on_fails, on_status, handle_status, status_changed,
}

-- No two rows have one id, as for a primary key.
abbrev pub DistinctIds : List Call → Type 0
DistinctIds [] = Unit {0}
DistinctIds (c ∷ cs) = (find_call c.id cs ≡ none) × DistinctIds cs

find_call-of_find :
    (p : Call → Bool) (c : Call) (cs : List Call)
    → DistinctIds cs
    → find p cs ≡ some c
    → find_call c.id cs ≡ some c
unfolding find_call
find_call-of_find p c [] h found = absurd (cc)
find_call-of_find p c (d ∷ cs) h found = ground (arith, find_call-of_find p c cs h.1)

module _ (id j : ℕ) (apart : (id == j) ≡ false) where
  -- A statement on one row leaves the others.
  update_call_apart :
      (guard : Call → Bool) (assign : Call → Call) (db : Db)
      → ((c : Call) → (assign c).id ≡ c.id)
      → find_call j (update_call id guard assign db).0.calls ≡ find_call j db.calls
  update_call_apart guard assign db keeps =
      let law = find_call-update_call id j guard assign db keeps in
      elim (Option-cases (find_call j db.calls)) [
        | inl e ↦ ground arith
        | inr (c, e) ↦ ground arith
      ]

  abbrev Untouched : Db → Db → Type 0
  Untouched after before = find_call j after.calls ≡ find_call j before.calls

  correct_apart : (db : Db) → Untouched (correct_no_answer_if_answered id db).0 db
  unfolding correct_no_answer_if_answered
  correct_apart db = update_call_apart _ _ db (λ c. refl)

  stamp_apart : (s : Stamp) (t : ℕ) (db : Db) → Untouched (update_timestamp id s t db) db
  unfolding update_timestamp
  stamp_apart ringing_stamp t db = update_call_apart _ _ db (λ c. refl)
  stamp_apart ended_stamp t db = update_call_apart _ _ db (λ c. refl)
  stamp_apart answered_stamp t db = correct_apart _ ∙ update_call_apart _ _ db (λ c. refl)

  duration_apart : (n : ℕ) (db : Db) → Untouched (update_ringing_duration id n db) db
  unfolding update_ringing_duration
  duration_apart n db = update_call_apart _ _ db (λ c. refl)

  fill_apart : (t : Times) (db : Db) → Untouched (fill_times id t db).0 db
  unfolding fill_times
  fill_apart t db = update_call_apart _ _ db (λ c. refl)

  failed_apart :
      (now : ℕ) (by : Option TerminatedBy) (t : Times) (db : Db)
      → Untouched (finalize_call_as_failed now id by t db).0 db
  unfolding finalize_call_as_failed
  failed_apart now by t db = update_call_apart _ _ _ (λ c. refl) ∙ fill_apart t db

  webhook_apart :
      (now : ℕ) (s : Status) (r : Option TerminationReason) (by : Option TerminatedBy) (t : Times)
      (db : Db)
      → Untouched (finalize_from_webhook now id s r by t db).0 db
  unfolding finalize_from_webhook finalize_status
  webhook_apart now s r by t db =
      correct_apart _ ∙ (update_call_apart _ _ _ (λ c. refl) ∙ fill_apart t db)

  terminate_apart :
      (now : ℕ) (r : Option TerminationReason) (by : TerminatedBy) (t : Option ℕ)
      (q : Option Status) (db : Db)
      → Untouched (terminate_call_if_not_terminated now id r by t q db).0 db
  unfolding terminate_call_if_not_terminated
  terminate_apart now r by t q db = update_call_apart _ _ db (λ c. refl)

  status_apart : (s : Status) (db : Db) → Untouched (update_status id s db).0 db
  unfolding update_status
  status_apart s db = update_call_apart _ _ db (λ c. refl)

  state_apart : (s : Option State) (db : Db) → Untouched (update_state id s db).0 db
  unfolding update_state
  state_apart s db = update_call_apart _ _ db (λ c. refl)

  blame_apart :
      (by : TerminatedBy) (db : Db) → Untouched (update_terminated_by_if_failed id by db) db
  unfolding update_terminated_by_if_failed
  blame_apart by db = update_call_apart _ _ db (λ c. refl)

-- What the handlers leave of a row that is not the one they found.
module _ (c : Call) (j : ℕ) (apart : (c.id == j) ≡ false) where
  handle_end_apart :
      (now : ℕ) (e : EndEvent) (db : Db)
      → find_call j (handle_end now c e db).db.calls ≡ find_call j db.calls
  unfolding handle_end finalize patch_failure patch_ended_at
  handle_end_apart now e db =
      let (after, won) = finalize now c e db in
      ground (
        arith,
        failed_apart c.id j apart now (some (end_terminated_by e)) (end_times now c e) db,
        webhook_apart c.id j apart now terminated (some (end_reason now c e))
            (some (end_terminated_by e)) (end_times now c e) db,
        blame_apart c.id j apart e.failure_terminated_by after,
        stamp_apart c.id j apart ended_stamp now (patch_failure c e won after),
      )

  rings_apart :
      (now t : ℕ) (db : Db) → find_call j (on_rings now t c db).calls ≡ find_call j db.calls
  unfolding on_rings retro_ringing
  rings_apart now t db =
      let stamped = update_timestamp c.id ringing_stamp t db in
      ground (
        arith,
        stamp_apart c.id j apart ringing_stamp t db,
        duration_apart c.id j apart (get_or c.answered_at (get_or c.ended_at now) - t) stamped,
        status_apart c.id j apart ringing (retro_ringing now t c stamped),
      )

  accepts_apart : (t : ℕ) (db : Db) → find_call j (on_accepts t c db).calls ≡ find_call j db.calls
  unfolding on_accepts ring_at_once
  accepts_apart t db =
      let rung = update_timestamp c.id ringing_stamp t db in
      let stamped = update_timestamp c.id answered_stamp t (ring_at_once t c db) in
      ground (
        arith,
        stamp_apart c.id j apart ringing_stamp t db,
        duration_apart c.id j apart 0 rung,
        stamp_apart c.id j apart answered_stamp t (ring_at_once t c db),
        status_apart c.id j apart in_progress stamped,
        state_apart c.id j apart (some active) (update_status c.id in_progress stamped).0,
      )

  rejects_apart :
      (now t : ℕ) (db : Db) → find_call j (on_rejects now t c db).db.calls ≡ find_call j db.calls
  unfolding on_rejects timed
  rejects_apart now t db =
      let stamped = update_timestamp c.id ended_stamp t db in
      ground (
        arith,
        stamp_apart c.id j apart ended_stamp t db,
        duration_apart c.id j apart (t - get_or c.ringing_at 0) stamped,
        terminate_apart c.id j apart now (some rejected) customer (some t) none (timed t c db),
      )

  on_status_apart :
      (now : ℕ) (s : ProviderStatus) (t : ℕ) (db : Db)
      → find_call j (on_status now s t c db).db.calls ≡ find_call j db.calls
  unfolding on_status on_fails
  on_status_apart now rings t db = rings_apart now t db
  on_status_apart now accepts t db = accepts_apart t db
  on_status_apart now rejects t db = rejects_apart now t db
  on_status_apart now fails t db =
      failed_apart c.id j apart now (some provider) (failed_times t c) db
  on_status_apart now (other s) t db = refl

  handle_status_apart :
      (now : ℕ) (e : StatusEvent) (db : Db)
      → find_call j (handle_status now c e db).db.calls ≡ find_call j db.calls
  unfolding handle_status
  handle_status_apart now e db = on_status_apart now e.status (get_or e.at now) db

-- The row that an event finds on its channel is not that of a call on another one.
found_apart :
    (line : Line) (provider_call_id : String) (c d : Call) (db : Db)
    → DistinctIds db.calls
    → find_by_provider_call_id provider_call_id line.type db.calls ≡ some c
    → belongs_to c line ≡ true
    → find_call d.id db.calls ≡ some d
    → belongs_to d line ≡ false
    → (c.id == d.id) ≡ false
unfolding find_by_provider_call_id
found_apart line provider_call_id c d db distinct found mine there foreign =
    let own = find_call-of_find _ c db.calls distinct found in
    elim (Bool-cases (c.id == d.id)) [
      | inl same ↦
          let e : c.id ≡ d.id = ground arith in
          let one : c ≡ d = ground arith in absurd (ground arith)
      | inr apart ↦ apart
    ]

ended_untouched :
    (now : ℕ) (line : Line) (e : EndEvent) (d : Call) (db : Db)
    → DistinctIds db.calls
    → find_call d.id db.calls ≡ some d
    → belongs_to d line ≡ false
    → find_call d.id (call_ended now line e db).db.calls ≡ some d
unfolding call_ended
ended_untouched now line e d db distinct there foreign =
    elim (Option-cases (find_by_provider_call_id e.provider_call_id line.type db.calls)) [
      | inl unknown ↦ ground arith
      | inr (c, found) ↦ elim (Bool-cases (belongs_to c line)) [
        | inl mine ↦
            let apart =
              found_apart line e.provider_call_id c d db distinct found mine there foreign in
            ground (arith, handle_end_apart c d.id apart now e db)
        | inr not_mine ↦ ground arith
      ]
    ]

changed_untouched :
    (now : ℕ) (line : Line) (e : StatusEvent) (d : Call) (db : Db)
    → DistinctIds db.calls
    → find_call d.id db.calls ≡ some d
    → belongs_to d line ≡ false
    → find_call d.id (status_changed now line e db).db.calls ≡ some d
unfolding status_changed
changed_untouched now line e d db distinct there foreign =
    elim (Option-cases (find_by_provider_call_id e.provider_call_id line.type db.calls)) [
      | inl unknown ↦ ground arith
      | inr (c, found) ↦ elim (Bool-cases (belongs_to c line)) [
        | inl mine ↦
            let apart =
              found_apart line e.provider_call_id c d db distinct found mine there foreign in
            ground (arith, handle_status_apart c d.id apart now e db)
        | inr not_mine ↦ ground arith
      ]
    ]

-- Neither the end of a call that a provider reports nor any other state of it, for whatever call id,
-- touches a call of another channel than the event's: its row stays as it was.
pub other_lines_untouched :
    (now : ℕ) (line : Line) (ended : EndEvent) (changed : StatusEvent) (d : Call) (db : Db)
    → DistinctIds db.calls
    → find_call d.id db.calls ≡ some d
    → belongs_to d line ≡ false
    → (find_call d.id (call_ended now line ended db).db.calls ≡ some d)
      × (find_call d.id (status_changed now line changed db).db.calls ≡ some d)
other_lines_untouched now line ended changed d db distinct there foreign = (
  ended_untouched now line ended d db distinct there foreign,
  changed_untouched now line changed d db distinct there foreign,
)
