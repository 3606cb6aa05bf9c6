-- ===== src/Channels/Announcing/Spending.antt =====
-- Each happening uses up as much of a row's budget as it announces ends.
use callio.Prelude.{
  ℕ, ◌+◌, ◌-◌, ◌≤◌, ◌≡◌, refl, ◌∙◌, Bool, true, false, ◌&&◌, none, some, List, [], ◌∷◌, ◌++◌, arith,
  ◌==◌, if◌then◌else◌, get_or,
}
use callio.Store.Rows.{
  rejected, customer, provider, provider_error, Call, is_failed, update_call, Db,
}
use callio.Store.Calls.{finalize_call_as_failed, terminate_call_if_not_terminated}
use callio.Store.Calls.Finality.{apply}
use callio.Store.Calls.Budget.{
  budget, write_spends, commit_spends, failure_spends, budget-update_call, correct_spends,
  webhook_spends, rejected_spends,
}
use callio.Lifecycle.Termination.{end_call}
use callio.Lifecycle.Termination.Once.{
  Move, end_move, write_move, make, announcements, end_call-announcements, end_call-commit,
  ending_write, commit-apply, ending_write-Ends,
}
use callio.Store.Calls.Patches.{
  Stamp, ringing_stamp, update_ringing_duration, ended_stamp, answered_stamp, update_timestamp,
  update_terminated_by_if_failed,
}
use native.Mathlib.Nat.{le_refl}
use callio.Channels.Lines.{
  ProviderStatus, Act, error_told, status_told, Outcome, settle_acts, rejects, fails,
}
use callio.Channels.Ended.{
  end_terminated_by, end_times, end_reason, EndEvent, finalize, patch_failure, patch_ended_at,
  handle_end,
}
use callio.Channels.Progress.{
  timed, failed_times, StatusEvent, on_rejects, on_fails, on_status, handle_status,
}
use callio.Channels.Announcing.{
  Happening, move, reported_end, reported_rejection, reported_failure, happen, happen_all,
  announced, announced-append, announced-effects, settle_acts-announced, end_acts-announced,
}

-- Each happening announces no more ends than it uses up of the row's budget.
abbrev UsesUp : ℕ → Outcome → Db → Type 0
UsesUp id o db = announced id o.acts + budget id o.db ≤ budget id db

move_spends : (id now : ℕ) (m : Move) (db : Db) → UsesUp id (happen now (move m) db) db
unfolding happen make announced announcements
move_spends id now (write_move w) db = omega (arith, write_spends now id w db)
move_spends id now (end_move c o) db =
    let w = ending_write c.id o in
    let told : announcements id (end_call now c o db).1
        ≡ (if (apply now w db).1 && (c.id == id) then 1 else 0) =
      end_call-announcements id now c o db ∙ rw (commit-apply now c.id o db) refl in
    let kept : budget id (end_call now c o db).0 ≡ budget id (apply now w db).0 =
      rw (end_call-commit now c o db, commit-apply now c.id o db) refl in
    omega (
      arith,
      announced-effects id (end_call now c o db).1,
      told,
      kept,
      commit_spends now c.id id w db (ending_write-Ends c.id o),
    )

patch_failure_spends :
    (id : ℕ) (c : Call) (e : EndEvent) (won : Bool) (db : Db)
    → budget id (patch_failure c e won db) ≤ budget id db
unfolding patch_failure update_terminated_by_if_failed
patch_failure_spends id c e won db = ground (
  arith,
  budget-update_call c.id id (λ d. is_failed d.status)
      (λ d. record d { terminated_by = some e.failure_terminated_by }) db (λ d. refl)
      (λ d g. le_refl _),
)

update_timestamp_spends :
    (id j : ℕ) (s : Stamp) (t : ℕ) (db : Db) → budget j (update_timestamp id s t db) ≤ budget j db
unfolding update_timestamp
update_timestamp_spends id j ringing_stamp t db =
    budget-update_call id j _ _ db (λ d. refl) (λ d g. le_refl _)
update_timestamp_spends id j ended_stamp t db =
    budget-update_call id j _ _ db (λ d. refl) (λ d g. le_refl _)
update_timestamp_spends id j answered_stamp t db =
    let stamped = (update_call id (λ c. true) (λ c. record c { answered_at = some t }) db).0 in
    omega (
      arith,
      correct_spends id j stamped,
      budget-update_call id j (λ c. true) (λ c. record c { answered_at = some t }) db (λ d. refl)
          (λ d g. le_refl _),
    )

finalize_spends :
    (id now : ℕ) (c : Call) (e : EndEvent) (db : Db)
    → (if (finalize now c e db).1 && (c.id == id) then 1 else 0) + budget id (finalize now c e db).0
      ≤ budget id db
unfolding finalize
finalize_spends id now c e db = ground (
  arith,
  failure_spends now c.id id (some (end_terminated_by e)) (end_times now c e) db,
  webhook_spends now c.id id (end_reason now c e) (end_terminated_by e) (end_times now c e) db,
)

reported_end_spends :
    (id now : ℕ) (c : Call) (e : EndEvent) (db : Db) → UsesUp id (handle_end now c e db) db
unfolding handle_end patch_ended_at
reported_end_spends id now c e db =
    let after = (finalize now c e db).0 in
    let won = (finalize now c e db).1 in
    ground (
      arith,
      end_acts-announced id c e won (end_reason now c e),
      finalize_spends id now c e db,
      patch_failure_spends id c e won after,
      update_timestamp_spends c.id id ended_stamp now (patch_failure c e won after),
    )

-- The end that a rejection or a failure reports, with what is told in any case.
status_acts-announced :
    (id : ℕ) (c : Call) (won : Bool) (acts : List Act) (s : ProviderStatus)
    → announced id ((if won then acts else []) ++ (status_told c.id s ∷ []))
      ≡ (if won then announced id acts else 0)
unfolding announced
status_acts-announced id c true acts s =
    omega (arith, announced-append id acts (status_told c.id s ∷ []))
status_acts-announced id c false acts s = refl

timed_spends : (id t : ℕ) (c : Call) (db : Db) → budget id (timed t c db) ≤ budget id db
unfolding timed update_ringing_duration
timed_spends id t c db =
    let stamped = update_timestamp c.id ended_stamp t db in
    let stamping = update_timestamp_spends c.id id ended_stamp t db in
    let timing =
      budget-update_call c.id id (λ d. true)
        (λ d. record d { ringing_duration = t - get_or c.ringing_at 0 }) stamped (λ d. refl)
        (λ d g. le_refl _) in
    ground arith

reported_rejection_spends :
    (id now : ℕ) (c : Call) (e : StatusEvent) (db : Db)
    → UsesUp id (handle_status now c (record e { status = rejects }) db) db
unfolding handle_status on_status on_rejects
reported_rejection_spends id now c e db =
    let t = get_or e.at now in
    let stamped = timed t c db in
    let won =
      (terminate_call_if_not_terminated now c.id (some rejected) customer (some t) none
        stamped).1 in
    ground (
      arith,
      status_acts-announced id c won (settle_acts c rejected customer) rejects,
      settle_acts-announced id c rejected customer,
      rejected_spends now c.id id t stamped,
      timed_spends id t c db,
    )

reported_failure_spends :
    (id now : ℕ) (c : Call) (e : StatusEvent) (db : Db)
    → UsesUp id (handle_status now c (record e { status = fails }) db) db
unfolding handle_status on_status on_fails announced
reported_failure_spends id now c e db =
    let t = get_or e.at now in
    let done = finalize_call_as_failed now c.id (some provider) (failed_times t c) db in
    let acts = error_told c.id ∷ settle_acts c provider_error provider in
    ground (
      arith,
      status_acts-announced id c done.1 acts fails,
      settle_acts-announced id c provider_error provider,
      failure_spends now c.id id (some provider) (failed_times t c) db,
    )

happen_spends : (id now : ℕ) (h : Happening) (db : Db) → UsesUp id (happen now h db) db
unfolding happen
happen_spends id now (move m) db = move_spends id now m db
happen_spends id now (reported_end c e) db = reported_end_spends id now c e db
happen_spends id now (reported_rejection c e) db = reported_rejection_spends id now c e db
happen_spends id now (reported_failure c e) db = reported_failure_spends id now c e db

happen_all_spends : (id : ℕ) (hs : List (ℕ × Happening)) (db : Db) → UsesUp id (happen_all hs db) db
unfolding happen_all announced
happen_all_spends id [] db = omega arith
happen_all_spends id ((now, h) ∷ hs) db =
    let first = happen now h db in
    omega (
      arith,
      announced-append id first.acts (happen_all hs first.db).acts,
      happen_spends id now h db,
      happen_all_spends id hs first.db,
    )

-- However the ends of workers, their guarded statements and the reports of providers that a call ended,
-- was rejected or failed interleave, each on whatever row its handler read before: the end of a live call
-- is announced at most twice, that of a call that is TERMINATED and out of the IVR at most once more, and
-- that of one that has FAILED and is out of it not again.
pub announced_within_budget :
    (id : ℕ) (hs : List (ℕ × Happening)) (db : Db)
    → announced id (happen_all hs db).acts ≤ budget id db
announced_within_budget id hs db = omega (arith, happen_all_spends id hs db)
