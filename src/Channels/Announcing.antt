-- ===== src/Channels/Announcing.antt =====
-- How often the end of a call is announced when providers report it too.
pub mod Spending
use callio.Prelude.{
  ℕ, ◌+◌, ◌-◌, ◌≤◌, ◌≡◌, refl, ◌∙◌, Bool, true, false, ◌&&◌, inl, inr, Option, none, some, List, [],
  ◌∷◌, ◌++◌, map, arith, ◌==◌, if◌then◌else◌, Bool-cases, not, get_or,
}
use callio.Store.Rows.{
  TerminationReason, TerminatedBy, rejected, customer, provider, provider_error, terminated, Call,
  is_failed, update_call, Db, find_call,
}
use callio.Store.Rows.Laws.{find_call-update_call, update_call-affected}
use callio.Store.Calls.{
  finalize_call_as_failed, finalize_from_webhook, terminate_call_if_not_terminated,
}
use callio.Store.Calls.Finality.{Write, apply, terminate}
use callio.Store.Calls.Budget.{
  budget, write_spends, commit_spends, failure_spends, fill_spends, budget-update_call,
  correct_spends, webhook_spends, rejected_spends,
}
use callio.Lifecycle.Termination.{Effect, settle, end_call, Ending}
use callio.Lifecycle.Termination.Once.{
  Move, end_move, write_move, make, announcements, settle-announcements, end_call-announcements,
  end_call-commit, ending_write, commit-apply, ending_write-Ends,
}
use callio.Store.Calls.Patches.{
  Stamp, ringing_stamp, update_ringing_duration, ended_stamp, answered_stamp, update_timestamp,
  update_terminated_by_if_failed,
}
use native.Mathlib.Nat.{le_refl}
use callio.Channels.Lines.{
  ProviderStatus, Act, effect, customer_joined, error_told, miss_recorded, status_told,
  handled_told, waiting_told, line_ring_set, offered_to, ivr_started, offered_to_all, Outcome,
  settle_acts, rejects, fails, provider_ending,
}
use callio.Channels.Ended.{
  failure_told, end_terminated_by, end_times, end_reason, EndEvent, finalize, missed_offer,
  patch_failure, patch_ended_at, handle_end,
}
use callio.Channels.Progress.{
  timed, failed_times, StatusEvent, on_rejects, on_fails, on_status, handle_status,
}

-- What happens to calls: a worker's move, or the report of a provider on the row that its handler read.
pub data Happening : Type 0 where
  move : Move → Happening
  reported_end : Call → EndEvent → Happening
  reported_rejection reported_failure : Call → StatusEvent → Happening

unfoldable pub happen : ℕ → Happening → Db → Outcome
happen now (move m) db =
    let (after, es) = make now m db in record { db = after; acts = map effect es }
happen now (reported_end c e) db = handle_end now c e db
happen now (reported_rejection c e) db = handle_status now c (record e { status = rejects }) db
happen now (reported_failure c e) db = handle_status now c (record e { status = fails }) db

unfoldable pub happen_all : List (ℕ × Happening) → Db → Outcome
happen_all [] db = record { db = db; acts = [] }
happen_all ((now, h) ∷ hs) db =
    let first = happen now h db in
    let rest = happen_all hs first.db in record { db = rest.db; acts = first.acts ++ rest.acts }

-- How often acts announce the end of a call.
unfoldable pub announced : ℕ → List Act → ℕ
announced id [] = 0
announced id (effect e ∷ acts) = announcements id (e ∷ []) + announced id acts
announced id (customer_joined _ ∷ acts) = announced id acts
announced id (error_told _ ∷ acts) = announced id acts
announced id (miss_recorded _ _ ∷ acts) = announced id acts
announced id (status_told _ _ ∷ acts) = announced id acts
announced id (handled_told _ ∷ acts) = announced id acts
announced id (waiting_told _ ∷ acts) = announced id acts
announced id (line_ring_set _ ∷ acts) = announced id acts
announced id (offered_to _ _ ∷ acts) = announced id acts
announced id (ivr_started _ _ ∷ acts) = announced id acts
announced id (offered_to_all _ _ ∷ acts) = announced id acts

pub announced-append :
    (id : ℕ) (xs ys : List Act) → announced id (xs ++ ys) ≡ announced id xs + announced id ys
unfolding announced
announced-append id [] ys = omega arith
announced-append id (effect e ∷ xs) ys = omega (arith, announced-append id xs ys)
announced-append id (customer_joined _ ∷ xs) ys = announced-append id xs ys
announced-append id (error_told _ ∷ xs) ys = announced-append id xs ys
announced-append id (miss_recorded _ _ ∷ xs) ys = announced-append id xs ys
announced-append id (status_told _ _ ∷ xs) ys = announced-append id xs ys
announced-append id (handled_told _ ∷ xs) ys = announced-append id xs ys
announced-append id (waiting_told _ ∷ xs) ys = announced-append id xs ys
announced-append id (line_ring_set _ ∷ xs) ys = announced-append id xs ys
announced-append id (offered_to _ _ ∷ xs) ys = announced-append id xs ys
announced-append id (ivr_started _ _ ∷ xs) ys = announced-append id xs ys
announced-append id (offered_to_all _ _ ∷ xs) ys = announced-append id xs ys

pub announced-effects :
    (id : ℕ) (es : List Effect) → announced id (map effect es) ≡ announcements id es
unfolding announced announcements
announced-effects id [] = refl
announced-effects id (e ∷ es) = omega (arith, announced-effects id es)

pub settle_acts-announced :
    (id : ℕ) (c : Call) (r : TerminationReason) (by : TerminatedBy)
    → announced id (settle_acts c r by) ≡ (if c.id == id then 1 else 0)
unfolding settle_acts
settle_acts-announced id c r by =
    announced-effects id _ ∙ settle-announcements id c (provider_ending r by)

pub missed_offer-announced :
    (id : ℕ) (c : Call) (r : TerminationReason) → announced id (missed_offer c r) ≡ 0
unfolding missed_offer announced
missed_offer-announced id c r = ground arith

-- What the end of a call, won or not, announces.
pub end_acts-announced :
    (id : ℕ) (c : Call) (e : EndEvent) (won : Bool) (r : TerminationReason)
    → announced id (
        failure_told c e
        ++ (if won then settle_acts c r (end_terminated_by e) ++ missed_offer c r else []))
      ≡ (if won && (c.id == id) then 1 else 0)
unfolding announced
end_acts-announced id c e true r =
    let tail = settle_acts c r (end_terminated_by e) ++ missed_offer c r in
    ground (
      arith,
      announced-append id (failure_told c e) tail,
      announced-append id (settle_acts c r (end_terminated_by e)) (missed_offer c r),
      settle_acts-announced id c r (end_terminated_by e),
      missed_offer-announced id c r,
    )
end_acts-announced id c e false r = ground (arith, announced-append id (failure_told c e) [])
