-- ===== src/Store/Calls/Budget.antt =====
-- How often a call's row can still change to an end: a live one twice, as TERMINATED and then as FAILED.
use native.Mathlib.Nat.{le_refl}
use callio.Prelude.{
  not, ℕ, ◌+◌, ◌≤◌, ◌≡◌, inl, inr, refl, Bool, true, ◌&&◌, Option, none, some, arith, ◌==◌,
  if◌then◌else◌, Option-cases, Bool-cases,
}
use callio.Store.Rows.{
  Status, terminated, failed, Call, TerminatedBy, TerminationReason, provider_error, rejected,
  customer, coalesce, ringing, in_progress, ivr, queue, Db, find_call, update_call, is_ivr,
  is_failed,
}
use callio.Store.Rows.Laws.{find_call-update_call, update_call-affected}
use callio.Store.Calls.{
  same_status, is_expired_handover, Times, transition_status, mark_ivr_auto_accepted,
  mark_handover_offered, claim_handover, return_handover_to_queue, expire_handover,
  update_call_agent_if_current, assign_call_to_agent_if_unassigned,
  assign_call_to_agent_if_eligible, enter_queue, withdraw_offer, overflow_to_queue,
  mark_call_failed_if_not_final, terminate_call_if_not_terminated, correct_no_answer_if_answered,
  fill_times, finalize_status, finalize_from_webhook, finalize_call_as_failed,
}
use callio.Store.Calls.Finality.{
  Write, answer, accept_ivr, offer_handover, take_handover, return_handover, drop_handover,
  move_agent, assign, accept, queue_up, withdraw, overflow, terminate, fail, finalize,
  finalize_failed, apply, Ends, by_terminate, by_failure, by_provider, by_provider_failure,
}

abbrev by_status : Status → ℕ
by_status failed = 0
by_status terminated = 1
by_status _ = 2

-- A row in the IVR counts as live: one statement answers it, whatever its status.
abbrev pub ends_left : Call → ℕ
ends_left c = if is_ivr c.state then 2 else by_status c.status

abbrev pub budget : ℕ → Db → ℕ
budget id db = elim (find_call id db.calls) [ none ↦ 0 | some c ↦ ends_left c ]

module _ (id j : ℕ) (guard : Call → Bool) (assign' : Call → Call) (db : Db)
    (keeps : (c : Call) → (assign' c).id ≡ c.id) where
  pub budget-update_call :
      ((c : Call) → guard c ≡ true → ends_left (assign' c) ≤ ends_left c)
      → budget j (update_call id guard assign' db).0 ≤ budget j db
  budget-update_call step =
      let law = find_call-update_call id j guard assign' db keeps in
      elim (Option-cases (find_call j db.calls)) [
        | inl e ↦ ground arith
        | inr (c, e) ↦ ground (arith, step c)
      ]

  -- A statement that changes a row to an end uses the row's budget up.
  pub budget-update_call_end :
      ((c : Call) → guard c ≡ true → ends_left (assign' c) + 1 ≤ ends_left c)
      → (if (update_call id guard assign' db).1 && (id == j) then 1 else 0)
          + budget j (update_call id guard assign' db).0
        ≤ budget j db
  budget-update_call_end step =
      let law = find_call-update_call id j guard assign' db keeps in
      let hit = (update_call-affected id guard assign' db).0 in
      elim (Bool-cases (id == j)) [
        | inl same ↦
            let here : id ≡ j = ground arith in
            elim (Option-cases (find_call j db.calls)) [
              | inl e ↦ ground arith
              | inr (c, e) ↦ ground (arith, step c)
            ]
        | inr apart ↦ elim (Option-cases (find_call j db.calls)) [
          | inl e ↦ ground arith
          | inr (c, e) ↦ ground arith
        ]
      ]

pub fill_spends : (id j : ℕ) (t : Times) (db : Db) → budget j (fill_times id t db).0 ≤ budget j db
unfolding fill_times
fill_spends id j t db = budget-update_call id j _ _ db (λ c. refl) (λ c g. omega arith)

final_spends :
    (now id j : ℕ) (r : Option TerminationReason) (by : Option TerminatedBy) (db : Db)
    → (if (finalize_status now id terminated r by db).1 && (id == j) then 1 else 0)
        + budget j (finalize_status now id terminated r by db).0
      ≤ budget j db
unfolding finalize_status
final_spends now id j r by db = budget-update_call_end id j _ _ db (λ c. refl) (λ c g. ground arith)

pub correct_spends :
    (id j : ℕ) (db : Db) → budget j (correct_no_answer_if_answered id db).0 ≤ budget j db
unfolding correct_no_answer_if_answered
correct_spends id j db = budget-update_call id j _ _ db (λ c. refl) (λ c g. omega arith)

abbrev provider_failure : ℕ → Option TerminatedBy → Call → Call
provider_failure now by c = record c {
  status = failed;
  state = none;
  termination_reason = some provider_error;
  terminated_by = coalesce c.terminated_by by;
  ended_at = coalesce c.ended_at (some now);
}

-- The provider's failure also changes a row that is TERMINATED.
pub failure_spends :
    (now id j : ℕ) (by : Option TerminatedBy) (t : Times) (db : Db)
    → (if (finalize_call_as_failed now id by t db).1 && (id == j) then 1 else 0)
        + budget j (finalize_call_as_failed now id by t db).0
      ≤ budget j db
unfolding finalize_call_as_failed
failure_spends now id j by t db = omega (
  arith,
  fill_spends id j t db,
  budget-update_call_end id j (λ c. not (is_failed c.status)) (provider_failure now by)
      (fill_times id t db).0 (λ c. refl) (λ c g. ground arith),
)

-- The statement of an end, on either branch, reports whether it used up the budget.
pub commit_spends :
    (now id j : ℕ) (w : Write) (db : Db)
    → Ends id w
    → (if (apply now w db).1 && (id == j) then 1 else 0) + budget j (apply now w db).0 ≤ budget j db
unfolding apply terminate_call_if_not_terminated mark_call_failed_if_not_final finalize_from_webhook
commit_spends now id j w db (by_terminate r by ended q) =
    budget-update_call_end id j _ _ db (λ c. refl) (λ c g. ground arith)
commit_spends now id j w db (by_failure r by) =
    budget-update_call_end id j _ _ db (λ c. refl) (λ c g. ground arith)
commit_spends now id j w db (by_provider r by t) =
    let filled = (fill_times id t db).0 in
    let flipped = (finalize_status now id terminated r by filled).0 in
    omega
      (arith, fill_spends id j t db, final_spends now id j r by filled, correct_spends id j flipped)
commit_spends now id j w db (by_provider_failure by t) = failure_spends now id j by t db

answer_le :
    (c : Call)
    → same_status c.status ringing ≡ true
    → ends_left (record c { status = in_progress }) ≤ ends_left c
answer_le c g = ground arith

pub webhook_spends :
    (now id j : ℕ) (r : TerminationReason) (by : TerminatedBy) (t : Times) (db : Db)
    → (if (finalize_from_webhook now id terminated (some r) (some by) t db).1 && (id == j)
          then 1
          else 0)
        + budget j (finalize_from_webhook now id terminated (some r) (some by) t db).0
      ≤ budget j db
unfolding apply
webhook_spends now id j r by t db =
    commit_spends now id j (finalize id (some r) (some by) t) db (by_provider (some r) (some by) t)

pub rejected_spends :
    (now id j t : ℕ) (db : Db)
    → let done =
        terminate_call_if_not_terminated now id (some rejected) customer (some t) none db in
      (if done.1 && (id == j) then 1 else 0) + budget j done.0 ≤ budget j db
unfolding apply
rejected_spends now id j t db =
    commit_spends now id j (terminate id (some rejected) customer (some t) none) db
      (by_terminate (some rejected) customer (some t) none)

-- The other guarded statements leave the budget alone, or use it up as the ends do.
pub write_spends : (now j : ℕ) (w : Write) (db : Db) → budget j (apply now w db).0 ≤ budget j db
unfolding apply transition_status mark_ivr_auto_accepted mark_handover_offered claim_handover
    return_handover_to_queue expire_handover update_call_agent_if_current
    assign_call_to_agent_if_unassigned assign_call_to_agent_if_eligible enter_queue withdraw_offer
    overflow_to_queue
write_spends now j (answer id) db =
    budget-update_call id j (λ c. same_status c.status ringing)
      (λ c. record c { status = in_progress }) db (λ c. refl) (λ c g. answer_le c g)
write_spends now j (accept_ivr id) db =
    budget-update_call id j (λ c. is_ivr c.state)
      (λ c. record c { status = in_progress; state = some ivr }) db (λ c. refl)
      (λ c g. ground arith)
write_spends now j (offer_handover id a) db =
    budget-update_call id j _ _ db (λ c. refl) (λ c g. le_refl _)
write_spends now j (take_handover id a) db =
    budget-update_call id j _ _ db (λ c. refl) (λ c g. le_refl _)
write_spends now j (return_handover id a t) db =
    budget-update_call id j (is_expired_handover a t)
      (λ c. record c { status = ringing; state = some queue; queued_at = some now }) db (λ c. refl)
      (λ c g. ground arith)
write_spends now j (drop_handover id a t) db =
    budget-update_call id j _ _ db (λ c. refl) (λ c g. le_refl _)
write_spends now j (move_agent id old new) db =
    budget-update_call id j _ _ db (λ c. refl) (λ c g. le_refl _)
write_spends now j (assign id a) db = budget-update_call id j _ _ db (λ c. refl) (λ c g. le_refl _)
write_spends now j (accept id a) db = budget-update_call id j _ _ db (λ c. refl) (λ c g. le_refl _)
write_spends now j (queue_up id q) db =
    budget-update_call id j _ _ db (λ c. refl) (λ c g. le_refl _)
write_spends now j (withdraw id a t) db =
    budget-update_call id j _ _ db (λ c. refl) (λ c g. le_refl _)
write_spends now j (overflow id from to a) db =
    budget-update_call id j _ _ db (λ c. refl) (λ c g. le_refl _)
write_spends now j (terminate id r by ended q) db =
    omega (arith, commit_spends now id j (terminate id r by ended q) db (by_terminate r by ended q))
write_spends now j (fail id r by) db =
    omega (arith, commit_spends now id j (fail id r by) db (by_failure r by))
write_spends now j (finalize id r by t) db =
    omega (arith, commit_spends now id j (finalize id r by t) db (by_provider r by t))
write_spends now j (finalize_failed id by t) db = omega (arith, failure_spends now id j by t db)
