-- ===== src/Store/Calls/Finality.antt =====
-- What becomes of a call that has ended, and of further ends of it, however the workers' statements
-- interleave.
use callio.Prelude.{
  ℕ, ◌≡◌, ◌⊎◌, refl, inl, inr, Bool, true, false, Option, none, some, List, [], ◌∷◌, arith,
}
use callio.Store.Rows.{
  Status, TerminationReason, TerminatedBy, Call, Db, ringing, in_progress, inbound, queue,
  terminated, failed, is_active, coalesce, find_call, update_call,
}
use callio.Store.Rows.Laws.{
  HoldsAt, update_call-HoldsAt, update_call_hit, update_call_refused, update_call-affected,
  find_call-update_call,
}
use callio.Store.Calls.{
  Times, is_unassigned, transition_status, mark_ivr_auto_accepted, mark_handover_offered,
  claim_handover, return_handover_to_queue, expire_handover, update_call_agent_if_current,
  assign_call_to_agent_if_unassigned, assign_call_to_agent_if_eligible, enter_queue, withdraw_offer,
  overflow_to_queue, mark_call_failed_if_not_final, terminate_call_if_not_terminated,
  correct_no_answer_if_answered, fill_times, finalize_status, finalize_from_webhook,
  finalize_call_as_failed, update_call_state,
}

-- The guarded statements: every one of `Calls` but `updateStatus`, `updateState`, `markCallFailed` and
-- `updateCallState`, which have no guard. The only change of status that callers ask for by value is
-- from RINGING to IN_PROGRESS, and the only status that they finalize a call with is TERMINATED.
pub data Write : Type 0 where
  answer : ℕ → Write
  accept_ivr : ℕ → Write
  offer_handover take_handover : ℕ → ℕ → Write
  return_handover drop_handover : ℕ → ℕ → ℕ → Write
  move_agent : ℕ → Option ℕ → Option ℕ → Write
  assign accept : ℕ → ℕ → Write
  queue_up : ℕ → Option ℕ → Write
  withdraw : ℕ → ℕ → Option ℕ → Write
  overflow : ℕ → ℕ → ℕ → Option ℕ → Write
  terminate : ℕ → Option TerminationReason → TerminatedBy → Option ℕ → Option Status → Write
  fail : ℕ → TerminationReason → TerminatedBy → Write
  finalize : ℕ → Option TerminationReason → Option TerminatedBy → Times → Write
  finalize_failed : ℕ → Option TerminatedBy → Times → Write

unfoldable pub apply : ℕ → Write → Db → Db × Bool
apply now (answer id) = transition_status id ringing in_progress
apply now (accept_ivr id) = mark_ivr_auto_accepted id
apply now (offer_handover id a) = mark_handover_offered now id a
apply now (take_handover id a) = claim_handover id a
apply now (return_handover id a t) = return_handover_to_queue now id a t
apply now (drop_handover id a t) = expire_handover id a t
apply now (move_agent id old new) = update_call_agent_if_current id old new
apply now (assign id a) = assign_call_to_agent_if_unassigned now id a
apply now (accept id a) = assign_call_to_agent_if_eligible id a
apply now (queue_up id q) = enter_queue now id q
apply now (withdraw id a t) = withdraw_offer id a t
apply now (overflow id from to a) = overflow_to_queue now id from to a
apply now (terminate id r by ended s) = terminate_call_if_not_terminated now id r by ended s
apply now (fail id r by) = mark_call_failed_if_not_final now id r by
apply now (finalize id r by t) = finalize_from_webhook now id terminated r by t
apply now (finalize_failed id by t) = finalize_call_as_failed now id by t

-- The statements of all workers in the order in which the database runs them, each with its time.
unfoldable pub run : List (ℕ × Write) → Db → Db
run [] db = db
run ((now, w) ∷ ws) db = run ws (apply now w db).0

-- A row that has ended with a status, and may since have become FAILED.
abbrev pub HasEnded : Status → Call → Type 0
HasEnded s c =
    (is_active c.status ≡ false) × (c.state ≡ none) × ((c.status ≡ s) ⊎ (c.status ≡ failed))

fill_times-HasEnded :
    (s : Status) (j id : ℕ) (t : Times) (db : Db)
    → HoldsAt j (HasEnded s) db
    → HoldsAt j (HasEnded s) (fill_times id t db).0
unfolding fill_times
fill_times-HasEnded s j id t db h =
    update_call-HoldsAt (HasEnded s) id j _ _ db (λ c. refl) (λ c g p. p) h

finalize_status-HasEnded :
    (s : Status) (j now id : ℕ) (r : Option TerminationReason) (by : Option TerminatedBy) (db : Db)
    → HoldsAt j (HasEnded s) db
    → HoldsAt j (HasEnded s) (finalize_status now id terminated r by db).0
unfolding finalize_status
finalize_status-HasEnded s j now id r by db h =
    update_call-HoldsAt (HasEnded s) id j _ _ db (λ c. refl) (λ c g p. absurd (ground arith)) h

correct-HasEnded :
    (s : Status) (j id : ℕ) (db : Db)
    → HoldsAt j (HasEnded s) db
    → HoldsAt j (HasEnded s) (correct_no_answer_if_answered id db).0
unfolding correct_no_answer_if_answered
correct-HasEnded s j id db h =
    update_call-HoldsAt (HasEnded s) id j _ _ db (λ c. refl) (λ c g p. p) h

module _ (s : Status) (j now : ℕ) (db : Db) (h : HoldsAt j (HasEnded s) db) where
  keep :
      (id : ℕ) (guard : Call → Bool) (assign' : Call → Call)
      → ((c : Call) → (assign' c).id ≡ c.id)
      → ((c : Call) → guard c ≡ true → HasEnded s c → HasEnded s (assign' c))
      → HoldsAt j (HasEnded s) (update_call id guard assign' db).0
  keep id guard assign' keeps step =
      update_call-HoldsAt (HasEnded s) id j guard assign' db keeps step h

  pub apply-HasEnded : (w : Write) → HoldsAt j (HasEnded s) (apply now w db).0
  unfolding apply transition_status mark_ivr_auto_accepted mark_handover_offered claim_handover
      return_handover_to_queue expire_handover update_call_agent_if_current
      assign_call_to_agent_if_unassigned assign_call_to_agent_if_eligible enter_queue withdraw_offer
      overflow_to_queue mark_call_failed_if_not_final terminate_call_if_not_terminated
      finalize_from_webhook finalize_call_as_failed
  apply-HasEnded (answer id) = keep id _ _ (λ c. refl) (λ c g p. absurd (ground arith))
  apply-HasEnded (accept_ivr id) = keep id _ _ (λ c. refl) (λ c g p. absurd (ground arith))
  apply-HasEnded (offer_handover id a) = keep id _ _ (λ c. refl) (λ c g p. p)
  apply-HasEnded (take_handover id a) = keep id _ _ (λ c. refl) (λ c g p. p)
  apply-HasEnded (return_handover id a t) = keep id _ _ (λ c. refl) (λ c g p. absurd (ground arith))
  apply-HasEnded (drop_handover id a t) = keep id _ _ (λ c. refl) (λ c g p. p)
  apply-HasEnded (move_agent id old new) = keep id _ _ (λ c. refl) (λ c g p. p)
  apply-HasEnded (assign id a) = keep id _ _ (λ c. refl) (λ c g p. p)
  apply-HasEnded (accept id a) = keep id _ _ (λ c. refl) (λ c g p. p)
  apply-HasEnded (queue_up id q) = keep id _ _ (λ c. refl) (λ c g p. p)
  apply-HasEnded (withdraw id a t) = keep id _ _ (λ c. refl) (λ c g p. p)
  apply-HasEnded (overflow id from to a) = keep id _ _ (λ c. refl) (λ c g p. p)
  apply-HasEnded (terminate id r by ended q) =
      keep id _ _ (λ c. refl) (λ c g p. absurd (ground arith))
  apply-HasEnded (fail id r by) = keep id _ _ (λ c. refl) (λ c g p. absurd (ground arith))
  apply-HasEnded (finalize id r by t) =
      correct-HasEnded s j id _
        (finalize_status-HasEnded s j now id r by _ (fill_times-HasEnded s j id t db h))
  apply-HasEnded (finalize_failed id by t) =
      update_call-HoldsAt (HasEnded s) id j _ _ _ (λ c. refl) (λ c g p. ground arith)
        (fill_times-HasEnded s j id t db h)

run-HasEnded :
    (s : Status) (j : ℕ) (ws : List (ℕ × Write)) (db : Db)
    → HoldsAt j (HasEnded s) db
    → HoldsAt j (HasEnded s) (run ws db)
unfolding run
run-HasEnded s j [] db h = h
run-HasEnded s j ((now, w) ∷ ws) db h =
    run-HasEnded s j ws (apply now w db).0 (apply-HasEnded s j now db h w)

-- Once a call has ended, no sequence of guarded statements makes it live again or gives it a state:
-- its status stays what it was, or becomes FAILED.
pub ended_stays_ended :
    (id : ℕ) (c : Call) (ws : List (ℕ × Write)) (db : Db)
    → find_call id db.calls ≡ some c
    → is_active c.status ≡ false
    → c.state ≡ none
    → (c' : Call) × (find_call id (run ws db).calls ≡ some c')
      × (is_active c'.status ≡ false)
      × (c'.state ≡ none)
      × ((c'.status ≡ c.status) ⊎ (c'.status ≡ failed))
ended_stays_ended id c ws db found over idle =
    let (c', found', kept) = run-HasEnded c.status id ws db (c, found, (over, idle, inl refl)) in
    (c', found', kept.0, kept.1, kept.2)

-- The statements by which a path ends a call: a plain terminate, a failure, the provider's end, and the
-- provider's end of a call that failed.
pub data Ends (id : ℕ) : Write → Type 0 where
  by_terminate :
      (r : Option TerminationReason) (by : TerminatedBy) (ended : Option ℕ) (q : Option Status)
      → Ends id (terminate id r by ended q)
  by_failure : (r : TerminationReason) (by : TerminatedBy) → Ends id (fail id r by)
  by_provider :
      (r : Option TerminationReason) (by : Option TerminatedBy) (t : Times)
      → Ends id (finalize id r by t)
  by_provider_failure : (by : Option TerminatedBy) (t : Times) → Ends id (finalize_failed id by t)

-- The status that an end gives the row.
abbrev pub status_of_end : Write → Status
status_of_end (fail _ _ _) = failed
status_of_end (finalize_failed _ _ _) = failed
status_of_end _ = terminated

-- Whether an end is the provider's end of a call that failed.
abbrev pub is_provider_failure : Write → Bool
is_provider_failure (finalize_failed _ _ _) = true
is_provider_failure _ = false

-- An end that changed the row has ended the call.
pub end_takes :
    (id now : ℕ) (w : Write) (db : Db)
    → Ends id w
    → (apply now w db).1 ≡ true
    → HoldsAt id (HasEnded (status_of_end w)) (apply now w db).0
unfolding apply terminate_call_if_not_terminated mark_call_failed_if_not_final finalize_from_webhook
    finalize_status finalize_call_as_failed
end_takes id now w db (by_terminate r by ended q) hit =
    update_call_hit (HasEnded terminated) id _ _ db (λ c. refl) (λ c e g. (refl, refl, inl refl))
      hit
end_takes id now w db (by_failure r by) hit =
    update_call_hit (HasEnded failed) id _ _ db (λ c. refl) (λ c e g. (refl, refl, inl refl)) hit
end_takes id now w db (by_provider r by t) hit = correct-HasEnded terminated id id _ (
    update_call_hit (HasEnded terminated) id _ _ _ (λ c. refl) (λ c e g. (refl, refl, inl refl))
      hit)
end_takes id now w db (by_provider_failure by t) hit =
    update_call_hit (HasEnded failed) id _ _ _ (λ c. refl) (λ c e g. (refl, refl, inl refl)) hit

-- On a call that has ended, an end changes nothing, unless it is the provider's failure.
pub end_refused :
    (id now : ℕ) (s : Status) (w : Write) (db : Db)
    → Ends id w
    → is_provider_failure w ≡ false
    → HoldsAt id (HasEnded s) db
    → (apply now w db).1 ≡ false
unfolding apply terminate_call_if_not_terminated mark_call_failed_if_not_final finalize_from_webhook
    finalize_status
end_refused id now s w db (by_terminate r by ended q) plain h =
    update_call_refused (HasEnded s) id _ _ db (λ c p. ground arith) h
end_refused id now s w db (by_failure r by) plain h =
    update_call_refused (HasEnded s) id _ _ db (λ c p. ground arith) h
end_refused id now s w db (by_provider r by t) plain h =
    update_call_refused (HasEnded s) id _ _ _ (λ c p. ground arith)
      (fill_times-HasEnded s id id t db h)
end_refused id now s w db (by_provider_failure by t) plain h = absurd (cc)

-- On a call that has failed, the provider's failure changes nothing either.
failed-refused :
    (id now : ℕ) (w : Write) (db : Db)
    → Ends id w
    → HoldsAt id (HasEnded failed) db
    → (apply now w db).1 ≡ false
unfolding apply finalize_call_as_failed
failed-refused id now w db (by_terminate r by ended q) h =
    end_refused id now failed _ db (by_terminate r by ended q) refl h
failed-refused id now w db (by_failure r by) h =
    end_refused id now failed _ db (by_failure r by) refl h
failed-refused id now w db (by_provider r by t) h =
    end_refused id now failed _ db (by_provider r by t) refl h
failed-refused id now w db (by_provider_failure by t) h =
    update_call_refused (HasEnded failed) id _ _ _ (λ c p. ground arith)
      (fill_times-HasEnded failed id id t db h)

-- Once a path has ended a call, by a terminate, a failure or either end of the provider that reports that it
-- changed the row, then after any further guarded statements every such path reports that it did not: each of
-- them where the call was ended as FAILED, and each but the provider's failure where it was TERMINATED.
pub over_once :
    (id now later : ℕ) (w v : Write) (ws : List (ℕ × Write)) (db : Db)
    → Ends id w
    → Ends id v
    → (status_of_end w ≡ failed) ⊎ (is_provider_failure v ≡ false)
    → (apply now w db).1 ≡ true
    → (apply later v (run ws (apply now w db).0)).1 ≡ false
over_once id now later w v ws db first second which hit =
    let over = end_takes id now w db first hit in
    let still = run-HasEnded (status_of_end w) id ws (apply now w db).0 over in
    elim which [
      | inl e ↦ failed-refused id later v _ second (rw e at still)
      | inr e ↦ end_refused id later (status_of_end w) v _ second e still
    ]

-- What the hand-over makes of a row.
abbrev handed_over : ℕ → Call → Call
handed_over now c = record c {
  state = some queue;
  status = ringing;
  ringing_at = coalesce c.ringing_at (some now);
}

update_call_state_read :
    (id now : ℕ) (c : Call) (db : Db)
    → find_call id db.calls ≡ some c
    → find_call id (update_call_state now id (some queue) ringing db).0.calls
      ≡ some (handed_over now c)
unfolding update_call_state
update_call_state_read id now c db found =
    ground (arith, find_call-update_call id id (λ d. true) (handed_over now) db (λ d. refl))

-- The statement by which an IVR session hands its call over has no guard: an inbound call that has
-- ended, with nobody assigned to it, is ringing in its queue again afterwards, and the next statement
-- that assigns an agent to it succeeds.
pub update_call_state_revives :
    (id now later agent_id : ℕ) (c : Call) (db : Db)
    → find_call id db.calls ≡ some c
    → is_active c.status ≡ false
    → c.direction ≡ inbound
    → c.agent_id ≡ none
    → HoldsAt id (λ c'. c'.status ≡ ringing) (update_call_state now id (some queue) ringing db).0
      × ((assign_call_to_agent_if_unassigned later id agent_id
            (update_call_state now id (some queue) ringing db).0).1
          ≡ true)
unfolding assign_call_to_agent_if_unassigned
update_call_state_revives id now later agent_id c db found over incoming free =
    let revived = (update_call_state now id (some queue) ringing db).0 in
    let read = update_call_state_read id now c db found in
    let affected =
      (update_call-affected id is_unassigned
        (λ d. record d { agent_id = some agent_id; offered_at = some later }) revived).0 in
    ((handed_over now c, read, refl), ground arith)
