-- ===== src/Channels/Healing.antt =====
-- A call that was answered is not left as one that nobody answered.
use callio.Prelude.{
  ℕ, ◌≡◌, ◌≢◌, refl, Bool, true, false, ◌&&◌, not, inl, inr, none, some, arith, Bool-cases,
  Option-cases,
}
use callio.Store.Rows.{
  terminated, completed, no_answer, Call, Db, is_terminated, is_null, find_call,
}
use callio.Store.Rows.Laws.{find_call-update_call}
use callio.Store.Calls.{
  is_no_answer, correct_no_answer_if_answered, fill_times, finalize_status, finalize_from_webhook,
}
use callio.Store.Calls.Patches.{update_timestamp}
use callio.Channels.Ended.{
  EndEvent, end_terminated_by, end_times, end_reason, finalize, patch_failure, patch_ended_at,
  handle_end,
}

-- The row of an ended call says NO_ANSWER and has a time of the answer, outside the IVR.
abbrev pub Contradicts : Call → Type 0
Contradicts d =
    (d.status ≡ terminated)
    × (d.termination_reason ≡ some no_answer)
    × (d.answered_at ≢ none)
    × (d.ivr_flow_id ≡ none)

abbrev contradicts : Call → Bool
contradicts d =
    is_terminated d.status
    && (is_no_answer d.termination_reason && (not (is_null d.answered_at) && is_null d.ivr_flow_id))

Contradicts-test : (d : Call) → Contradicts d → contradicts d ≡ true
Contradicts-test d (over, missed, answered, plain) = elim (Option-cases d.answered_at) [
  | inl e ↦ absurd (answered e)
  | inr (t, e) ↦ ground arith
]

corrected : Call → Call
corrected c = record c { termination_reason = some completed }

-- After the correction no row contradicts itself.
corrected-Consistent :
    (id : ℕ) (d : Call) (db : Db)
    → find_call id (correct_no_answer_if_answered id db).0.calls ≡ some d
    → contradicts d ≡ false
unfolding correct_no_answer_if_answered corrected
corrected-Consistent id d db there =
    let law = find_call-update_call id id contradicts corrected db (λ c. refl) in
    elim (Option-cases (find_call id db.calls)) [
      | inl e ↦ absurd (ground arith)
      | inr (c, e) ↦ elim (Bool-cases (contradicts c)) [
        | inl on ↦ let same : d ≡ corrected c = ground arith in rw same (ground arith)
        | inr off ↦ let same : d ≡ c = ground arith in rw same off
      ]
    ]

-- What is patched afterwards changes the time of the end only.
patched-Consistent :
    (now : ℕ) (c : Call) (e : EndEvent) (d : Call) (db : Db)
    → ((x : Call) → find_call c.id db.calls ≡ some x → contradicts x ≡ false)
    → find_call c.id (patch_ended_at now c e db).calls ≡ some d
    → contradicts d ≡ false
unfolding patch_ended_at update_timestamp
patched-Consistent now c e d db consistent there =
    elim (Bool-cases (is_null e.ended_at && is_null c.ended_at)) [
      | inl on ↦
          let law =
            find_call-update_call c.id c.id (λ x. true) (λ x. record x { ended_at = some now }) db
              (λ x. refl) in
          elim (Option-cases (find_call c.id db.calls)) [
            | inl none_there ↦ absurd (ground arith)
            | inr (x, found) ↦
                let same : d ≡ record x { ended_at = some now } = ground arith in
                rw same (consistent x found)
          ]
      | inr off ↦ consistent d (ground arith)
    ]

-- Once the end of a call that did not fail has been handled, the row does not say NO_ANSWER and have a
-- time of the answer, outside the IVR: whatever the row was when the handler read it and when its
-- statements ran, and whatever times the provider reports.
pub handled_end_consistent :
    (now : ℕ) (c : Call) (e : EndEvent) (d : Call) (db : Db)
    → e.is_failed ≡ false
    → find_call c.id (handle_end now c e db).db.calls ≡ some d
    → ¬ Contradicts d
unfolding handle_end finalize finalize_from_webhook patch_failure
handled_end_consistent now c e d db fine there h =
    let flipped =
      (finalize_status now c.id terminated (some (end_reason now c e)) (some (end_terminated_by e))
        (fill_times c.id (end_times now c e) db).0).0 in
    let healed = (correct_no_answer_if_answered c.id flipped).0 in
    let read : (handle_end now c e db).db ≡ patch_ended_at now c e healed = ground arith in
    cc (
      Contradicts-test d h,
      patched-Consistent now c e d healed (λ x. corrected-Consistent c.id x flipped)
          (rw (← read) there),
    )
