-- ===== src/Store/Calls.antt =====
-- persistence/CallRepository.js: the statements that change a call's row, each with its guard. `now`
-- stands for `NOW()`. Columns that no guard reads (metadata, failure details, durations in queue) and
-- `updated_at` are left out, and so are the queries.
pub mod Finality
pub mod Offers
pub mod Patches
pub mod Budget
use callio.Prelude.{
  ℕ, ◌+◌, Bool, true, false, ◌&&◌, ◌||◌, not, Option, none, some, List, [], ◌∷◌, ◌==◌, get_or,
  if◌then◌else◌,
}
use callio.Store.Rows.{
  Status, initiated, ringing, in_progress, terminated, failed, State, ivr, queue, active, inbound,
  TerminationReason, completed, no_answer, provider_error, TerminatedBy, Call, Db, is_active,
  is_ringing, is_in_progress, is_failed, is_terminated, is_inbound, is_not_ivr, is_ivr, is_null,
  is_id, same_id, at_most, coalesce, find_call, update_call,
}

pub Status-discrete : Discrete Status
Status-discrete = hlevel

abbrev pub same_status : Status → Status → Bool
same_status initiated initiated = true
same_status ringing ringing = true
same_status in_progress in_progress = true
same_status terminated terminated = true
same_status failed failed = true
same_status _ _ = false

abbrev always : Call → Bool
always c = true

unfoldable pub update_status : ℕ → Status → Db → Db × Bool
update_status id s = update_call id always (λ c. record c { status = s })

unfoldable pub transition_status : ℕ → Status → Status → Db → Db × Bool
transition_status id expected new =
    update_call id (λ c. same_status c.status expected) (λ c. record c { status = new })

unfoldable pub update_state : ℕ → Option State → Db → Db × Bool
update_state id s = update_call id always (λ c. record c { state = s })

unfoldable pub mark_ivr_auto_accepted : ℕ → Db → Db × Bool
mark_ivr_auto_accepted id =
    update_call id (λ c. is_ivr c.state) (λ c. record c { status = in_progress; state = some ivr })

-- `IvrRepository.updateCallState` with a status, as an IVR session that hands its call over makes it.
unfoldable pub update_call_state : ℕ → ℕ → Option State → Status → Db → Db × Bool
update_call_state now id st s =
    update_call id always
      (λ c. record c { state = st; status = s; ringing_at = coalesce c.ringing_at (some now) })

unfoldable pub mark_handover_offered : ℕ → ℕ → ℕ → Db → Db × Bool
mark_handover_offered now id agent_id =
    update_call id (λ c. is_id c.agent_id agent_id && is_in_progress c.status)
      (λ c. record c { offered_at = some now })

unfoldable pub claim_handover : ℕ → ℕ → Db → Db × Bool
claim_handover id agent_id =
    update_call id (λ c. is_id c.agent_id agent_id && is_in_progress c.status)
      (λ c. record c { offered_at = none })

abbrev pub is_expired_handover : ℕ → ℕ → Call → Bool
is_expired_handover agent_id offered_at c =
    is_id c.agent_id agent_id && (is_in_progress c.status && at_most c.offered_at offered_at)

unfoldable pub return_handover_to_queue : ℕ → ℕ → ℕ → ℕ → Db → Db × Bool
return_handover_to_queue now id agent_id offered_at =
    update_call id (is_expired_handover agent_id offered_at)
      (λ c. record c { status = ringing; state = some queue; queued_at = some now })

unfoldable pub expire_handover : ℕ → ℕ → ℕ → Db → Db × Bool
expire_handover id agent_id offered_at =
    update_call id (is_expired_handover agent_id offered_at) (λ c. record c { offered_at = none })

unfoldable pub update_call_agent_if_current : ℕ → Option ℕ → Option ℕ → Db → Db × Bool
update_call_agent_if_current id old_agent new_agent =
    update_call id (λ c. same_id c.agent_id old_agent && (is_active c.status && is_not_ivr c.state))
      (λ c. record c { agent_id = new_agent })

-- The guard and the assignment that `assignCallToAgentIfUnassigned` and the claim share.
abbrev pub is_unassigned : Call → Bool
is_unassigned c =
    is_null c.agent_id && (is_ringing c.status && (is_inbound c.direction && is_not_ivr c.state))

unfoldable pub assign_call_to_agent_if_unassigned : ℕ → ℕ → ℕ → Db → Db × Bool
assign_call_to_agent_if_unassigned now id agent_id =
    update_call id is_unassigned (λ c. record c { agent_id = some agent_id; offered_at = some now })

unfoldable pub assign_call_to_agent_if_eligible : ℕ → ℕ → Db → Db × Bool
assign_call_to_agent_if_eligible id agent_id =
    update_call id
      (λ c.
        is_active c.status
        && ((is_null c.agent_id || is_id c.agent_id agent_id) && is_not_ivr c.state))
      (λ c. record c { agent_id = some agent_id; offered_at = none })

unfoldable pub enter_queue : ℕ → ℕ → Option ℕ → Db → Db × Bool
enter_queue now id queue_id =
    update_call id always
      (λ c. record c { queued_at = some now; queue_id = coalesce queue_id c.queue_id })

-- `expiredBefore`, where the caller gives it.
abbrev pub expired_before : Option ℕ → Option ℕ → Bool
expired_before none offered_at = true
expired_before (some t) offered_at = at_most offered_at t

unfoldable pub withdraw_offer : ℕ → ℕ → Option ℕ → Db → Db × Bool
withdraw_offer id agent_id before =
    update_call id
      (λ c.
        is_id c.agent_id agent_id
        && (is_ringing c.status
            && (is_inbound c.direction
                && (not (is_null c.offered_at) && expired_before before c.offered_at))))
      (λ c. record c { agent_id = none; offered_at = none })

unfoldable pub overflow_to_queue : ℕ → ℕ → ℕ → ℕ → Option ℕ → Db → Db × Bool
overflow_to_queue now id from_queue to_queue offered_agent =
    update_call id
      (λ c.
        is_id c.queue_id from_queue
        && (is_ringing c.status
            && (is_inbound c.direction
                && (same_id c.agent_id offered_agent
                    && (is_null c.agent_id || not (is_null c.offered_at))))))
      (λ c. record c {
        queue_id = some to_queue;
        queued_at = some now;
        overflow_count = c.overflow_count + 1;
        agent_id = none;
        offered_at = none;
      })

-- `status NOT IN ('TERMINATED', 'FAILED')`
abbrev pub is_not_final : Call → Bool
is_not_final c = not (is_terminated c.status) && not (is_failed c.status)

abbrev as_failed : ℕ → TerminationReason → TerminatedBy → Call → Call
as_failed now reason by c = record c {
  status = failed;
  state = none;
  termination_reason = some reason;
  terminated_by = some by;
  ended_at = coalesce c.ended_at (some now);
}

unfoldable pub mark_call_failed : ℕ → ℕ → TerminationReason → TerminatedBy → Db → Db × Bool
mark_call_failed now id reason by = update_call id always (as_failed now reason by)

unfoldable pub mark_call_failed_if_not_final :
    ℕ → ℕ → TerminationReason → TerminatedBy → Db → Db × Bool
mark_call_failed_if_not_final now id reason by =
    update_call id is_not_final (as_failed now reason by)

abbrev pub is_required : Option Status → Status → Bool
is_required none s = true
is_required (some r) s = same_status s r

unfoldable pub terminate_call_if_not_terminated :
    ℕ → ℕ → Option TerminationReason → TerminatedBy → Option ℕ → Option Status → Db → Db × Bool
terminate_call_if_not_terminated now id reason by ended_at required =
    update_call id (λ c. is_not_final c && is_required required c.status)
      (λ c. record c {
        status = terminated;
        state = none;
        offered_at = none;
        termination_reason = reason;
        terminated_by = some by;
        ended_at = coalesce ended_at (some now);
      })

abbrev pub is_no_answer : Option TerminationReason → Bool
is_no_answer (some no_answer) = true
is_no_answer _ = false

unfoldable pub correct_no_answer_if_answered : ℕ → Db → Db × Bool
correct_no_answer_if_answered id =
    update_call id
      (λ c.
        is_terminated c.status
        && (is_no_answer c.termination_reason
            && (not (is_null c.answered_at) && is_null c.ivr_flow_id)))
      (λ c. record c { termination_reason = some completed })

-- What the provider reports about a call that ended.
pub record Times : Type 0 where
  pub ended_at : Option ℕ
  pub answered_at : Option ℕ
  pub call_duration : Option ℕ
  pub ringing_duration : Option ℕ

-- Phase 1 of both finalizations: missing times are filled in.
unfoldable pub fill_times : ℕ → Times → Db → Db × Bool
fill_times id t = update_call id always (λ c. record c {
  ended_at = coalesce t.ended_at c.ended_at;
  answered_at = coalesce t.answered_at c.answered_at;
  call_duration = get_or t.call_duration c.call_duration;
  ringing_duration = get_or t.ringing_duration c.ringing_duration;
})

-- Phase 2 of `finalizeFromWebhook`: the guarded change of the status.
unfoldable pub finalize_status :
    ℕ → ℕ → Status → Option TerminationReason → Option TerminatedBy → Db → Db × Bool
finalize_status now id status reason by = update_call id is_not_final (λ c. record c {
  status = status;
  state = none;
  termination_reason = coalesce c.termination_reason reason;
  terminated_by = coalesce c.terminated_by by;
  ended_at = coalesce c.ended_at (some now);
})

unfoldable pub finalize_from_webhook :
    ℕ → ℕ → Status → Option TerminationReason → Option TerminatedBy → Times → Db → Db × Bool
finalize_from_webhook now id status reason by t db =
    let (filled, _) = fill_times id t db in
    let (flipped, won) = finalize_status now id status reason by filled in
    let (corrected, _) = correct_no_answer_if_answered id flipped in (corrected, won)

unfoldable pub finalize_call_as_failed : ℕ → ℕ → Option TerminatedBy → Times → Db → Db × Bool
finalize_call_as_failed now id by t db =
    let (filled, _) = fill_times id t db in
    update_call id (λ c. not (is_failed c.status))
      (λ c. record c {
        status = failed;
        state = none;
        termination_reason = some provider_error;
        terminated_by = coalesce c.terminated_by by;
        ended_at = coalesce c.ended_at (some now);
      })
      filled
