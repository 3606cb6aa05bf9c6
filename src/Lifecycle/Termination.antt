-- ===== src/Lifecycle/Termination.antt =====
-- core/calls/CallTerminator.js: the one way a call ends. What `settle` does for others is a list of
-- `Effect`s in the order in which it starts them; a step that fails is logged there and the next one
-- runs, so failures are left out. The `log` fields and metrics are left out too.
pub mod Once
use callio.Prelude.{
  ℕ, String, Bool, true, false, not, ◌&&◌, Option, none, some, List, [], ◌∷◌, ◌++◌, is_some,
  is_truthy, if◌then◌else◌,
}
use callio.Store.Rows.{
  Status, TerminationReason, TerminatedBy, Call, Db, is_active, is_inbound, is_null, find_call,
}
use callio.Store.Calls.{mark_call_failed_if_not_final, terminate_call_if_not_terminated}

-- What to tell the provider.
pub data Notice : Type 0 where
  end_notice terminate_notice reject_notice busy_notice no_notice : Notice

pub data Media : Type 0 where
  broadcast local : Media

-- The options of `end`.
pub record Ending : Type 0 where
  pub reason : TerminationReason
  pub terminated_by : TerminatedBy
  pub failure : Bool
  pub only_if_status : Option Status
  pub provider : Notice
  pub media : Media
  pub agent_goes_offline : Bool

pub data Effect : Type 0 where
  queue_duration_filled participants_ended : ℕ → Effect
  announced : ℕ → TerminationReason → TerminatedBy → Effect
  agent_released : ℕ → ℕ → Bool → Effect
  queues_drained : ℕ → Effect
  provider_rejected : ℕ → Bool → Effect
  provider_terminated : ℕ → Effect
  deadlines_cleared state_dropped legs_closed inbox_released close_posted logged : ℕ → Effect
  queue_updated : ℕ → ℕ → Effect

-- `#closeMedia`
unfoldable pub close_media : ℕ → Media → List Effect
close_media id broadcast =
    deadlines_cleared id ∷ state_dropped id ∷ legs_closed id ∷ close_posted id ∷ []
close_media id local =
    deadlines_cleared id ∷ state_dropped id ∷ legs_closed id ∷ inbox_released id ∷ []

unfoldable pub free_agent : Call → Bool → List Effect
free_agent call offline = elim call.agent_id [
  | none ↦ []
  | some a ↦
      agent_released a call.id offline
      ∷ (if offline then [] else queues_drained call.tenant_id ∷ [])
]

abbrev has_text : Option String → Bool
has_text none = false
has_text (some s) = is_truthy s

-- An inbound call that nobody answered is rejected at its end, any other is terminated.
unfoldable pub notify : Call → Notice → List Effect
notify call end_notice =
    if is_inbound call.direction && is_null call.answered_at
    then provider_rejected call.id false ∷ []
    else provider_terminated call.id ∷ []
notify call terminate_notice = provider_terminated call.id ∷ []
notify call reject_notice = provider_rejected call.id false ∷ []
notify call busy_notice = provider_rejected call.id true ∷ []
notify call no_notice = []

unfoldable pub tell_provider : Call → Notice → List Effect
tell_provider call notice = if has_text call.provider_call_id then notify call notice else []

unfoldable pub update_queue : Call → List Effect
update_queue call = elim call.queue_id [ none ↦ [] | some q ↦ queue_updated call.tenant_id q ∷ [] ]

unfoldable pub settle : Call → Ending → List Effect
settle call o =
    (queue_duration_filled call.id
      ∷ participants_ended call.id
      ∷ announced call.id o.reason o.terminated_by
      ∷ [])
    ++ (free_agent call o.agent_goes_offline
        ++ (tell_provider call o.provider
            ++ (close_media call.id o.media ++ (logged call.id ∷ update_queue call))))

-- The guarded statement that decides who ends the call.
unfoldable pub commit : ℕ → ℕ → Ending → Db → Db × Bool
commit now id o db =
    if o.failure
    then mark_call_failed_if_not_final now id o.reason o.terminated_by db
    else terminate_call_if_not_terminated now id (some o.reason) o.terminated_by none
        o.only_if_status db

-- `LIVE_STATUSES.has(await getStatus(id))`
unfoldable pub is_live : ℕ → Db → Bool
is_live id db = elim (find_call id db.calls) [ none ↦ false | some c ↦ is_active c.status ]

-- `end`, on the row that the caller read before.
unfoldable pub end_call : ℕ → Call → Ending → Db → Db × List Effect × Bool
end_call now call o db =
    let (after, committed) = commit now call.id o db in
    if committed
    then (after, settle call o, true)
    else if is_some o.only_if_status && is_live call.id after
    then (after, [], false)
    else (after, close_media call.id local, false)

-- `end`, on an id: the row is read first.
unfoldable pub end_by_id : ℕ → ℕ → Ending → Db → Db × List Effect × Bool
end_by_id now id o db = elim (find_call id db.calls) [
  | none ↦ (db, [], false)
  | some call ↦ end_call now call o db
]
