-- ===== src/Ivr/Transfer/Outcome.antt =====
-- A call that its IVR flow transfers: core/ivr/IvrTransferHandler.js with the coordinator of assignments.
use callio.Prelude.{
  ℕ, ◌≡◌, refl, sym, ◌∙◌, ◌⊎◌, Bool, true, false, Option, none, some, ◌==◌, arith, Option-cases,
  Bool-cases, inl, inr,
}
use callio.Store.Rows.{Call, Db, is_null, coalesce, find_call, update_call}
use callio.Store.Rows.Laws.{AgentHoldsAt, HoldsAt, update_call-affected, find_call-update_call}
use callio.Store.Calls.{enter_queue, is_unassigned}
use callio.Store.Agents.Holding.{IsHeldBy}
use callio.Routing.Coordinator.{Floor, Setup}
use callio.Routing.Coordinator.Draining.{emit_queue_update-world}
use callio.Routing.Coordinator.Offers.Transfers.{Handed, assign_transferred_call-Handed}
use callio.Ivr.Transfer.{
  Audio, CallMeta, TransferData, assign, enter, handle, other_queue, reset_ringing_at, sends_off,
  target_availability, target_id_of, target_of,
}

-- The call entered its queue now, the one that the node names or else its own.
abbrev pub HasEntered : ℕ → ℕ → Option ℕ → Db → Type 0
HasEntered call_id now queue_id db =
    HoldsAt call_id
      (λ x. (x.queue_id ≡ queue_id) × ((x.queued_at ≡ some now) × (x.ringing_at ≡ some now))) db

found_assigned :
    (id : ℕ) (assign : Call → Call) (db : Db) (c : Call)
    → ((x : Call) → (assign x).id ≡ x.id)
    → find_call id db.calls ≡ some c
    → find_call id (update_call id (λ x. true) assign db).0.calls ≡ some (assign c)
found_assigned id assign db c keeps e =
    let own : (id == id) ≡ true = ground arith in
    find_call-update_call id id (λ x. true) assign db keeps ∙ rw (e, own) refl

enter-HasEntered :
    (s : Setup) (stop_session : Bool → Floor → Floor) (call_id : ℕ) (queue_id : Option ℕ)
    (f : Floor) (c : Call)
    → find_call call_id (stop_session true f).world.db.calls ≡ some c
    → HasEntered call_id s.now
        (coalesce queue_id c.queue_id)
        (enter s stop_session call_id queue_id f).world.db
unfolding enter reset_ringing_at enter_queue
enter-HasEntered s stop_session call_id queue_id f c e =
    let rung : Call = record c { ringing_at = some s.now } in
    let stopped = (stop_session true f).world.db in
    let first =
      found_assigned call_id (λ x. record x { ringing_at = some s.now }) stopped c (λ x. refl) e in
    let second =
      found_assigned call_id
        (λ x. record x { queued_at = some s.now; queue_id = coalesce queue_id x.queue_id })
        (reset_ringing_at s.now call_id stopped).0 rung (λ x. refl) first in
    (
      record rung { queued_at = some s.now; queue_id = coalesce queue_id c.queue_id },
      second,
      (refl, (refl, refl)),
    )

assign-Handed :
    (s : Setup) (call_id : ℕ) (is_to_agent : Bool) (target_id tenant_id : Option ℕ) (f : Floor)
    → Handed call_id f.world.db
        (assign s call_id is_to_agent target_id tenant_id f).0.world.db
        (assign s call_id is_to_agent target_id tenant_id f).1
unfolding assign
assign-Handed s call_id is_to_agent target_id none f = refl
assign-Handed s call_id is_to_agent target_id (some t) f =
    elim (Option-cases (find_call call_id f.world.db.calls)) [
      | inr (c, e) ↦
          rw (assign, e)
            (assign_transferred_call-Handed s call_id c.queue_id t (target_of is_to_agent target_id)
              f)
      | inl e ↦ elim (Bool-cases is_to_agent) [
        | inl a ↦ rw (assign, e, a) refl
        | inr a ↦ rw (assign, e, a, (emit_queue_update-world s t target_id f).0) refl
      ]
    ]

enter-agents :
    (s : Setup) (stop_session : Bool → Floor → Floor) (call_id : ℕ) (queue_id : Option ℕ)
    (f : Floor)
    → (enter s stop_session call_id queue_id f).world.db.agents
      ≡ (stop_session true f).world.db.agents
unfolding enter reset_ringing_at enter_queue
enter-agents s stop_session call_id queue_id f =
    (update_call-affected call_id _ _ _).1 ∙ (update_call-affected call_id _ _ _).1

enter-unassigned :
    (s : Setup) (stop_session : Bool → Floor → Floor) (call_id : ℕ) (queue_id : Option ℕ)
    (f : Floor) (c : Call)
    → find_call call_id (stop_session true f).world.db.calls ≡ some c
    → HoldsAt call_id
        (λ x. is_unassigned x ≡ true)
        (enter s stop_session call_id queue_id f).world.db
    → is_unassigned c ≡ true
unfolding enter reset_ringing_at enter_queue
enter-unassigned s stop_session call_id queue_id f c e (x, found, free) =
    let rung : Call = record c { ringing_at = some s.now } in
    let stopped = (stop_session true f).world.db in
    let first =
      found_assigned call_id (λ x. record x { ringing_at = some s.now }) stopped c (λ x. refl) e in
    let second =
      found_assigned call_id
        (λ x. record x { queued_at = some s.now; queue_id = coalesce queue_id x.queue_id })
        (reset_ringing_at s.now call_id stopped).0 rung (λ x. refl) first in
    ground arith

-- What has become of a call that was transferred, from the database once its session is stopped: an agent who
-- was free there is held by the call and has it, which nobody had; or nobody was given, no agent's row has
-- changed, and the call waits in the queue that it entered now.
pub record IsWith (call_id : ℕ) (c : Call) (stopped after : Db) : Type 0 where
  pub agent_id : ℕ
  pub was_free : AgentHoldsAt agent_id (λ a. is_null a.busy_call_id ≡ true) stopped
  pub is_held : AgentHoldsAt agent_id (IsHeldBy call_id) after
  pub was_unassigned : is_unassigned c ≡ true
  pub is_theirs : HoldsAt call_id (λ x. x.agent_id ≡ some agent_id) after

abbrev pub Transferred : ℕ → ℕ → Option ℕ → Call → Db → Db → Type 0
Transferred call_id now queue_id c stopped after =
    IsWith call_id c stopped after
    ⊎ (HasEntered call_id now queue_id after × (after.agents ≡ stopped.agents))

of_Handed :
    (call_id now : ℕ) (queue_id : Option ℕ) (c : Call) (stopped entered after : Db) (given : Bool)
    → entered.agents ≡ stopped.agents
    → HasEntered call_id now queue_id entered
    → (HoldsAt call_id (λ x. is_unassigned x ≡ true) entered → is_unassigned c ≡ true)
    → Handed call_id entered after given
    → Transferred call_id now queue_id c stopped after
of_Handed call_id now queue_id c stopped entered after false agents waits free h =
    rw h (inr (waits, agents))
of_Handed call_id now queue_id c stopped entered after true agents waits free h = inl (record {
  agent_id = h.agent_id;
  was_free = rw (sym agents) h.was_free;
  is_held = h.is_held;
  was_unassigned = free h.was_waiting;
  is_theirs = h.is_theirs;
})

-- When the IVR transfers a call and the target's state does not send the caller off, then from the database
-- once the call's session is stopped, where the call is: either an agent who was free there is held by the call
-- now and has it, which had nobody; or nobody was given, no agent's row has changed, and the call waits in the
-- target's queue, or else its own, with a new waiting time.
pub handle-Transferred :
    (s : Setup) (audio : Audio) (stop_session : Bool → Floor → Floor) (call_id : ℕ)
    (meta : CallMeta) (d : TransferData) (f : Floor) (c : Call)
    → sends_off
        (target_availability s d.is_to_agent (target_id_of meta d) meta.tenant_id f.world.db)
        d
      ≡ false
    → find_call call_id (stop_session true f).world.db.calls ≡ some c
    → Transferred call_id s.now
        (coalesce (other_queue d.is_to_agent (target_id_of meta d) meta.queue_id) c.queue_id)
        c
        (stop_session true f).world.db
        (handle s audio stop_session call_id meta d f).0.world.db
unfolding handle
handle-Transferred s audio stop_session call_id meta d f c stays e =
    let other = other_queue d.is_to_agent (target_id_of meta d) meta.queue_id in
    let entered = enter s stop_session call_id other f in
    let given = assign s call_id d.is_to_agent (target_id_of meta d) meta.tenant_id entered in
    rw (handle, stays)
      (of_Handed call_id s.now (coalesce other c.queue_id) c (stop_session true f).world.db
        entered.world.db given.0.world.db given.1 (enter-agents s stop_session call_id other f)
        (enter-HasEntered s stop_session call_id other f c e)
        (enter-unassigned s stop_session call_id other f c e)
        (assign-Handed s call_id d.is_to_agent (target_id_of meta d) meta.tenant_id entered))
