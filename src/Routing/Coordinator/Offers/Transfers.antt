-- ===== src/Routing/Coordinator/Offers/Transfers.antt =====
-- `assignTransferredCall` of core/routing/AgentAssignmentCoordinator.js: a transferred call is given or waits.
use callio.Prelude.{
  ℕ, ◌≡◌, inl, inr, refl, Bool, true, false, Option, none, some, Bool-cases, Option-cases,
}
use callio.Store.Rows.{Db, coalesce, find_call, is_null}
use callio.Store.Rows.Laws.{AgentHoldsAt, HoldsAt}
use callio.Store.Calls.{is_unassigned}
use callio.Store.Agents.Holding.{IsHeldBy, claim_all_or_nothing}
use callio.Routing.Members.{Member}
use callio.Routing.Inbound.{Queue, claim_for_waiting_call, find_owner, get_queue, is_ring_all}
use callio.Routing.Inbound.Laws.{Outcome, claim_for_waiting_call-Outcome}
use callio.Routing.Coordinator.{Floor, Setup, deliver_assigned_call, read_members}
use callio.Routing.Coordinator.Draining.{emit_queue_update-world}
use callio.Routing.Coordinator.Offers.{
  Target, assign_transferred_call, claim_target_agent, claim_target_queue, hand_over, offer_to_all,
  to_agent, to_queue, is_free_in,
}
use callio.Routing.Coordinator.Offers.Passing.{offer_to_all-world}

-- The call was unassigned, and an agent who was free has it now.
pub record IsTaken (call_id : ℕ) (before after : Db) : Type 0 where
  pub agent_id : ℕ
  pub was_free : AgentHoldsAt agent_id (λ a. is_null a.busy_call_id ≡ true) before
  pub is_held : AgentHoldsAt agent_id (IsHeldBy call_id) after
  pub was_waiting : HoldsAt call_id (λ c. is_unassigned c ≡ true) before
  pub is_theirs : HoldsAt call_id (λ c. c.agent_id ≡ some agent_id) after

-- What a claim for a transferred call leaves, by the member it returns.
abbrev TakenBy : ℕ → Db → Db → Option Member → Type 0
TakenBy call_id before after none = after ≡ before
TakenBy call_id before after (some m) = IsTaken call_id before after

abbrev pub Handed : ℕ → Db → Db → Bool → Type 0
Handed call_id before after true = IsTaken call_id before after
Handed call_id before after false = after ≡ before

taken-Outcome :
    (call_id : ℕ) (before after : Db) (m : Option Member)
    → Outcome call_id before after m
    → TakenBy call_id before after m
taken-Outcome call_id before after none o = o
taken-Outcome call_id before after (some m) o = record {
  agent_id = m.id;
  was_free = o.was_free;
  is_held = o.is_held;
  was_waiting = o.was_waiting;
  is_theirs = o.is_theirs;
}

hand_over-Handed :
    (s : Setup) (call_id tenant_id : ℕ) (queue_id : Option ℕ) (before : Db) (f : Floor)
    (m : Option Member)
    → TakenBy call_id before f.world.db m
    → Handed call_id before
        (hand_over s call_id tenant_id queue_id (f, m)).0.world.db
        (hand_over s call_id tenant_id queue_id (f, m)).1
unfolding hand_over deliver_assigned_call
hand_over-Handed s call_id tenant_id queue_id before f none t =
    rw (emit_queue_update-world s tenant_id queue_id f).0 t
hand_over-Handed s call_id tenant_id queue_id before f (some m) t =
    elim (Option-cases (find_call call_id f.world.db.calls)) [
      | inl e ↦ rw (hand_over, e, (emit_queue_update-world s tenant_id queue_id f).0) t
      | inr (c, e) ↦
          rw
            (
              hand_over,
              e,
              (emit_queue_update-world s tenant_id queue_id (deliver_assigned_call call_id m f)).0,
            )
            t
    ]

claim_target_queue-TakenBy :
    (s : Setup) (call_id : ℕ) (q : Queue) (f : Floor)
    → TakenBy call_id f.world.db
        (claim_target_queue s call_id q f).0.world.db
        (claim_target_queue s call_id q f).1
unfolding claim_target_queue
claim_target_queue-TakenBy s call_id q f =
    let members = read_members f.world.db (s.memberships q.id) in
    taken-Outcome call_id f.world.db
      (claim_for_waiting_call s.now_ms s.now q call_id members (f.stored q.id) f.world.db).1.0
      (claim_for_waiting_call s.now_ms s.now q call_id members (f.stored q.id) f.world.db).2
      (claim_for_waiting_call-Outcome s.now_ms s.now call_id q members (f.stored q.id) f.world.db).0

claim_target_agent-TakenBy :
    (s : Setup) (call_id tenant_id agent_id : ℕ) (f : Floor)
    → TakenBy call_id f.world.db
        (claim_target_agent s call_id tenant_id agent_id f).0.world.db
        (claim_target_agent s call_id tenant_id agent_id f).1
unfolding claim_target_agent
claim_target_agent-TakenBy s call_id tenant_id agent_id f =
    elim (Option-cases (find_owner agent_id f.world.db.agents)) [
      | inl e ↦ rw (claim_target_agent, e) refl
      | inr (a, e) ↦ elim (Bool-cases (is_free_in tenant_id a)) [
        | inr n ↦ rw (claim_target_agent, e, n) refl
        | inl n ↦ elim (claim_all_or_nothing s.now a.id call_id false f.world.db) [
          | inl (done, free, held, waiting, theirs) ↦
              rw (claim_target_agent, e, n, done)
                (record {
                  agent_id = a.id;
                  was_free = free;
                  is_held = held;
                  was_waiting = waiting;
                  is_theirs = theirs;
                })
          | inr (more, same) ↦ rw (claim_target_agent, e, n, more) refl
        ]
      ]
    ]

-- A transferred call is given to somebody exactly if `assignTransferredCall` returns true, whether its target is
-- an agent or a queue of any strategy: then it was unassigned, and an agent who was free is held by it now and
-- has it. Otherwise the database is as it was, and the call waits where it stands.
pub assign_transferred_call-Handed :
    (s : Setup) (call_id : ℕ) (queue_id : Option ℕ) (tenant_id : ℕ) (target : Target) (f : Floor)
    → Handed call_id f.world.db
        (assign_transferred_call s call_id queue_id tenant_id target f).0.world.db
        (assign_transferred_call s call_id queue_id tenant_id target f).1
unfolding assign_transferred_call
assign_transferred_call-Handed s call_id queue_id tenant_id (to_agent agent_id) f =
    let claim = claim_target_agent s call_id tenant_id agent_id f in
    hand_over-Handed s call_id tenant_id queue_id f.world.db claim.0 claim.1
      (claim_target_agent-TakenBy s call_id tenant_id agent_id f)
assign_transferred_call-Handed s call_id queue_id tenant_id (to_queue target_id) f =
    elim (Option-cases (get_queue s.queues (coalesce target_id queue_id))) [
      | inl e ↦
          rw (assign_transferred_call, e)
            (hand_over-Handed s call_id tenant_id queue_id f.world.db f none refl)
      | inr (q, e) ↦ elim (Bool-cases (is_ring_all q.strategy)) [
        | inl r ↦
            rw
              (
                assign_transferred_call,
                e,
                r,
                (emit_queue_update-world s tenant_id (some q.id) (offer_to_all s q call_id f)).0,
                offer_to_all-world s q call_id f,
              )
              refl
        | inr r ↦
            let claim = claim_target_queue s call_id q f in
            rw (assign_transferred_call, e, r)
              (hand_over-Handed s call_id tenant_id queue_id f.world.db claim.0 claim.1
                (claim_target_queue-TakenBy s call_id q f))
      ]
    ]
