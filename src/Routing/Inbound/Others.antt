-- ===== src/Routing/Inbound/Others.antt =====
-- A claim for one call leaves the others alone: core/routing/QueueRouter.js.
use callio.Prelude.{
  ℕ, ◌≡◌, inl, inr, refl, ap, ◌∙◌, Bool, false, Option, List, arith, ◌==◌, All, Bool-cases,
  Option-cases,
}
use callio.Store.Rows.{Call, Db, find_call, update_call}
use callio.Store.Rows.Laws.{find_call-update_call, update_agent-calls}
use callio.Store.Calls.{assign_call_to_agent_if_unassigned}
use callio.Store.Agents.{claim_agent_and_assign_call, hold_free_agent}
use callio.Routing.Members.{Member}
use callio.Routing.QueueOrder.{Stored}
use callio.Routing.Inbound.{Queue, claim_for, claim_for_waiting_call}
use callio.Routing.Inbound.Picks.{Chosen, pick-Chosen}

-- A statement on one call leaves the others alone.
pub update_call-others :
    (id j : ℕ) (guard : Call → Bool) (assign : Call → Call) (db : Db)
    → ((c : Call) → (assign c).id ≡ c.id)
    → (id == j) ≡ false
    → find_call j (update_call id guard assign db).0.calls ≡ find_call j db.calls
update_call-others id j guard assign db keeps n =
    let law = find_call-update_call id j guard assign db keeps in
    elim (Option-cases (find_call j db.calls)) [
      | inl e ↦ ground (arith, law, e)
      | inr (c, e) ↦ ground (arith, law, e, n)
    ]

claim-others :
    (now agent_id call_id j : ℕ) (any_shift : Bool) (db : Db)
    → (call_id == j) ≡ false
    → find_call j (claim_agent_and_assign_call now any_shift agent_id call_id db).0.calls
      ≡ find_call j db.calls
unfolding claim_agent_and_assign_call hold_free_agent assign_call_to_agent_if_unassigned
claim-others now agent_id call_id j any_shift db n =
    let held = hold_free_agent any_shift agent_id call_id db in
    let free : find_call j held.0.calls ≡ find_call j db.calls =
      ap (find_call j) (update_agent-calls agent_id _ _ db) in
    let given : find_call j (assign_call_to_agent_if_unassigned now call_id agent_id held.0).0.calls
        ≡ find_call j held.0.calls =
      update_call-others call_id j _ _ held.0 (λ c. refl) n in
    elim (Bool-cases held.1) [
      | inl q ↦
          elim (Bool-cases (assign_call_to_agent_if_unassigned now call_id agent_id held.0).1) [
            | inl r ↦ rw (q, r) (given ∙ free)
            | inr r ↦ rw (q, r) refl
          ]
      | inr q ↦ rw q refl
    ]

kept :
    (now call_id id j : ℕ) (s : Db × Bool) (o : Option Call)
    → (call_id == j) ≡ false
    → find_call j s.0.calls ≡ o
    → find_call j (claim_for now call_id id s).0.0.calls ≡ o
unfolding claim_for
kept now call_id id j (db, taken) o n e = claim-others now id call_id j false db n ∙ e

-- A pick for one call leaves the others alone, and chooses one of the members it is given.
module _ (now_ms now : ℕ) (q : Queue) (call_id : ℕ) (members : List Member) (stored : Stored)
    (db : Db) (P : Member → Type 0) (h : All P members) where
  pub waiting-others :
      (j : ℕ)
      → (call_id == j) ≡ false
      → find_call j (claim_for_waiting_call now_ms now q call_id members stored db).1.0.calls
        ≡ find_call j db.calls
  unfolding claim_for_waiting_call
  waiting-others j n =
      (pick-Chosen (claim_for now call_id) P (λ s. find_call j s.0.calls ≡ find_call j db.calls)
        (λ id s e. kept now call_id id j s (find_call j db.calls) n e) q.strategy now_ms members
        stored (db, false) h refl).0

  pub waiting-Chosen : Chosen P (claim_for_waiting_call now_ms now q call_id members stored db).2
  unfolding claim_for_waiting_call
  waiting-Chosen =
      (pick-Chosen (claim_for now call_id) P (λ s. Unit {0}) (λ id s e. tt) q.strategy now_ms
        members stored (db, false) h tt).1
