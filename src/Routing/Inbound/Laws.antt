-- ===== src/Routing/Inbound/Laws.antt =====
-- The flow that takes a call, and the member who gets it.
use callio.Prelude.{
  ℕ, ◌≡◌, ◌⊎◌, inl, inr, refl, Bool, true, false, ◌&&◌, ◌||◌, Option, none, some, List, [], ◌∷◌,
  arith, find, any, All, Bool-cases, Option-cases,
}
use callio.Store.Rows.{Db, is_null}
use callio.Store.Rows.Laws.{AgentHoldsAt, HoldsAt}
use callio.Store.Calls.{is_unassigned}
use callio.Store.Agents.{claim_agent_and_assign_call}
use callio.Store.Agents.Holding.{IsHeldBy, claim_all_or_nothing}
use callio.Routing.Members.{Member, is_available}
use callio.Routing.Picking.{claim_in_order, pick_priority, priority_order}
use callio.Routing.QueueOrder.{Stored, pick_round_robin, reconcile}
use callio.Routing.Inbound.{
  Strategy, Queue, Candidate, Stats, ring_all, round_robin, priority, holds, first_in_scope,
  select_ivr_flow, has_unassigned_calls, is_ring_all, pick, claim_for, claim_for_waiting_call,
  claim_for_new_call,
}
use callio.Routing.Inbound.Others.{waiting-Chosen}
use callio.Routing.OfferHistory.Laws.{All-weaken}
use callio.Routing.Inbound.Picks.{Chosen, filter_sound, priority_order-All, available_in_order-All}

-- The order of `findCandidateFlows`: the channel's own flows come before the tenant's.
abbrev pub ByScope : List Candidate → Type 0
ByScope [] = Unit
ByScope (f ∷ fs) =
    ((f.scope_order ≡ 0) ⊎ ((f.scope_order ≡ 1) × All (λ (g : Candidate). g.scope_order ≡ 1) fs))
    × ByScope fs

abbrev pub flow_id : Option Candidate → Option ℕ
flow_id none = none
flow_id (some f) = some f.id

tenant_only-0 :
    (s : Stats) (fs : List Candidate)
    → All (λ (g : Candidate). g.scope_order ≡ 1) fs
    → first_in_scope s 0 fs ≡ none
unfolding first_in_scope
tenant_only-0 s [] h = refl
tenant_only-0 s (f ∷ fs) (e, h) = ground (arith, tenant_only-0 s fs h)

tenant_only-1 :
    (s : Stats) (fs : List Candidate)
    → All (λ (g : Candidate). g.scope_order ≡ 1) fs
    → first_in_scope s 1 fs ≡ flow_id (find (λ (f : Candidate). holds s f.trigger_condition) fs)
unfolding first_in_scope
tenant_only-1 s [] h = refl
tenant_only-1 s (f ∷ fs) (e, h) = ground (arith, tenant_only-1 s fs h)

-- On the candidates in the order of the query, the two passes over the scopes choose the first flow
-- whose trigger holds, and none only if no trigger holds.
pub select_ivr_flow-first :
    (s : Stats) (flows : List Candidate)
    → ByScope flows
    → select_ivr_flow s flows
      ≡ flow_id (find (λ (f : Candidate). holds s f.trigger_condition) flows)
unfolding select_ivr_flow first_in_scope
select_ivr_flow-first s [] h = refl
select_ivr_flow-first s (f ∷ fs) (inl e, h) = ground (arith, select_ivr_flow-first s fs h)
select_ivr_flow-first s (f ∷ fs) (inr (e, tenant), h) =
    ground (arith, tenant_only-0 s fs tenant, tenant_only-1 s fs tenant)

-- The member was free and the call unassigned; now the member is held by the call, which is theirs.
pub record IsGiven (call_id : ℕ) (before after : Db) (m : Member) : Type 0 where
  pub on_shift : is_available m ≡ true
  pub was_free : AgentHoldsAt m.id (λ a. is_null a.busy_call_id ≡ true) before
  pub is_held : AgentHoldsAt m.id (IsHeldBy call_id) after
  pub was_waiting : HoldsAt call_id (λ c. is_unassigned c ≡ true) before
  pub is_theirs : HoldsAt call_id (λ c. c.agent_id ≡ some m.id) after

abbrev pub Outcome : ℕ → Db → Db → Option Member → Type 0
Outcome call_id before after none = after ≡ before
Outcome call_id before after (some m) = IsGiven call_id before after m

abbrev AreAvailable : List Member → Type 0
AreAvailable ms = All (λ m. is_available m ≡ true) ms

claim_in_order-Outcome :
    (now call_id : ℕ) (ms : List Member) (db : Db) (taken : Bool)
    → AreAvailable ms
    → Outcome call_id db
        (claim_in_order (claim_for now call_id) ms (db, taken)).0.0
        (claim_in_order (claim_for now call_id) ms (db, taken)).1
unfolding claim_in_order claim_for
claim_in_order-Outcome now call_id [] db taken h = refl
claim_in_order-Outcome now call_id (m ∷ ms) db taken (e, h) =
    let c = claim_agent_and_assign_call now false m.id call_id db in
    elim (claim_all_or_nothing now m.id call_id false db) [
      | inl (done, free, held, waiting, theirs) ↦ rw done (record {
        on_shift = e;
        was_free = free;
        is_held = held;
        was_waiting = waiting;
        is_theirs = theirs;
      })
      | inr (more, same) ↦
          rw (more, same)
            (claim_in_order-Outcome now call_id ms db ((c.1.claimed && true) || taken) h)
    ]

module _ (now_ms now call_id : ℕ) (members : List Member) (stored : Stored) (db : Db) where
  priority-Outcome :
      Outcome call_id db
        (pick_priority (claim_for now call_id) members (db, false)).0.0
        (pick_priority (claim_for now call_id) members (db, false)).1
  unfolding pick_priority priority_order
  priority-Outcome =
      claim_in_order-Outcome now call_id _ db false
        (priority_order-All (λ m. is_available m ≡ true) members (filter_sound members))

  round_robin-Outcome :
      Outcome call_id db
        (pick_round_robin (claim_for now call_id) now_ms members stored (db, false)).1.0
        (pick_round_robin (claim_for now call_id) now_ms members stored (db, false)).2
  unfolding pick_round_robin reconcile
  round_robin-Outcome = elim (Bool-cases (any is_available members)) [
    | inl e ↦ rw e (
        claim_in_order-Outcome now call_id _ db false
          (available_in_order-All (λ m. is_available m ≡ true) members (filter_sound members) _))
    | inr e ↦ rw e refl
  ]

  pick-Outcome :
      (strategy : Strategy)
      → Outcome call_id db
          (pick strategy (claim_for now call_id) now_ms members stored (db, false)).1.0
          (pick strategy (claim_for now call_id) now_ms members stored (db, false)).2
  unfolding pick
  pick-Outcome ring_all = round_robin-Outcome
  pick-Outcome round_robin = round_robin-Outcome
  pick-Outcome priority = priority-Outcome

-- The member is one of the list.
abbrev pub IsIn : Member → List Member → Type 0
IsIn m [] = ⊥
IsIn m (x ∷ xs) = (x ≡ m) ⊎ IsIn m xs

IsIn-All : (ms : List Member) → All (λ m. IsIn m ms) ms
IsIn-All [] = tt
IsIn-All (m ∷ ms) =
    (inl refl, All-weaken (λ x. IsIn x ms) (λ x. IsIn x (m ∷ ms)) ms (λ x h. inr h) (IsIn-All ms))

-- Offering a waiting call to a queue's members, by whichever strategy: either it returns a member, who
-- is one of the list and available there, was free and is now held by the call, and the call was
-- unassigned and is now theirs; or it returns nobody, and the database is as it was.
pub claim_for_waiting_call-Outcome :
    (now_ms now call_id : ℕ) (queue : Queue) (members : List Member) (stored : Stored) (db : Db)
    → Outcome call_id db
        (claim_for_waiting_call now_ms now queue call_id members stored db).1.0
        (claim_for_waiting_call now_ms now queue call_id members stored db).2
      × Chosen
          (λ m. IsIn m members)
          (claim_for_waiting_call now_ms now queue call_id members stored db).2
unfolding claim_for_waiting_call
claim_for_waiting_call-Outcome now_ms now call_id queue members stored db = (
  pick-Outcome now_ms now call_id members stored db queue.strategy,
  waiting-Chosen now_ms now queue call_id members stored db (λ m. IsIn m members)
      (IsIn-All members),
)

-- A new call that gets a member got it fairly: its queue offers to one agent at a time, no older call
-- was waiting in that queue, and the member was given as to a waiting call. Otherwise the database is
-- as it was.
pub claim_for_new_call_lem :
    (now_ms now call_id : ℕ) (queue : Queue) (members : List Member) (stored : Stored) (db : Db)
    → ((m : Member) × ((claim_for_new_call now_ms now (some queue) call_id members stored db).2
          ≡ some m)
        × (is_ring_all queue.strategy ≡ false)
        × (has_unassigned_calls queue.id call_id db.calls ≡ false)
        × IsGiven call_id db
            (claim_for_new_call now_ms now (some queue) call_id members stored db).1.0
            m)
      ⊎ (((claim_for_new_call now_ms now (some queue) call_id members stored db).2 ≡ none)
          × ((claim_for_new_call now_ms now (some queue) call_id members stored db).1.0 ≡ db))
unfolding claim_for_new_call
claim_for_new_call_lem now_ms now call_id queue members stored db =
    let waiting = has_unassigned_calls queue.id call_id db.calls in
    let out = (claim_for_waiting_call-Outcome now_ms now call_id queue members stored db).0 in
    elim (Bool-cases (is_ring_all queue.strategy || waiting)) [
      | inl e ↦ rw e (inr (refl, refl))
      | inr e ↦
          elim (Option-cases
            (claim_for_waiting_call now_ms now queue call_id members stored db).2) [
              | inl n ↦ rw e (inr (n, rw n at out))
              | inr (m, q) ↦ rw e (inl (m, q, ground arith, ground arith, rw q at out))
            ]
    ]
