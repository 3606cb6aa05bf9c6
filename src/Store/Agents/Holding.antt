-- ===== src/Store/Agents/Holding.antt =====
-- An agent is held by one call at a time, and a claim is all or nothing.
use callio.Prelude.{
  ℕ, ◌≡◌, ◌⊎◌, refl, sym, inl, inr, ◌∙◌, ap, Bool, true, false, not, ◌&&◌, some, List, [], ◌∷◌,
  arith, ◌==◌, Bool-cases,
}
use callio.Store.Rows.{
  Availability, on_call, Agent, Db, is_null, find_call, find_agent, update_agent,
}
use callio.Store.Rows.Laws.{
  AgentHoldsAt, HoldsAt, update_agent-AgentHoldsAt, update_agent-calls, update_call-affected,
  update_call_hit, update_call_found, update_agent_found, update_agent_hit,
}
use callio.Store.Calls.{
  is_unassigned, assign_call_to_agent_if_unassigned, transition_status, mark_ivr_auto_accepted,
  mark_handover_offered, claim_handover, return_handover_to_queue, expire_handover,
  update_call_agent_if_current, assign_call_to_agent_if_eligible, enter_queue, withdraw_offer,
  overflow_to_queue, mark_call_failed_if_not_final, terminate_call_if_not_terminated,
  finalize_from_webhook, finalize_status, finalize_call_as_failed, fill_times,
  correct_no_answer_if_answered,
}
use callio.Store.Agents.{
  reported_availability, update_agent_availability, hold_free_agent, claim_agent_and_assign_call,
  claim_agent_for_call, hold_own, hold_for_own_call, release_from_call,
}
use callio.Store.Calls.Finality.{
  Write, answer, accept_ivr, offer_handover, take_handover, return_handover, drop_handover,
  move_agent, assign, accept, queue_up, withdraw, overflow, terminate, fail, finalize,
  finalize_failed, apply,
}

abbrev pub IsHeldBy : ℕ → Agent → Type 0
IsHeldBy call_id a = a.busy_call_id ≡ some call_id

-- Every statement on agents but the deletion of one, and every guarded statement on calls.
pub data AgentWrite : Type 0 where
  set_availability : ℕ → Availability → AgentWrite
  claim_and_assign : Bool → ℕ → ℕ → AgentWrite
  claim hold release : ℕ → ℕ → AgentWrite
  on_calls : Write → AgentWrite

unfoldable pub apply_agent : ℕ → AgentWrite → Db → Db
apply_agent now (set_availability a v) db = (update_agent_availability a v db).0
apply_agent now (claim_and_assign any_shift a c) db =
    (claim_agent_and_assign_call now any_shift a c db).0
apply_agent now (claim a c) db = (claim_agent_for_call a c db).0
apply_agent now (hold a c) db = (hold_for_own_call a c db).0
apply_agent now (release a c) db = (release_from_call a c db).0
apply_agent now (on_calls w) db = (apply now w db).0

unfoldable pub run_agent : List (ℕ × AgentWrite) → Db → Db
run_agent [] db = db
run_agent ((now, w) ∷ ws) db = run_agent ws (apply_agent now w db)

-- No release of the agent from the call.
abbrev keeps_held : ℕ → ℕ → AgentWrite → Bool
keeps_held agent_id call_id (release a c) = not (a == agent_id && c == call_id)
keeps_held agent_id call_id _ = true

abbrev pub KeepHeld : ℕ → ℕ → List (ℕ × AgentWrite) → Type 0
KeepHeld agent_id call_id [] = Unit
KeepHeld agent_id call_id ((now, w) ∷ ws) =
    (keeps_held agent_id call_id w ≡ true) × KeepHeld agent_id call_id ws

hold_free_agent-refused :
    (any_shift : Bool) (agent_id call_id c : ℕ) (db : Db)
    → AgentHoldsAt agent_id (IsHeldBy c) db
    → hold_free_agent any_shift agent_id call_id db ≡ (db, false)
unfolding hold_free_agent update_agent
hold_free_agent-refused any_shift agent_id call_id c db (a, found, held) = ground arith

hold_free_agent-keeps :
    (any_shift : Bool) (agent_id call_id j c : ℕ) (db : Db)
    → AgentHoldsAt j (IsHeldBy c) db
    → AgentHoldsAt j (IsHeldBy c) (hold_free_agent any_shift agent_id call_id db).0
unfolding hold_free_agent
hold_free_agent-keeps any_shift agent_id call_id j c db h =
    update_agent-AgentHoldsAt (IsHeldBy c) agent_id j _ _ db (λ x. refl)
      (λ x same g p. absurd (ground arith)) h

apply-agents : (now : ℕ) (w : Write) (db : Db) → (apply now w db).0.agents ≡ db.agents
unfolding apply transition_status mark_ivr_auto_accepted mark_handover_offered claim_handover
    return_handover_to_queue expire_handover update_call_agent_if_current
    assign_call_to_agent_if_unassigned assign_call_to_agent_if_eligible enter_queue withdraw_offer
    overflow_to_queue mark_call_failed_if_not_final terminate_call_if_not_terminated
    finalize_from_webhook finalize_status finalize_call_as_failed fill_times
    correct_no_answer_if_answered
apply-agents now (finalize id r by t) db =
    (update_call-affected id _ _ _).1
    ∙ (update_call-affected id _ _ _).1
    ∙ (update_call-affected id _ _ db).1
apply-agents now (finalize_failed id by t) db =
    (update_call-affected id _ _ _).1 ∙ (update_call-affected id _ _ db).1
apply-agents now (answer id) db = (update_call-affected id _ _ db).1
apply-agents now (accept_ivr id) db = (update_call-affected id _ _ db).1
apply-agents now (offer_handover id a) db = (update_call-affected id _ _ db).1
apply-agents now (take_handover id a) db = (update_call-affected id _ _ db).1
apply-agents now (return_handover id a t) db = (update_call-affected id _ _ db).1
apply-agents now (drop_handover id a t) db = (update_call-affected id _ _ db).1
apply-agents now (move_agent id old new) db = (update_call-affected id _ _ db).1
apply-agents now (assign id a) db = (update_call-affected id _ _ db).1
apply-agents now (accept id a) db = (update_call-affected id _ _ db).1
apply-agents now (queue_up id t) db = (update_call-affected id _ _ db).1
apply-agents now (withdraw id a t) db = (update_call-affected id _ _ db).1
apply-agents now (overflow id from to a) db = (update_call-affected id _ _ db).1
apply-agents now (terminate id r by ended s) db = (update_call-affected id _ _ db).1
apply-agents now (fail id r by) db = (update_call-affected id _ _ db).1

assign-agents :
    (now call_id agent_id : ℕ) (db : Db)
    → (assign_call_to_agent_if_unassigned now call_id agent_id db).0.agents ≡ db.agents
unfolding assign_call_to_agent_if_unassigned
assign-agents now call_id agent_id db = (update_call-affected call_id _ _ db).1

module _ (agent_id call_id now : ℕ) (db : Db)
    (h : AgentHoldsAt agent_id (IsHeldBy call_id) db) where
  claim_and_assign-keeps :
      (any_shift : Bool) (a c : ℕ)
      → AgentHoldsAt agent_id
          (IsHeldBy call_id)
          (claim_agent_and_assign_call now any_shift a c db).0
  unfolding claim_agent_and_assign_call
  claim_and_assign-keeps any_shift a c =
      let held = hold_free_agent-keeps any_shift a c agent_id call_id db h in
      let same = assign-agents now c a (hold_free_agent any_shift a c db).0 in
      let given : AgentHoldsAt agent_id (IsHeldBy call_id)
          (assign_call_to_agent_if_unassigned now c a (hold_free_agent any_shift a c db).0).0 =
        (held.0, ap (find_agent agent_id) same ∙ held.1, held.2) in
      elim (Bool-cases (hold_free_agent any_shift a c db).1) [
        | inl q ↦
            elim (Bool-cases
              (assign_call_to_agent_if_unassigned now c a (hold_free_agent any_shift a c db).0).1) [
                | inl r ↦ rw (q, r) given
                | inr r ↦ rw (q, r) h
              ]
        | inr q ↦ rw q h
      ]

  apply_agent-keeps :
      (w : AgentWrite)
      → keeps_held agent_id call_id w ≡ true
      → AgentHoldsAt agent_id (IsHeldBy call_id) (apply_agent now w db)
  unfolding apply_agent update_agent_availability claim_agent_for_call hold_for_own_call hold_own
      release_from_call
  apply_agent-keeps (set_availability a v) q =
      update_agent-AgentHoldsAt (IsHeldBy call_id) a agent_id _ _ db (λ x. refl) (λ x s g p. p) h
  apply_agent-keeps (claim_and_assign any_shift a c) q = claim_and_assign-keeps any_shift a c
  apply_agent-keeps (claim a c) q = hold_free_agent-keeps false a c agent_id call_id db h
  apply_agent-keeps (hold a c) q =
      update_agent-AgentHoldsAt (IsHeldBy call_id) a agent_id _ _ db (λ x. refl)
        (λ x s g p. ground arith) h
  apply_agent-keeps (release a c) q =
      update_agent-AgentHoldsAt (IsHeldBy call_id) a agent_id _ _ db (λ x. refl)
        (λ x s g p. absurd (ground arith)) h
  apply_agent-keeps (on_calls w) q =
      (h.0, ap (find_agent agent_id) (apply-agents now w db) ∙ h.1, h.2)

run_agent-keeps :
    (agent_id call_id : ℕ) (ws : List (ℕ × AgentWrite)) (db : Db)
    → KeepHeld agent_id call_id ws
    → AgentHoldsAt agent_id (IsHeldBy call_id) db
    → AgentHoldsAt agent_id (IsHeldBy call_id) (run_agent ws db)
unfolding run_agent
run_agent-keeps agent_id call_id [] db q h = h
run_agent-keeps agent_id call_id ((now, w) ∷ ws) db (q, qs) h =
    run_agent-keeps agent_id call_id ws (apply_agent now w db) qs
      (apply_agent-keeps agent_id call_id now db h w q)

hold_for_own_call_held :
    (agent_id c d : ℕ) (db : Db)
    → AgentHoldsAt agent_id (IsHeldBy c) db
    → (hold_for_own_call agent_id d db).1 ≡ (c == d)
unfolding hold_for_own_call hold_own update_agent
hold_for_own_call_held agent_id c d db (a, found, held) = ground arith

claim_and_assign_refused :
    (now agent_id c d : ℕ) (any_shift : Bool) (db : Db)
    → AgentHoldsAt agent_id (IsHeldBy c) db
    → claim_agent_and_assign_call now any_shift agent_id d db
      ≡ (db, record { claimed = false; assigned = false })
unfolding claim_agent_and_assign_call
claim_and_assign_refused now agent_id c d any_shift db h =
    ground (arith, hold_free_agent-refused any_shift agent_id d c db h)

-- While a call holds an agent, through any statements but the agent's deletion and their release from
-- that very call: neither claim gives the agent to a call, and both leave the database as it is; only
-- the call that holds them finds that it does; and the agent reports ON_CALL.
pub held_exclusively :
    (agent_id call_id d now : ℕ) (any_shift : Bool) (ws : List (ℕ × AgentWrite)) (db : Db)
    → AgentHoldsAt agent_id (IsHeldBy call_id) db
    → KeepHeld agent_id call_id ws
    → (claim_agent_and_assign_call now any_shift agent_id d (run_agent ws db)
        ≡ (run_agent ws db, record { claimed = false; assigned = false }))
      × (claim_agent_for_call agent_id d (run_agent ws db) ≡ (run_agent ws db, false))
      × ((hold_for_own_call agent_id d (run_agent ws db)).1 ≡ (call_id == d))
      × AgentHoldsAt agent_id (λ a. reported_availability a ≡ on_call) (run_agent ws db)
unfolding claim_agent_for_call reported_availability
held_exclusively agent_id call_id d now any_shift ws db h q =
    let k = run_agent-keeps agent_id call_id ws db q h in
    (
      claim_and_assign_refused now agent_id call_id d any_shift (run_agent ws db) k,
      hold_free_agent-refused false agent_id d call_id (run_agent ws db) k,
      hold_for_own_call_held agent_id call_id d (run_agent ws db) k,
      (k.0, k.1, ground arith),
    )

hold_free_agent_hit :
    (any_shift : Bool) (agent_id call_id : ℕ) (db : Db)
    → (hold_free_agent any_shift agent_id call_id db).1 ≡ true
    → AgentHoldsAt agent_id (λ a. is_null a.busy_call_id ≡ true) db
      × AgentHoldsAt agent_id (IsHeldBy call_id) (hold_free_agent any_shift agent_id call_id db).0
      × ((hold_free_agent any_shift agent_id call_id db).0.calls ≡ db.calls)
unfolding hold_free_agent
hold_free_agent_hit any_shift agent_id call_id db hit =
    let (a, found, on) = update_agent_found agent_id _ _ db hit in
    (
      (a, found, ground arith),
      update_agent_hit (IsHeldBy call_id) agent_id _ _ db (λ x. refl) (λ x. refl) hit,
      update_agent-calls agent_id _ _ db,
    )

assign_hit :
    (now call_id agent_id : ℕ) (db : Db)
    → (assign_call_to_agent_if_unassigned now call_id agent_id db).1 ≡ true
    → HoldsAt call_id (λ c. is_unassigned c ≡ true) db
      × HoldsAt call_id
          (λ c. c.agent_id ≡ some agent_id)
          (assign_call_to_agent_if_unassigned now call_id agent_id db).0
unfolding assign_call_to_agent_if_unassigned
assign_hit now call_id agent_id db hit = (
  update_call_found call_id _ _ db hit,
  update_call_hit (λ c. c.agent_id ≡ some agent_id) call_id _ _ db (λ c. refl) (λ c e g. refl) hit,
)

-- A claim with assignment is all or nothing: either it reports that the call was assigned, the agent
-- was free, is now held by the call, and the call was unassigned and is now the agent's; or it reports
-- that it was not, and nothing in the database has changed.
pub claim_all_or_nothing :
    (now agent_id call_id : ℕ) (any_shift : Bool) (db : Db)
    → (((claim_agent_and_assign_call now any_shift agent_id call_id db).1.assigned ≡ true)
        × AgentHoldsAt agent_id (λ a. is_null a.busy_call_id ≡ true) db
        × AgentHoldsAt agent_id
            (IsHeldBy call_id)
            (claim_agent_and_assign_call now any_shift agent_id call_id db).0
        × HoldsAt call_id (λ c. is_unassigned c ≡ true) db
        × HoldsAt call_id
            (λ c. c.agent_id ≡ some agent_id)
            (claim_agent_and_assign_call now any_shift agent_id call_id db).0)
      ⊎ (((claim_agent_and_assign_call now any_shift agent_id call_id db).1.assigned ≡ false)
          × ((claim_agent_and_assign_call now any_shift agent_id call_id db).0 ≡ db))
unfolding claim_agent_and_assign_call
claim_all_or_nothing now agent_id call_id any_shift db =
    let held = hold_free_agent any_shift agent_id call_id db in
    let given = assign_call_to_agent_if_unassigned now call_id agent_id held.0 in
    elim (Bool-cases held.1) [
      | inl q ↦ elim (Bool-cases given.1) [
        | inl r ↦
            let (was_free, is_held, calls) = hold_free_agent_hit any_shift agent_id call_id db q in
            let (was_unassigned, is_given) = assign_hit now call_id agent_id held.0 r in
            let agents = assign-agents now call_id agent_id held.0 in
            rw (q, r)
              (inl (
                refl,
                was_free,
                (is_held.0, ap (find_agent agent_id) agents ∙ is_held.1, is_held.2),
                (
                  was_unassigned.0,
                  ap (find_call call_id) (sym calls) ∙ was_unassigned.1,
                  was_unassigned.2,
                ),
                is_given,
              ))
        | inr r ↦ rw (q, r) (inr (refl, refl))
      ]
      | inr q ↦ rw q (inr (refl, refl))
    ]
