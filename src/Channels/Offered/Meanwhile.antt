-- ===== src/Channels/Offered/Meanwhile.antt =====
-- An end of a call that comes while its offer is handled, after the first look for it and before the row.
use callio.Prelude.{
  ℕ, ◌+◌, ◌<◌, ◌≡◌, refl, ◌∙◌, ap, Bool, true, false, ◌||◌, inl, inr, none, some, List, [], ◌∷◌,
  All, arith, ltb, Bool-cases, Option-cases,
}
use callio.Store.Rows.{Db, is_active, find_call}
use callio.Store.Rows.Laws.{update_call-HoldsAt, update_agent-calls}
use callio.Store.Calls.{assign_call_to_agent_if_unassigned}
use callio.Store.Calls.Patches.{create, find_by_provider_call_id}
use callio.Store.Agents.{claim_agent_and_assign_call, hold_free_agent}
use callio.Routing.Members.{Member}
use callio.Routing.QueueOrder.{Stored}
use callio.Routing.Inbound.{
  Queue, Route, to_owner, to_queue, to_ivr, nowhere, is_ring_all, has_unassigned_calls, claim_for,
  claim_for_waiting_call, claim_for_new_call,
}
use callio.Routing.Inbound.Picks.{pick-Chosen}
use callio.Channels.Lines.{Line}
use callio.Channels.Ended.{EndEvent}
use callio.Channels.Offered.{
  tombstone_ttl_seconds, standing, World, OfferEvent, Around, under_way, base_row, routed_row,
  line_route, look, take, admit,
}
use callio.Channels.Offered.Arrival.{finish, leave_tombstone, end_arrives}
use callio.Channels.Offered.Silence.{
  IsMissed, LiveAt, create-found, left_by, stone_left, leave_tombstone-db, end_of_unknown,
  finish-IsMissed,
}

-- A claim leaves a live call live.
claim-LiveAt :
    (now agent_id call_id j : ℕ) (any_shift : Bool) (db : Db)
    → LiveAt j db
    → LiveAt j (claim_agent_and_assign_call now any_shift agent_id call_id db).0
unfolding claim_agent_and_assign_call hold_free_agent assign_call_to_agent_if_unassigned
claim-LiveAt now agent_id call_id j any_shift db (c, found, live) =
    let held = hold_free_agent any_shift agent_id call_id db in
    let same : find_call j held.0.calls ≡ find_call j db.calls =
      ap (find_call j) (update_agent-calls agent_id _ _ db) in
    let given : LiveAt j (assign_call_to_agent_if_unassigned now call_id agent_id held.0).0 =
      update_call-HoldsAt (λ x. is_active x.status ≡ true) call_id j _ _ held.0 (λ x. refl)
        (λ x g p. p) (c, same ∙ found, live) in
    elim (Bool-cases held.1) [
      | inl q ↦
          elim (Bool-cases (assign_call_to_agent_if_unassigned now call_id agent_id held.0).1) [
            | inl r ↦ rw (q, r) given
            | inr r ↦ rw (q, r) (c, found, live)
          ]
      | inr q ↦ rw q (c, found, live)
    ]

one_claim-LiveAt :
    (now call_id id j : ℕ) (s : Db × Bool)
    → LiveAt j s.0
    → LiveAt j (claim_for now call_id id s).0.0
unfolding claim_for
one_claim-LiveAt now call_id id j (db, taken) h = claim-LiveAt now id call_id j false db h

anybody : (ms : List Member) → All (λ m. Unit {0}) ms
anybody [] = tt
anybody (m ∷ ms) = (tt, anybody ms)

new_call-LiveAt :
    (now_ms now call_id j : ℕ) (q : Queue) (ms : List Member) (stored : Stored) (db : Db)
    → LiveAt j db
    → LiveAt j (claim_for_new_call now_ms now (some q) call_id ms stored db).1.0
unfolding claim_for_new_call claim_for_waiting_call
new_call-LiveAt now_ms now call_id j q ms stored db h =
    elim (Bool-cases (is_ring_all q.strategy || has_unassigned_calls q.id call_id db.calls)) [
      | inl e ↦ rw e h
      | inr e ↦
          rw e
            (pick-Chosen (claim_for now call_id) (λ m. Unit {0}) (λ s. LiveAt j s.0)
              (λ id s. one_claim-LiveAt now call_id id j s) q.strategy now_ms ms stored (db, false)
              (anybody ms) h).0
    ]

take-LiveAt :
    (now_ms now id j : ℕ) (around : Around) (r : Route) (w : World)
    → LiveAt j w.db
    → LiveAt j (take now_ms now id around r w).0.db
unfolding take
take-LiveAt now_ms now id j around (to_owner owner) w h =
    let claimed = claim-LiveAt now owner.id id j true w.db h in
    elim (Bool-cases (around.is_reachable owner.id)) [
      | inr e ↦ rw e h
      | inl e ↦
          elim (Bool-cases (claim_agent_and_assign_call now true owner.id id w.db).1.assigned) [
            | inl q ↦ rw (e, q) claimed
            | inr q ↦ rw (e, q) claimed
          ]
    ]
take-LiveAt now_ms now id j around (to_queue q) w h =
    new_call-LiveAt now_ms now id j q (around.members q.id) (w.order q.id) w.db h
take-LiveAt now_ms now id j around (to_ivr flow_id q) w h = h
take-LiveAt now_ms now id j around nowhere w h = h

take-tombstones :
    (now_ms now id : ℕ) (around : Around) (r : Route) (w : World)
    → (take now_ms now id around r w).0.tombstones ≡ w.tombstones
unfolding take
take-tombstones now_ms now id around (to_owner owner) w = ground arith
take-tombstones now_ms now id around (to_queue q) w = refl
take-tombstones now_ms now id around (to_ivr flow_id q) w = refl
take-tombstones now_ms now id around nowhere w = refl

admit-LiveAt :
    (now_ms now id : ℕ) (line : Line) (e : OfferEvent) (around : Around) (w : World)
    → find_call id w.db.calls ≡ none
    → LiveAt id (admit now_ms now id line e around w).0.db
      × ((admit now_ms now id line e around w).0.tombstones ≡ w.tombstones)
unfolding admit create routed_row base_row
admit-LiveAt now_ms now id line e around w fresh =
    let r = line_route around line w.db.agents in
    let row = routed_row now id line e r in
    let made : World = record w { db = create row w.db } in
    let there : LiveAt id made.db = (row, create-found row w.db.calls fresh, refl) in
    (take-LiveAt now_ms now id id around r made there, take-tombstones now_ms now id around r made)

-- A look that goes on has found no tombstone, and there is none later either.
look-absent :
    (now later id : ℕ) (line : Line) (e : OfferEvent) (w : World)
    → (look now id line e w).2 ≡ true
    → now < later
    → standing later (w.tombstones line.type e.provider_call_id) ≡ none
unfolding look standing
look-absent now later id line e w through order =
    elim (Option-cases (w.tombstones line.type e.provider_call_id)) [
      | inl f ↦ ground (arith, f)
      | inr (t, f) ↦ elim (Bool-cases (ltb now t.expires_at)) [
        | inl q ↦ absurd (ground (arith, f, q))
        | inr q ↦ ground (arith, f, q)
      ]
    ]

-- An end that comes while its offer is handled, after the offer's first look has found neither a tombstone nor
-- another call of the customer and before its row is there: the end finds no row and leaves a tombstone. If the
-- row that the offer then gets is new, and the offer's last stage comes within 120 seconds, then after it the
-- call is over, its end was announced once and nobody was rung, whatever the route is and whoever was claimed
-- in between.
pub end_during_offer :
    (now_ms looked ended_at admitted last id : ℕ) (line : Line) (ended : EndEvent)
    (offer : OfferEvent) (around : Around) (w : World)
    → offer.provider_call_id ≡ ended.provider_call_id
    → (look looked id line offer w).2 ≡ true
    → looked < ended_at
    → find_by_provider_call_id ended.provider_call_id line.type w.db.calls ≡ none
    → find_call id w.db.calls ≡ none
    → last < ended_at + tombstone_ttl_seconds
    → let (there, r, taken) =
        admit now_ms admitted id line offer around (end_arrives ended_at line ended w).0 in
      IsMissed id there.db (finish last id line offer around (under_way r taken) there)
end_during_offer now_ms looked ended_at admitted last id line ended offer around w same through
      order unknown fresh soon =
    let left = leave_tombstone ended_at line ended w in
    let absent : standing ended_at (w.tombstones line.type ended.provider_call_id) ≡ none =
      rw (← same) (look-absent looked ended_at id line offer w through order) in
    let stands = stone_left ended_at last line ended w absent soon in
    let kept = leave_tombstone-db ended_at line ended w in
    let still : find_call id left.db.calls ≡ none = rw kept fresh in
    let (there, r, taken) = admit now_ms admitted id line offer around left in
    let (live, stones) = admit-LiveAt now_ms admitted id line offer around left still in
    rw (end_of_unknown ended_at line ended w unknown) (
      finish-IsMissed last id line offer around (left_by ended_at ended) r taken there
        (rw (stones, same) stands) live)
