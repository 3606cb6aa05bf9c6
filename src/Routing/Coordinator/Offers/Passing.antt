-- ===== src/Routing/Coordinator/Offers/Passing.antt =====
-- `passOffer` of core/routing/AgentAssignmentCoordinator.js: an offer that was declined goes to somebody else.
use callio.Prelude.{
  ℕ, ◌≡◌, ◌≢◌, ◌≤◌, not, ◌⊎◌, inl, inr, refl, sym, ap, ◌∙◌, Bool, true, false, ◌&&◌, Option, none,
  some, List, [], ◌∷◌, ◌==◌, arith, Bool-cases, Option-cases,
}
use callio.Store.Rows.{
  Call, Db, find_call, is_null, ringing, inbound, is_id, is_ringing, is_inbound,
}
use callio.Store.Rows.Laws.{HoldsAt, update_agent-calls, update_call_hit, update_call-affected}
use callio.Store.Calls.{withdraw_offer, expired_before}
use callio.Store.Agents.{release_from_call}
use callio.Routing.OfferHistory.{declined, mem, record_offer}
use callio.Routing.OfferHistory.Laws.{record_offer-declined}
use callio.Routing.Inbound.{Queue, find_owner, get_queue, is_ring_all}
use callio.Routing.Coordinator.{
  Floor, Setup, announce_release, broadcast_current, drain_queue, emit_agent_queues,
  emit_queue_update, emit_queues, release_agent, has_member, with_db, emit, is_waiting,
  offer_withdrawn, set_at,
}
use callio.Routing.Coordinator.Draining.{emit_queue_update-world}
use callio.Routing.Coordinator.Draining.Rounds.{Round, drain_queue-Round}
use callio.Routing.Coordinator.Offers.{
  let_go, offer_to_all, pass_offer, route_in_turn, route_waiting_call, agent_of, rings,
}

-- The call is there, and not the agent's.
abbrev pub IsElsewhere : ℕ → ℕ → Db → Type 0
IsElsewhere call_id agent_id db = HoldsAt call_id (λ x. x.agent_id ≢ some agent_id) db

Round-IsElsewhere :
    (s : Setup) (q : Queue) (db : Db) (declined_by : ℕ → List ℕ) (assigned : Bool) (after : Db)
    (j a : ℕ)
    → mem a (declined_by j) ≡ true
    → Round s q db declined_by assigned after
    → IsElsewhere j a db
    → IsElsewhere j a after
Round-IsElsewhere s q db declined_by false after j a m r h = rw r.0 h
Round-IsElsewhere s q db declined_by true after j a m r (x, e, h) =
    elim (Bool-cases (r.call.id == j)) [
      | inr n ↦ (x, r.others j n ∙ e, h)
      | inl n ↦
          let same : r.call.id ≡ j = ground (arith, n) in
          let (y, f, theirs) = r.given.is_theirs in
          let refused = r.undeclined in
          (
            y,
            ap (λ i. find_call i after.calls) (sym same) ∙ f,
            λ o.
                let chosen : some r.member.id ≡ some a = sym theirs ∙ o in
                let member_is : r.member.id ≡ a = cc in cc,
          )
    ]

release_from_call-calls :
    (agent_id call_id : ℕ) (db : Db) → (release_from_call agent_id call_id db).0.calls ≡ db.calls
unfolding release_from_call
release_from_call-calls agent_id call_id db = update_agent-calls agent_id _ _ db

-- What is emitted changes no row and no history.
emit_queues-world :
    (s : Setup) (tenant_id agent_id : ℕ) (qs : List Queue) (f : Floor)
    → ((emit_queues s tenant_id agent_id qs f).world ≡ f.world)
      × ((emit_queues s tenant_id agent_id qs f).histories ≡ f.histories)
unfolding emit_queues
emit_queues-world s tenant_id agent_id [] f = (refl, refl)
emit_queues-world s tenant_id agent_id (q ∷ qs) f =
    let told = emit_queue_update-world s tenant_id (some q.id) f in
    let rest =
      emit_queues-world s tenant_id agent_id qs (emit_queue_update s tenant_id (some q.id) f) in
    elim (Bool-cases (q.is_active && has_member s agent_id q.id)) [
      | inl e ↦ rw (emit_queues, e) (rest.0 ∙ told.0, rest.1 ∙ told.1)
      | inr e ↦ rw (emit_queues, e) (emit_queues-world s tenant_id agent_id qs f)
    ]

broadcast_current-world :
    (agent_id : ℕ) (f : Floor)
    → ((broadcast_current agent_id f).0.world ≡ f.world)
      × ((broadcast_current agent_id f).0.histories ≡ f.histories)
unfolding broadcast_current
broadcast_current-world agent_id f = elim (Option-cases (find_owner agent_id f.world.db.agents)) [
  | inl e ↦ (ground (arith, e), ground (arith, e))
  | inr (a, e) ↦ (ground (arith, e), ground (arith, e))
]

announce_release-world :
    (s : Setup) (agent_id : ℕ) (f : Floor)
    → ((announce_release s agent_id f).world ≡ f.world)
      × ((announce_release s agent_id f).histories ≡ f.histories)
unfolding announce_release emit_agent_queues
announce_release-world s agent_id f =
    let told = broadcast_current-world agent_id f in
    elim (Option-cases (broadcast_current agent_id f).1) [
      | inl e ↦ rw (announce_release, e) told
      | inr (t, e) ↦
          let rest = emit_queues-world s t agent_id s.queues (broadcast_current agent_id f).0 in
          rw (announce_release, e) (rest.0 ∙ told.0, rest.1 ∙ told.1)
    ]

release_agent-calls :
    (s : Setup) (agent_id call_id : ℕ) (f : Floor)
    → ((release_agent s agent_id call_id false f).0.world.db.calls ≡ f.world.db.calls)
      × ((release_agent s agent_id call_id false f).0.histories ≡ f.histories)
unfolding release_agent
release_agent-calls s agent_id call_id f =
    let freed = release_from_call agent_id call_id f.world.db in
    let kept = release_from_call-calls agent_id call_id f.world.db in
    let told = announce_release-world s agent_id (with_db freed.0 f) in
    elim (Bool-cases freed.1) [
      | inl e ↦ rw (release_agent, e) (ap (λ w. w.db.calls) told.0 ∙ kept, told.1)
      | inr e ↦ rw (release_agent, e) (kept, refl)
    ]

-- Once the agent has let the call go, its row is as it was, and the agent counts as one who declined it.
let_go_declined :
    (s : Setup) (c : Call) (a : ℕ) (f : Floor)
    → ((let_go s c a declined f).world.db.calls ≡ f.world.db.calls)
      × (mem a ((let_go s c a declined f).histories c.id).declined ≡ true)
unfolding let_go
let_go_declined s c a f =
    let noted : Floor = record f {
      histories = set_at c.id (record_offer a declined (f.histories c.id)) f.histories;
    } in
    let freed = release_agent-calls s a c.id (emit (offer_withdrawn c.id (a ∷ [])) noted) in
    let own : (c.id == c.id) ≡ true = ground arith in
    (
      freed.0,
      ap (λ h. mem a (h c.id).declined) freed.1
          ∙ rw own (record_offer-declined a (f.histories c.id)),
    )

route_in_turn-IsElsewhere :
    (s : Setup) (q : Queue) (c : Call) (f : Floor) (a : ℕ)
    → mem a (f.histories c.id).declined ≡ true
    → IsElsewhere c.id a f.world.db
    → IsElsewhere c.id a (route_in_turn s q c f).0.world.db
unfolding route_in_turn
route_in_turn-IsElsewhere s q c f a m h =
    let g = (drain_queue s q f).0 in
    let after = find_call c.id g.world.db.calls in
    let drained =
      Round-IsElsewhere s q f.world.db (λ i. (f.histories i).declined) (drain_queue s q f).1
        g.world.db c.id a m (drain_queue-Round s q f) h in
    elim (Bool-cases (is_null (agent_of after) && rings after)) [
      | inl e ↦
          rw
            (
              route_in_turn,
              e,
              (emit_queue_update-world s c.tenant_id (some q.id) (emit (is_waiting c.id) g)).0,
            )
            drained
      | inr e ↦
          rw (route_in_turn, e, (emit_queue_update-world s c.tenant_id (some q.id) g).0) drained
    ]

pub offer_to_all-world :
    (s : Setup) (q : Queue) (call_id : ℕ) (f : Floor) → (offer_to_all s q call_id f).world ≡ f.world
unfolding offer_to_all
offer_to_all-world s q call_id f = elim (Option-cases (find_call call_id f.world.db.calls)) [
  | inl e ↦ rw (offer_to_all, e) refl
  | inr (c, e) ↦ rw (offer_to_all, e) refl
]

route_waiting_call-IsElsewhere :
    (s : Setup) (c : Call) (f : Floor) (a : ℕ)
    → mem a (f.histories c.id).declined ≡ true
    → IsElsewhere c.id a f.world.db
    → IsElsewhere c.id a (route_waiting_call s c f).0.world.db
unfolding route_waiting_call
route_waiting_call-IsElsewhere s c f a m h = elim (Option-cases (get_queue s.queues c.queue_id)) [
  | inl e ↦ rw (route_waiting_call, e) h
  | inr (q, e) ↦ elim (Bool-cases (is_ring_all q.strategy)) [
    | inl r ↦
        rw
          (
            route_waiting_call,
            e,
            r,
            (emit_queue_update-world s c.tenant_id (some q.id) (offer_to_all s q c.id f)).0,
            offer_to_all-world s q c.id f,
          )
          h
    | inr r ↦ rw (route_waiting_call, e, r) (route_in_turn-IsElsewhere s q c f a m h)
  ]
]

withdrawn-IsElsewhere :
    (id a : ℕ) (before : Option ℕ) (db : Db)
    → (withdraw_offer id a before db).1 ≡ true
    → IsElsewhere id a (withdraw_offer id a before db).0
unfolding withdraw_offer
withdrawn-IsElsewhere id a before db hit =
    update_call_hit (λ x. x.agent_id ≢ some a) id _ _ db (λ x. refl) (λ x e g o. absurd (cc)) hit

-- Not after the given time, if there is one.
abbrev pub IsBy : ℕ → Option ℕ → Type 0
IsBy t none = Unit
IsBy t (some u) = t ≤ u

-- The call still rings for the agent: it is theirs, inbound, not answered, and was offered, by the given time if
-- there is one.
abbrev pub IsStillOffered : ℕ → Option ℕ → Call → Type 0
IsStillOffered a before x =
    (x.agent_id ≡ some a)
    × (x.status ≡ ringing)
    × (x.direction ≡ inbound)
    × ((t : ℕ) × (x.offered_at ≡ some t) × IsBy t before)

abbrev may_withdraw : ℕ → Option ℕ → Call → Bool
may_withdraw a before x =
    is_id x.agent_id a
    && (is_ringing x.status
        && (is_inbound x.direction
            && (not (is_null x.offered_at) && expired_before before x.offered_at)))

abbrev withdrawn : Call → Call
withdrawn x = record x { agent_id = none; offered_at = none }

still_offered :
    (a : ℕ) (before : Option ℕ) (x : Call)
    → may_withdraw a before x ≡ true
    → IsStillOffered a before x
still_offered a before x e = elim (Option-cases x.offered_at) [
  | inl f ↦ absurd (ground arith)
  | inr (t, f) ↦ elim (Option-cases before) [
    | inl b ↦ (ground arith, ground arith, ground arith, (t, f, rw b tt))
    | inr (u, b) ↦ (ground arith, ground arith, ground arith, (t, f, rw b (ground arith)))
  ]
]

not_offered :
    (a : ℕ) (before : Option ℕ) (x : Call)
    → IsStillOffered a before x
    → may_withdraw a before x ≡ true
not_offered a before x (theirs, rings, incoming, (t, f, by)) = elim (Option-cases before) [
  | inl b ↦ ground arith
  | inr (u, b) ↦ let early : t ≤ u = rw b at by in ground arith
]

withdrawn-was :
    (id a : ℕ) (before : Option ℕ) (db : Db)
    → (withdraw_offer id a before db).1 ≡ true
    → HoldsAt id (IsStillOffered a before) db
unfolding withdraw_offer
withdrawn-was id a before db hit =
    let affected = (update_call-affected id (may_withdraw a before) withdrawn db).0 in
    elim (Option-cases (find_call id db.calls)) [
      | inl e ↦ absurd (ground (arith, affected))
      | inr (x, e) ↦ (x, e, still_offered a before x (ground (arith, affected)))
    ]

still_offered-withdrawn :
    (id a : ℕ) (before : Option ℕ) (db : Db)
    → HoldsAt id (IsStillOffered a before) db
    → (withdraw_offer id a before db).1 ≡ true
unfolding withdraw_offer
still_offered-withdrawn id a before db (x, e, h) =
    let affected = (update_call-affected id (may_withdraw a before) withdrawn db).0 in
    let on = not_offered a before x h in ground (arith, affected)

-- An offer that an agent declines passes on, where the call still rings for that agent, and then `passOffer`
-- returns true and, with the next round of the queue, the call is there and is not theirs. Where it does not
-- ring for them, or was offered only after the given time, nothing changes and `passOffer` returns false.
pub pass_offer_declined :
    (s : Setup) (c : Call) (a : ℕ) (before : Option ℕ) (f : Floor)
    → (HoldsAt c.id (IsStillOffered a before) f.world.db
        × ((pass_offer s c a declined before f).1 ≡ true)
        × IsElsewhere c.id a (pass_offer s c a declined before f).0.world.db)
      ⊎ ((¬ HoldsAt c.id (IsStillOffered a before) f.world.db)
          × (pass_offer s c a declined before f ≡ (f, false)))
unfolding pass_offer
pass_offer_declined s c a before f =
    let taken = withdraw_offer c.id a before f.world.db in
    elim (Bool-cases taken.1) [
      | inr e ↦
          rw (pass_offer, e)
            (inr (λ h. let hit = still_offered-withdrawn c.id a before f.world.db h in cc, refl))
      | inl e ↦
          let (x, found, h) = withdrawn-IsElsewhere c.id a before f.world.db e in
          let gone = let_go_declined s c a (with_db taken.0 f) in
          let there : IsElsewhere c.id a (let_go s c a declined (with_db taken.0 f)).world.db =
            (x, ap (find_call c.id) gone.0 ∙ found, h) in
          rw (pass_offer, e)
            (inl (
              withdrawn-was c.id a before f.world.db e,
              refl,
              route_waiting_call-IsElsewhere s (record c { agent_id = none })
                  (let_go s c a declined (with_db taken.0 f)) a gone.1 there,
            ))
    ]
