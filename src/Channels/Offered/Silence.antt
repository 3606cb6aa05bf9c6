-- ===== src/Channels/Offered/Silence.antt =====
-- An end of a call that comes before its offer, and what a stage does that meets its tombstone.
use callio.Prelude.{
  ℕ, ◌+◌, ◌<◌, ◌≡◌, refl, ◌∙◌, ap, Bool, true, false, inl, inr, Option, none, some, List, [], ◌∷◌,
  ◌++◌, map, arith, Bool-cases, get_or, eq_refl,
}
use callio.Store.Rows.{
  ChannelType, whatsapp, sip, TerminationReason, TerminatedBy, cancelled, customer, provider,
  rejected, system, is_active, Call, Db, find_call, coalesce,
}
use callio.Store.Rows.Laws.{HoldsAt, find_call-id, update_call-affected}
use callio.Store.Calls.{
  Times, finalize_from_webhook, finalize_status, fill_times, correct_no_answer_if_answered,
  finalize_call_as_failed, terminate_call_if_not_terminated,
}
use callio.Store.Calls.Patches.{create, same_channel, find_by_provider_call_id}
use callio.Lifecycle.Termination.{Ending, Effect, reject_notice, end_by_id, end_call, commit}
use callio.Lifecycle.Termination.Once.{end_call-commit, end_call-announcements}
use callio.Channels.Lines.{
  Line, Act, effect, customer_joined, error_told, miss_recorded, status_told, handled_told,
  waiting_told, line_ring_set, offered_to, ivr_started, offered_to_all, settle_acts, settle_by_id,
}
use callio.Channels.Ended.{EndEvent}
use callio.Routing.Inbound.{Route}
use callio.Channels.Announcing.{announced, announced-effects, settle_acts-announced}
use callio.Channels.Over.{
  Anything, IsFinal, webhook_over, failed_over, terminate_over, terminate_takes, if_over,
}
use callio.Channels.Offered.{
  Tombstone, tombstone_ttl_seconds, standing, set_tombstone, World, OfferEvent, Around, over,
  under_way, base_row, at_once, finalize_cancelled, missed_before_offer, look, begin, Taken,
}
use callio.Channels.Offered.Arrival.{
  refusal, end_at, finish, offer_arrives, leave_tombstone, end_arrives,
}

-- Whether acts ring an agent, let the call wait for one or start its IVR.
unfoldable pub rings_somebody : List Act → Bool
rings_somebody [] = false
rings_somebody (offered_to _ _ ∷ acts) = true
rings_somebody (offered_to_all _ _ ∷ acts) = true
rings_somebody (waiting_told _ ∷ acts) = true
rings_somebody (ivr_started _ _ ∷ acts) = true
rings_somebody (effect _ ∷ acts) = rings_somebody acts
rings_somebody (customer_joined _ ∷ acts) = rings_somebody acts
rings_somebody (error_told _ ∷ acts) = rings_somebody acts
rings_somebody (miss_recorded _ _ ∷ acts) = rings_somebody acts
rings_somebody (status_told _ _ ∷ acts) = rings_somebody acts
rings_somebody (handled_told _ ∷ acts) = rings_somebody acts
rings_somebody (line_ring_set _ ∷ acts) = rings_somebody acts

effects-silent : (es : List Effect) → rings_somebody (map effect es) ≡ false
unfolding rings_somebody
effects-silent [] = refl
effects-silent (e ∷ es) = effects-silent es

settle_by_id-found :
    (id : ℕ) (r : TerminationReason) (by : TerminatedBy) (c : Call) (db : Db)
    → find_call id db.calls ≡ some c
    → settle_by_id id r by db ≡ settle_acts c r by
unfolding settle_by_id
settle_by_id-found id r by c db there = ground arith

settle_by_id-silent :
    (id : ℕ) (r : TerminationReason) (by : TerminatedBy) (db : Db)
    → HoldsAt id IsFinal db
    → rings_somebody (settle_by_id id r by db) ≡ false
unfolding settle_acts
settle_by_id-silent id r by db (c, there, h) =
    rw (settle_by_id-found id r by c db there) (effects-silent _)

settle_by_id-announced :
    (id : ℕ) (r : TerminationReason) (by : TerminatedBy) (db : Db)
    → HoldsAt id IsFinal db
    → announced id (settle_by_id id r by db) ≡ 1
settle_by_id-announced id r by db (c, there, h) = ground (
  arith,
  settle_by_id-found id r by c db there,
  settle_acts-announced id c r by,
  find_call-id id db.calls c there,
)

same_channel_refl : (t : ChannelType) → same_channel t t ≡ true
same_channel_refl whatsapp = refl
same_channel_refl sip = refl

-- Where no tombstone stands, `setnx` leaves one that stands for 120 seconds.
abbrev pub left_by : ℕ → EndEvent → Tombstone
left_by now e = record {
  has_failed = e.is_failed;
  ended_at = e.ended_at;
  expires_at = now + tombstone_ttl_seconds;
}

pub stone_left :
    (now later : ℕ) (line : Line) (e : EndEvent) (w : World)
    → standing now (w.tombstones line.type e.provider_call_id) ≡ none
    → later < now + tombstone_ttl_seconds
    → standing later ((leave_tombstone now line e w).tombstones line.type e.provider_call_id)
      ≡ some (left_by now e)
unfolding leave_tombstone set_tombstone standing
stone_left now later line e w absent soon =
    ground (arith, same_channel_refl line.type, eq_refl e.provider_call_id)

pub leave_tombstone-db :
    (now : ℕ) (line : Line) (e : EndEvent) (w : World) → (leave_tombstone now line e w).db ≡ w.db
unfolding leave_tombstone
leave_tombstone-db now line e w = ground arith

pub create-found :
    (c : Call) (cs : List Call)
    → find_call c.id cs ≡ none
    → find_call c.id (cs ++ (c ∷ [])) ≡ some c
unfolding find_call
create-found c [] fresh = ground arith
create-found c (d ∷ cs) fresh = ground (arith, create-found c cs)

-- What there is to say once an offer or its last stage has met a tombstone: the call is over, its end
-- was announced once, nobody was rung, and no agent's row was touched.
abbrev pub IsMissed : ℕ → Db → World × List Act → Type 0
IsMissed id before (w, acts) =
    HoldsAt id IsFinal w.db
    × (announced id acts ≡ 1)
    × (rings_somebody acts ≡ false)
    × (w.db.agents ≡ before.agents)

failed-agents :
    (now id : ℕ) (by : Option TerminatedBy) (t : Times) (db : Db)
    → (finalize_call_as_failed now id by t db).0.agents ≡ db.agents
unfolding finalize_call_as_failed fill_times
failed-agents now id by t db =
    (update_call-affected id _ _ _).1 ∙ (update_call-affected id _ _ db).1

cancelled-agents :
    (now id : ℕ) (by : TerminatedBy) (ended : Option ℕ) (db : Db)
    → (finalize_cancelled now id by ended db).agents ≡ db.agents
unfolding finalize_cancelled finalize_from_webhook fill_times finalize_status
    correct_no_answer_if_answered
cancelled-agents now id by ended db =
    (update_call-affected id _ _ _).1
    ∙ ((update_call-affected id _ _ _).1 ∙ (update_call-affected id _ _ db).1)

cancelled_over :
    (now id : ℕ) (by : TerminatedBy) (ended : Option ℕ) (db : Db)
    → HoldsAt id Anything db
    → HoldsAt id IsFinal (finalize_cancelled now id by ended db)
unfolding finalize_cancelled
cancelled_over now id by ended db h =
    webhook_over id now (some cancelled) (some by) (at_once ended) db h

missed_before_offer-IsMissed :
    (now id : ℕ) (line : Line) (e : OfferEvent) (stone : Tombstone) (w : World)
    → find_call id w.db.calls ≡ none
    → IsMissed id w.db (missed_before_offer now id line e stone w)
unfolding missed_before_offer create base_row
missed_before_offer-IsMissed now id line e stone w fresh =
    let row = base_row now id line e in
    let created = create row w.db in
    let ended = coalesce stone.ended_at row.ringing_at in
    let there : HoldsAt id Anything created = (row, create-found row w.db.calls fresh, tt) in
    let done : HoldsAt id IsFinal (missed_before_offer now id line e stone w).0.db =
      if_over stone.has_failed _ _ id
        (failed_over id now (some provider) (at_once ended) created there)
        (cancelled_over now id customer ended created there) in
    (
      done,
      settle_by_id-announced id _ _ _ done,
      settle_by_id-silent id _ _ _ done,
      ground (
        arith,
        failed-agents now id (some provider) (at_once ended) created,
        cancelled-agents now id customer ended created,
      ),
    )

pub end_of_unknown :
    (now : ℕ) (line : Line) (e : EndEvent) (w : World)
    → find_by_provider_call_id e.provider_call_id line.type w.db.calls ≡ none
    → (end_arrives now line e w).0 ≡ leave_tombstone now line e w
unfolding end_arrives
end_of_unknown now line e w unknown = ground arith

offer_of_unknown :
    (now_ms now id : ℕ) (line : Line) (e : OfferEvent) (around : Around) (w : World)
    → find_by_provider_call_id e.provider_call_id line.type w.db.calls ≡ none
    → offer_arrives now_ms now id line e around w ≡ begin now_ms now id line e around w
unfolding offer_arrives
offer_of_unknown now_ms now id line e around w unknown = ground arith

begin-stone :
    (now_ms now id : ℕ) (line : Line) (e : OfferEvent) (around : Around) (stone : Tombstone)
    (w : World)
    → standing now (w.tombstones line.type e.provider_call_id) ≡ some stone
    → begin now_ms now id line e around w ≡ (
      (missed_before_offer now id line e stone w).0,
      (missed_before_offer now id line e stone w).1,
      over,
    )
unfolding begin look
begin-stone now_ms now id line e around stone w there = ground arith

-- An end that comes before its offer, and finds no row and no tombstone of an earlier end, keeps an offer
-- within the next 120 seconds from ringing anybody, wherever the line would route it: if the row that the
-- offer gets is new, then after both the call is over, its end was announced once, nobody was rung and no
-- agent's row was touched.
pub end_beats_offer :
    (now_ms now later id : ℕ) (line : Line) (ended : EndEvent) (offer : OfferEvent)
    (around : Around) (w : World)
    → offer.provider_call_id ≡ ended.provider_call_id
    → later < now + tombstone_ttl_seconds
    → standing now (w.tombstones line.type ended.provider_call_id) ≡ none
    → find_by_provider_call_id ended.provider_call_id line.type w.db.calls ≡ none
    → find_call id w.db.calls ≡ none
    → let arrived =
        offer_arrives now_ms later id line offer around (end_arrives now line ended w).0 in
      (arrived.2 ≡ over) × IsMissed id w.db (arrived.0, arrived.1)
end_beats_offer now_ms now later id line ended offer around w same soon absent unknown fresh =
    let left = leave_tombstone now line ended w in
    let stone = left_by now ended in
    let stands = stone_left now later line ended w absent soon in
    let kept = leave_tombstone-db now line ended w in
    let still : find_call id left.db.calls ≡ none = rw kept fresh in
    let hidden : find_by_provider_call_id offer.provider_call_id line.type left.db.calls ≡ none =
      rw (kept, same) unknown in
    let met : standing later (left.tombstones line.type offer.provider_call_id) ≡ some stone =
      rw same stands in
    let (done, once, silent, agents) =
      missed_before_offer-IsMissed later id line offer stone left still in
    rw
      (
        end_of_unknown now line ended w unknown,
        offer_of_unknown now_ms later id line offer around left hidden,
        begin-stone now_ms later id line offer around stone left met,
      )
      (refl, (done, once, silent, agents ∙ ap (λ (d : Db). d.agents) kept))

abbrev pub LiveAt : ℕ → Db → Type 0
LiveAt id db = HoldsAt id (λ c. is_active c.status ≡ true) db

refusal_commits :
    (now id : ℕ) (db : Db)
    → commit now id (refusal rejected reject_notice) db
      ≡ terminate_call_if_not_terminated now id (some rejected) system none none db
unfolding commit
refusal_commits now id db = refl

end_by_id-found :
    (now id : ℕ) (o : Ending) (c : Call) (db : Db)
    → find_call id db.calls ≡ some c
    → end_by_id now id o db ≡ end_call now c o db
unfolding end_by_id
end_by_id-found now id o c db there = ground arith

-- The consumer's rejection ends a live call.
refused-IsMissed :
    (now id : ℕ) (w : World)
    → LiveAt id w.db
    → IsMissed id w.db (end_at now id (refusal rejected reject_notice) w)
unfolding end_at
refused-IsMissed now id w (c, there, live) =
    let o = refusal rejected reject_notice in
    let own : c.id ≡ id = find_call-id id w.db.calls c there in
    let self : find_call c.id w.db.calls ≡ some c = ground arith in
    let here : LiveAt c.id w.db = (c, self, live) in
    let ended = end_call-commit now c o w.db in
    let (won, agents) = terminate_takes now c.id (some rejected) system none w.db here in
    let committed = refusal_commits now c.id w.db in
    let done = terminate_over c.id now (some rejected) system none w.db (c, self, tt) in
    rw (end_by_id-found now id o c w.db there) (
      rw (ended, committed, ← own) done,
      ground (
        arith,
        announced-effects id (end_call now c o w.db).1,
        end_call-announcements id now c o w.db,
      ),
      effects-silent _,
      rw (ended, committed) agents,
    )

-- The last stage, where it meets a tombstone.
finish-stone :
    (now id : ℕ) (line : Line) (offer : OfferEvent) (around : Around) (stone : Tombstone)
    (r : Route) (taken : Taken) (w : World)
    → standing now (w.tombstones line.type offer.provider_call_id) ≡ some stone
    → around.is_rejected ≡ false
    → let after = finalize_cancelled now id customer (some (get_or offer.offered_at now)) w.db in
      finish now id line offer around (under_way r taken) w ≡ (
        record w {
          db = after;
          tombstones = set_tombstone line.type offer.provider_call_id none w.tombstones;
        },
        settle_by_id id cancelled customer after,
      )
unfolding finish
finish-stone now id line offer around stone r taken w met asked = ground arith

-- The last stage, where it meets a tombstone and the call is live.
pub finish-IsMissed :
    (now id : ℕ) (line : Line) (offer : OfferEvent) (around : Around) (stone : Tombstone)
    (r : Route) (taken : Taken) (w : World)
    → standing now (w.tombstones line.type offer.provider_call_id) ≡ some stone
    → LiveAt id w.db
    → IsMissed id w.db (finish now id line offer around (under_way r taken) w)
unfolding finish
finish-IsMissed now id line offer around stone r taken w met (c, there, live) =
    let cancelled_db =
      finalize_cancelled now id customer (some (get_or offer.offered_at now)) w.db in
    let done : HoldsAt id IsFinal cancelled_db =
      cancelled_over now id customer _ w.db (c, there, tt) in
    elim (Bool-cases around.is_rejected) [
      | inl refused ↦ rw refused (refused-IsMissed now id w (c, there, live))
      | inr asked ↦ rw (finish-stone now id line offer around stone r taken w met asked) (
        done,
        settle_by_id-announced id _ _ _ done,
        settle_by_id-silent id _ _ _ done,
        cancelled-agents now id customer _ w.db,
      )
    ]
