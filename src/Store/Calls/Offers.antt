-- ===== src/Store/Calls/Offers.antt =====
-- An offer to one agent: the agent's answer and its withdrawal exclude each other.
use callio.Prelude.{ℕ, ◌≡◌, refl, Bool, true, false, Option, none, List, [], ◌∷◌, arith}
use callio.Store.Rows.{Call, Db, update_call}
use callio.Store.Rows.Laws.{HoldsAt, update_call-HoldsAt, update_call_hit, update_call_refused}
use callio.Store.Calls.{
  transition_status, mark_ivr_auto_accepted, claim_handover, return_handover_to_queue,
  expire_handover, update_call_agent_if_current, assign_call_to_agent_if_eligible, enter_queue,
  withdraw_offer, overflow_to_queue, mark_call_failed_if_not_final,
  terminate_call_if_not_terminated, correct_no_answer_if_answered, fill_times, finalize_status,
  finalize_from_webhook, finalize_call_as_failed,
}
use callio.Store.Calls.Finality.{
  Write, answer, accept_ivr, offer_handover, take_handover, return_handover, drop_handover,
  move_agent, assign, accept, queue_up, withdraw, overflow, terminate, fail, finalize,
  finalize_failed, apply, run,
}

-- Every statement but the two that start an offer: an assignment and a handover.
abbrev pub starts_no_offer : Write → Bool
starts_no_offer (assign id a) = false
starts_no_offer (offer_handover id a) = false
starts_no_offer _ = true

abbrev pub StartNoOffer : List (ℕ × Write) → Type 0
StartNoOffer [] = Unit
StartNoOffer ((now, w) ∷ ws) = (starts_no_offer w ≡ true) × StartNoOffer ws

abbrev IsUnoffered : Call → Type 0
IsUnoffered c = c.offered_at ≡ none

module _ (j now : ℕ) (db : Db) (h : HoldsAt j IsUnoffered db) where
  keep :
      (id : ℕ) (guard : Call → Bool) (assign' : Call → Call)
      → ((c : Call) → (assign' c).id ≡ c.id)
      → ((c : Call) → IsUnoffered c → IsUnoffered (assign' c))
      → HoldsAt j IsUnoffered (update_call id guard assign' db).0
  keep id guard assign' keeps step =
      update_call-HoldsAt IsUnoffered id j guard assign' db keeps (λ c g p. step c p) h

  apply-IsUnoffered :
      (w : Write) → starts_no_offer w ≡ true → HoldsAt j IsUnoffered (apply now w db).0
  unfolding apply transition_status mark_ivr_auto_accepted claim_handover return_handover_to_queue
      expire_handover update_call_agent_if_current assign_call_to_agent_if_eligible enter_queue
      withdraw_offer overflow_to_queue mark_call_failed_if_not_final
      terminate_call_if_not_terminated finalize_from_webhook finalize_status finalize_call_as_failed
      fill_times correct_no_answer_if_answered
  apply-IsUnoffered (answer id) q = keep id _ _ (λ c. refl) (λ c p. p)
  apply-IsUnoffered (accept_ivr id) q = keep id _ _ (λ c. refl) (λ c p. p)
  apply-IsUnoffered (offer_handover id a) q = cc
  apply-IsUnoffered (take_handover id a) q = keep id _ _ (λ c. refl) (λ c p. refl)
  apply-IsUnoffered (return_handover id a t) q = keep id _ _ (λ c. refl) (λ c p. p)
  apply-IsUnoffered (drop_handover id a t) q = keep id _ _ (λ c. refl) (λ c p. refl)
  apply-IsUnoffered (move_agent id old new) q = keep id _ _ (λ c. refl) (λ c p. p)
  apply-IsUnoffered (assign id a) q = cc
  apply-IsUnoffered (accept id a) q = keep id _ _ (λ c. refl) (λ c p. refl)
  apply-IsUnoffered (queue_up id t) q = keep id _ _ (λ c. refl) (λ c p. p)
  apply-IsUnoffered (withdraw id a t) q = keep id _ _ (λ c. refl) (λ c p. refl)
  apply-IsUnoffered (overflow id from to a) q = keep id _ _ (λ c. refl) (λ c p. refl)
  apply-IsUnoffered (terminate id r by ended s) q = keep id _ _ (λ c. refl) (λ c p. refl)
  apply-IsUnoffered (fail id r by) q = keep id _ _ (λ c. refl) (λ c p. p)
  apply-IsUnoffered (finalize id r by t) q =
      update_call-HoldsAt IsUnoffered id j _ _ _ (λ c. refl) (λ c g p. p)
        (update_call-HoldsAt IsUnoffered id j _ _ _ (λ c. refl) (λ c g p. p)
          (keep id _ _ (λ c. refl) (λ c p. p)))
  apply-IsUnoffered (finalize_failed id by t) q =
      update_call-HoldsAt IsUnoffered id j _ _ _ (λ c. refl) (λ c g p. p)
        (keep id _ _ (λ c. refl) (λ c p. p))

run-IsUnoffered :
    (j : ℕ) (ws : List (ℕ × Write)) (db : Db)
    → StartNoOffer ws
    → HoldsAt j IsUnoffered db
    → HoldsAt j IsUnoffered (run ws db)
unfolding run
run-IsUnoffered j [] db q h = h
run-IsUnoffered j ((now, w) ∷ ws) db (q, qs) h =
    run-IsUnoffered j ws (apply now w db).0 qs (apply-IsUnoffered j now db h w q)

-- Once an agent has claimed a call by accepting it, its offer cannot be withdrawn from any agent, by a
-- decline or a ring timeout, for as long as no statement starts a new offer.
pub accepted_not_withdrawn :
    (id agent_id other : ℕ) (before : Option ℕ) (ws : List (ℕ × Write)) (db : Db)
    → (assign_call_to_agent_if_eligible id agent_id db).1 ≡ true
    → StartNoOffer ws
    → (withdraw_offer id other before
        (run ws (assign_call_to_agent_if_eligible id agent_id db).0)).1
      ≡ false
unfolding assign_call_to_agent_if_eligible withdraw_offer
accepted_not_withdrawn id agent_id other before ws db hit q =
    let taken = update_call_hit IsUnoffered id _ _ db (λ c. refl) (λ c e g. refl) hit in
    update_call_refused IsUnoffered id _ _ _ (λ c p. ground arith) (run-IsUnoffered id ws _ q taken)

-- The other way round: once an offer has been withdrawn, a withdrawal of the same offer, from whichever
-- agent, finds nothing to withdraw until a new offer starts.
pub withdrawn_once :
    (id agent_id other : ℕ) (before again : Option ℕ) (ws : List (ℕ × Write)) (db : Db)
    → (withdraw_offer id agent_id before db).1 ≡ true
    → StartNoOffer ws
    → (withdraw_offer id other again (run ws (withdraw_offer id agent_id before db).0)).1 ≡ false
unfolding withdraw_offer
withdrawn_once id agent_id other before again ws db hit q =
    let gone = update_call_hit IsUnoffered id _ _ db (λ c. refl) (λ c e g. refl) hit in
    update_call_refused IsUnoffered id _ _ _ (λ c p. ground arith) (run-IsUnoffered id ws _ q gone)
