-- ===== src/Routing/Inbound/Picks.antt =====
-- What a pick of core/routing/QueueRouter.js keeps, and whom it chooses, whatever the claim.
use callio.Prelude.{
  ℕ, ◌≡◌, inl, inr, refl, Bool, true, Option, none, some, List, [], ◌∷◌, filter, any, All,
  Bool-cases,
}
use callio.Routing.Members.{Member, is_available, has_id, member_by_id}
use callio.Routing.Picking.{
  claim_in_order, goes_before, insert_member, sort_members, pick_priority, priority_order,
}
use callio.Routing.QueueOrder.{Stored, pick_round_robin, reconcile, keep_found, available_in_order}
use callio.Routing.Inbound.{Strategy, ring_all, round_robin, priority, pick}

pub filter_sound : (ms : List Member) → All (λ m. is_available m ≡ true) (filter is_available ms)
filter_sound [] = tt
filter_sound (m ∷ ms) = elim (Bool-cases (is_available m)) [
  | inl e ↦ rw e (e, filter_sound ms)
  | inr e ↦ rw e (filter_sound ms)
]

-- A property of members, through the orders in which they are tried.
module _ (P : Member → Type 0) where
  insert_member-All : (m : Member) (ms : List Member) → P m → All P ms → All P (insert_member m ms)
  unfolding insert_member
  insert_member-All m [] e h = (e, tt)
  insert_member-All m (x ∷ xs) e (p, h) = elim (Bool-cases (goes_before m x)) [
    | inl q ↦ rw q (e, (p, h))
    | inr q ↦ rw q (p, insert_member-All m xs e h)
  ]

  sort_members-All : (ms : List Member) → All P ms → All P (sort_members ms)
  unfolding sort_members
  sort_members-All [] h = tt
  sort_members-All (m ∷ ms) (e, h) = insert_member-All m (sort_members ms) e (sort_members-All ms h)

  pub priority_order-All :
      (ms : List Member) → All P (filter is_available ms) → All P (priority_order ms)
  unfolding priority_order
  priority_order-All ms h = sort_members-All (filter is_available ms) h

  found-All :
      (id : ℕ) (ms : List Member) (m : Member) → All P ms → member_by_id id ms ≡ some m → P m
  found-All id [] m h e = absurd (cc)
  found-All id (x ∷ xs) m (p, h) e = elim (Bool-cases (has_id id x)) [
    | inl q ↦ let same : x ≡ m = cc (rw q at e) in rw same at p
    | inr q ↦ found-All id xs m h (rw q at e)
  ]

  keep_found-All :
      (o : Option Member) (ms : List Member)
      → ((m : Member) → o ≡ some m → P m)
      → All P ms
      → All P (keep_found o ms)
  keep_found-All none ms f h = h
  keep_found-All (some m) ms f h = (f m refl, h)

  pub available_in_order-All :
      (ms : List Member)
      → All P (filter is_available ms)
      → (ids : List ℕ) → All P (available_in_order ms ids)
  unfolding available_in_order
  available_in_order-All ms h [] = tt
  available_in_order-All ms h (id ∷ ids) =
      keep_found-All (member_by_id id (filter is_available ms)) (available_in_order ms ids)
        (λ m e. found-All id (filter is_available ms) m h e) (available_in_order-All ms h ids)

  filter-All : (ms : List Member) → All P ms → All P (filter is_available ms)
  filter-All [] h = tt
  filter-All (m ∷ ms) (p, h) = elim (Bool-cases (is_available m)) [
    | inl e ↦ rw e (p, filter-All ms h)
    | inr e ↦ rw e (filter-All ms h)
  ]

  -- The property, of the member that was chosen, if any.
  abbrev pub Chosen : Option Member → Type 0
  Chosen none = Unit
  Chosen (some m) = P m

-- The state after a pick, and the member it returns: a property of the state that each claim keeps, and one
-- of all members.
module _ {S : Type 0} (claim : ℕ → S → S × Bool) (P : Member → Type 0) (Q : S → Type 0)
    (keeps : (id : ℕ) (s : S) → Q s → Q (claim id s).0) where
  in_order-Chosen :
      (ms : List Member) (s : S)
      → All P ms
      → Q s
      → Q (claim_in_order claim ms s).0 × Chosen P (claim_in_order claim ms s).1
  unfolding claim_in_order
  in_order-Chosen [] s h q = (q, tt)
  in_order-Chosen (m ∷ ms) s (p, h) q = elim (Bool-cases (claim m.id s).1) [
    | inl e ↦ rw (claim_in_order, e) (keeps m.id s q, p)
    | inr e ↦ rw (claim_in_order, e) (in_order-Chosen ms (claim m.id s).0 h (keeps m.id s q))
  ]

  round_robin-Chosen :
      (now : ℕ) (ms : List Member) (stored : Stored) (s : S)
      → All P ms
      → Q s
      → Q (pick_round_robin claim now ms stored s).1
        × Chosen P (pick_round_robin claim now ms stored s).2
  unfolding pick_round_robin reconcile
  round_robin-Chosen now ms stored s h q = elim (Bool-cases (any is_available ms)) [
    | inl e ↦ rw e (in_order-Chosen _ s (available_in_order-All P ms (filter-All P ms h) _) q)
    | inr e ↦ rw e (q, tt)
  ]

  pub pick-Chosen :
      (strategy : Strategy) (now : ℕ) (ms : List Member) (stored : Stored) (s : S)
      → All P ms
      → Q s
      → Q (pick strategy claim now ms stored s).1 × Chosen P (pick strategy claim now ms stored s).2
  unfolding pick pick_priority
  pick-Chosen ring_all now ms stored s h q = round_robin-Chosen now ms stored s h q
  pick-Chosen round_robin now ms stored s h q = round_robin-Chosen now ms stored s h q
  pick-Chosen priority now ms stored s h q =
      in_order-Chosen (priority_order ms) s (priority_order-All P ms (filter-All P ms h)) q
