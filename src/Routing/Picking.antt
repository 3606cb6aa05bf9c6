-- ===== src/Routing/Picking.antt =====
-- Claiming one member of a queue: `pickPriority` and `#claimInOrder` of
-- core/routing/CallAgentAssignmentService.js. The claim is a function on a state; the queue's lock and
-- the record of the last pick in Redis are left out, since the claim alone decides.
pub mod Laws
use callio.Prelude.{
  ℕ, Bool, true, false, ◌&&◌, ◌||◌, Option, none, some, List, [], ◌∷◌, ◌==◌, ltb, filter, get_or,
  if◌then◌else◌,
}
use callio.Routing.Members.{Member, is_available}

-- Tries the candidates in order until one is claimed.
unfoldable pub claim_in_order {ℓ} :
    {S : Type ℓ} → (ℕ → S → S × Bool) → List Member → S → S × Option Member
claim_in_order claim [] s = (s, none)
claim_in_order claim (m ∷ ms) s =
    let (t, done) = claim m.id s in
    let rest = claim_in_order claim ms t in if done then (t, some m) else rest

abbrev pub priority_of : Member → ℕ
priority_of m = get_or m.priority 1

-- The comparison of the sort: by priority, then by id. `true` if the first may stand before the second.
abbrev pub goes_before : Member → Member → Bool
goes_before a b =
    ltb (priority_of a) (priority_of b)
    || (priority_of a == priority_of b && (ltb a.id b.id || a.id == b.id))

unfoldable pub insert_member : Member → List Member → List Member
insert_member m [] = m ∷ []
insert_member m (x ∷ xs) = if goes_before m x then m ∷ x ∷ xs else x ∷ insert_member m xs

unfoldable pub sort_members : List Member → List Member
sort_members [] = []
sort_members (m ∷ ms) = insert_member m (sort_members ms)

unfoldable pub priority_order : List Member → List Member
priority_order members = sort_members (filter is_available members)

unfoldable pub pick_priority {ℓ} :
    {S : Type ℓ} → (ℕ → S → S × Bool) → List Member → S → S × Option Member
pick_priority claim members s = claim_in_order claim (priority_order members) s
