-- ===== src/Store/Agents.antt =====
-- persistence/AgentRepository.js: the shift of an agent and the call that holds them (`busy_call_id`),
-- claimed and released by guarded statements. `softDelete` finds the agent by the tenant's reference
-- there, and by its id here.
pub mod Holding
use callio.Prelude.{
  ℕ, Bool, true, false, ◌&&◌, ◌||◌, not, Option, none, some, List, [], ◌∷◌, ◌==◌, any,
  if◌then◌else◌,
}
use callio.Store.Rows.{
  Availability, available, on_call, offline, Call, Agent, Db, is_active, is_null, is_id, find_agent,
  update_call, update_agent,
}
use callio.Store.Calls.{is_unassigned, assign_call_to_agent_if_unassigned}

-- `reportedAvailability`: ON_CALL while busy, else the shift.
unfoldable pub reported_availability : Agent → Availability
reported_availability a = elim a.busy_call_id [
  | some _ ↦ on_call
  | none ↦ elim a.availability [ offline ↦ offline | _ ↦ available ]
]

-- `ON_SHIFT`
abbrev pub is_on_shift : Availability → Bool
is_on_shift offline = false
is_on_shift _ = true

-- `noOtherActiveCall`, with the call that is not to count, if one is given.
abbrev is_excluded : Option ℕ → ℕ → Bool
is_excluded none id = false
is_excluded (some e) id = e == id

unfoldable pub no_other_active_call : Option ℕ → ℕ → List Call → Bool
no_other_active_call except agent_id calls = not (
    any (λ c. is_id c.agent_id agent_id && (is_active c.status && not (is_excluded except c.id)))
      calls)

unfoldable pub update_agent_availability : ℕ → Availability → Db → Db × Bool
update_agent_availability id a =
    update_agent id (λ x. not x.is_deleted) (λ x. record x { availability = a })

unfoldable pub soft_delete : ℕ → Db → Db × Bool
soft_delete id =
    update_agent id (λ x. not x.is_deleted)
      (λ x. record x { is_deleted = true; availability = offline; busy_call_id = none })

pub record Claim : Type 0 where
  pub claimed : Bool
  pub assigned : Bool

-- The claim's statement on the agent.
unfoldable pub hold_free_agent : Bool → ℕ → ℕ → Db → Db × Bool
hold_free_agent any_shift agent_id call_id db =
    update_agent agent_id
      (λ x.
        is_null x.busy_call_id
        && ((any_shift || is_on_shift x.availability)
            && (not x.is_deleted && no_other_active_call none agent_id db.calls)))
      (λ x. record x { busy_call_id = some call_id }) db

-- `claimAgentAndAssignCall`: both statements in one transaction, rolled back if either affects no row.
unfoldable pub claim_agent_and_assign_call : ℕ → Bool → ℕ → ℕ → Db → Db × Claim
claim_agent_and_assign_call now any_shift agent_id call_id db =
    let (held, claimed) = hold_free_agent any_shift agent_id call_id db in
    let (given, assigned) = assign_call_to_agent_if_unassigned now call_id agent_id held in
    if claimed
    then (if assigned
        then (given, record { claimed = true; assigned = true })
        else (db, record { claimed = true; assigned = false }))
    else (db, record { claimed = false; assigned = false })

unfoldable pub claim_agent_for_call : ℕ → ℕ → Db → Db × Bool
claim_agent_for_call agent_id call_id = hold_free_agent false agent_id call_id

-- `EXISTS (… c.id = ? AND c.agent_id = agents.id AND c.status IN (…))`
abbrev is_own_active : ℕ → ℕ → Call → Bool
is_own_active agent_id call_id c =
    c.id == call_id && (is_id c.agent_id agent_id && is_active c.status)

abbrev is_held_by : Option Agent → ℕ → Bool
is_held_by none call_id = false
is_held_by (some a) call_id = is_id a.busy_call_id call_id

-- The statement of `holdForOwnCall`.
unfoldable pub hold_own : ℕ → ℕ → Db → Db × Bool
hold_own agent_id call_id db =
    update_agent agent_id
      (λ x.
        (is_null x.busy_call_id || is_id x.busy_call_id call_id)
        && (not x.is_deleted
            && (no_other_active_call (some call_id) agent_id db.calls
                && any (is_own_active agent_id call_id) db.calls)))
      (λ x. record x { busy_call_id = some call_id }) db

-- With no row affected it is read back whether the call holds the agent already.
unfoldable pub hold_for_own_call : ℕ → ℕ → Db → Db × Bool
hold_for_own_call agent_id call_id db =
    let (held, affected) = hold_own agent_id call_id db in
    (held, if affected then true else is_held_by (find_agent agent_id held.agents) call_id)

unfoldable pub release_from_call : ℕ → ℕ → Db → Db × Bool
release_from_call agent_id call_id =
    update_agent agent_id (λ x. is_id x.busy_call_id call_id)
      (λ x. record x { busy_call_id = none })
