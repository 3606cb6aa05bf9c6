-- ===== src/Lifecycle/Access.antt =====
-- core/calls/CallAccess.js: who may act on a call. The caller's identity is their agent id, tenant and
-- role; the queues and their members are read from the tables.
use callio.Prelude.{
  ℕ, ◌≡◌, ◌⊎◌, ◌↔◌, inl, inr, Bool, true, false, ◌&&◌, Option, none, some, List, arith, ◌==◌, find,
  if◌then◌else◌, Bool-cases, Option-cases,
}
use callio.Store.Rows.{Call, Db, is_active, is_id, is_null, find_call}

-- A row of `queues` as `findById` gives it, whatever its status is.
pub record QueueRow : Type 0 where
  pub id : ℕ
  pub rings_all : Bool

pub record Tables : Type 0 where
  pub queues : List QueueRow
  pub is_member : ℕ → ℕ → Bool

-- `#activeCallInTenant`
unfoldable pub active_call_in_tenant : ℕ → ℕ → Db → Option Call
active_call_in_tenant call_id tenant_id db = elim (find_call call_id db.calls) [
  | none ↦ none
  | some c ↦ if c.tenant_id == tenant_id && is_active c.status then some c else none
]

abbrev rings_member : Tables → ℕ → Option QueueRow → Bool
rings_member t agent_id none = false
rings_member t agent_id (some q) = q.rings_all && t.is_member q.id agent_id

abbrev rings_queue_member : Tables → ℕ → Option ℕ → Bool
rings_queue_member t agent_id none = false
rings_queue_member t agent_id (some id) =
    rings_member t agent_id (find (λ (q : QueueRow). q.id == id) t.queues)

-- `#isOffered`
unfoldable pub is_offered : Tables → ℕ → Call → Bool
is_offered t agent_id call = is_null call.agent_id && rings_queue_member t agent_id call.queue_id

unfoldable pub as_agent : Tables → ℕ → ℕ → ℕ → Db → Option Call
as_agent t call_id agent_id tenant_id db = elim (active_call_in_tenant call_id tenant_id db) [
  | none ↦ none
  | some c ↦
      if is_id c.agent_id agent_id then some c else if is_offered t agent_id c then some c else none
]

unfoldable pub as_supervisor : ℕ → ℕ → Bool → Db → Option Call
as_supervisor call_id tenant_id is_supervisor db =
    if is_supervisor then active_call_in_tenant call_id tenant_id db else none

unfoldable pub can_transfer : ℕ → ℕ → ℕ → Bool → Db → Option Call
can_transfer call_id agent_id tenant_id is_supervisor db =
    elim (active_call_in_tenant call_id tenant_id db) [
      | none ↦ none
      | some c ↦
          if is_supervisor then some c else if is_id c.agent_id agent_id then some c else none
    ]

-- The row is the call's, live, and of the tenant.
pub record IsOwn (call_id tenant_id : ℕ) (db : Db) (c : Call) : Type 0 where
  pub stored : find_call call_id db.calls ≡ some c
  pub ours : c.tenant_id ≡ tenant_id
  pub live : is_active c.status ≡ true

active_call-IsOwn :
    (call_id tenant_id : ℕ) (c : Call) (db : Db)
    → active_call_in_tenant call_id tenant_id db ≡ some c
    → IsOwn call_id tenant_id db c
unfolding active_call_in_tenant
active_call-IsOwn call_id tenant_id c db e = elim (Option-cases (find_call call_id db.calls)) [
  | inl f ↦ absurd (ground arith)
  | inr (d, f) ↦ elim (Bool-cases (d.tenant_id == tenant_id && is_active d.status)) [
    | inl q ↦
        let same : d ≡ c = ground arith in
        record { stored = ground arith; ours = ground arith; live = ground arith }
    | inr q ↦ absurd (ground arith)
  ]
]

-- An agent may act only on a live call of their own tenant that is assigned to them, or that nobody has
-- and that rings all members of a queue of theirs.
pub as_agent_lem :
    (t : Tables) (call_id agent_id tenant_id : ℕ) (c : Call) (db : Db)
    → as_agent t call_id agent_id tenant_id db ≡ some c
    → IsOwn call_id tenant_id db c
      × ((c.agent_id ≡ some agent_id) ⊎ ((c.agent_id ≡ none) × (is_offered t agent_id c ≡ true)))
unfolding as_agent is_offered
as_agent_lem t call_id agent_id tenant_id c db e =
    elim (Option-cases (active_call_in_tenant call_id tenant_id db)) [
      | inl f ↦ absurd (ground arith)
      | inr (d, f) ↦
          let same : d ≡ c = ground arith in
          (active_call-IsOwn call_id tenant_id c db (ground arith), ground arith)
    ]

own-active_call :
    (call_id tenant_id : ℕ) (c : Call) (db : Db)
    → IsOwn call_id tenant_id db c
    → active_call_in_tenant call_id tenant_id db ≡ some c
unfolding active_call_in_tenant
own-active_call call_id tenant_id c db o = ground (arith, o.stored, o.ours, o.live)

-- Who may transfer a call: exactly a supervisor, and the agent who is on it, and both exactly a live call of
-- their own tenant. So a supervisor may transfer exactly the calls that they may listen in to, and another
-- agent none.
pub can_transfer_lem :
    (call_id agent_id tenant_id : ℕ) (is_supervisor : Bool) (c : Call) (db : Db)
    → ((can_transfer call_id agent_id tenant_id is_supervisor db ≡ some c)
        ↔ (IsOwn call_id tenant_id db c × ((is_supervisor ≡ true) ⊎ (c.agent_id ≡ some agent_id))))
      × (can_transfer call_id agent_id tenant_id true db ≡ as_supervisor call_id tenant_id true db)
unfolding can_transfer as_supervisor
can_transfer_lem call_id agent_id tenant_id is_supervisor c db = (
  (
    λ e. elim (Option-cases (active_call_in_tenant call_id tenant_id db)) [
      | inl f ↦ absurd (ground arith)
      | inr (d, f) ↦
          let same : d ≡ c = ground arith in
          (active_call-IsOwn call_id tenant_id c db (ground arith), ground arith)
    ],
    λ (o, may). let there = own-active_call call_id tenant_id c db o in ground arith,
  ),
  elim (Option-cases (active_call_in_tenant call_id tenant_id db)) [
    | inl f ↦ ground arith
    | inr (d, f) ↦ ground arith
  ],
)
