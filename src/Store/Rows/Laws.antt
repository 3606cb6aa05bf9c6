-- ===== src/Store/Rows/Laws.antt =====
-- What an update of one row leaves to be read.
use callio.Prelude.{
  ℕ, ◌≡◌, Bool, false, Option, none, some, List, [], ◌∷◌, arith, ◌==◌, if◌then◌else◌, Option-cases,
  Bool-cases, true, inl, inr,
}
use callio.Store.Rows.{
  Call, Agent, Db, find_call, put_call, find_agent, put_agent, update_call, update_agent,
}

-- A row is found under its own id.
pub find_call-id : (id : ℕ) (cs : List Call) (c : Call) → find_call id cs ≡ some c → c.id ≡ id
unfolding find_call
find_call-id id [] c h = cc
find_call-id id (d ∷ cs) c h = ground (arith, find_call-id id cs c)

pub find_agent-id : (id : ℕ) (xs : List Agent) (a : Agent) → find_agent id xs ≡ some a → a.id ≡ id
unfolding find_agent
find_agent-id id [] a h = cc
find_agent-id id (d ∷ xs) a h = ground (arith, find_agent-id id xs a)

find_call-put_call :
    (id : ℕ) (c c' : Call) (cs : List Call)
    → find_call c'.id cs ≡ some c
    → find_call id (put_call c' cs) ≡ (if c'.id == id then some c' else find_call id cs)
unfolding find_call put_call
find_call-put_call id c c' [] h = cc
find_call-put_call id c c' (d ∷ cs) h = ground (arith, find_call-put_call id c c' cs)

find_agent-put_agent :
    (id : ℕ) (a a' : Agent) (xs : List Agent)
    → find_agent a'.id xs ≡ some a
    → find_agent id (put_agent a' xs) ≡ (if a'.id == id then some a' else find_agent id xs)
unfolding find_agent put_agent
find_agent-put_agent id a a' [] h = cc
find_agent-put_agent id a a' (d ∷ xs) h = ground (arith, find_agent-put_agent id a a' xs)

-- What a read of row `j` finds after an update of row `id`.
abbrev pub after_update : ℕ → (Call → Bool) → (Call → Call) → ℕ → Option Call → Option Call
after_update id guard assign j none = none
after_update id guard assign j (some c) =
    some (if id == j then (if guard c then assign c else c) else c)

pub find_call-update_call :
    (id j : ℕ) (guard : Call → Bool) (assign : Call → Call) (db : Db)
    → ((c : Call) → (assign c).id ≡ c.id)
    → find_call j (update_call id guard assign db).0.calls
      ≡ after_update id guard assign j (find_call j db.calls)
unfolding update_call
find_call-update_call id j guard assign db keeps = elim (Option-cases (find_call id db.calls)) [
  | inl e ↦ elim (Option-cases (find_call j db.calls)) [
    | inl f ↦ ground arith
    | inr (d, f) ↦ ground arith
  ]
  | inr (c, e) ↦
      let same : c.id ≡ id = find_call-id id db.calls c e in
      let held : find_call (assign c).id db.calls ≡ some c = cc (keeps c) in
      let put = find_call-put_call j c (assign c) db.calls held in
      elim (Option-cases (find_call j db.calls)) [
        | inl f ↦ ground (arith, keeps c)
        | inr (d, f) ↦ ground (arith, keeps c)
      ]
]

abbrev pub after_agent_update :
    ℕ → (Agent → Bool) → (Agent → Agent) → ℕ → Option Agent → Option Agent
after_agent_update id guard assign j none = none
after_agent_update id guard assign j (some a) =
    some (if id == j then (if guard a then assign a else a) else a)

pub find_agent-update_agent :
    (id j : ℕ) (guard : Agent → Bool) (assign : Agent → Agent) (db : Db)
    → ((a : Agent) → (assign a).id ≡ a.id)
    → find_agent j (update_agent id guard assign db).0.agents
      ≡ after_agent_update id guard assign j (find_agent j db.agents)
unfolding update_agent
find_agent-update_agent id j guard assign db keeps = elim (Option-cases (find_agent id db.agents)) [
  | inl e ↦ elim (Option-cases (find_agent j db.agents)) [
    | inl f ↦ ground arith
    | inr (d, f) ↦ ground arith
  ]
  | inr (a, e) ↦
      let same : a.id ≡ id = find_agent-id id db.agents a e in
      let held : find_agent (assign a).id db.agents ≡ some a = cc (keeps a) in
      let put = find_agent-put_agent j a (assign a) db.agents held in
      elim (Option-cases (find_agent j db.agents)) [
        | inl f ↦ ground (arith, keeps a)
        | inr (d, f) ↦ ground (arith, keeps a)
      ]
]

-- The reported `affectedRows`: the row is there and passes the guard.
abbrev pub passes : (Call → Bool) → Option Call → Bool
passes guard none = false
passes guard (some c) = guard c

pub update_call-affected :
    (id : ℕ) (guard : Call → Bool) (assign : Call → Call) (db : Db)
    → ((update_call id guard assign db).1 ≡ passes guard (find_call id db.calls))
      × ((update_call id guard assign db).0.agents ≡ db.agents)
unfolding update_call
update_call-affected id guard assign db = ground arith

-- The row with an id is there, and a predicate holds of it.
abbrev pub HoldsAt : ℕ → (Call → Type 0) → Db → Type 0
HoldsAt j P db = (c : Call) × (find_call j db.calls ≡ some c) × P c

abbrev pub AgentHoldsAt : ℕ → (Agent → Type 0) → Db → Type 0
AgentHoldsAt j P db = (a : Agent) × (find_agent j db.agents ≡ some a) × P a

-- A predicate of a row that a guarded assignment keeps is kept by the statement.
pub update_call-HoldsAt :
    (P : Call → Type 0) (id j : ℕ) (guard : Call → Bool) (assign : Call → Call) (db : Db)
    → ((c : Call) → (assign c).id ≡ c.id)
    → ((c : Call) → guard c ≡ true → P c → P (assign c))
    → HoldsAt j P db
    → HoldsAt j P (update_call id guard assign db).0
update_call-HoldsAt P id j guard assign db keeps step (c, e, h) =
    let law = find_call-update_call id j guard assign db keeps in
    elim (Bool-cases (id == j)) [
      | inl hit ↦ elim (Bool-cases (guard c)) [
        | inl on ↦ (assign c, ground arith, step c on h)
        | inr off ↦ (c, ground arith, h)
      ]
      | inr miss ↦ (c, ground arith, h)
    ]

pub update_agent-AgentHoldsAt :
    (P : Agent → Type 0) (id j : ℕ) (guard : Agent → Bool) (assign : Agent → Agent) (db : Db)
    → ((a : Agent) → (assign a).id ≡ a.id)
    → ((a : Agent) → id ≡ j → guard a ≡ true → P a → P (assign a))
    → AgentHoldsAt j P db
    → AgentHoldsAt j P (update_agent id guard assign db).0
update_agent-AgentHoldsAt P id j guard assign db keeps step (a, e, h) =
    let law = find_agent-update_agent id j guard assign db keeps in
    elim (Bool-cases (id == j)) [
      | inl hit ↦ elim (Bool-cases (guard a)) [
        | inl on ↦ (assign a, ground arith, step a (ground arith) on h)
        | inr off ↦ (a, ground arith, h)
      ]
      | inr miss ↦ (a, ground arith, h)
    ]

pub update_agent-calls :
    (id : ℕ) (guard : Agent → Bool) (assign : Agent → Agent) (db : Db)
    → (update_agent id guard assign db).0.calls ≡ db.calls
unfolding update_agent
update_agent-calls id guard assign db = ground arith

-- A statement that affects no row changes nothing.
pub update_call_missed :
    (id : ℕ) (guard : Call → Bool) (assign : Call → Call) (db : Db)
    → (update_call id guard assign db).1 ≡ false
    → (update_call id guard assign db).0 ≡ db
unfolding update_call
update_call_missed id guard assign db h = ground arith

-- What holds of every assigned row holds of the row that a statement affected.
pub update_call_hit :
    (P : Call → Type 0) (id : ℕ) (guard : Call → Bool) (assign : Call → Call) (db : Db)
    → ((c : Call) → (assign c).id ≡ c.id)
    → ((c : Call) → find_call id db.calls ≡ some c → guard c ≡ true → P (assign c))
    → (update_call id guard assign db).1 ≡ true
    → HoldsAt id P (update_call id guard assign db).0
update_call_hit P id guard assign db keeps gives hit =
    let law = find_call-update_call id id guard assign db keeps in
    let affected = (update_call-affected id guard assign db).0 in
    elim (Option-cases (find_call id db.calls)) [
      | inl e ↦ absurd (ground arith)
      | inr (c, e) ↦
          let on : guard c ≡ true = ground arith in (assign c, ground arith, gives c e on)
    ]

pub update_call_refused :
    (P : Call → Type 0) (id : ℕ) (guard : Call → Bool) (assign : Call → Call) (db : Db)
    → ((c : Call) → P c → guard c ≡ false)
    → HoldsAt id P db
    → (update_call id guard assign db).1 ≡ false
update_call_refused P id guard assign db refuses (c, e, h) =
    let affected = (update_call-affected id guard assign db).0 in
    let off : guard c ≡ false = refuses c h in ground arith

-- The row that a statement affected was there and passed the guard.
pub update_call_found :
    (id : ℕ) (guard : Call → Bool) (assign : Call → Call) (db : Db)
    → (update_call id guard assign db).1 ≡ true
    → HoldsAt id (λ c. guard c ≡ true) db
unfolding update_call
update_call_found id guard assign db hit = elim (Option-cases (find_call id db.calls)) [
  | inl e ↦ absurd (ground arith)
  | inr (c, e) ↦ (c, e, ground arith)
]

pub update_agent_found :
    (id : ℕ) (guard : Agent → Bool) (assign : Agent → Agent) (db : Db)
    → (update_agent id guard assign db).1 ≡ true
    → AgentHoldsAt id (λ a. guard a ≡ true) db
unfolding update_agent
update_agent_found id guard assign db hit = elim (Option-cases (find_agent id db.agents)) [
  | inl e ↦ absurd (ground arith)
  | inr (a, e) ↦ (a, e, ground arith)
]

pub update_agent_hit :
    (P : Agent → Type 0) (id : ℕ) (guard : Agent → Bool) (assign : Agent → Agent) (db : Db)
    → ((a : Agent) → (assign a).id ≡ a.id)
    → ((a : Agent) → P (assign a))
    → (update_agent id guard assign db).1 ≡ true
    → AgentHoldsAt id P (update_agent id guard assign db).0
update_agent_hit P id guard assign db keeps gives hit =
    let law = find_agent-update_agent id id guard assign db keeps in
    let (a, e, on) = update_agent_found id guard assign db hit in (assign a, ground arith, gives a)
