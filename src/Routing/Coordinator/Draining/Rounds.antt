-- ===== src/Routing/Coordinator/Draining/Rounds.antt =====
-- The attempts of `drainQueue` in core/routing/AgentAssignmentCoordinator.js, together.
use callio.Prelude.{
  ℕ, zero, suc, ◌≡◌, ◌⊎◌, inl, inr, refl, sym, Bool, true, false, List, [], ◌∷◌, arith, any, All,
  ◌==◌, Option, Option-cases, Bool-cases,
}
use callio.Store.Rows.{Call, Db, find_agent}
use callio.Store.Rows.Laws.{find_agent-id}
use callio.Routing.OfferHistory.Laws.{All-weaken}
use callio.Routing.Members.{Member, is_available}
use callio.Routing.Inbound.{Queue}
use callio.Routing.Coordinator.{
  Floor, Setup, drain_attempts, drain_calls, drain_once, drain_queue, has_member, is_empty_list,
  oldest_unassigned_calls, read_members,
}
use callio.Routing.Coordinator.Draining.{Assigned, Drained, Passed, drain_calls-Drained}

-- What a round of a queue gives: nobody could take any of the calls, or one was assigned.
abbrev pub Round : Setup → Queue → Db → (ℕ → List ℕ) → Bool → Db → Type 0
Round s q db declined_by true after =
    Assigned s q (read_members db (s.memberships q.id)) db declined_by
      (oldest_unassigned_calls q.id db) after
Round s q db declined_by false after =
    (after ≡ db)
    × ((any is_available (read_members db (s.memberships q.id)) ≡ false)
        ⊎ All (Passed s q (read_members db (s.memberships q.id)) db declined_by)
            (oldest_unassigned_calls q.id db))

of_empty : (P : Call → Type 0) (cs : List Call) → is_empty_list cs ≡ true → All P cs
of_empty P [] e = tt
of_empty P (c ∷ cs) e = absurd (cc)

of_Drained :
    (s : Setup) (q : Queue) (db : Db) (declined_by : ℕ → List ℕ) (assigned : Bool) (after : Db)
    → Drained s q
        (read_members db (s.memberships q.id))
        db
        declined_by
        (oldest_unassigned_calls q.id db)
        assigned
        after
    → Round s q db declined_by assigned after
of_Drained s q db declined_by true after d = d
of_Drained s q db declined_by false after d = (d.0, inr d.1)

-- The rows that `getMembers` reads are of agents who are enrolled.
rows-enrolled :
    (db : Db) (rows : List (ℕ × Option ℕ))
    → All (λ m. any (λ r. r.0 == m.id) rows ≡ true) (read_members db rows)
unfolding read_members
rows-enrolled db [] = tt
rows-enrolled db ((id, priority) ∷ rest) =
    let later =
      All-weaken (λ (m : Member). any (λ r. r.0 == m.id) rest ≡ true)
        (λ (m : Member). any (λ r. r.0 == m.id) ((id, priority) ∷ rest) ≡ true)
        (read_members db rest) (λ m h. ground arith) (rows-enrolled db rest) in
    elim (Option-cases (find_agent id db.agents)) [
      | inl e ↦ rw e later
      | inr (a, e) ↦
          let own : a.id ≡ id = find_agent-id id db.agents a e in
          elim (Bool-cases a.is_deleted) [
            | inl gone ↦ rw (e, gone) later
            | inr there ↦ rw (e, there) (ground arith, later)
          ]
    ]

read_members-enrolled :
    (s : Setup) (q : Queue) (db : Db)
    → All (λ m. has_member s m.id q.id ≡ true) (read_members db (s.memberships q.id))
read_members-enrolled s q db = rows-enrolled db (s.memberships q.id)

drain_once-Round :
    (s : Setup) (q : Queue) (f : Floor) (declined_by : ℕ → List ℕ)
    → ((i : ℕ) → (f.histories i).declined ≡ declined_by i)
    → Round s q f.world.db declined_by (drain_once s q f).1.0 (drain_once s q f).0.world.db
      × ((i : ℕ) → ((drain_once s q f).0.histories i).declined ≡ declined_by i)
unfolding drain_once
drain_once-Round s q f declined_by h =
    let members = read_members f.world.db (s.memberships q.id) in
    let calls = oldest_unassigned_calls q.id f.world.db in
    let (drained, agrees) =
      drain_calls-Drained s q members f.world.db declined_by calls f
        (read_members-enrolled s q f.world.db) refl h in
    elim (Bool-cases (any is_available members)) [
      | inr a ↦ rw (drain_once, a) ((refl, inl a), h)
      | inl a ↦ elim (Bool-cases (is_empty_list calls)) [
        | inl b ↦ rw (drain_once, a, b) ((refl, inr (of_empty _ calls b)), h)
        | inr b ↦
            rw (drain_once, a, b)
              (
                of_Drained s q f.world.db declined_by (drain_calls s q members calls f).1.0
                    (drain_calls s q members calls f).0.world.db drained,
                agrees,
              )
      ]
    ]

drain_once-again :
    (s : Setup) (q : Queue) (db db' : Db) (declined_by : ℕ → List ℕ) (assigned : Bool) (after : Db)
    → db' ≡ db
    → Round s q db' declined_by assigned after
    → Round s q db declined_by assigned after
drain_once-again s q db db' declined_by assigned after e r = rw (sym e) r

drain_attempts-Round :
    (n : ℕ) (s : Setup) (q : Queue) (f : Floor) (db : Db) (declined_by : ℕ → List ℕ)
    → f.world.db ≡ db
    → ((i : ℕ) → (f.histories i).declined ≡ declined_by i)
    → (n ≡ 0 → Round s q db declined_by false f.world.db)
    → Round s q db declined_by (drain_attempts n s q f).1 (drain_attempts n s q f).0.world.db
unfolding drain_attempts
drain_attempts-Round zero s q f db declined_by e h known = known refl
drain_attempts-Round (suc n) s q f db declined_by e h known =
    let g = drain_once s q f in
    let (round, agrees) = drain_once-Round s q f declined_by h in
    let here = drain_once-again s q db f.world.db declined_by g.1.0 g.0.world.db e round in
    elim (Bool-cases g.1.0) [
      | inl a ↦ rw (drain_attempts, a) (rw a at here)
      | inr a ↦
          let none' : Round s q db declined_by false g.0.world.db = rw a at here in
          elim (Bool-cases g.1.1) [
            | inr l ↦ rw (drain_attempts, a, l) none'
            | inl l ↦
                rw (drain_attempts, a, l)
                  (drain_attempts-Round n s q g.0 db declined_by none'.0 agrees (λ z. none'))
          ]
    ]

-- Draining a queue assigns a call exactly if it returns true. Then the call is one of the first 25 that wait in
-- the queue, by the time they began to ring, and for those before it the claim finds nobody; its new agent is
-- enrolled in the queue, was free and had not declined it, and no other call has changed. If it returns false, the database
-- is as it was, and no member is available or the claim finds nobody for any of the calls.
pub drain_queue-Round :
    (s : Setup) (q : Queue) (f : Floor)
    → Round s q f.world.db
        (λ i. (f.histories i).declined)
        (drain_queue s q f).1
        (drain_queue s q f).0.world.db
unfolding drain_queue
drain_queue-Round s q f =
    drain_attempts-Round 3 s q f f.world.db (λ i. (f.histories i).declined) refl (λ i. refl)
      (λ z. absurd (omega (arith, z)))
