-- ===== src/Routing/Coordinator/Draining.antt =====
-- `drainQueue` of core/routing/AgentAssignmentCoordinator.js: which waiting call gets whom.
pub mod Rounds
use callio.Prelude.{
  ℕ, zero, suc, ◌≡◌, ◌⊎◌, inl, inr, refl, sym, ap, ◌∙◌, Bool, true, false, not, ◌&&◌, ◌||◌, Option,
  none, some, List, [], ◌∷◌, ◌++◌, ◌==◌, arith, any, filter, All, Bool-cases, Option-cases,
  if◌then◌else◌,
}
use callio.Store.Rows.{Call, Db, find_call, update_call}
use callio.Store.Rows.Laws.{find_call-update_call, update_agent-calls}
use callio.Store.Calls.{assign_call_to_agent_if_unassigned}
use callio.Store.Agents.{claim_agent_and_assign_call, hold_free_agent}
use callio.Routing.Members.{Member, is_available}
use callio.Routing.OfferHistory.{History, clear_missed, eligible, mem}
use callio.Routing.OfferHistory.Laws.{IsAllowed, All-weaken, eligible-All, eligible-IsAllowed}
use callio.Routing.QueueOrder.{Stored}
use callio.Routing.Inbound.{Queue, claim_for, claim_for_waiting_call}
use callio.Routing.Inbound.Laws.{IsGiven, Outcome, claim_for_waiting_call-Outcome}
use callio.Routing.Inbound.Picks.{Chosen}
use callio.Routing.Inbound.Others.{waiting-others, waiting-Chosen}
use callio.Routing.Coordinator.{
  Floor, Setup, after_claim, claim_waiting, deliver_in_queue, deliver_assigned_call, drain_attempts,
  drain_calls, drain_once, drain_queue, emit_queue_update, has_member, is_empty_list,
  oldest_unassigned_calls, read_members, set_at,
}

All-both :
    (P Q : Member → Type 0) (ms : List Member) → All P ms → All Q ms → All (λ m. P m × Q m) ms
All-both P Q [] p q = tt
All-both P Q (m ∷ ms) (p, ps) (q, qs) = ((p, q), All-both P Q ms ps qs)

-- Eligibility reads who declined a call and does not change it.
eligible-declined :
    (h : History) (members : List Member) → (eligible h members).1.declined ≡ h.declined
unfolding eligible clear_missed
eligible-declined h members = ground arith

pub emit_queue_update-world :
    (s : Setup) (tenant_id : ℕ) (id : Option ℕ) (f : Floor)
    → ((emit_queue_update s tenant_id id f).world ≡ f.world)
      × ((emit_queue_update s tenant_id id f).histories ≡ f.histories)
unfolding emit_queue_update
emit_queue_update-world s tenant_id none f = (refl, refl)
emit_queue_update-world s tenant_id (some id) f =
    elim (Bool-cases (any (λ (q : Queue). q.id == id && q.tenant_id == tenant_id) s.queues)) [
      | inl e ↦ rw e (refl, refl)
      | inr e ↦ rw e (refl, refl)
    ]

-- A queue's members and rows, with who declined which call. The members are enrolled in the queue.
module _ (s : Setup) (q : Queue) (members : List Member) (db : Db) (declined_by : ℕ → List ℕ) where
  -- A call for which the claim found nobody.
  abbrev pub Passed : Call → Type 0
  Passed c =
      (h : History) × (order : Stored) × (h.declined ≡ declined_by c.id)
      × ((claim_for_waiting_call s.now_ms s.now q c.id (eligible h members).0 order db).2 ≡ none)

  -- The first of the calls that somebody could take is theirs; nothing else changed among the calls.
  pub record Assigned (calls : List Call) (after : Db) : Type 0 where
    pub passed : List Call
    pub call : Call
    pub later : List Call
    pub in_order : calls ≡ passed ++ call ∷ later
    pub skipped : All Passed passed
    pub member : Member
    pub given : IsGiven call.id db after member
    pub enrolled : has_member s member.id q.id ≡ true
    pub undeclined : mem member.id (declined_by call.id) ≡ false
    pub others : (j : ℕ) → (call.id == j) ≡ false → find_call j after.calls ≡ find_call j db.calls

  abbrev pub Drained : List Call → Bool → Db → Type 0
  Drained calls true after = Assigned calls after
  Drained calls false after = (after ≡ db) × All Passed calls

  abbrev pub Agrees : Floor → Type 0
  Agrees f = (i : ℕ) → (f.histories i).declined ≡ declined_by i

  later-Drained :
      (c : Call) (calls : List Call) (assigned : Bool) (after : Db)
      → Passed c
      → Drained calls assigned after
      → Drained (c ∷ calls) assigned after
  later-Drained c calls false after p d = (d.0, (p, d.1))
  later-Drained c calls true after p d = record {
    passed = c ∷ d.passed;
    call = d.call;
    later = d.later;
    in_order = ap (λ cs. c ∷ cs) d.in_order;
    skipped = (p, d.skipped);
    member = d.member;
    given = d.given;
    enrolled = d.enrolled;
    undeclined = d.undeclined;
    others = d.others;
  }

  after_claim-Drained :
      (c : Call) (calls : List Call) (m : Option Member) (deliver : Member → Floor) (taken : Bool)
      (rest : Floor × (Bool × Bool))
      → (m ≡ none → Passed c × (Drained calls rest.1.0 rest.0.world.db × Agrees rest.0))
      → ((x : Member) → m ≡ some x → Assigned (c ∷ calls) (deliver x).world.db × Agrees (deliver x))
      → Drained
          (c ∷ calls)
          (after_claim m deliver taken rest).1.0
          (after_claim m deliver taken rest).0.world.db
        × Agrees (after_claim m deliver taken rest).0
  unfolding after_claim
  after_claim-Drained c calls none deliver taken rest p g =
      let (passed, (drained, agrees)) = p refl in
      (later-Drained c calls rest.1.0 rest.0.world.db passed drained, agrees)
  after_claim-Drained c calls (some m) deliver taken rest p g = g m refl

  claim_waiting-Agrees :
      (c : Call) (f : Floor) → Agrees f → Agrees (claim_waiting s q members c f).0
  unfolding claim_waiting
  claim_waiting-Agrees c f h i = elim (Bool-cases (i == c.id)) [
    | inl e ↦
        let same : i ≡ c.id = ground (arith, e) in
        rw e (eligible-declined (f.histories c.id) members ∙ (h c.id ∙ ap declined_by (sym same)))
    | inr e ↦ rw e (h i)
  ]

  abbrev pub AreEnrolled : Type 0
  AreEnrolled = All (λ m. has_member s m.id q.id ≡ true) members

  undeclined-All :
      (c : Call) (f : Floor)
      → Agrees f
      → All (λ m. mem m.id (declined_by c.id) ≡ false) (eligible (f.histories c.id) members).0
  undeclined-All c f h =
      All-weaken (IsAllowed (f.histories c.id) members) (λ m. mem m.id (declined_by c.id) ≡ false)
        (eligible (f.histories c.id) members).0 (λ m a. ap (mem m.id) (sym (h c.id)) ∙ a.0)
        (eligible-IsAllowed (f.histories c.id) members)

  -- What the claim for one call leaves, by the member it returns.
  Claimed : Call → Db → Option Member → Type 0
  Claimed c after none = Passed c × (after ≡ db)
  Claimed c after (some m) =
      IsGiven c.id db after m
      × (((has_member s m.id q.id ≡ true) × (mem m.id (declined_by c.id) ≡ false))
          × ((j : ℕ) → (c.id == j) ≡ false → find_call j after.calls ≡ find_call j db.calls))

  claim_waiting-cases :
      (c : Call) (after : Db) (m : Option Member)
      → (m ≡ none → Passed c)
      → Outcome c.id db after m
      → Chosen (λ x. (has_member s x.id q.id ≡ true) × (mem x.id (declined_by c.id) ≡ false)) m
      → ((j : ℕ) → (c.id == j) ≡ false → find_call j after.calls ≡ find_call j db.calls)
      → Claimed c after m
  unfolding Claimed
  claim_waiting-cases c after none p o u others = (p refl, o)
  claim_waiting-cases c after (some m) p o u others = (o, (u, others))

  claim_waiting-Claimed :
      (c : Call) (f : Floor)
      → AreEnrolled
      → f.world.db ≡ db
      → Agrees f
      → Claimed c (claim_waiting s q members c f).0.world.db (claim_waiting s q members c f).1.1
  unfolding claim_waiting
  claim_waiting-Claimed c f enrolled e h =
      let allowed = (eligible (f.histories c.id) members).0 in
      let order = f.stored q.id in
      let P : Member → Type 0 =
        λ m. (has_member s m.id q.id ≡ true) × (mem m.id (declined_by c.id) ≡ false) in
      let everyone : All P allowed =
        All-both (λ m. has_member s m.id q.id ≡ true) (λ m. mem m.id (declined_by c.id) ≡ false)
          allowed
          (eligible-All (λ m. has_member s m.id q.id ≡ true) (f.histories c.id) members enrolled)
          (undeclined-All c f h) in
      rw e (
        claim_waiting-cases c (claim_for_waiting_call s.now_ms s.now q c.id allowed order db).1.0
          (claim_for_waiting_call s.now_ms s.now q c.id allowed order db).2
          (λ n. (f.histories c.id, order, h c.id, n))
          (claim_for_waiting_call-Outcome s.now_ms s.now c.id q allowed order db).0
          (waiting-Chosen s.now_ms s.now q c.id allowed order db P everyone)
          (λ j n. waiting-others s.now_ms s.now q c.id allowed order db P everyone j n))

  deliver_in_queue-Assigned :
      (c : Call) (calls : List Call) (m : Member) (g : Floor)
      → Claimed c g.world.db (some m)
      → Agrees g
      → Assigned (c ∷ calls) (deliver_in_queue s q c g m).world.db
        × Agrees (deliver_in_queue s q c g m)
  unfolding Claimed deliver_in_queue deliver_assigned_call
  deliver_in_queue-Assigned c calls m g (given, ((enrolled, undeclined), others)) h =
      let told =
        emit_queue_update-world s c.tenant_id (some q.id) (deliver_assigned_call c.id m g) in
      rw (deliver_in_queue, told.0, told.1)
        (
          record {
            passed = [];
            call = c;
            later = calls;
            in_order = refl;
            skipped = tt;
            member = m;
            given = given;
            enrolled = enrolled;
            undeclined = undeclined;
            others = others;
          },
          h,
        )

  pub drain_calls-Drained :
      (calls : List Call) (f : Floor)
      → AreEnrolled
      → f.world.db ≡ db
      → Agrees f
      → Drained calls
          (drain_calls s q members calls f).1.0
          (drain_calls s q members calls f).0.world.db
        × Agrees (drain_calls s q members calls f).0
  unfolding drain_calls Claimed
  drain_calls-Drained [] f enrolled e h = ((e, tt), h)
  drain_calls-Drained (c ∷ cs) f enrolled e h =
      let claim = claim_waiting s q members c f in
      let agrees = claim_waiting-Agrees c f h in
      let claimed = claim_waiting-Claimed c f enrolled e h in
      after_claim-Drained c cs claim.1.1 (deliver_in_queue s q c claim.0) claim.1.0
        (drain_calls s q members cs claim.0)
        (λ n.
          let at_none : Claimed c claim.0.world.db none = rw n at claimed in
          (at_none.0, drain_calls-Drained cs claim.0 enrolled at_none.1 agrees))
        (λ m n. deliver_in_queue-Assigned c cs m claim.0 (rw n at claimed) agrees)
