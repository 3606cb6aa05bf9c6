-- ===== src/Routing/Waiting/Bound.antt =====
-- A call does not wait for ever.
use callio.Prelude.{
  ℕ, ◌+◌, ◌<◌, ◌≤◌, ◌≡◌, ◌⊎◌, inl, inr, refl, ap, ◌∙◌, Option, none, some, List, [], ◌∷◌, arith,
  length, if◌then◌else◌, Option-cases,
}
use callio.Store.Rows.{Call, Db, inbound, ringing, terminated, is_ringing, find_call}
use callio.Store.Rows.Laws.{HoldsAt, find_call-id, update_call_hit, update_call-affected}
use callio.Store.Calls.{overflow_to_queue, terminate_call_if_not_terminated}
use callio.Lifecycle.Termination.{commit}
use callio.Lifecycle.Termination.Once.{end_call-commit}
use callio.Routing.Inbound.{Queue}
use callio.Routing.Waiting.{
  overflow_queue, of_tenant, move_to, leave_queue, wait_ending, wait_expired,
}

-- A call that waits in a queue, offered to nobody, and has overflowed a number of times.
pub record IsWaiting (n : ℕ) (c : Call) : Type 0 where
  pub rings : c.status ≡ ringing
  pub comes_in : c.direction ≡ inbound
  pub queued : (q : ℕ) × (c.queue_id ≡ some q)
  pub unoffered : c.agent_id ≡ none
  pub overflows : c.overflow_count ≡ n

module _ (queues : List Queue) (overflow_of : Option ℕ → Option ℕ) (id : ℕ) where
  expire_row : ℕ → Option Call → Db → Db
  expire_row now none db = db
  expire_row now (some c) db =
      if is_ringing c.status then (wait_expired now queues (overflow_of c.queue_id) c db).0 else db

  -- The wait of the call expires at these times, one after the other; the scan reads ringing calls.
  unfoldable pub expire_waits : List ℕ → Db → Db
  unfolding expire_row
  expire_waits [] db = db
  expire_waits (now ∷ ts) db = expire_waits ts (expire_row now (find_call id db.calls) db)

  over :
      (ts : List ℕ) (db : Db)
      → HoldsAt id (λ c. c.status ≡ terminated) db
      → HoldsAt id (λ c. c.status ≡ terminated) (expire_waits ts db)
  unfolding expire_waits
  over [] db h = h
  over (now ∷ ts) db (c, found, e) =
      let same : expire_row now (find_call id db.calls) db ≡ db = ground arith in
      rw (expire_waits, same) (over ts db (c, found, e))

  commit-ended :
      (now : ℕ) (c : Call) (db : Db)
      → c.id ≡ id
      → find_call id db.calls ≡ some c
      → c.status ≡ ringing
      → HoldsAt id (λ d. d.status ≡ terminated) (commit now c.id wait_ending db).0
  unfolding commit terminate_call_if_not_terminated
  commit-ended now c db same found rings = rw same (
      update_call_hit (λ d. d.status ≡ terminated) id _ _ db (λ x. refl) (λ x e g. refl)
        ((update_call-affected id _ _ db).0 ∙ ground arith))

  move_to-IsWaiting :
      (now n : ℕ) (q : Queue) (c : Call) (db : Db)
      → c.id ≡ id
      → find_call id db.calls ≡ some c
      → IsWaiting n c
      → HoldsAt id (IsWaiting (n + 1)) (move_to now q c db).0
  unfolding move_to overflow_to_queue
  move_to-IsWaiting now n q c db same found w =
      let (from, queued) = w.queued in
      rw (queued, same)
        (update_call_hit (IsWaiting (n + 1)) id _ _ db (λ x. refl)
          (λ x e g.
            let this : x ≡ c = cc in
            record {
              rings = ap (λ (y : Call). y.status) this ∙ w.rings;
              comes_in = ap (λ (y : Call). y.direction) this ∙ w.comes_in;
              queued = (q.id, refl);
              unoffered = refl;
              overflows =
                  ap (λ (y : Call). y.overflow_count + 1) this ∙ ap (λ m. m + 1) w.overflows;
            })
          ((update_call-affected id _ _ db).0 ∙ ground (arith, w.rings, w.comes_in, w.unoffered)))

  overflow_bound :
      (t : ℕ) (o : Option ℕ) (q : Queue) (c : Call)
      → of_tenant t (overflow_queue queues o c) ≡ some q
      → c.overflow_count < 3
  unfolding overflow_queue
  overflow_bound t none q c e = absurd (cc)
  overflow_bound t (some x) q c e = ground arith

  one_expiry :
      (now n : ℕ) (c : Call) (db : Db)
      → c.id ≡ id
      → find_call id db.calls ≡ some c
      → IsWaiting n c
      → HoldsAt id
          (λ d. d.status ≡ terminated)
          (wait_expired now queues (overflow_of c.queue_id) c db).0
        ⊎ ((n < 3)
            × HoldsAt id
                (IsWaiting (n + 1))
                (wait_expired now queues (overflow_of c.queue_id) c db).0)
  unfolding wait_expired leave_queue
  one_expiry now n c db same found w =
      elim (Option-cases
        (of_tenant c.tenant_id (overflow_queue queues (overflow_of c.queue_id) c))) [
          | inl e ↦
              rw (wait_expired, e, end_call-commit now c wait_ending db)
                (inl (commit-ended now c db same found w.rings))
          | inr (q, e) ↦
              let less = overflow_bound c.tenant_id (overflow_of c.queue_id) q c e in
              rw (wait_expired, e)
                (inr
                  (omega (arith, less, w.overflows), move_to-IsWaiting now n q c db same found w))
        ]

  expiries :
      (ts : List ℕ) (n : ℕ) (db : Db)
      → HoldsAt id (IsWaiting n) db
      → n ≤ 3
      → 3 < length ts + n
      → HoldsAt id (λ d. d.status ≡ terminated) (expire_waits ts db)
  unfolding expire_row expire_waits
  expiries [] n db h few many = absurd (omega (arith, few, many))
  expiries (now ∷ ts) n db (c, found, w) few many =
      let read : expire_row now (find_call id db.calls) db
          ≡ (wait_expired now queues (overflow_of c.queue_id) c db).0 =
        ground (arith, w.rings) in
      elim (one_expiry now n c db (find_call-id id db.calls c found) found w) [
        | inl ended ↦ rw (expire_waits, read) (over ts _ ended)
        | inr (less, more) ↦
            rw (expire_waits, read)
              (expiries ts (n + 1) _ more (omega (arith, less)) (omega (arith, many)))
      ]

  -- A call that rings in a queue, is offered to nobody and answered by nobody, and has overflowed at
  -- most three times, ends: whatever queues overflow to each other, also in a circle, the fourth expiry
  -- of its wait at the latest has terminated it.
  pub waiting_ends :
      (t1 t2 t3 t4 : ℕ) (ts : List ℕ) (n : ℕ) (db : Db)
      → HoldsAt id (IsWaiting n) db
      → n ≤ 3
      → HoldsAt id (λ d. d.status ≡ terminated) (expire_waits (t1 ∷ t2 ∷ t3 ∷ t4 ∷ ts) db)
  waiting_ends t1 t2 t3 t4 ts n db h few =
      expiries (t1 ∷ t2 ∷ t3 ∷ t4 ∷ ts) n db h few (ground arith)
