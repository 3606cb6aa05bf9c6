-- ===== src/Outbox/Dispatcher/Laws.antt =====
-- What a round of outbox/OutboxDispatcher.js makes of one delivery.
use callio.Prelude.{
  ℕ, ◌≡◌, refl, ◌∙◌, inl, inr, String, Bool, true, false, not, ◌&&◌, ◌||◌, Option, none, some, List,
  [], ◌∷◌, ◌==◌, All, if◌then◌else◌, arith, Bool-cases,
}
use callio.Outbox.Repository.{
  Consumer, Delivery, Outbox, find_delivery, find_due, as_delivered, as_failed, mark_delivered,
  mark_attempt_failed, is_pending, is_due,
}
use callio.Outbox.Repository.Laws.{
  has_id, ids, are_distinct, find-update_where, ids-update_where, distinct-find_due, All-find_due,
  All-first, IsFound, distinct-IsFound, find-id,
}
use callio.Outbox.Dispatcher.{
  Outcome, World, batch_size, is_accepted, has_webhook, next_delay, fail_attempt, deliver,
  deliver_all, hold_lease, tick,
}

-- The row after its delivery's outcome.
abbrev pub settle : List Consumer → Outcome → Delivery → Delivery
settle consumers a r =
    if not (has_webhook consumers r.consumer_id)
    then r
    else if is_accepted a.status
    then as_delivered a.at r
    else as_failed a.at (next_delay r.attempts) r

-- The round comes to the delivery before the dispatcher is stopped.
abbrev pub is_reached : ℕ → (ℕ → Outcome) → List Delivery → Bool
is_reached j outcome [] = false
is_reached j outcome (d ∷ ds) =
    not (outcome d.id).was_stopped && (d.id == j || is_reached j outcome ds)

as_failed-id : (now : ℕ) (delay : Option ℕ) (r : Delivery) → (as_failed now delay r).id ≡ r.id
as_failed-id now none r = refl
as_failed-id now (some d) r = refl

deliver-own :
    (consumers : List Consumer) (a : Outcome) (d : Delivery) (o : Outbox)
    → IsFound o.rows d
    → find_delivery d.id (deliver consumers a d o).rows ≡ some (settle consumers a d)
unfolding deliver fail_attempt mark_delivered mark_attempt_failed
deliver-own consumers a d o e =
    let won =
      find-update_where d.id (λ r. r.id == d.id) (as_delivered a.at) o.rows d (λ x. refl) e in
    let lost =
      find-update_where d.id (λ r. r.id == d.id) (as_failed a.at (next_delay d.attempts)) o.rows d
        (as_failed-id a.at (next_delay d.attempts)) e in
    elim (Bool-cases (has_webhook consumers d.consumer_id)) [
      | inr n ↦ rw (deliver, n) e
      | inl n ↦ elim (Bool-cases (is_accepted a.status)) [
        | inl p ↦ rw (deliver, n, p) (won ∙ ground arith)
        | inr p ↦ rw (deliver, n, p) (lost ∙ ground arith)
      ]
    ]

deliver-other :
    (consumers : List Consumer) (a : Outcome) (d : Delivery) (o : Outbox) (j : ℕ) (x : Delivery)
    → (d.id == j) ≡ false
    → find_delivery j o.rows ≡ some x
    → find_delivery j (deliver consumers a d o).rows ≡ some x
unfolding deliver fail_attempt mark_delivered mark_attempt_failed
deliver-other consumers a d o j x n e =
    let at_j = find-id j o.rows x e in
    let won = find-update_where j (λ r. r.id == d.id) (as_delivered a.at) o.rows x (λ r. refl) e in
    let lost =
      find-update_where j (λ r. r.id == d.id) (as_failed a.at (next_delay d.attempts)) o.rows x
        (as_failed-id a.at (next_delay d.attempts)) e in
    elim (Bool-cases (has_webhook consumers d.consumer_id)) [
      | inr u ↦ rw (deliver, u) e
      | inl u ↦ elim (Bool-cases (is_accepted a.status)) [
        | inl p ↦ rw (deliver, u, p) (won ∙ ground (arith, at_j, n))
        | inr p ↦ rw (deliver, u, p) (lost ∙ ground (arith, at_j, n))
      ]
    ]

deliver-ids :
    (consumers : List Consumer) (a : Outcome) (d : Delivery) (o : Outbox)
    → ids (deliver consumers a d o).rows ≡ ids o.rows
unfolding deliver fail_attempt mark_delivered mark_attempt_failed
deliver-ids consumers a d o =
    let won = ids-update_where (λ r. r.id == d.id) (as_delivered a.at) o.rows (λ r. refl) in
    let lost =
      ids-update_where (λ r. r.id == d.id) (as_failed a.at (next_delay d.attempts)) o.rows
        (as_failed-id a.at (next_delay d.attempts)) in
    elim (Bool-cases (has_webhook consumers d.consumer_id)) [
      | inr u ↦ rw (deliver, u) refl
      | inl u ↦ elim (Bool-cases (is_accepted a.status)) [
        | inl p ↦ rw (deliver, u, p) won
        | inr p ↦ rw (deliver, u, p) lost
      ]
    ]

-- The deliveries that are left are still found as they were read.
deliver-IsFound :
    (consumers : List Consumer) (a : Outcome) (d : Delivery) (o : Outbox) (ds : List Delivery)
    → has_id d.id ds ≡ false
    → All (IsFound o.rows) ds
    → All (IsFound (deliver consumers a d o).rows) ds
deliver-IsFound consumers a d o [] n h = tt
deliver-IsFound consumers a d o (x ∷ xs) n (e, h) = (
  deliver-other consumers a d o x.id x (ground arith) e,
  deliver-IsFound consumers a d o xs (ground arith) h,
)

unreached :
    (j : ℕ) (outcome : ℕ → Outcome) (ds : List Delivery)
    → has_id j ds ≡ false
    → is_reached j outcome ds ≡ false
unreached j outcome [] n = refl
unreached j outcome (d ∷ ds) n = ground (arith, unreached j outcome ds)

pub deliver_all-row :
    (consumers : List Consumer) (outcome : ℕ → Outcome) (ds : List Delivery) (o : Outbox) (j : ℕ)
    (x : Delivery)
    → are_distinct ds ≡ true
    → All (IsFound o.rows) ds
    → find_delivery j o.rows ≡ some x
    → find_delivery j (deliver_all consumers outcome ds o).rows
      ≡ some (if is_reached j outcome ds then settle consumers (outcome j) x else x)
unfolding deliver_all
deliver_all-row consumers outcome [] o j x u h e = e
deliver_all-row consumers outcome (d ∷ ds) o j x u (f, h) e =
    let o' = deliver consumers (outcome d.id) d o in
    let left = deliver-IsFound consumers (outcome d.id) d o ds (ground arith) h in
    elim (Bool-cases (outcome d.id).was_stopped) [
      | inl s ↦ rw (deliver_all, s) e
      | inr s ↦ elim (Bool-cases (d.id == j)) [
        | inr n ↦
            rw (deliver_all, s, n)
              (deliver_all-row consumers outcome ds o' j x (ground arith) left
                (deliver-other consumers (outcome d.id) d o j x n e))
        | inl n ↦
            let p : j ≡ d.id = ground (arith, n) in
            let same : x ≡ d = cc in
            let here : find_delivery j o'.rows ≡ some (settle consumers (outcome j) x) =
              rw (p, same) (deliver-own consumers (outcome d.id) d o f) in
            let gone : is_reached j outcome ds ≡ false =
              unreached j outcome ds (rw p ground arith) in
            rw (deliver_all, s, n)
              (deliver_all-row consumers outcome ds o' j (settle consumers (outcome j) x)
                  (ground arith) left here
                ∙ rw gone refl)
      ]
    ]

deliver_all-ids :
    (consumers : List Consumer) (outcome : ℕ → Outcome) (ds : List Delivery) (o : Outbox)
    → ids (deliver_all consumers outcome ds o).rows ≡ ids o.rows
unfolding deliver_all
deliver_all-ids consumers outcome [] o = refl
deliver_all-ids consumers outcome (d ∷ ds) o = elim (Bool-cases (outcome d.id).was_stopped) [
  | inl s ↦ rw (deliver_all, s) refl
  | inr s ↦
      rw (deliver_all, s)
        (deliver_all-ids consumers outcome ds (deliver consumers (outcome d.id) d o)
          ∙ deliver-ids consumers (outcome d.id) d o)
]

-- Where the rows have distinct ids, a round leaves every delivery as it was, except those that the worker
-- which holds the lease comes to before it is stopped, among the first 50 that are due. Such a delivery is
-- settled once, by its own outcome: marked delivered for a 2xx answer, else failed, with the next delay.
pub tick_settles_once :
    (now : ℕ) (worker : String) (consumers : List Consumer) (outcome : ℕ → Outcome) (w : World)
    (j : ℕ) (x : Delivery)
    → are_distinct w.outbox.rows ≡ true
    → find_delivery j w.outbox.rows ≡ some x
    → find_delivery j (tick now worker consumers outcome w).outbox.rows
      ≡ some (
          if (hold_lease now worker w.lease).1
            && is_reached j outcome (find_due now consumers batch_size w.outbox)
          then settle consumers (outcome j) x
          else x)
unfolding tick
tick_settles_once now worker consumers outcome w j x u e =
    let due = find_due now consumers batch_size w.outbox in
    let due_found =
      All-find_due (IsFound w.outbox.rows) now consumers batch_size w.outbox
        (distinct-IsFound w.outbox.rows u) in
    let found =
      All-first (IsFound w.outbox.rows) (λ d. is_due now consumers d ≡ true) due due_found in
    elim (Bool-cases (hold_lease now worker w.lease).1) [
      | inl l ↦
          rw (tick, l)
            (deliver_all-row consumers outcome due w.outbox j x
              (distinct-find_due now consumers batch_size w.outbox u) found e)
      | inr l ↦ rw (tick, l) e
    ]

pub tick-ids :
    (now : ℕ) (worker : String) (consumers : List Consumer) (outcome : ℕ → Outcome) (w : World)
    → ids (tick now worker consumers outcome w).outbox.rows ≡ ids w.outbox.rows
unfolding tick
tick-ids now worker consumers outcome w = elim (Bool-cases (hold_lease now worker w.lease).1) [
  | inl l ↦
      rw (tick, l)
        (deliver_all-ids consumers outcome (find_due now consumers batch_size w.outbox) w.outbox)
  | inr l ↦ rw (tick, l) refl
]

deliver-next_id :
    (consumers : List Consumer) (a : Outcome) (d : Delivery) (o : Outbox)
    → (deliver consumers a d o).next_id ≡ o.next_id
unfolding deliver fail_attempt mark_delivered mark_attempt_failed
deliver-next_id consumers a d o = ground arith

deliver_all-next_id :
    (consumers : List Consumer) (outcome : ℕ → Outcome) (ds : List Delivery) (o : Outbox)
    → (deliver_all consumers outcome ds o).next_id ≡ o.next_id
unfolding deliver_all
deliver_all-next_id consumers outcome [] o = refl
deliver_all-next_id consumers outcome (d ∷ ds) o = ground (
  arith,
  deliver_all-next_id consumers outcome ds (deliver consumers (outcome d.id) d o),
  deliver-next_id consumers (outcome d.id) d o,
)

pub tick-next_id :
    (now : ℕ) (worker : String) (consumers : List Consumer) (outcome : ℕ → Outcome) (w : World)
    → (tick now worker consumers outcome w).outbox.next_id ≡ w.outbox.next_id
unfolding tick
tick-next_id now worker consumers outcome w =
    let due = find_due now consumers batch_size w.outbox in
    ground (arith, deliver_all-next_id consumers outcome due w.outbox)

-- A delivery that the round comes to is pending.
reached-pending :
    (now : ℕ) (consumers : List Consumer) (outcome : ℕ → Outcome) (rows ds : List Delivery) (j : ℕ)
    (x : Delivery)
    → All (λ d. IsFound rows d × (is_due now consumers d ≡ true)) ds
    → find_delivery j rows ≡ some x
    → is_reached j outcome ds ≡ true
    → is_pending x.status ≡ true
unfolding is_due
reached-pending now consumers outcome rows [] j x h e r = absurd (ground (arith, r))
reached-pending now consumers outcome rows (d ∷ ds) j x ((f, p), h) e r =
    elim (Bool-cases (d.id == j)) [
      | inl n ↦
          let q : j ≡ d.id = ground (arith, n) in let same : x ≡ d = cc in rw same ground (arith, p)
      | inr n ↦ reached-pending now consumers outcome rows ds j x h e (ground (arith, n, r))
    ]

pub tick-pending :
    (now : ℕ) (consumers : List Consumer) (outcome : ℕ → Outcome) (o : Outbox) (j : ℕ)
    (x : Delivery)
    → are_distinct o.rows ≡ true
    → find_delivery j o.rows ≡ some x
    → is_reached j outcome (find_due now consumers batch_size o) ≡ true
    → is_pending x.status ≡ true
tick-pending now consumers outcome o j x u e r =
    reached-pending now consumers outcome o.rows (find_due now consumers batch_size o) j x
      (All-find_due (IsFound o.rows) now consumers batch_size o (distinct-IsFound o.rows u)) e r
