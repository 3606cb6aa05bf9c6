-- ===== src/Outbox/Dispatcher/Plan.antt =====
-- The schedule of retries, through all that happens to the outbox: outbox/OutboxDispatcher.js.
use callio.Prelude.{
  ℕ, zero, suc, ◌+◌, ◌-◌, ◌<◌, ◌≤◌, ◌≡◌, refl, sym, ◌∙◌, inl, inr, String, Bool, true, false, ◌&&◌,
  ◌||◌, Option, none, some, List, [], ◌∷◌, ◌==◌, ◌===◌, ltb, leb, all, arith, Bool-cases, length,
}
use callio.Outbox.Repository.{
  Consumer, Delivery, pending, delivered, failed, is_pending, find_delivery, enqueue, redeliver,
  queued_again, exists_by_dedupe_key, find_due, update_where,
}
use callio.Outbox.Repository.Laws.{
  ids, are_numbered, find-update_where, ids-update_where, find-before, numbered-distinct,
}
use callio.Outbox.Dispatcher.{
  Outcome, World, batch_size, backoff_seconds, delay_at, is_accepted, has_webhook, next_delay,
  hold_lease, release_lease, tick,
}
use callio.Outbox.Dispatcher.Laws.{
  is_reached, settle, tick-ids, tick-next_id, tick-pending, tick_settles_once,
}

-- A pending delivery has attempts left and waits 5 seconds to an hour from its last failure.
abbrev pub in_plan : Delivery → Bool
in_plan r = elim r.status [
  | pending ↦
      ltb r.attempts 12
      && (leb r.next_attempt_at (r.updated_at + 3600)
          && (r.attempts == 0 || leb (r.updated_at + 5) r.next_attempt_at))
  | delivered ↦ leb 1 r.attempts && leb r.attempts 12
  | failed ↦ r.attempts == 12
]

abbrev is_delay : ℕ → Bool
is_delay d = leb 5 d && leb d 3600

delay_at-bounds :
    (n : ℕ) (ds : List ℕ)
    → all is_delay ds ≡ true
    → n < length ds
    → (d : ℕ) × ((delay_at n ds ≡ some d) × (is_delay d ≡ true))
delay_at-bounds n [] e l = absurd (omega (arith, l))
delay_at-bounds zero (d ∷ ds) e l = (d, (refl, ground arith))
delay_at-bounds (suc n) (d ∷ ds) e l = delay_at-bounds n ds (ground arith) (omega (arith, l))

next_delay-bounds : (n : ℕ) → n < 11 → (d : ℕ) × ((next_delay n ≡ some d) × (is_delay d ≡ true))
unfolding next_delay
next_delay-bounds n l =
    let more : leb 12 (suc n) ≡ false = ground (arith, l) in
    let one : suc n - 1 ≡ n = omega arith in
    rw (next_delay, more, one) (delay_at-bounds n backoff_seconds refl l)

next_delay-last : (n : ℕ) → 11 ≤ n → next_delay n ≡ none
unfolding next_delay
next_delay-last n l = ground (arith, l)

settle-in_plan :
    (consumers : List Consumer) (a : Outcome) (x : Delivery)
    → is_pending x.status ≡ true
    → in_plan x ≡ true
    → in_plan (settle consumers a x) ≡ true
settle-in_plan consumers a x p e = elim (Bool-cases (has_webhook consumers x.consumer_id)) [
  | inr n ↦ rw n e
  | inl n ↦ elim (Bool-cases (is_accepted a.status)) [
    | inl q ↦ rw (n, q) ground (arith, p, e)
    | inr q ↦ elim (Bool-cases (ltb x.attempts 11)) [
      | inl m ↦
          let (d, (f, g)) = next_delay-bounds x.attempts (ground (arith, m)) in
          rw (n, q, f) ground (arith, p, e, g, m)
      | inr m ↦ rw (n, q, next_delay-last x.attempts (ground (arith, m))) ground (arith, p, e, m)
    ]
  ]
]

-- What happens: events are written and asked for again, dispatchers make rounds and stop. A round is
-- one step, with nothing in between.
pub data Step : Type 0 where
  enqueues : ℕ → ℕ → String → String → Option String → Step
  redelivers : ℕ → ℕ → String → Step
  ticks : ℕ → String → List Consumer → (ℕ → Outcome) → Step
  stops : ℕ → String → Step

unfoldable pub take_step : Step → World → World
take_step (enqueues now c event_id event_type key) w = record w {
  outbox = (enqueue now c event_id event_type key w.outbox).0;
}
take_step (redelivers now c event_id) w = record w {
  outbox = (redeliver now c event_id w.outbox).0;
}
take_step (ticks now worker consumers outcome) w = tick now worker consumers outcome w
take_step (stops now worker) w = record w { lease = release_lease now worker w.lease }

unfoldable pub take_steps : List Step → World → World
take_steps [] w = w
take_steps (s ∷ ss) w = take_steps ss (take_step s w)

-- The invariant: ids from the counter, and each delivery in its plan.
pub record Planned (w : World) : Type 0 where
  pub numbered : are_numbered w.outbox.next_id (ids w.outbox.rows) ≡ true
  pub planned : (j : ℕ) (x : Delivery) → find_delivery j w.outbox.rows ≡ some x → in_plan x ≡ true

found_same : (x y : Delivery) → some x ≡ some y → x ≡ y
found_same x y e = cc

enqueue-Planned :
    (now c : ℕ) (event_id event_type : String) (key : Option String) (w : World)
    → Planned w
    → Planned (take_step (enqueues now c event_id event_type key) w)
unfolding take_step enqueue find_delivery
enqueue-Planned now c event_id event_type key w h =
    elim (Bool-cases (exists_by_dedupe_key key w.outbox)) [
      | inl e ↦ rw (take_step, enqueue, e) h
      | inr e ↦
          rw (take_step, enqueue, e)
            (record {
              numbered = ground (arith, h.numbered);
              planned = λ j x f. ground (arith, f, h.planned j x);
            })
    ]

redeliver-Planned :
    (now c : ℕ) (event_id : String) (w : World)
    → Planned w
    → Planned (take_step (redelivers now c event_id) w)
unfolding take_step redeliver
redeliver-Planned now c event_id w h =
    let is_named : Delivery → Bool = λ r. r.consumer_id == c && r.event_id === event_id in
    let kept = ids-update_where is_named (queued_again now) w.outbox.rows (λ x. refl) in
    record {
      numbered = rw kept h.numbered;
      planned = λ j x f.
          let (y, g) =
            find-before j (update_where is_named (queued_again now) w.outbox.rows) w.outbox.rows x
              kept f in
          let found =
            find-update_where j is_named (queued_again now) w.outbox.rows y (λ r. refl) g in
          ground (arith, f, found, h.planned j y g);
    }

tick-Planned :
    (now : ℕ) (worker : String) (consumers : List Consumer) (outcome : ℕ → Outcome) (w : World)
    → Planned w
    → Planned (take_step (ticks now worker consumers outcome) w)
unfolding take_step
tick-Planned now worker consumers outcome w h =
    let kept = tick-ids now worker consumers outcome w in
    let u = numbered-distinct w.outbox.next_id w.outbox.rows h.numbered in
    let due = find_due now consumers batch_size w.outbox in
    record {
      numbered = rw (kept, tick-next_id now worker consumers outcome w) h.numbered;
      planned = λ j x f.
          let (y, g) =
            find-before j (tick now worker consumers outcome w).outbox.rows w.outbox.rows x kept
              f in
          let found = tick_settles_once now worker consumers outcome w j y u g in
          elim (Bool-cases ((hold_lease now worker w.lease).1 && is_reached j outcome due)) [
            | inl r ↦
                let waits =
                  tick-pending now consumers outcome w.outbox j y u g (ground (arith, r)) in
                let settled = settle-in_plan consumers (outcome j) y waits (h.planned j y g) in
                let same : x ≡ settle consumers (outcome j) y =
                  found_same x (settle consumers (outcome j) y) (sym f ∙ (found ∙ rw r refl)) in
                rw same settled
            | inr r ↦
                let same : x ≡ y = found_same x y (sym f ∙ (found ∙ rw r refl)) in
                rw same (h.planned j y g)
          ];
    }

step-Planned : (s : Step) (w : World) → Planned w → Planned (take_step s w)
unfolding take_step
step-Planned (enqueues now c event_id event_type key) w h =
    enqueue-Planned now c event_id event_type key w h
step-Planned (redelivers now c event_id) w h = redeliver-Planned now c event_id w h
step-Planned (ticks now worker consumers outcome) w h =
    tick-Planned now worker consumers outcome w h
step-Planned (stops now worker) w h = record { numbered = h.numbered; planned = h.planned }

steps-Planned : (ss : List Step) (w : World) → Planned w → Planned (take_steps ss w)
unfolding take_steps
steps-Planned [] w h = h
steps-Planned (s ∷ ss) w h = steps-Planned ss (take_step s w) (step-Planned s w h)

abbrev pub empty_world : World
empty_world = record { lease = none; outbox = record { rows = []; next_id = 1 } }

-- Let events be written to an empty outbox and asked for again, and let dispatchers make their rounds, in any
-- order but one after the other: no two rounds overlap, and nothing is asked for again while a round runs. Then,
-- whatever the consumers answered, a pending delivery has failed fewer than 12 times since it
-- was last queued, and its next attempt is at most an hour, and after a failure at least 5 seconds, after its
-- last change. One that was delivered took at most 12 attempts, and one that was given up had exactly 12.
pub retries_keep_the_plan :
    (ss : List Step) (j : ℕ) (x : Delivery)
    → find_delivery j (take_steps ss empty_world).outbox.rows ≡ some x
    → in_plan x ≡ true
unfolding find_delivery
retries_keep_the_plan ss j x e =
    (steps-Planned ss empty_world
        (record { numbered = refl; planned = λ i y f. absurd (cc) })).planned
      j x e
