-- ===== src/Outbox/Dispatcher.antt =====
-- outbox/OutboxDispatcher.js: the dispatcher's round. What the consumer's server answers is an argument, a
-- status or none for an error; so is the time at which a delivery's answer comes, and whether the dispatcher
-- was stopped before it. The lease in Redis is its owner and its expiry. A round is one step: no statement of
-- another worker comes between its own.
pub mod Laws
pub mod Plan
use callio.Prelude.{
  ℕ, zero, suc, ◌+◌, ◌-◌, String, Bool, true, false, not, ◌&&◌, length, ◌===◌, ◌||◌, Option, none,
  some, List, [], ◌∷◌, ◌==◌, ltb, leb, find, if◌then◌else◌,
}
use callio.Outbox.Repository.{
  Consumer, Delivery, Outbox, find_due, has_url, mark_attempt_failed, mark_delivered,
}

abbrev pub lease_ttl_seconds : ℕ
lease_ttl_seconds = 15

abbrev pub batch_size : ℕ
batch_size = 50

-- Seconds until the next attempt, by the attempts made so far.
abbrev pub backoff_seconds : List ℕ
backoff_seconds = 5 ∷ 15 ∷ 60 ∷ 300 ∷ 900 ∷ 1800 ∷ 3600 ∷ 3600 ∷ 3600 ∷ 3600 ∷ 3600 ∷ []

abbrev pub max_attempts : ℕ
max_attempts = suc (length backoff_seconds)

-- An index into the delays, none past the end.
abbrev pub delay_at : ℕ → List ℕ → Option ℕ
delay_at n [] = none
delay_at zero (d ∷ ds) = some d
delay_at (suc n) (d ∷ ds) = delay_at n ds

pub record Lease : Type 0 where
  pub owner : String
  pub expires_at : ℕ

pub record World : Type 0 where
  pub lease : Option Lease
  pub outbox : Outbox

abbrev pub is_owner : String → Lease → Bool
is_owner worker l = l.owner === worker

-- The key in Redis, once its time is over, is no longer there.
unfoldable pub live_lease : ℕ → Option Lease → Option Lease
live_lease now none = none
live_lease now (some l) = if ltb now l.expires_at then some l else none

-- `#holdLease`: renewed where it is this worker's, else taken if nobody has it.
unfoldable pub hold_lease : ℕ → String → Option Lease → Option Lease × Bool
unfolding live_lease
hold_lease now worker lease =
    let mine : Lease = record { owner = worker; expires_at = now + lease_ttl_seconds } in
    elim (live_lease now lease) [
      | none ↦ (some mine, true)
      | some l ↦ if is_owner worker l then (some mine, true) else (some l, false)
    ]

-- The release in `stop`.
unfoldable pub release_lease : ℕ → String → Option Lease → Option Lease
unfolding live_lease
release_lease now worker lease = elim (live_lease now lease) [
  | none ↦ none
  | some l ↦ if is_owner worker l then none else some l
]

-- What comes of a delivery.
pub record Outcome : Type 0 where
  pub at : ℕ
  pub status : Option ℕ
  pub was_stopped : Bool

abbrev pub is_accepted : Option ℕ → Bool
is_accepted none = false
is_accepted (some s) = leb 200 s && ltb s 300

-- `getWebhookConfig`, as far as whether there is one.
unfoldable pub has_webhook : List Consumer → ℕ → Bool
has_webhook consumers id = elim (find (λ c. c.id == id) consumers) [
  | none ↦ false
  | some c ↦ has_url c.event_webhook_url
]

-- The delay in `#failed`: none to give up.
unfoldable pub next_delay : ℕ → Option ℕ
next_delay attempts =
    let attempts_made = suc attempts in
    if leb max_attempts attempts_made then none else delay_at (attempts_made - 1) backoff_seconds

-- `#failed`
unfoldable pub fail_attempt : ℕ → Delivery → Outbox → Outbox
unfolding next_delay
fail_attempt now d o = mark_attempt_failed now d.id (next_delay d.attempts) o

-- `#deliver`
unfoldable pub deliver : List Consumer → Outcome → Delivery → Outbox → Outbox
unfolding has_webhook fail_attempt
deliver consumers a d o =
    if not (has_webhook consumers d.consumer_id)
    then o
    else if is_accepted a.status
    then mark_delivered a.at d.id o
    else fail_attempt a.at d o

-- The loop of `#tick`.
unfoldable pub deliver_all : List Consumer → (ℕ → Outcome) → List Delivery → Outbox → Outbox
unfolding deliver
deliver_all consumers outcome [] o = o
deliver_all consumers outcome (d ∷ ds) o =
    let rest = deliver_all consumers outcome ds (deliver consumers (outcome d.id) d o) in
    if (outcome d.id).was_stopped then o else rest

-- `#tick` of a dispatcher that runs and is not in a round.
unfoldable pub tick : ℕ → String → List Consumer → (ℕ → Outcome) → World → World
unfolding hold_lease deliver_all
tick now worker consumers outcome w =
    let (lease, held) = hold_lease now worker w.lease in
    let due = find_due now consumers batch_size w.outbox in
    if held
    then record { lease = lease; outbox = deliver_all consumers outcome due w.outbox }
    else record { lease = lease; outbox = w.outbox }
