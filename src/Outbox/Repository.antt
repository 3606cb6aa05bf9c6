-- ===== src/Outbox/Repository.antt =====
-- The rows of `webhook_deliveries`: persistence/OutboxRepository.js. Times are seconds. An event's id, which
-- the code draws at random, is an argument. The payload and the last response are left out.
pub mod Laws
use callio.Prelude.{
  ℕ, zero, suc, ◌+◌, String, Bool, true, false, ◌&&◌, ◌||◌, Option, none, some, List, [], ◌∷◌, ◌==◌,
  ◌===◌, ltb, leb, find, filter, any, if◌then◌else◌,
}

pub data Status : Type 0 where
  pending delivered failed : Status

pub record Delivery : Type 0 where
  pub id : ℕ
  pub consumer_id : ℕ
  pub event_id : String
  pub event_type : String
  pub dedupe_key : Option String
  pub status : Status
  pub attempts : ℕ
  pub next_attempt_at : ℕ
  pub delivered_at : Option ℕ
  pub updated_at : ℕ

pub record Outbox : Type 0 where
  pub rows : List Delivery
  pub next_id : ℕ

-- What the dispatcher reads of a consumer.
pub record Consumer : Type 0 where
  pub id : ℕ
  pub event_webhook_url : Option String
  pub is_active : Bool

abbrev pub is_pending : Status → Bool
is_pending pending = true
is_pending _ = false

abbrev pub is_key : Option String → Option String → Bool
is_key (some s) (some t) = s === t
is_key _ _ = false

unfoldable pub find_delivery : ℕ → List Delivery → Option Delivery
find_delivery id rows = find (λ r. r.id == id) rows

unfoldable pub exists_by_dedupe_key : Option String → Outbox → Bool
exists_by_dedupe_key key o = any (λ r. is_key r.dedupe_key key) o.rows

-- `enqueue`: the new event's id, none where the key is taken.
unfoldable pub enqueue : ℕ → ℕ → String → String → Option String → Outbox → Outbox × Option String
unfolding exists_by_dedupe_key
enqueue now consumer_id event_id event_type dedupe_key o =
    let row : Delivery = record {
      id = o.next_id;
      consumer_id = consumer_id;
      event_id = event_id;
      event_type = event_type;
      dedupe_key = dedupe_key;
      status = pending;
      attempts = 0;
      next_attempt_at = now;
      delivered_at = none;
      updated_at = now;
    } in
    if exists_by_dedupe_key dedupe_key o
    then (o, none)
    else (record { rows = row ∷ o.rows; next_id = suc o.next_id }, some event_id)

-- An UPDATE of the rows that match.
unfoldable pub update_where :
    (Delivery → Bool) → (Delivery → Delivery) → List Delivery → List Delivery
update_where guard assign [] = []
update_where guard assign (r ∷ rs) =
    (if guard r then assign r else r) ∷ update_where guard assign rs

unfoldable pub find_for_consumer : ℕ → String → Outbox → Option Delivery
find_for_consumer consumer_id event_id o =
    find (λ r. r.consumer_id == consumer_id && r.event_id === event_id) o.rows

abbrev pub queued_again : ℕ → Delivery → Delivery
queued_again now r = record r {
  status = pending;
  attempts = 0;
  next_attempt_at = now;
  updated_at = now;
}

unfoldable pub redeliver : ℕ → ℕ → String → Outbox → Outbox × Bool
redeliver now consumer_id event_id o =
    let is_named : Delivery → Bool = λ r. r.consumer_id == consumer_id && r.event_id === event_id in
    (record o { rows = update_where is_named (queued_again now) o.rows }, any is_named o.rows)

abbrev pub has_url : Option String → Bool
has_url none = false
has_url (some _) = true

-- The join of `findDue`: an active consumer with a webhook URL.
unfoldable pub is_served : List Consumer → ℕ → Bool
is_served consumers id =
    any (λ c. c.id == id && (has_url c.event_webhook_url && c.is_active)) consumers

unfoldable pub is_due : ℕ → List Consumer → Delivery → Bool
unfolding is_served
is_due now consumers r =
    is_pending r.status && (leb r.next_attempt_at now && is_served consumers r.consumer_id)

-- `ORDER BY d.next_attempt_at ASC, d.id ASC`
abbrev pub goes_first : Delivery → Delivery → Bool
goes_first a b =
    ltb a.next_attempt_at b.next_attempt_at
    || (a.next_attempt_at == b.next_attempt_at && leb a.id b.id)

unfoldable pub insert_due : Delivery → List Delivery → List Delivery
insert_due r [] = r ∷ []
insert_due r (x ∷ xs) = if goes_first r x then r ∷ x ∷ xs else x ∷ insert_due r xs

unfoldable pub sort_due : List Delivery → List Delivery
sort_due [] = []
sort_due (r ∷ rs) = insert_due r (sort_due rs)

unfoldable pub first_of : ℕ → List Delivery → List Delivery
first_of zero rs = []
first_of (suc n) [] = []
first_of (suc n) (r ∷ rs) = r ∷ first_of n rs

-- `Math.max(1, Math.min(Number(limit) || 50, 500))`
abbrev pub safe_limit : ℕ → ℕ
safe_limit limit = if limit == 0 then 50 else if leb limit 500 then limit else 500

unfoldable pub find_due : ℕ → List Consumer → ℕ → Outbox → List Delivery
unfolding is_due
find_due now consumers limit o =
    first_of (safe_limit limit) (sort_due (filter (is_due now consumers) o.rows))

abbrev pub as_delivered : ℕ → Delivery → Delivery
as_delivered now r = record r {
  status = delivered;
  attempts = suc r.attempts;
  delivered_at = some now;
  updated_at = now;
}

unfoldable pub mark_delivered : ℕ → ℕ → Outbox → Outbox
mark_delivered now id o = record o {
  rows = update_where (λ r. r.id == id) (as_delivered now) o.rows;
}

-- The failed attempt: given up where there is no delay.
abbrev pub as_failed : ℕ → Option ℕ → Delivery → Delivery
as_failed now none r = record r { status = failed; attempts = suc r.attempts; updated_at = now }
as_failed now (some delay) r = record r {
  attempts = suc r.attempts;
  next_attempt_at = now + delay;
  updated_at = now;
}

unfoldable pub mark_attempt_failed : ℕ → ℕ → Option ℕ → Outbox → Outbox
mark_attempt_failed now id delay o = record o {
  rows = update_where (λ r. r.id == id) (as_failed now delay) o.rows;
}
