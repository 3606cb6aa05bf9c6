-- ===== src/Http/Idempotency.antt =====
-- http/v1/idempotency.js with persistence/IdempotencyKeyRepository.js: a POST that is repeated under the
-- same Idempotency-Key gets the first response. A request is its consumer, key and fingerprint, which is
-- a SHA-256 sum. Times are seconds. Failures of the database are left out, and so are the headers.
pub mod Once
pub mod Statements
pub mod Replay
use callio.Prelude.{
  ℕ, suc, ◌+◌, ◌-◌, String, Bool, true, false, not, ◌&&◌, Option, none, some, List, [], ◌∷◌, ◌==◌,
  ◌===◌, leb, find, filter, if◌then◌else◌,
}

pub record Response : Type 0 where
  pub status : ℕ
  pub body : Option String

-- A row of `api_idempotency_keys`. The status is COMPLETED where there is a response.
pub record Row : Type 0 where
  pub id : ℕ
  pub consumer_id : ℕ
  pub key : String
  pub request_hash : String
  pub response : Option Response
  pub expires_at : ℕ
  pub updated_at : ℕ

pub record Table : Type 0 where
  pub rows : List Row
  pub next_id : ℕ

abbrev pub ttl_seconds : ℕ
ttl_seconds = 86400

abbrev pub abandoned_after_seconds : ℕ
abandoned_after_seconds = 120

abbrev pub is_for : ℕ → String → Row → Bool
is_for consumer_id key r = r.consumer_id == consumer_id && r.key === key

abbrev pub is_completed : Row → Bool
is_completed r = elim r.response [ none ↦ false | some _ ↦ true ]

-- `find`
unfoldable pub find_key : ℕ → String → Table → Option Row
find_key consumer_id key t = find (is_for consumer_id key) t.rows

-- `claim`: the insertion, refused by the unique key where the consumer has a row for the key.
unfoldable pub claim : ℕ → ℕ → String → String → Table → Table × Option ℕ
unfolding find_key
claim now consumer_id key hash t = elim (find_key consumer_id key t) [
  | some _ ↦ (t, none)
  | none ↦
      let row : Row = record {
        id = t.next_id;
        consumer_id = consumer_id;
        key = key;
        request_hash = hash;
        response = none;
        expires_at = now + ttl_seconds;
        updated_at = now;
      } in
      (record { rows = row ∷ t.rows; next_id = suc t.next_id }, some t.next_id)
]

-- An UPDATE of the row with an id, where a guard holds.
unfoldable pub update_rows : ℕ → (Row → Bool) → (Row → Row) → List Row → List Row
update_rows id guard assign [] = []
update_rows id guard assign (r ∷ rs) =
    (if r.id == id && guard r then assign r else r) ∷ update_rows id guard assign rs

unfoldable pub is_hit : ℕ → (Row → Bool) → List Row → Bool
is_hit id guard [] = false
is_hit id guard (r ∷ rs) = if r.id == id && guard r then true else is_hit id guard rs

-- The guard of `takeOver`: still in progress, and idle for so long.
abbrev pub is_abandoned : ℕ → Row → Bool
is_abandoned now r = not (is_completed r) && leb (r.updated_at + abandoned_after_seconds) now

unfoldable pub take_over : ℕ → ℕ → Table → Table × Bool
take_over now id t = (
  record t { rows = update_rows id (is_abandoned now) (λ r. record r { updated_at = now }) t.rows },
  is_hit id (is_abandoned now) t.rows,
)

unfoldable pub complete : ℕ → ℕ → Response → Table → Table
complete now id response t = record t {
  rows =
      update_rows id (λ r. true) (λ r. record r { response = some response; updated_at = now })
        t.rows;
}

unfoldable pub remove : ℕ → Table → Table
remove id t = record t { rows = filter (λ r. not (r.id == id)) t.rows }

-- `purgeExpired`, as far as its limit goes.
unfoldable pub purge : ℕ → ℕ → List Row → List Row
purge now limit [] = []
purge now limit (r ∷ rs) =
    let drop' = leb r.expires_at now && not (limit == 0) in
    let rest = purge now (if drop' then limit - 1 else limit) rs in if drop' then rest else r ∷ rest

unfoldable pub purge_expired : ℕ → ℕ → Table → Table
purge_expired now limit t = record t { rows = purge now limit t.rows }

-- What the handler answers. With `proceed` the request runs, for the row with this id.
pub data Answer : Type 0 where
  proceed : ℕ → Answer
  replayed : Response → Answer
  key_reused : Answer
  key_in_use : Answer

-- What it makes of a row that is there: none if the key is to be claimed again.
unfoldable pub answer_row : ℕ → String → Row → Table → Table × Option Answer
answer_row now hash r t =
    let (taken, won) = take_over now r.id t in
    if leb r.expires_at now
    then (remove r.id t, none)
    else if not (r.request_hash === hash)
    then (t, some key_reused)
    else elim r.response [
      | some response ↦ (t, some (replayed response))
      | none ↦
          if leb (r.updated_at + abandoned_after_seconds) now && won
          then (taken, some (proceed r.id))
          else (t, some key_in_use)
    ]

-- One round of the loop of `idempotencyPreHandler`.
unfoldable pub attempt : ℕ → ℕ → String → String → Table → Table × Option Answer
attempt now consumer_id key hash t =
    let (claimed, id) = claim now consumer_id key hash t in
    elim id [
      | some i ↦ (claimed, some (proceed i))
      | none ↦ elim (find_key consumer_id key t) [
        | none ↦ (t, none)
        | some r ↦ answer_row now hash r t
      ]
    ]

-- `idempotencyPreHandler`, undisturbed by other workers, for a POST with a key.
unfoldable pub pre_handler : ℕ → ℕ → String → String → Table → Table × Answer
pre_handler now consumer_id key hash t =
    let (t1, first) = attempt now consumer_id key hash t in
    let (t2, second) = attempt now consumer_id key hash t1 in
    elim first [
      | some a ↦ (t1, a)
      | none ↦ elim second [ some a ↦ (t2, a) | none ↦ (t2, key_in_use) ]
    ]

-- `idempotencyOnSend` for a request that proceeded: a 5xx frees the key.
unfoldable pub on_send : ℕ → ℕ → Response → Table → Table
on_send now id response t =
    if leb 500 response.status then remove id t else complete now id response t
