-- ===== src/Lifecycle/NetworkLoss.antt =====
-- core/calls/CustomerNetworkLossPolicy.js: a call whose customer has gone silent is warned of and ended after
-- a grace period, by deadlines of infra/cluster/Deadlines.js. Times are milliseconds. The timeline's records
-- are left out, and so are failures. A report of the watchdog is handled in two steps, since others run while it
-- waits: it reads the call, and later sets or clears both deadlines.
pub mod Pending
pub mod Grace
use callio.Prelude.{
  ℕ, zero, suc, String, Bool, true, false, not, ◌&&◌, Option, none, some, List, [], ◌∷◌, ◌++◌,
  ◌===◌, ◌||◌, if◌then◌else◌,
}
use callio.Store.Rows.{Call, Db, is_in_progress, is_terminated, is_failed, find_call}
use callio.Cluster.Deadlines.{Entry, Run, set, clear, tick}

abbrev pub warn_after_ms : ℕ
warn_after_ms = 15000

abbrev pub end_after_ms : ℕ
end_after_ms = 20000

abbrev pub warn_kind : String
warn_kind = "network-warn"

abbrev pub end_kind : String
end_kind = "network-end"

pub data MediaState : Type 0 where
  drop active : MediaState

-- What the policy does for others: the warning to the call's room, and the end posted to its inbox.
pub data Act : Type 0 where
  warned ended : ℕ → Act

unfoldable pub cancel : ℕ → List Entry → List Entry
cancel call_id es = clear end_kind call_id (clear warn_kind call_id es)

unfoldable pub warn : ℕ → Db → List Act
warn call_id db = elim (find_call call_id db.calls) [
  | none ↦ []
  | some c ↦ if is_in_progress c.status then warned call_id ∷ [] else []
]

unfoldable pub end_lost : ℕ → Db → List Act
end_lost call_id db = elim (find_call call_id db.calls) [
  | none ↦ []
  | some c ↦ if is_terminated c.status || is_failed c.status then [] else ended call_id ∷ []
]

-- `_onMediaState` up to its await: a call without a row is cleaned up already.
unfoldable pub hear_media_state :
    ℕ → MediaState → Db → List (ℕ × MediaState) → List (ℕ × MediaState)
hear_media_state call_id state db waiting = elim (find_call call_id db.calls) [
  | none ↦ waiting
  | some c ↦ (call_id, state) ∷ waiting
]

-- The rest: after a drop, and once the timeline has it, the deadlines are set.
unfoldable pub on_media_state :
    (Entry → Entry → Bool) → ℕ → ℕ → MediaState → List Entry → List Entry
on_media_state before now call_id drop es =
    set before now end_kind call_id end_after_ms (set before now warn_kind call_id warn_after_ms es)
on_media_state before now call_id active es = cancel call_id es

-- The handlers that `register` gives to the deadlines, on what a tick starts.
unfoldable pub handle_run : Run → Db → List Act
handle_run r db =
    if r.kind === warn_kind
    then warn r.call_id db
    else if r.kind === end_kind
    then end_lost r.call_id db
    else []

unfoldable pub handle_runs : List Run → Db → List Act
handle_runs [] db = []
handle_runs (r ∷ rs) db = handle_run r db ++ handle_runs rs db

-- What happens: a watchdog's report, a report that goes on, the end of a call, a tick of a worker, and the
-- other statements on the rows, whatever they are.
pub data Event : Type 0 where
  heard : ℕ → MediaState → Event
  goes_on : ℕ → Event
  call_over : ℕ → Event
  ticked : Event
  rows_changed : Db → Event

pub record Loss : Type 0 where
  pub db : Db
  pub deadlines : List Entry
  pub waiting : List (ℕ × MediaState)

abbrev pub nth {ℓ} : {A : Type ℓ} → ℕ → List A → Option A
nth n [] = none
nth zero (x ∷ xs) = some x
nth (suc n) (x ∷ xs) = nth n xs

abbrev pub without {ℓ} : {A : Type ℓ} → ℕ → List A → List A
without n [] = []
without zero (x ∷ xs) = xs
without (suc n) (x ∷ xs) = x ∷ without n xs

unfoldable pub handle : (Entry → Entry → Bool) → ℕ → Event → Loss → Loss × List Act
handle before now (heard id state) s =
    (record s { waiting = hear_media_state id state s.db s.waiting }, [])
handle before now (goes_on n) s = elim (nth n s.waiting) [
  | none ↦ (s, [])
  | some (id, state) ↦ (
    record s {
      deadlines = on_media_state before now id state s.deadlines;
      waiting = without n s.waiting;
    },
    [],
  )
]
handle before now (call_over id) s = (record s { deadlines = cancel id s.deadlines }, [])
handle before now ticked s =
    let (rest, runs) = tick (warn_kind ∷ end_kind ∷ []) now s.deadlines in
    (record s { deadlines = rest }, handle_runs runs s.db)
handle before now (rows_changed db) s = (record s { db = db }, [])
