-- ===== src/Cluster/Deadlines.antt =====
-- infra/cluster/Deadlines.js: timers of calls that outlive the worker that sets them, in a sorted set of
-- Redis. A member is a kind and a call's id. Times are milliseconds. `is_before` is the order that Redis has
-- for members of one score. The timer of a worker's ticks, its flag and failures of Redis are left out.
pub mod Once
use callio.Prelude.{
  ℕ, ◌+◌, String, Bool, true, false, ◌&&◌, ◌||◌, not, List, [], ◌∷◌, ◌++◌, ◌==◌, ◌===◌, ltb, leb,
  filter, take, any, if◌then◌else◌,
}

pub record Entry : Type 0 where
  pub kind : String
  pub call_id : ℕ
  pub due : ℕ

-- `member`
abbrev pub is_member : String → ℕ → Entry → Bool
is_member kind call_id e = e.kind === kind && e.call_id == call_id

module _ (is_before : Entry → Entry → Bool) where
  abbrev sorts_before : Entry → Entry → Bool
  sorts_before e f = ltb e.due f.due || (e.due == f.due && is_before e f)

  unfoldable pub place : Entry → List Entry → List Entry
  place e [] = e ∷ []
  place e (f ∷ fs) = if sorts_before e f then e ∷ f ∷ fs else f ∷ place e fs

unfoldable pub zrem : String → ℕ → List Entry → List Entry
zrem kind call_id es = filter (λ e. not (is_member kind call_id e)) es

-- `set`
unfoldable pub set : (Entry → Entry → Bool) → ℕ → String → ℕ → ℕ → List Entry → List Entry
set is_before now kind call_id in_ms es =
    place is_before (record { kind = kind; call_id = call_id; due = now + in_ms })
      (zrem kind call_id es)

-- `clear`
unfoldable pub clear : String → ℕ → List Entry → List Entry
clear kind call_id es = zrem kind call_id es

-- `clearCall`: the kinds that the worker has handlers for.
unfoldable pub clear_call : List String → ℕ → List Entry → List Entry
clear_call [] call_id es = es
clear_call (kind ∷ kinds) call_id es = clear_call kinds call_id (zrem kind call_id es)

abbrev pub batch : ℕ
batch = 50

-- The script `CLAIM`: the entries that are due, a batch at most, are removed and returned.
unfoldable pub due_entries : ℕ → List Entry → List Entry
due_entries now es = take batch (filter (λ e. leb e.due now) es)

unfoldable pub remove_all : List Entry → List Entry → List Entry
remove_all [] es = es
remove_all (d ∷ ds) es = remove_all ds (zrem d.kind d.call_id es)

unfoldable pub claim : ℕ → List Entry → List Entry × List Entry
claim now es = let due = due_entries now es in (due, remove_all due es)

-- A handler that a tick starts.
pub record Run : Type 0 where
  pub kind : String
  pub call_id : ℕ

abbrev has_handler : List String → Entry → Bool
has_handler kinds e = any (λ k. k === e.kind) kinds

unfoldable pub runs_of : List String → List Entry → List Run
runs_of kinds [] = []
runs_of kinds (e ∷ es) =
    if has_handler kinds e
    then record { kind = e.kind; call_id = e.call_id } ∷ runs_of kinds es
    else runs_of kinds es

-- `_tick` of a worker that has handlers for `kinds`: what is due and has none there is lost.
unfoldable pub tick : List String → ℕ → List Entry → List Entry × List Run
tick kinds now es = let (due, rest) = claim now es in (rest, runs_of kinds due)
