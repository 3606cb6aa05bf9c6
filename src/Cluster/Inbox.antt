-- ===== src/Cluster/Inbox.antt =====
-- infra/cluster/CallInbox.js: how the inputs of one call reach the worker that runs it. The lease, the stream,
-- the cursor and the set of leased calls are Redis'; a worker's entry in `owned` is a reader. The id of an
-- entry is its number, from 1, and "0" is 0. The trimming of a stream at 1000 entries and the expiry of its keys
-- are left out, and so are the answers to requests; a lease that lapses is a step of its own.
pub mod Delivery
pub mod Keeping
pub mod Reading
pub mod Order
mod Tests
use callio.Prelude.{
  ℕ, suc, ◌+◌, String, Bool, true, false, not, ◌&&◌, ◌||◌, Option, none, some, List, [], ◌∷◌, ◌++◌,
  ◌==◌, ltb, any, filter, find, is_some, if◌then◌else◌,
}

pub record Reader : Type 0 where
  pub worker : ℕ
  pub last_id : ℕ
  pub has_handler : Bool

pub record Entry : Type 0 where
  pub id : ℕ
  pub input : String

-- What a worker's handler was given.
pub record Delivered : Type 0 where
  pub worker : ℕ
  pub id : ℕ

pub record Inbox : Type 0 where
  pub lease : Option ℕ
  pub entries : List Entry
  pub next_id : ℕ
  pub cursor : ℕ
  pub is_listed : Bool
  pub readers : List Reader
  pub delivered : List Delivered

abbrev pub is_of : ℕ → Reader → Bool
is_of w r = r.worker == w

unfoldable pub owns : ℕ → Inbox → Bool
owns w s = any (is_of w) s.readers

-- `post`: whether a worker holds the lease.
unfoldable pub post : String → Inbox → Inbox × Bool
post input s =
    let e : Entry = record { id = s.next_id; input = input } in
    (record s { entries = s.entries ++ e ∷ []; next_id = suc s.next_id }, is_some s.lease)

abbrev pub is_free_for : ℕ → Option ℕ → Bool
is_free_for w none = true
is_free_for w (some v) = v == w

unfoldable pub claim_lease : ℕ → Inbox → Inbox × Bool
unfolding owns
claim_lease w s =
    let r : Reader = record { worker = w; last_id = s.cursor; has_handler = false } in
    if owns w s
    then (s, true)
    else if is_free_for w s.lease
    then (record s { lease = some w; readers = r ∷ s.readers; is_listed = true }, true)
    else (s, false)

unfoldable pub set_handler : ℕ → List Reader → List Reader
set_handler w [] = []
set_handler w (r ∷ rs) =
    (if is_of w r then record r { has_handler = true } else r) ∷ set_handler w rs

-- `read`
unfoldable pub start_reading : ℕ → Inbox → Inbox × Bool
unfolding owns
start_reading w s =
    if owns w s then (record s { readers = set_handler w s.readers }, true) else (s, false)

-- `own`
unfoldable pub own : ℕ → Inbox → Inbox × Bool
own w s = let (t, claimed) = claim_lease w s in if claimed then start_reading w t else (t, false)

-- The entries after a reader's last one, and the last of them.
unfoldable pub entries_after : ℕ → List Entry → List Entry
entries_after last_id entries = filter (λ e. ltb last_id e.id) entries

unfoldable pub last_of : ℕ → List Entry → ℕ
last_of last_id [] = last_id
last_of last_id (e ∷ es) = last_of e.id es

unfoldable pub deliver_to : ℕ → List Entry → List Delivered
deliver_to w [] = []
deliver_to w (e ∷ es) = record { worker = w; id = e.id } ∷ deliver_to w es

unfoldable pub advance : ℕ → ℕ → List Reader → List Reader
advance w last_id [] = []
advance w last_id (r ∷ rs) =
    (if is_of w r then record r { last_id = last_id } else r) ∷ advance w last_id rs

abbrev pub is_empty : List Entry → Bool
is_empty [] = true
is_empty (_ ∷ _) = false

-- One turn of `_readLoop` for the call, by a worker with a handler; `saved` if the cursor was written.
unfoldable pub read_entries : Bool → Reader → Inbox → Inbox
read_entries saved r s =
    let news = entries_after r.last_id s.entries in
    let last_id = last_of r.last_id news in
    if is_empty news then s else record s {
      delivered = s.delivered ++ deliver_to r.worker news;
      readers = advance r.worker last_id s.readers;
      cursor = if saved then last_id else s.cursor;
    }

unfoldable pub poll : ℕ → Bool → Inbox → Inbox
unfolding read_entries
poll w saved s = elim (find (is_of w) s.readers) [
  | none ↦ s
  | some r ↦ if r.has_handler then read_entries saved r s else s
]

abbrev pub drop_reader : ℕ → List Reader → List Reader
drop_reader w rs = filter (λ r. not (is_of w r)) rs

abbrev drop_lease : ℕ → Option ℕ → Option ℕ
drop_lease w none = none
drop_lease w (some v) = if v == w then none else some v

abbrev pub purged : Inbox → Inbox
purged s = record s { entries = []; cursor = 0; is_listed = false }

-- `release`: the lease goes only where it is still this worker's.
unfoldable pub release_lease : ℕ → Bool → Inbox → Inbox
unfolding owns
release_lease w purge s =
    let t : Inbox = record s {
      readers = drop_reader w s.readers;
      lease = if owns w s then drop_lease w s.lease else s.lease;
    } in
    if purge then purged t else t

-- `forget`
unfoldable pub forget : Inbox → Inbox
forget s = purged s

-- `_renew` for one call: a worker that lost the lease stops reading.
unfoldable pub renew : ℕ → Inbox → Inbox
renew w s = elim s.lease [
  | none ↦ record s { readers = drop_reader w s.readers }
  | some v ↦ if v == w then s else record s { readers = drop_reader w s.readers }
]

-- The lease's time is over.
unfoldable pub lapse : Inbox → Inbox
lapse s = record s { lease = none }
