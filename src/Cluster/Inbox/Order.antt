-- ===== src/Cluster/Inbox/Order.antt =====
-- What the workers do with the inbox of a call, in any order: infra/cluster/CallInbox.js.
use callio.Prelude.{ℕ, ◌≤◌, ◌≡◌, String, Bool, true, false, none, some, List, [], ◌∷◌, find, arith}
use callio.Cluster.Inbox.{
  Inbox, Reader, claim_lease, forget, is_of, lapse, own, poll, post, release_lease, renew,
  start_reading,
}
use callio.Cluster.Inbox.Delivery.{Sound, is_posted, was_delivered, find-AllFit}
use callio.Cluster.Inbox.Keeping.{
  post-Sound, claim_lease-Sound, with_readers, start_reading-Sound, own-Sound, renew-Sound,
  purged-Sound, release_lease-Sound,
}
use callio.Cluster.Inbox.Reading.{poll-Sound, read_entries-all}

pub data Step : Type 0 where
  posts : String → Step
  claims reads owns_call renews : ℕ → Step
  polls releases : ℕ → Bool → Step
  lapses forgets : Step

unfoldable pub take_step : Step → Inbox → Inbox
take_step (posts input) s = (post input s).0
take_step (claims w) s = (claim_lease w s).0
take_step (reads w) s = (start_reading w s).0
take_step (owns_call w) s = (own w s).0
take_step (renews w) s = renew w s
take_step (polls w saved) s = poll w saved s
take_step (releases w purge) s = release_lease w purge s
take_step lapses s = lapse s
take_step forgets s = forget s

unfoldable pub take_steps : List Step → Inbox → Inbox
take_steps [] s = s
take_steps (x ∷ xs) s = take_steps xs (take_step x s)

step-Sound : (x : Step) (s : Inbox) → Sound s → Sound (take_step x s)
unfolding take_step lapse forget
step-Sound (posts input) s h = post-Sound input s h
step-Sound (claims w) s h = claim_lease-Sound w s h
step-Sound (reads w) s h = start_reading-Sound w s h
step-Sound (owns_call w) s h = own-Sound w s h
step-Sound (renews w) s h = renew-Sound w s h
step-Sound (polls w saved) s h = poll-Sound w saved s h
step-Sound (releases w purge) s h = release_lease-Sound w purge s h
step-Sound lapses s h = with_readers s.readers s none h.readers_fit h
step-Sound forgets s h = purged-Sound s h

steps-Sound : (xs : List Step) (s : Inbox) → Sound s → Sound (take_steps xs s)
unfolding take_steps
steps-Sound [] s h = h
steps-Sound (x ∷ xs) s h = steps-Sound xs (take_step x s) (step-Sound x s h)

abbrev pub new_inbox : Inbox
new_inbox = record {
  lease = none;
  entries = [];
  next_id = 1;
  cursor = 0;
  is_listed = false;
  readers = [];
  delivered = [];
}

new-Sound : Sound new_inbox
new-Sound = record {
  cursor_fits = (omega arith, λ j p l. absurd (ground (arith, p)));
  readers_fit = tt;
  delivered_known = λ i d. absurd (ground (arith, d));
  posted_known = λ j p. absurd (ground (arith, p));
  in_order = λ i j d p l. absurd (ground (arith, p));
}

-- Whatever the workers do with the inbox of a call, in any order, also while the lease lapses or changes hands
-- and whether or not a cursor is written: an entry that is in the inbox was delivered if a later one was.
pub none_passed_over :
    (xs : List Step) (i j : ℕ)
    → was_delivered i (take_steps xs new_inbox).delivered ≡ true
    → is_posted j (take_steps xs new_inbox).entries ≡ true
    → j ≤ i
    → was_delivered j (take_steps xs new_inbox).delivered ≡ true
none_passed_over xs = (steps-Sound xs new_inbox new-Sound).in_order

-- After any steps of the workers, once one of them that owns the call and has a handler reads the inbox, every
-- entry in it has been delivered to some worker, whether or not the cursor is written.
pub poll_delivers_all :
    (xs : List Step) (w : ℕ) (r : Reader) (saved : Bool) (j : ℕ)
    → find (is_of w) (take_steps xs new_inbox).readers ≡ some r
    → r.has_handler ≡ true
    → is_posted j (take_steps xs new_inbox).entries ≡ true
    → was_delivered j (poll w saved (take_steps xs new_inbox)).delivered ≡ true
unfolding poll
poll_delivers_all xs w r saved j e q p =
    let s = take_steps xs new_inbox in
    let h = steps-Sound xs new_inbox new-Sound in
    let f = find-AllFit s.next_id s.entries s.delivered (is_of w) s.readers r h.readers_fit e in
    rw (poll, e, q) (read_entries-all r s h f saved j p)
