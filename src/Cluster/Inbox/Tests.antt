-- ===== src/Cluster/Inbox/Tests.antt =====
-- A call that changes hands between two workers, and the theorems there.
use callio.Prelude.{◌≡◌, refl, true, false, List, [], ◌∷◌, arith}
use callio.Cluster.Inbox.{
  Reader, claim_lease, deliver_to, entries_after, advance, forget, lapse, last_of, own, owns, poll,
  post, read_entries, release_lease, renew, set_handler, start_reading,
}
use callio.Cluster.Inbox.Delivery.{was_delivered}
use callio.Cluster.Inbox.Order.{
  Step, posts, claims, reads, owns_call, renews, polls, lapses, take_step, take_steps, new_inbox,
  none_passed_over, poll_delivers_all,
}

inputs : Unit {0}
unfolding claim_lease deliver_to entries_after advance forget lapse last_of own owns poll post
    read_entries release_lease renew set_handler start_reading take_step take_steps
inputs = tt

-- Worker 1 dies after a turn whose cursor was not written; worker 2 goes on.
abbrev history : List Step
history =
    owns_call 1
    ∷ posts "CALL_ACCEPTED"
    ∷ polls 1 true
    ∷ posts "DTMF"
    ∷ polls 1 false
    ∷ lapses
    ∷ posts "HANGUP"
    ∷ claims 2
    ∷ reads 2
    ∷ renews 1
    ∷ []

none_passed_over_example : was_delivered 1 (take_steps history new_inbox).delivered ≡ true
unfolding inputs
none_passed_over_example = none_passed_over history 2 1 refl refl (omega arith)

abbrev second : Reader
second = record { worker = 2; last_id = 1; has_handler = true }

poll_delivers_all_example :
    was_delivered 3 (poll 2 true (take_steps history new_inbox)).delivered ≡ true
unfolding inputs
poll_delivers_all_example = poll_delivers_all history 2 second true 3 refl refl refl
