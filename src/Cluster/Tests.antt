-- ===== src/Cluster/Tests.antt =====
-- Two workers and one call, with the theorems there.
use callio.Cluster.Deadlines.{
  Entry, place, zrem, set, clear, due_entries, remove_all, claim, runs_of, tick,
}
use callio.Cluster.Deadlines.Once.{
  Step, sets, ticks, step, steps, runs, pending, times_set, runs_once_per_set,
}
use callio.Prelude.{
  Bool, List, [], ◌∷◌, ◌+◌, ◌≤◌, ◌≡◌, refl, true, false, none, some, ◌==◌, if◌then◌else◌, ℕ,
}
use callio.Cluster.Ownership.{
  Owners, claim_call, owns_call, release_read, another, set_call_ownership_permanent,
}
use callio.Cluster.Ownership.Exclusive.{
  Op, Keys, acts, claims, expires, owner_kept, reads_owner, run,
}

-- Worker A owns call 7.
abbrev owned : Bool → Owners
owned p id = if id == 7 then some (record { worker = "A"; permanent = p }) else none

abbrev ops : List Op
ops = claims "B" 7 ∷ expires 7 ∷ reads_owner "B" 7 ∷ acts 0 ∷ []

abbrev keys : Keys
keys = record { owners = owned true; releasing = [] }

owner_kept_example :
    (owns_call "A" 7 (run ops keys).owners ≡ true)
    × (owns_call "B" 7 (run ops keys).owners ≡ false)
    × (claim_call "B" 7 (run ops keys).owners ≡ ((run ops keys).owners, false))
    × (set_call_ownership_permanent "B" 7 (run ops keys).owners ≡ ((run ops keys).owners, false))
    × (release_read "B" 7 (run ops keys).owners ≡ another)
owner_kept_example = owner_kept "A" "B" 7 ops keys refl tt (refl, (refl, (refl, (refl, tt)))) refl

deadlines : Unit {0}
unfolding place zrem set clear due_entries remove_all claim runs_of tick step steps runs
deadlines = tt

abbrev at_once : Entry → Entry → Bool
at_once e f = true

-- Two workers tick after one deadline was set.
abbrev two_ticks : List (ℕ × Step)
two_ticks =
    (1000, sets "line-ring" 7 30000)
    ∷ (31000, ticks ("line-ring" ∷ []))
    ∷ (31001, ticks ("line-ring" ∷ []))
    ∷ []

one_run : runs "line-ring" 7 (steps at_once two_ticks []).1 ≡ 1
unfolding deadlines
one_run = refl

runs_once_per_set_example :
    runs "line-ring" 7 (steps at_once two_ticks []).1
      + pending "line-ring" 7 (steps at_once two_ticks []).0
    ≤ times_set "line-ring" 7 two_ticks + pending "line-ring" 7 []
runs_once_per_set_example = runs_once_per_set "line-ring" 7 at_once two_ticks []
