-- ===== src/Lifecycle/NetworkLoss/Grace.antt =====
-- When the end of a call whose customer is silent is posted.
use callio.Prelude.{ℕ, ◌≤◌, Bool, false, Option, List, ◌==◌, any}
use callio.Cluster.Deadlines.{Entry}
use callio.Lifecycle.NetworkLoss.{Act, warned, ended, handle_run, handle_run}
use callio.Lifecycle.NetworkLoss.Pending.{IsDue}

is_ended : ℕ → Act → Bool
is_ended id (ended j) = j == id
is_ended id (warned j) = false

-- Whether the policy posts the end of a call.
unfoldable pub ends : ℕ → List Act → Bool
unfolding is_ended
ends id acts = any (is_ended id) acts

abbrev IsClaimed : ℕ → ℕ → Option ℕ → Entry → Type 0
IsClaimed id now since e = IsDue id since e × (e.due ≤ now)
