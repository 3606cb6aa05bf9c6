-- ===== src/Http/Tests.antt =====
-- A table of keys with one row of another request, and the theorems there.
use callio.Prelude.{arith, ℕ, ◌≡◌, ◌≢◌, refl, none, some, List, [], ◌∷◌, ◌===◌, if◌then◌else◌}
use callio.Http.Idempotency.{
  Response, Row, Table, find_key, claim, update_rows, is_hit, take_over, complete, remove, purge,
  purge_expired, proceed, replayed, key_reused, key_in_use, answer_row, attempt, pre_handler,
  on_send,
}
use callio.Http.Idempotency.Statements.{
  Stmt, execute, execute_all, claims, takes_over, removes, purges, completes,
}
use callio.Http.Idempotency.Once.{runs_once}
use callio.Http.Idempotency.Replay.{replays_once_answered}

requests : Unit {0}
unfolding find_key claim update_rows is_hit take_over complete remove purge purge_expired answer_row
    attempt pre_handler on_send execute execute_all
requests = tt

abbrev running_row : Row
running_row = record {
  id = 3;
  consumer_id = 1;
  key = "retry-7";
  request_hash = "f00d";
  response = none;
  expires_at = 86500;
  updated_at = 100;
}

abbrev keys : Table
keys = record { rows = running_row ∷ []; next_id = 4 }

abbrev created : Response
created = record { status = 201; body = some "{\"id\":9}" }

-- Another worker takes requests, tries the key and purges; then the request ends.
abbrev traffic : List (ℕ × Stmt)
traffic =
    (1001, claims 1 "retry-8" "beef")
    ∷ (1002, claims 2 "other" "f00d")
    ∷ (1005, takes_over 4)
    ∷ (1006, removes 3)
    ∷ (1007, purges 1000)
    ∷ (1050, completes 4 created)
    ∷ []

runs_once_example :
    (pre_handler 1060 1 "retry-8" "beef"
      (execute_all traffic (claim 1000 1 "retry-8" "beef" keys).0)).1
    ≢ proceed 4
unfolding requests
runs_once_example =
    runs_once 1000 1060 1 "retry-8" "beef" "beef" keys traffic 4 refl refl refl (omega arith)

abbrev later : List (ℕ × Stmt)
later =
    (150, claims 1 "retry-7" "beef")
    ∷ (5000, takes_over 3)
    ∷ (9000, purges 1)
    ∷ (9500, claims 2 "retry-7" "beef")
    ∷ (9600, completes 4 created)
    ∷ []

replays_once_answered_example :
    pre_handler 10000 1 "retry-7" "f00d" (execute_all later (on_send 130 3 created keys)) ≡ (
      execute_all later (on_send 130 3 created keys),
      if running_row.request_hash === "f00d" then replayed created else key_reused,
    )
unfolding requests
replays_once_answered_example =
    replays_once_answered 130 10000 1 "retry-7" "f00d" running_row created keys later refl
      ((λ s. refl), tt) (omega arith) refl refl (omega arith)

abandoned_is_taken_over : (pre_handler 220 1 "retry-7" "f00d" keys).1 ≡ proceed 3
unfolding requests
abandoned_is_taken_over = refl

expired_is_claimed_again : (pre_handler 86500 1 "retry-7" "beef" keys).1 ≡ proceed 4
unfolding requests
expired_is_claimed_again = refl

busy_is_refused : (pre_handler 219 1 "retry-7" "f00d" keys).1 ≡ key_in_use
unfolding requests
busy_is_refused = refl
