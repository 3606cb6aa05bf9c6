-- ===== src/Http/Idempotency/Once.antt =====
-- http/v1/idempotency.js: a key lets one request run.
use callio.Prelude.{
  ℕ, ◌+◌, ◌<◌, ◌≤◌, ◌≡◌, ◌≢◌, refl, String, Bool, true, false, none, some, List, [], ◌∷◌, arith,
  eq_refl, ltb, all, ◌⊎◌, inl, inr,
}
use callio.Http.Idempotency.{
  Response, Row, Table, ttl_seconds, abandoned_after_seconds, is_completed, find_key, claim,
  is_abandoned, proceed, answer_row, attempt, pre_handler,
}
use callio.Http.Idempotency.Statements.{
  Stmt, execute_all, AllIds, Owned, are_sparing, ran, claim-refused,
}

-- Claimed at a time, and since then completed or worked on.
abbrev Claimed : ℕ → Row → Type 0
Claimed t0 r = (r.expires_at ≡ t0 + ttl_seconds) × ((is_completed r ≡ true) ⊎ (t0 ≤ r.updated_at))

-- The ids of the rows come from the counter.
abbrev pub are_numbered : Table → Bool
are_numbered t = all (λ r. ltb r.id t.next_id) t.rows

AllIds-numbered :
    (P : Row → Type 0) (n : ℕ) (rs : List Row) → all (λ r. ltb r.id n) rs ≡ true → AllIds n P rs
AllIds-numbered P n [] e = tt
AllIds-numbered P n (r ∷ rs) e =
    ((λ same. absurd (ground (arith, e))), AllIds-numbered P n rs (ground (arith, e)))

claim-Owned :
    (t0 c : ℕ) (k h : String) (t : Table)
    → are_numbered t ≡ true
    → find_key c k t ≡ none
    → Owned (Claimed t0) c k t.next_id (claim t0 c k h t).0
unfolding claim find_key
claim-Owned t0 c k h t n e =
    rw (claim, e)
      (record {
        row = record {
          id = t.next_id;
          consumer_id = c;
          key = k;
          request_hash = h;
          response = none;
          expires_at = t0 + ttl_seconds;
          updated_at = t0;
        };
        found = ground (arith, eq_refl k);
        own = refl;
        holds = (refl, inr (omega arith));
        all =
            ((λ same. (refl, inr (omega arith))), AllIds-numbered (Claimed t0) t.next_id t.rows n);
        known = omega arith;
      })

answer_row-waits :
    (now t0 : ℕ) (h : String) (r : Row) (t : Table) (i : ℕ)
    → Claimed t0 r
    → now < t0 + abandoned_after_seconds
    → (answer_row now h r t).1 ≢ some (proceed i)
unfolding answer_row
answer_row-waits now t0 h r t i (e, p) early = ground (arith, p)

pre_handler-waits :
    (now t0 c : ℕ) (k h : String) (r : Row) (t : Table) (i : ℕ)
    → find_key c k t ≡ some r
    → Claimed t0 r
    → now < t0 + abandoned_after_seconds
    → (pre_handler now c k h t).1 ≢ proceed i
unfolding pre_handler attempt answer_row
pre_handler-waits now t0 c k h r t i found (e, p) early =
    rw (pre_handler, attempt, claim-refused now c k h r t found, found) ground (arith, p, e, early)

-- From a table whose ids come from its counter, where a consumer has no row for a key, let a request claim
-- the key. Whatever statements the workers make in the 120 seconds after that, on this row or on others,
-- except that none removes this row, a second request under the key, with any fingerprint, is not let through
-- before the 120 seconds are over.
pub runs_once :
    (t0 now c : ℕ) (k h h' : String) (t : Table) (ss : List (ℕ × Stmt)) (i : ℕ)
    → are_numbered t ≡ true
    → find_key c k t ≡ none
    → are_sparing true t.next_id (t0 + abandoned_after_seconds) ss ≡ true
    → now < t0 + abandoned_after_seconds
    → (pre_handler now c k h' (execute_all ss (claim t0 c k h t).0)).1 ≢ proceed i
runs_once t0 now c k h h' t ss i n free spared early =
    let bound = t0 + abandoned_after_seconds in
    let alive : (m : ℕ) (r : Row) → m < bound → Claimed t0 r → m < r.expires_at =
      λ m r l p. omega (arith, l, p.0) in
    let stuck : (m : ℕ) (r : Row) → m < bound → Claimed t0 r → is_abandoned m r ≡ false =
      λ m r l p. ground (arith, l, p.1) in
    let done : (m : ℕ) (r : Row) (a : Response)
        → true ≡ true
        → Claimed t0 r
        → Claimed t0 (record r { response = some a; updated_at = m }) =
      λ m r a e p. (p.0, inl refl) in
    let o =
      ran (Claimed t0) c k t.next_id bound true alive stuck done ss (claim t0 c k h t).0 spared
        (claim-Owned t0 c k h t n free) in
    pre_handler-waits now t0 c k h' o.row (execute_all ss (claim t0 c k h t).0) i o.found o.holds
      early
