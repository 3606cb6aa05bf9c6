-- ===== src/Http/Idempotency/Replay.antt =====
-- http/v1/idempotency.js: a request that was answered is answered again.
use callio.Prelude.{
  ℕ, ◌<◌, ◌≡◌, refl, String, true, false, some, List, [], ◌∷◌, arith, ◌==◌, ◌===◌, leb,
  if◌then◌else◌, Bool-cases, ap, ◌∙◌, inl, inr,
}
use callio.Http.Idempotency.{
  Response, Row, Table, find_key, complete, update_rows, is_abandoned, Answer, replayed, key_reused,
  answer_row, attempt, pre_handler, on_send,
}
use callio.Http.Idempotency.Statements.{
  Stmt, execute_all, AllIds, Owned, are_sparing, ran, claim-refused, find-update_rows,
}

-- The row with its answer.
abbrev Answered : Row → Response → Row → Type 0
Answered r a x =
    (x.response ≡ some a) × ((x.request_hash ≡ r.request_hash) × (x.expires_at ≡ r.expires_at))

-- No other row has the id of this one.
abbrev pub IsSole : Row → Table → Type 0
IsSole r t = AllIds r.id (λ x. x ≡ r) t.rows

AllIds-Answered :
    (now : ℕ) (r : Row) (a : Response) (rs : List Row)
    → AllIds r.id (λ x. x ≡ r) rs
    → AllIds r.id
        (Answered r a)
        (update_rows r.id (λ x. true) (λ x. record x { response = some a; updated_at = now }) rs)
unfolding update_rows
AllIds-Answered now r a [] h = tt
AllIds-Answered now r a (x ∷ xs) (p, h) =
    let rest = AllIds-Answered now r a xs h in
    elim (Bool-cases (x.id == r.id)) [
      | inl e ↦ rw e (
        (λ same. (refl, (ap (λ y. y.request_hash) (p same), ap (λ y. y.expires_at) (p same)))),
        rest,
      )
      | inr e ↦ rw e ((λ same. absurd (ground (arith, same, e))), rest)
    ]

on_send-Owned :
    (now c : ℕ) (k : String) (r : Row) (a : Response) (t : Table)
    → find_key c k t ≡ some r
    → IsSole r t
    → r.id < t.next_id
    → leb 500 a.status ≡ false
    → Owned (Answered r a) c k r.id (on_send now r.id a t)
unfolding on_send complete find_key
on_send-Owned now c k r a t found sole known ok =
    rw (on_send, ok)
      (record {
        row = record r { response = some a; updated_at = now };
        found =
            find-update_rows c k r.id (λ x. true)
              (λ x. record x { response = some a; updated_at = now }) t.rows r (λ x. refl) found
            ∙ ground arith;
        own = refl;
        holds = (refl, (refl, refl));
        all = AllIds-Answered now r a t.rows sole;
        known = known;
      })

answer_row-replays :
    (now : ℕ) (h : String) (r x : Row) (a : Response) (t : Table)
    → Answered r a x
    → now < r.expires_at
    → answer_row now h x t ≡ (t, some (if r.request_hash === h then replayed a else key_reused))
unfolding answer_row
answer_row-replays now h r x a t (e, (e', e'')) early =
    rw (answer_row, e, e', e'')
      elim (Bool-cases (leb r.expires_at now)) [
        | inl l ↦ absurd (ground (arith, l, early))
        | inr l ↦ elim (Bool-cases (r.request_hash === h)) [
          | inl q ↦ rw (l, q) refl
          | inr q ↦ rw (l, q) refl
        ]
      ]

attempt-found :
    (now c : ℕ) (k h : String) (x : Row) (t : Table)
    → find_key c k t ≡ some x
    → attempt now c k h t ≡ answer_row now h x t
unfolding attempt
attempt-found now c k h x t found = rw (attempt, claim-refused now c k h x t found, found) refl

pre_handler-first :
    (now c : ℕ) (k h : String) (t u : Table) (a : Answer)
    → attempt now c k h t ≡ (u, some a)
    → pre_handler now c k h t ≡ (u, a)
unfolding pre_handler
pre_handler-first now c k h t u a e = rw (pre_handler, ap (λ p. p.1) e, ap (λ p. p.0) e) refl

pre_handler-replays :
    (now c : ℕ) (k h : String) (r x : Row) (a : Response) (t : Table)
    → find_key c k t ≡ some x
    → Answered r a x
    → now < r.expires_at
    → pre_handler now c k h t ≡ (t, if r.request_hash === h then replayed a else key_reused)
pre_handler-replays now c k h r x a t found p early =
    pre_handler-first now c k h t t (if r.request_hash === h then replayed a else key_reused)
      (attempt-found now c k h x t found ∙ answer_row-replays now h r x a t p early)

-- Let a consumer have a row for a key, the only one with its id, and let its request end with an answer below
-- 500. Whatever statements the workers make after that, up to the expiry of the row, except that none removes
-- or completes this row again, a request under the key before the expiry leaves the table as it is: it gets
-- that answer if its fingerprint is the first request's, and is refused for reusing the key if not.
pub replays_once_answered :
    (t0 now c : ℕ) (k h : String) (r : Row) (a : Response) (t : Table) (ss : List (ℕ × Stmt))
    → find_key c k t ≡ some r
    → IsSole r t
    → r.id < t.next_id
    → leb 500 a.status ≡ false
    → are_sparing false r.id r.expires_at ss ≡ true
    → now < r.expires_at
    → pre_handler now c k h (execute_all ss (on_send t0 r.id a t)) ≡ (
      execute_all ss (on_send t0 r.id a t),
      if r.request_hash === h then replayed a else key_reused,
    )
replays_once_answered t0 now c k h r a t ss found sole known ok spared early =
    let alive : (m : ℕ) (x : Row) → m < r.expires_at → Answered r a x → m < x.expires_at =
      λ m x l p. omega (arith, l, p.1.1) in
    let stuck : (m : ℕ) (x : Row) → m < r.expires_at → Answered r a x → is_abandoned m x ≡ false =
      λ m x l p. ground (arith, p.0) in
    let done : (m : ℕ) (x : Row) (b : Response)
        → false ≡ true
        → Answered r a x
        → Answered r a (record x { response = some b; updated_at = m }) =
      λ m x b e p. absurd (cc) in
    let o =
      ran (Answered r a) c k r.id r.expires_at false alive stuck done ss (on_send t0 r.id a t)
        spared (on_send-Owned t0 c k r a t found sole known ok) in
    pre_handler-replays now c k h r o.row a (execute_all ss (on_send t0 r.id a t)) o.found o.holds
      early
