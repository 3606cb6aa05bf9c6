-- ===== src/Http/Idempotency/Statements.antt =====
-- The row of a key through the statements that the workers make.
use callio.Prelude.{
  ℕ, ◌<◌, ◌≡◌, refl, String, Bool, true, false, not, ◌&&◌, ◌||◌, none, some, List, [], ◌∷◌, arith,
  eq_iff, eq_refl, ◌==◌, leb, ltb, all, find, filter, if◌then◌else◌, Bool-cases, Option-cases, sym,
  ◌∙◌, inl, inr, ◌-◌,
}
use callio.Http.Idempotency.{
  Response, Row, Table, is_for, find_key, claim, update_rows, is_abandoned, take_over, complete,
  remove, purge, purge_expired,
}

-- The statements that the handlers of all workers make.
pub data Stmt : Type 0 where
  claims : ℕ → String → String → Stmt
  takes_over removes purges : ℕ → Stmt
  completes : ℕ → Response → Stmt

unfoldable pub execute : ℕ → Stmt → Table → Table
execute now (claims c k h) t = (claim now c k h t).0
execute now (takes_over id) t = (take_over now id t).0
execute now (completes id r) t = complete now id r t
execute now (removes id) t = remove id t
execute now (purges limit) t = purge_expired now limit t

unfoldable pub execute_all : List (ℕ × Stmt) → Table → Table
execute_all [] t = t
execute_all ((now, s) ∷ ss) t = execute_all ss (execute now s t)

pub claim-refused :
    (now c : ℕ) (k h : String) (r : Row) (t : Table)
    → find_key c k t ≡ some r
    → claim now c k h t ≡ (t, none)
unfolding claim
claim-refused now c k h r t e = rw (claim, e) refl

-- A property of each row with an id.
abbrev pub AllIds : ℕ → (Row → Type 0) → List Row → Type 0
AllIds id P [] = Unit
AllIds id P (r ∷ rs) = ((r.id ≡ id) → P r) × AllIds id P rs

abbrev pub touched : ℕ → (Row → Bool) → (Row → Row) → Row → Row
touched j guard assign r = if r.id == j && guard r then assign r else r

module _ (c : ℕ) (k : String) where
  pub find-update_rows :
      (j : ℕ) (guard : Row → Bool) (assign : Row → Row) (rs : List Row) (r : Row)
      → ((x : Row) → is_for c k (assign x) ≡ is_for c k x)
      → find (is_for c k) rs ≡ some r
      → find (is_for c k) (update_rows j guard assign rs) ≡ some (touched j guard assign r)
  unfolding update_rows
  find-update_rows j guard assign [] r keeps e = absurd (cc)
  find-update_rows j guard assign (x ∷ xs) r keeps e =
      ground (arith, keeps x, find-update_rows j guard assign xs r keeps)

  find-filter :
      (j : ℕ) (rs : List Row) (r : Row)
      → find (is_for c k) rs ≡ some r
      → (r.id == j) ≡ false
      → find (is_for c k) (filter (λ x. not (x.id == j)) rs) ≡ some r
  find-filter j [] r e n = absurd (cc)
  find-filter j (x ∷ xs) r e n = ground (arith, find-filter j xs r)

  find-purge :
      (now limit : ℕ) (rs : List Row) (r : Row)
      → find (is_for c k) rs ≡ some r
      → now < r.expires_at
      → find (is_for c k) (purge now limit rs) ≡ some r
  unfolding purge
  find-purge now limit [] r e n = absurd (cc)
  find-purge now limit (x ∷ xs) r e n =
      ground (arith, find-purge now limit xs r, find-purge now (limit - 1) xs r)

module _ (id : ℕ) (P : Row → Type 0) where
  AllIds-update_rows :
      (j : ℕ) (guard : Row → Bool) (assign : Row → Row) (rs : List Row)
      → ((x : Row) → (assign x).id ≡ x.id)
      → ((x : Row) → x.id ≡ id → P x → (j == id) ≡ true → guard x ≡ true → P (assign x))
      → AllIds id P rs
      → AllIds id P (update_rows j guard assign rs)
  unfolding update_rows
  AllIds-update_rows j guard assign [] keeps step h = tt
  AllIds-update_rows j guard assign (x ∷ xs) keeps step (p, h) =
      let rest = AllIds-update_rows j guard assign xs keeps step h in
      elim (Bool-cases (x.id == j && guard x)) [
        | inl e ↦ rw e (
          (λ same.
              step x (sym (keeps x) ∙ same) (p (sym (keeps x) ∙ same)) (ground (arith, keeps x))
                (ground arith)),
          rest,
        )
        | inr e ↦ rw e (p, rest)
      ]

  AllIds-filter : (q : Row → Bool) (rs : List Row) → AllIds id P rs → AllIds id P (filter q rs)
  AllIds-filter q [] h = tt
  AllIds-filter q (x ∷ xs) (p, h) = elim (Bool-cases (q x)) [
    | inl e ↦ rw e (p, AllIds-filter q xs h)
    | inr e ↦ rw e (AllIds-filter q xs h)
  ]

  AllIds-purge : (now limit : ℕ) (rs : List Row) → AllIds id P rs → AllIds id P (purge now limit rs)
  unfolding purge
  AllIds-purge now limit [] h = tt
  AllIds-purge now limit (x ∷ xs) (p, h) =
      elim (Bool-cases (leb x.expires_at now && not (limit == 0))) [
        | inl e ↦ rw e (AllIds-purge now (limit - 1) xs h)
        | inr e ↦ rw e (p, AllIds-purge now limit xs h)
      ]

-- The row of a key: found under it, its id its own, and a property of it.
pub record Owned (P : Row → Type 0) (c : ℕ) (k : String) (id : ℕ) (t : Table) : Type 0 where
  pub row : Row
  pub found : find_key c k t ≡ some row
  pub own : row.id ≡ id
  pub holds : P row
  pub all : AllIds id P t.rows
  pub known : id < t.next_id

-- The statement does not remove the row and, where that is not allowed, does not complete it.
abbrev pub spares : Bool → ℕ → Stmt → Bool
spares completing id (removes j) = not (j == id)
spares completing id (completes j r) = completing || not (j == id)
spares completing id _ = true

-- Statements that spare the row, each made before a time.
abbrev pub are_sparing : Bool → ℕ → ℕ → List (ℕ × Stmt) → Bool
are_sparing completing id bound ss = all (λ x. ltb x.0 bound && spares completing id x.1) ss

module _ (P : Row → Type 0) (c : ℕ) (k : String) (id now : ℕ) (completing : Bool)
    (alive : (r : Row) → P r → now < r.expires_at)
    (stuck : (r : Row) → P r → is_abandoned now r ≡ false)
    (done : (r : Row) (a : Response)
      → completing ≡ true
      → P r
      → P (record r { response = some a; updated_at = now }))
    (t : Table) (o : Owned P c k id t) where
  updated :
      (j : ℕ) (guard : Row → Bool) (assign : Row → Row)
      → ((x : Row) → is_for c k (assign x) ≡ is_for c k x)
      → ((x : Row) → (assign x).id ≡ x.id)
      → ((x : Row) → P x → (j == id) ≡ true → guard x ≡ true → P (assign x))
      → Owned P c k id (record t { rows = update_rows j guard assign t.rows })
  unfolding find_key
  updated j guard assign keeps same step = record {
    row = touched j guard assign o.row;
    found = find-update_rows c k j guard assign t.rows o.row keeps o.found;
    own = elim (Bool-cases (o.row.id == j && guard o.row)) [
      | inl e ↦ rw e (same o.row ∙ o.own)
      | inr e ↦ rw e o.own
    ];
    holds = elim (Bool-cases (o.row.id == j && guard o.row)) [
      | inl e ↦ rw e (step o.row o.holds (ground (arith, o.own)) (ground arith))
      | inr e ↦ rw e o.holds
    ];
    all = AllIds-update_rows id P j guard assign t.rows same (λ x i p q g. step x p q g) o.all;
    known = o.known;
  }

  claimed :
      (c' : ℕ) (k' h : String) → find_key c' k' t ≡ none → Owned P c k id (claim now c' k' h t).0
  unfolding claim find_key
  claimed c' k' h e =
      rw (claim, e)
        (record {
          row = o.row;
          found = ground (arith, o.found, o.own, e, eq_iff k' k, eq_refl k');
          own = o.own;
          holds = o.holds;
          all = ((λ same. absurd (omega (arith, o.known, same))), o.all);
          known = omega (arith, o.known);
        })

  applied : (s : Stmt) → spares completing id s ≡ true → Owned P c k id (execute now s t)
  unfolding execute find_key claim take_over complete remove purge_expired
  applied (claims c' k' h) e = elim (Option-cases (find_key c' k' t)) [
    | inl x ↦ claimed c' k' h x
    | inr (r, x) ↦ rw (execute, claim, x) o
  ]
  applied (takes_over j) e =
      updated j (is_abandoned now) (λ r. record r { updated_at = now }) (λ x. refl) (λ x. refl)
        (λ x p q g. absurd (ground (arith, g, stuck x p)))
  applied (completes j a) e =
      updated j (λ r. true) (λ r. record r { response = some a; updated_at = now }) (λ x. refl)
        (λ x. refl) (λ x p q g. done x a (ground arith) p)
  applied (removes j) e = record {
    row = o.row;
    found = find-filter c k j t.rows o.row o.found (ground (arith, o.own));
    own = o.own;
    holds = o.holds;
    all = AllIds-filter id P (λ x. not (x.id == j)) t.rows o.all;
    known = o.known;
  }
  applied (purges limit) e = record {
    row = o.row;
    found = find-purge c k now limit t.rows o.row o.found (alive o.row o.holds);
    own = o.own;
    holds = o.holds;
    all = AllIds-purge id P now limit t.rows o.all;
    known = o.known;
  }

module _ (P : Row → Type 0) (c : ℕ) (k : String) (id bound : ℕ) (completing : Bool)
    (alive : (now : ℕ) (r : Row) → now < bound → P r → now < r.expires_at)
    (stuck : (now : ℕ) (r : Row) → now < bound → P r → is_abandoned now r ≡ false)
    (done : (now : ℕ) (r : Row) (a : Response)
      → completing ≡ true
      → P r
      → P (record r { response = some a; updated_at = now })) where
  pub ran :
      (ss : List (ℕ × Stmt)) (t : Table)
      → are_sparing completing id bound ss ≡ true
      → Owned P c k id t
      → Owned P c k id (execute_all ss t)
  unfolding execute_all
  ran [] t e o = o
  ran ((now, s) ∷ ss) t e o =
      let early : now < bound = ground (arith, e) in
      ran ss (execute now s t) (ground (arith, e)) (
        applied P c k id now completing (λ r p. alive now r early p) (λ r p. stuck now r early p)
          (λ r a. done now r a) t o s (ground (arith, e)))
