-- ===== src/Outbox/Repository/Laws.antt =====
-- Deliveries found by their ids, through the statements and in the list of what is due.
use callio.Prelude.{
  ℕ, zero, suc, ◌≤◌, ◌≡◌, refl, sym, ap, ◌∙◌, inl, inr, Bool, true, false, not, ◌&&◌, ◌||◌, some,
  List, [], ◌∷◌, ◌==◌, ltb, filter, any, All, if◌then◌else◌, arith, Bool-cases,
}
use callio.Outbox.Repository.{
  Consumer, Delivery, Outbox, find_delivery, update_where, insert_due, sort_due, first_of, find_due,
  is_due, goes_first, safe_limit,
}

abbrev pub has_id : ℕ → List Delivery → Bool
has_id i rs = any (λ r. r.id == i) rs

-- Each id stands in the list once.
abbrev pub are_distinct : List Delivery → Bool
are_distinct [] = true
are_distinct (r ∷ rs) = not (has_id r.id rs) && are_distinct rs

pub find-update_where :
    (j : ℕ) (guard : Delivery → Bool) (assign : Delivery → Delivery) (rs : List Delivery)
    (r : Delivery)
    → ((x : Delivery) → (assign x).id ≡ x.id)
    → find_delivery j rs ≡ some r
    → find_delivery j (update_where guard assign rs) ≡ some (if guard r then assign r else r)
unfolding find_delivery update_where
find-update_where j guard assign [] r keeps e = absurd (cc)
find-update_where j guard assign (x ∷ xs) r keeps e =
    ground (arith, keeps x, find-update_where j guard assign xs r keeps)

pub find-id : (j : ℕ) (rs : List Delivery) (r : Delivery) → find_delivery j rs ≡ some r → r.id ≡ j
unfolding find_delivery
find-id j [] r e = absurd (cc)
find-id j (x ∷ xs) r e = ground (arith, e, find-id j xs r)

abbrev pub ids : List Delivery → List ℕ
ids [] = []
ids (r ∷ rs) = r.id ∷ ids rs

pub ids-update_where :
    (guard : Delivery → Bool) (assign : Delivery → Delivery) (rs : List Delivery)
    → ((x : Delivery) → (assign x).id ≡ x.id)
    → ids (update_where guard assign rs) ≡ ids rs
unfolding update_where
ids-update_where guard assign [] keeps = refl
ids-update_where guard assign (x ∷ xs) keeps =
    ground (arith, keeps x, ids-update_where guard assign xs keeps)

find-listed :
    (j : ℕ) (rs : List Delivery) (r : Delivery)
    → find_delivery j rs ≡ some r
    → any (λ i. i == j) (ids rs) ≡ true
unfolding find_delivery
find-listed j [] r e = absurd (cc)
find-listed j (x ∷ xs) r e = ground (arith, e, find-listed j xs r)

listed-find :
    (j : ℕ) (rs : List Delivery)
    → any (λ i. i == j) (ids rs) ≡ true
    → (r : Delivery) × (find_delivery j rs ≡ some r)
unfolding find_delivery
listed-find j [] e = absurd (ground (arith, e))
listed-find j (x ∷ xs) e = elim (Bool-cases (x.id == j)) [
  | inl q ↦ (x, rw q refl)
  | inr q ↦ let (r, f) = listed-find j xs (ground (arith, e, q)) in (r, rw q f)
]

-- Where the ids are kept, a delivery that is found was found before.
pub find-before :
    (j : ℕ) (rs rs' : List Delivery) (r : Delivery)
    → ids rs ≡ ids rs'
    → find_delivery j rs ≡ some r
    → (r' : Delivery) × (find_delivery j rs' ≡ some r')
find-before j rs rs' r e f =
    listed-find j rs' (ap (λ is. any (λ i. i == j) is) (sym e) ∙ find-listed j rs r f)

-- Ids from the counter, the newest row first.
abbrev pub are_numbered : ℕ → List ℕ → Bool
are_numbered n [] = true
are_numbered n (i ∷ is) = ltb i n && are_numbered i is

has_id-numbered :
    (n i : ℕ) (rs : List Delivery) → are_numbered n (ids rs) ≡ true → n ≤ i → has_id i rs ≡ false
has_id-numbered n i [] e l = refl
has_id-numbered n i (x ∷ xs) e l = ground (arith, has_id-numbered x.id i xs)

pub numbered-distinct :
    (n : ℕ) (rs : List Delivery) → are_numbered n (ids rs) ≡ true → are_distinct rs ≡ true
numbered-distinct n [] e = refl
numbered-distinct n (x ∷ xs) e =
    ground (arith, has_id-numbered x.id x.id xs, numbered-distinct x.id xs)

has_id-filter :
    (i : ℕ) (p : Delivery → Bool) (rs : List Delivery)
    → has_id i rs ≡ false
    → has_id i (filter p rs) ≡ false
has_id-filter i p [] e = refl
has_id-filter i p (x ∷ xs) e = ground (arith, has_id-filter i p xs)

distinct-filter :
    (p : Delivery → Bool) (rs : List Delivery)
    → are_distinct rs ≡ true
    → are_distinct (filter p rs) ≡ true
distinct-filter p [] e = refl
distinct-filter p (x ∷ xs) e = ground (arith, has_id-filter x.id p xs, distinct-filter p xs)

has_id-insert_due :
    (i : ℕ) (r : Delivery) (rs : List Delivery)
    → has_id i (insert_due r rs) ≡ (r.id == i || has_id i rs)
unfolding insert_due
has_id-insert_due i r [] = refl
has_id-insert_due i r (x ∷ xs) = ground (arith, has_id-insert_due i r xs)

distinct-insert_due :
    (r : Delivery) (rs : List Delivery)
    → has_id r.id rs ≡ false
    → are_distinct rs ≡ true
    → are_distinct (insert_due r rs) ≡ true
unfolding insert_due
distinct-insert_due r [] n e = refl
distinct-insert_due r (x ∷ xs) n e =
    ground (arith, has_id-insert_due x.id r xs, distinct-insert_due r xs)

has_id-sort_due : (i : ℕ) (rs : List Delivery) → has_id i (sort_due rs) ≡ has_id i rs
unfolding sort_due
has_id-sort_due i [] = refl
has_id-sort_due i (x ∷ xs) =
    has_id-insert_due i x (sort_due xs) ∙ ap (λ b. x.id == i || b) (has_id-sort_due i xs)

distinct-sort_due :
    (rs : List Delivery) → are_distinct rs ≡ true → are_distinct (sort_due rs) ≡ true
unfolding sort_due
distinct-sort_due [] e = refl
distinct-sort_due (x ∷ xs) e =
    distinct-insert_due x (sort_due xs) (has_id-sort_due x.id xs ∙ ground arith)
      (distinct-sort_due xs (ground arith))

has_id-first_of :
    (i n : ℕ) (rs : List Delivery) → has_id i rs ≡ false → has_id i (first_of n rs) ≡ false
unfolding first_of
has_id-first_of i zero rs e = refl
has_id-first_of i (suc n) [] e = refl
has_id-first_of i (suc n) (x ∷ xs) e = ground (arith, has_id-first_of i n xs)

distinct-first_of :
    (n : ℕ) (rs : List Delivery) → are_distinct rs ≡ true → are_distinct (first_of n rs) ≡ true
unfolding first_of
distinct-first_of zero rs e = refl
distinct-first_of (suc n) [] e = refl
distinct-first_of (suc n) (x ∷ xs) e =
    ground (arith, has_id-first_of x.id n xs, distinct-first_of n xs)

pub distinct-find_due :
    (now : ℕ) (consumers : List Consumer) (limit : ℕ) (o : Outbox)
    → are_distinct o.rows ≡ true
    → are_distinct (find_due now consumers limit o) ≡ true
unfolding find_due
distinct-find_due now consumers limit o e =
    let due = filter (is_due now consumers) o.rows in
    distinct-first_of (safe_limit limit) (sort_due due)
      (distinct-sort_due due (distinct-filter (is_due now consumers) o.rows e))

All-filter :
    (P : Delivery → Type 0) (p : Delivery → Bool) (rs : List Delivery)
    → All P rs
    → All (λ r. P r × (p r ≡ true)) (filter p rs)
All-filter P p [] h = tt
All-filter P p (x ∷ xs) (a, h) = elim (Bool-cases (p x)) [
  | inl e ↦ rw e ((a, e), All-filter P p xs h)
  | inr e ↦ rw e (All-filter P p xs h)
]

pub All-first : (P Q : Delivery → Type 0) (rs : List Delivery) → All (λ r. P r × Q r) rs → All P rs
All-first P Q [] h = tt
All-first P Q (x ∷ xs) ((a, b), h) = (a, All-first P Q xs h)

-- A property of deliveries, through the making of the list of what is due.
module _ (P : Delivery → Type 0) where
  All-insert_due : (r : Delivery) (rs : List Delivery) → P r → All P rs → All P (insert_due r rs)
  unfolding insert_due
  All-insert_due r [] a h = (a, tt)
  All-insert_due r (x ∷ xs) a (b, h) = elim (Bool-cases (goes_first r x)) [
    | inl e ↦ rw e (a, (b, h))
    | inr e ↦ rw e (b, All-insert_due r xs a h)
  ]

  All-sort_due : (rs : List Delivery) → All P rs → All P (sort_due rs)
  unfolding sort_due
  All-sort_due [] h = tt
  All-sort_due (x ∷ xs) (a, h) = All-insert_due x (sort_due xs) a (All-sort_due xs h)

  All-first_of : (n : ℕ) (rs : List Delivery) → All P rs → All P (first_of n rs)
  unfolding first_of
  All-first_of zero rs h = tt
  All-first_of (suc n) [] h = tt
  All-first_of (suc n) (x ∷ xs) (a, h) = (a, All-first_of n xs h)

pub All-find_due :
    (P : Delivery → Type 0) (now : ℕ) (consumers : List Consumer) (limit : ℕ) (o : Outbox)
    → All P o.rows
    → All (λ r. P r × (is_due now consumers r ≡ true)) (find_due now consumers limit o)
unfolding find_due
All-find_due P now consumers limit o h =
    let Q : Delivery → Type 0 = λ r. P r × (is_due now consumers r ≡ true) in
    let due = filter (is_due now consumers) o.rows in
    All-first_of Q (safe_limit limit) (sort_due due)
      (All-sort_due Q due (All-filter P (is_due now consumers) o.rows h))

-- The row with an id in a list is the row found there.
abbrev pub IsFound : List Delivery → Delivery → Type 0
IsFound rows r = find_delivery r.id rows ≡ some r

IsFound-later :
    (x : Delivery) (xs rs : List Delivery)
    → has_id x.id rs ≡ false
    → All (IsFound xs) rs
    → All (IsFound (x ∷ xs)) rs
unfolding find_delivery
IsFound-later x xs [] n h = tt
IsFound-later x xs (r ∷ rs) n (a, h) = (ground (arith, a), IsFound-later x xs rs (ground arith) h)

pub distinct-IsFound : (rs : List Delivery) → are_distinct rs ≡ true → All (IsFound rs) rs
unfolding find_delivery
distinct-IsFound [] e = tt
distinct-IsFound (x ∷ xs) e =
    (ground arith, IsFound-later x xs xs (ground arith) (distinct-IsFound xs (ground arith)))
