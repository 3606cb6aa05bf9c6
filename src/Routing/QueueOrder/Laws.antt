-- ===== src/Routing/QueueOrder/Laws.antt =====
-- ROUND_ROBIN passes nobody over and tries nobody twice.
use callio.Prelude.{
  ℕ, ◌≡◌, inl, inr, refl, ap, sym, ◌∙◌, Bool, true, false, not, ◌&&◌, ◌||◌, Option, none, some,
  List, [], ◌∷◌, ◌++◌, arith, ◌==◌, ltb, filter, any, map, if◌then◌else◌, Bool-cases,
}
use callio.Routing.Members.{Member, is_available, has_id, member_by_id}
use callio.Routing.QueueOrder.{
  Stored, mem, distinct_from, is_available_id, stays, insert_id, sort_ids, available_ids, newcomers,
  kept_order, keep_found, available_in_order, reconcile,
}

-- Each id stands in the list once.
abbrev pub NoRepeats : List ℕ → Type 0
NoRepeats [] = Unit
NoRepeats (x ∷ xs) = (mem x xs ≡ false) × NoRepeats xs

abbrev pub ids_of : List Member → List ℕ
ids_of [] = []
ids_of (m ∷ ms) = m.id ∷ ids_of ms

mem-append : (a : ℕ) (xs ys : List ℕ) → mem a (xs ++ ys) ≡ mem a xs || mem a ys
mem-append a [] ys = refl
mem-append a (x ∷ xs) ys = ground (arith, mem-append a xs ys)

mem-filter : (a : ℕ) (p : ℕ → Bool) (xs : List ℕ) → mem a (filter p xs) ≡ (mem a xs && p a)
mem-filter a p [] = refl
mem-filter a p (x ∷ xs) = ground (arith, mem-filter a p xs)

mem-distinct_from :
    (a : ℕ) (seen xs : List ℕ) → mem a (distinct_from seen xs) ≡ (mem a xs && not (mem a seen))
unfolding distinct_from
mem-distinct_from a seen [] = refl
mem-distinct_from a seen (x ∷ xs) = ground (arith, mem-distinct_from a (x ∷ seen) xs)

mem-insert_id : (a x : ℕ) (xs : List ℕ) → mem a (insert_id x xs) ≡ (x == a || mem a xs)
unfolding insert_id
mem-insert_id a x [] = ground arith
mem-insert_id a x (y ∷ ys) = ground (arith, mem-insert_id a x ys)

mem-sort_ids : (a : ℕ) (xs : List ℕ) → mem a (sort_ids xs) ≡ mem a xs
unfolding sort_ids
mem-sort_ids a [] = refl
mem-sort_ids a (x ∷ xs) =
    mem-insert_id a x (sort_ids xs) ∙ ap (λ b. x == a || b) (mem-sort_ids a xs)

distinct_from-NoRepeats : (seen xs : List ℕ) → NoRepeats (distinct_from seen xs)
unfolding distinct_from
distinct_from-NoRepeats seen [] = tt
distinct_from-NoRepeats seen (x ∷ xs) = elim (Bool-cases (mem x seen)) [
  | inl e ↦ rw e (distinct_from-NoRepeats (x ∷ seen) xs)
  | inr e ↦
      let here = mem-distinct_from x (x ∷ seen) xs in
      rw e (ground arith, distinct_from-NoRepeats (x ∷ seen) xs)
]

filter-NoRepeats : (p : ℕ → Bool) (xs : List ℕ) → NoRepeats xs → NoRepeats (filter p xs)
filter-NoRepeats p [] h = tt
filter-NoRepeats p (x ∷ xs) (e, h) = elim (Bool-cases (p x)) [
  | inl q ↦ rw q (mem-filter x p xs ∙ ground arith, filter-NoRepeats p xs h)
  | inr q ↦ rw q (filter-NoRepeats p xs h)
]

append-NoRepeats :
    (xs ys : List ℕ)
    → NoRepeats xs
    → NoRepeats ys
    → ((a : ℕ) → mem a xs ≡ true → mem a ys ≡ false)
    → NoRepeats (xs ++ ys)
append-NoRepeats [] ys h k d = k
append-NoRepeats (x ∷ xs) ys (e, h) k d =
    let apart = d x (ground arith) in
    (mem-append x xs ys ∙ ground arith, append-NoRepeats xs ys h k (λ a q. d a (ground arith)))

insert_id-NoRepeats :
    (x : ℕ) (xs : List ℕ) → mem x xs ≡ false → NoRepeats xs → NoRepeats (insert_id x xs)
unfolding insert_id
insert_id-NoRepeats x [] e h = (refl, tt)
insert_id-NoRepeats x (y ∷ ys) e (f, h) = elim (Bool-cases (ltb y x)) [
  | inl q ↦ rw q (mem-insert_id y x ys ∙ ground arith, insert_id-NoRepeats x ys (ground arith) h)
  | inr q ↦ rw q (e, (f, h))
]

sort_ids-NoRepeats : (xs : List ℕ) → NoRepeats xs → NoRepeats (sort_ids xs)
unfolding sort_ids
sort_ids-NoRepeats [] h = tt
sort_ids-NoRepeats (x ∷ xs) (e, h) =
    insert_id-NoRepeats x (sort_ids xs) (mem-sort_ids x xs ∙ e) (sort_ids-NoRepeats xs h)

mem-ids : (a : ℕ) (ms : List Member) → mem a (map (λ (m : Member). m.id) ms) ≡ any (has_id a) ms
mem-ids a [] = refl
mem-ids a (m ∷ ms) = ground (arith, mem-ids a ms)

mem-newcomers :
    (a : ℕ) (members : List Member) (placed : List ℕ)
    → mem a (newcomers members placed) ≡ (is_available_id members a && not (mem a placed))
unfolding newcomers available_ids is_available_id
mem-newcomers a members placed =
    let ids = map (λ (m : Member). m.id) (filter is_available members) in
    ground (
      arith,
      mem-sort_ids a (filter (λ id. not (mem id placed)) (distinct_from [] ids)),
      mem-filter a (λ id. not (mem id placed)) (distinct_from [] ids),
      mem-distinct_from a [] ids,
      mem-ids a (filter is_available members),
    )

find-any : (id : ℕ) (ms : List Member) → member_by_id id ms ≡ none → any (has_id id) ms ≡ false
find-any id [] e = refl
find-any id (m ∷ ms) e = ground (arith, find-any id ms)

find-id :
    (id : ℕ) (ms : List Member) (m : Member)
    → member_by_id id ms ≡ some m
    → (m.id ≡ id) × (any (has_id id) ms ≡ true)
find-id id [] m e = absurd (cc)
find-id id (x ∷ xs) m e = elim (Bool-cases (has_id id x)) [
  | inl q ↦
      let same : x ≡ m = cc (rw q at e) in
      (ap (λ (y : Member). y.id) (sym same) ∙ ground arith, ground arith)
  | inr q ↦ let rest = find-id id xs m (rw q at e) in (rest.0, ground arith)
]

keep_found-ids :
    (id : ℕ) (o : Option Member) (ms : List Member) (b : Bool)
    → (o ≡ none → b ≡ false)
    → ((m : Member) → o ≡ some m → (m.id ≡ id) × (b ≡ true))
    → ids_of (keep_found o ms) ≡ (if b then id ∷ ids_of ms else ids_of ms)
keep_found-ids id none ms b f g = rw (f refl) refl
keep_found-ids id (some m) ms b f g = rw ((g m refl).1) (ap (λ x. x ∷ ids_of ms) (g m refl).0)

-- The members that are tried stand in the stored order, and they are its available ones.
available_in_order-ids :
    (members : List Member) (ids : List ℕ)
    → ids_of (available_in_order members ids) ≡ filter (is_available_id members) ids
unfolding available_in_order is_available_id
available_in_order-ids members [] = refl
available_in_order-ids members (id ∷ ids) =
    let ms = filter is_available members in
    let rest = available_in_order-ids members ids in
    keep_found-ids id (member_by_id id ms) (available_in_order members ids) (any (has_id id) ms)
      (find-any id ms) (find-id id ms)
    ∙ ap (λ xs. if any (has_id id) ms then id ∷ xs else xs) rest

mem-kept_order :
    (a now : ℕ) (members : List Member) (s : Stored)
    → mem a (kept_order now members s) ≡ (mem a s.order && stays now members s.meta a)
unfolding kept_order
mem-kept_order a now members s = ground (
  arith,
  mem-filter a (stays now members s.meta) (distinct_from [] s.order),
  mem-distinct_from a [] s.order,
)

order-NoRepeats :
    (now : ℕ) (members : List Member) (s : Stored) → NoRepeats (reconcile now members s).0.order
unfolding reconcile kept_order newcomers available_ids
order-NoRepeats now members s =
    let kept = kept_order now members s in
    append-NoRepeats kept (newcomers members kept)
      (filter-NoRepeats (stays now members s.meta) (distinct_from [] s.order)
        (distinct_from-NoRepeats [] s.order))
      (sort_ids-NoRepeats _ (filter-NoRepeats _ _ (distinct_from-NoRepeats [] _)))
      (λ a q. mem-newcomers a members kept ∙ ground arith)

order_complete :
    (a now : ℕ) (members : List Member) (s : Stored)
    → is_available_id members a ≡ true
    → mem a (reconcile now members s).0.order ≡ true
unfolding reconcile
order_complete a now members s e =
    let kept = kept_order now members s in
    mem-append a kept (newcomers members kept) ∙ ground (arith, mem-newcomers a members kept)

-- Whatever Redis holds for the queue, the members that ROUND_ROBIN tries are, each once, exactly the
-- available members of the queue, in the order that is stored; and that order repeats nobody.
pub reconcile-fair :
    (now : ℕ) (members : List Member) (s : Stored)
    → NoRepeats (reconcile now members s).0.order
      × NoRepeats (ids_of (reconcile now members s).1)
      × ((id : ℕ) → mem id (ids_of (reconcile now members s).1) ≡ is_available_id members id)
      × (ids_of (reconcile now members s).1
          ≡ filter (is_available_id members) (reconcile now members s).0.order)
unfolding reconcile
reconcile-fair now members s =
    let order = (reconcile now members s).0.order in
    let ids = available_in_order-ids members order in
    let once = order-NoRepeats now members s in
    (
      once,
      rw ids (filter-NoRepeats (is_available_id members) order once),
      (λ id.
          ap (mem id) ids
          ∙ mem-filter id (is_available_id members) order
          ∙ ground (arith, order_complete id now members s)),
      ids,
    )
