-- ===== src/Routing/Picking/Laws.antt =====
-- The order in which members are tried, and who ends up with the call.
use mathlib.Core.List.{Perm}
use mathlib.Core.List.Perm
use callio.Prelude.{
  ℕ, ◌≡◌, inl, inr, refl, ap, Bool, true, false, some, List, [], ◌∷◌, ◌++◌, arith, filter, All,
  Bool-cases,
}
use callio.Routing.Members.{Member, is_available}
use callio.Routing.Picking.{
  claim_in_order, goes_before, insert_member, sort_members, priority_order, pick_priority,
}

-- Each item stands before all that follow it.
abbrev pub IsSorted : List Member → Type 0
IsSorted [] = Unit
IsSorted (m ∷ ms) = All (λ x. goes_before m x ≡ true) ms × IsSorted ms

insert_member-perm : (m : Member) (xs : List Member) → Perm (insert_member m xs) (m ∷ xs)
unfolding insert_member
insert_member-perm m [] = Perm.refl (m ∷ [])
insert_member-perm m (x ∷ xs) = elim (Bool-cases (goes_before m x)) [
  | inl e ↦ rw e (Perm.refl (m ∷ x ∷ xs))
  | inr e ↦ rw e (Perm.trans (Perm.cons x (insert_member-perm m xs)) (Perm.swap m x xs))
]

pub sort_members-perm : (ms : List Member) → Perm (sort_members ms) ms
unfolding sort_members
sort_members-perm [] = Perm.refl []
sort_members-perm (m ∷ ms) =
    Perm.trans (insert_member-perm m (sort_members ms)) (Perm.cons m (sort_members-perm ms))

goes_before_total : (a b : Member) → goes_before a b ≡ false → goes_before b a ≡ true
goes_before_total a b h = ground arith

goes_before_trans :
    (a b c : Member) → goes_before a b ≡ true → goes_before b c ≡ true → goes_before a c ≡ true
goes_before_trans a b c h k = ground arith

All-trans :
    (m x : Member) (xs : List Member)
    → goes_before m x ≡ true
    → All (λ y. goes_before x y ≡ true) xs
    → All (λ y. goes_before m y ≡ true) xs
All-trans m x [] e h = tt
All-trans m x (y ∷ ys) e (p, h) = (goes_before_trans m x y e p, All-trans m x ys e h)

insert_member-All :
    (z m : Member) (xs : List Member)
    → goes_before z m ≡ true
    → All (λ y. goes_before z y ≡ true) xs
    → All (λ y. goes_before z y ≡ true) (insert_member m xs)
unfolding insert_member
insert_member-All z m [] e h = (e, tt)
insert_member-All z m (x ∷ xs) e (p, h) = elim (Bool-cases (goes_before m x)) [
  | inl q ↦ rw q (e, (p, h))
  | inr q ↦ rw q (p, insert_member-All z m xs e h)
]

insert_member-IsSorted :
    (m : Member) (xs : List Member) → IsSorted xs → IsSorted (insert_member m xs)
unfolding insert_member
insert_member-IsSorted m [] s = (tt, tt)
insert_member-IsSorted m (x ∷ xs) (a, s) = elim (Bool-cases (goes_before m x)) [
  | inl q ↦ rw q ((q, All-trans m x xs q a), (a, s))
  | inr q ↦
      rw q (insert_member-All x m xs (goes_before_total m x q) a, insert_member-IsSorted m xs s)
]

pub sort_members-IsSorted : (ms : List Member) → IsSorted (sort_members ms)
unfolding sort_members
sort_members-IsSorted [] = tt
sort_members-IsSorted (m ∷ ms) =
    insert_member-IsSorted m (sort_members ms) (sort_members-IsSorted ms)

module _ {ℓ} {S : Type ℓ} (claim : ℕ → S → S × Bool) where
  -- All members refused, one after the other, from a state to a state.
  abbrev pub Refused : List Member → S → S → Type ℓ
  Refused [] s t = s ≡ t
  Refused (m ∷ ms) s t = ((claim m.id s).1 ≡ false) × Refused ms (claim m.id s).0 t

  -- The first member whose claim succeeds.
  pub record IsFirst (candidates : List Member) (s t : S) (m : Member) : Type ℓ where
    pub before : List Member
    pub after : List Member
    pub midway : S
    pub split : candidates ≡ before ++ (m ∷ after)
    pub refused : Refused before s midway
    pub success : claim m.id midway ≡ (t, true)

  pub claim_in_order-IsFirst :
      (ms : List Member) (s t : S) (m : Member)
      → claim_in_order claim ms s ≡ (t, some m)
      → IsFirst ms s t m
  unfolding claim_in_order
  claim_in_order-IsFirst [] s t m e = absurd (cc)
  claim_in_order-IsFirst (x ∷ xs) s t m e = elim (Bool-cases (claim x.id s).1) [
    | inl done ↦
        let e' : ((claim x.id s).0, some x) ≡ (t, some m) = rw done at e in
        let same : x ≡ m = cc in
        let there : (claim x.id s).0 ≡ t = cc in
        record {
          before = [];
          after = xs;
          midway = s;
          split = ap (λ y. y ∷ xs) same;
          refused = refl;
          success = rw (← same) (λ i. (there i, done i));
        }
    | inr more ↦
        let first = claim_in_order-IsFirst xs (claim x.id s).0 t m (rw more at e) in
        record {
          before = x ∷ first.before;
          after = first.after;
          midway = first.midway;
          split = ap (λ ys. x ∷ ys) first.split;
          refused = (more, first.refused);
          success = first.success;
        }
  ]

  -- The member that PRIORITY picks is the first, by priority and then by id, of the available members
  -- whose claim succeeds; every available member who stands before them has refused, in that order.
  pub pick_priority-IsFirst :
      (members : List Member) (s t : S) (m : Member)
      → pick_priority claim members s ≡ (t, some m)
      → (order : List Member) × Perm order (filter is_available members)
        × IsSorted order
        × IsFirst order s t m
  unfolding pick_priority priority_order
  pick_priority-IsFirst members s t m e = (
    sort_members (filter is_available members),
    sort_members-perm (filter is_available members),
    sort_members-IsSorted (filter is_available members),
    claim_in_order-IsFirst (sort_members (filter is_available members)) s t m e,
  )
