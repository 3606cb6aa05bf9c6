-- ===== src/Routing/OfferHistory/Laws.antt =====
-- Whom the offer history lets a waiting call be offered to.
use callio.Prelude.{
  ℕ, ◌≡◌, ◌⊎◌, inl, inr, refl, Bool, true, false, not, ◌&&◌, ◌||◌, List, [], ◌∷◌, arith, filter,
  any, All, Bool-cases, ap,
}
use callio.Routing.Members.{Member, is_available}
use callio.Routing.OfferHistory.{
  History, declined, add, record_offer, mem, is_empty, not_declined, fresh, eligible,
}

-- What the filter's test adds to what holds of every item.
All-filter {ℓ κ μ} :
    {A : Type ℓ} (P : A → Type κ) (Q : A → Type μ) (p : A → Bool) (xs : List A)
    → ((x : A) → P x → p x ≡ true → Q x)
    → All P xs
    → All Q (filter p xs)
All-filter P Q p [] f h = tt
All-filter P Q p (x ∷ xs) f (q, h) = elim (Bool-cases (p x)) [
  | inl e ↦ rw e (f x q e, All-filter P Q p xs f h)
  | inr e ↦ rw e (All-filter P Q p xs f h)
]

All-of {ℓ κ} : {A : Type ℓ} (P : A → Type κ) (xs : List A) → ((x : A) → P x) → All P xs
All-of P [] f = tt
All-of P (x ∷ xs) f = (f x, All-of P xs f)

any-filter {ℓ} :
    {A : Type ℓ} (q p : A → Bool) (xs : List A) → any q (filter p xs) ≡ true → any q xs ≡ true
any-filter q p [] h = h
any-filter q p (x ∷ xs) h = ground (arith, any-filter q p xs)

filter_all {ℓ} :
    {A : Type ℓ} (p : A → Bool) (xs : List A) → ((x : A) → p x ≡ true) → filter p xs ≡ xs
filter_all p [] h = refl
filter_all p (x ∷ xs) h = rw (h x) (ap (λ ys. x ∷ ys) (filter_all p xs h))

-- An offer that the history allows: not to an agent who declined the call, and to one who missed it
-- only when every available member who did not decline it has missed it.
abbrev pub IsAllowed : History → List Member → Member → Type 0
IsAllowed h members m =
    (mem m.id h.declined ≡ false)
    × ((mem m.id h.missed ≡ false) ⊎ (any is_available (fresh h members) ≡ false))

abbrev IsUndeclined : History → Member → Type 0
IsUndeclined h m = mem m.id h.declined ≡ false

abbrev IsUntried : History → Member → Type 0
IsUntried h m = (mem m.id h.declined ≡ false) × (mem m.id h.missed ≡ false)

not_declined_sound :
    (h : History) (members : List Member) → All (IsUndeclined h) (not_declined h members)
unfolding not_declined
not_declined_sound h members =
    All-filter (λ m. Unit {0}) (IsUndeclined h) _ members (λ m _ e. ground arith)
      (All-of _ members (λ m. tt))

fresh_sound : (h : History) (members : List Member) → All (IsUntried h) (fresh h members)
unfolding fresh
fresh_sound h members =
    All-filter (IsUndeclined h) (IsUntried h) _ (not_declined h members)
      (λ m d e. (d, ground arith)) (not_declined_sound h members)

-- With nobody recorded, nobody is passed over.
nobody_missed :
    (h : History) (members : List Member)
    → is_empty h.missed ≡ true
    → fresh h members ≡ not_declined h members
unfolding fresh
nobody_missed h members e = filter_all _ (not_declined h members) (λ m. ground arith)

nobody_declined :
    (h : History) (members : List Member)
    → is_empty h.declined ≡ true
    → not_declined h members ≡ members
unfolding not_declined
nobody_declined h members e = filter_all _ members (λ m. ground arith)

pub All-weaken {ℓ κ μ} :
    {A : Type ℓ} (P : A → Type κ) (Q : A → Type μ) (xs : List A)
    → ((x : A) → P x → Q x)
    → All P xs
    → All Q xs
All-weaken P Q [] f h = tt
All-weaken P Q (x ∷ xs) f (p, h) = (f x p, All-weaken P Q xs f h)

fresh-IsAllowed :
    (h : History) (members : List Member) → All (IsAllowed h members) (fresh h members)
fresh-IsAllowed h members =
    All-weaken (IsUntried h) (IsAllowed h members) _ (λ m u. (u.0, inl u.1)) (fresh_sound h members)

everyone-IsAllowed :
    (h : History) (members : List Member)
    → is_empty h.declined ≡ true
    → is_empty h.missed ≡ true
    → All (IsAllowed h members) members
everyone-IsAllowed h members d m = All-of _ members (λ x. (ground arith, inl (ground arith)))

round-IsAllowed :
    (h : History) (members : List Member)
    → any is_available (fresh h members) ≡ false
    → All (IsAllowed h members) (not_declined h members)
round-IsAllowed h members e =
    All-weaken (IsUndeclined h) (IsAllowed h members) _ (λ m d. (d, inr e))
      (not_declined_sound h members)

-- Every member that the history lets a call be offered to is allowed it: they did not decline it, and
-- if they missed it then so did every available member who did not decline it.
pub eligible-IsAllowed :
    (h : History) (members : List Member) → All (IsAllowed h members) (eligible h members).0
unfolding eligible
eligible-IsAllowed h members = elim (Bool-cases (is_empty h.declined && is_empty h.missed)) [
  | inl none' ↦ rw none' (everyone-IsAllowed h members (ground arith) (ground arith))
  | inr some' ↦ elim (Bool-cases (is_empty h.missed || any is_available (fresh h members))) [
    | inl now ↦ rw (some', now) (fresh-IsAllowed h members)
    | inr again ↦ elim (Bool-cases (any is_available (not_declined h members))) [
      | inl yes' ↦ rw (some', again, yes') (round-IsAllowed h members (ground arith))
      | inr no' ↦ rw (some', again, no') (round-IsAllowed h members (ground arith))
    ]
  ]
]

any-fresh :
    (h : History) (members : List Member)
    → any is_available (fresh h members) ≡ true
    → any is_available (not_declined h members) ≡ true
unfolding fresh
any-fresh h members e =
    any-filter is_available (λ m. not (mem m.id h.missed)) (not_declined h members) e

-- The history never stops a call that somebody can take: among the members it may be offered to there
-- is an available one exactly if there is one among those who did not decline it.
pub eligible-available :
    (h : History) (members : List Member)
    → any is_available (eligible h members).0 ≡ any is_available (not_declined h members)
unfolding eligible
eligible-available h members =
    ground (arith, nobody_missed h members, nobody_declined h members, any-fresh h members)

pub record_offer-declined :
    (a : ℕ) (h : History) → mem a (record_offer a declined h).declined ≡ true
unfolding record_offer add
record_offer-declined a h = ground arith

-- What holds of all members holds of those that a call may be offered to.
pub eligible-All :
    (P : Member → Type 0) (h : History) (members : List Member)
    → All P members
    → All P (eligible h members).0
unfolding eligible fresh not_declined
eligible-All P h members all_of =
    let some_of = All-filter P P (λ m. not (mem m.id h.declined)) members (λ m p e. p) all_of in
    let few_of =
      All-filter P P (λ m. not (mem m.id h.missed)) (not_declined h members) (λ m p e. p) some_of in
    elim (Bool-cases (is_empty h.declined && is_empty h.missed)) [
      | inl a ↦ rw a all_of
      | inr a ↦ elim (Bool-cases (is_empty h.missed || any is_available (fresh h members))) [
        | inl b ↦ rw (a, b) few_of
        | inr b ↦ elim (Bool-cases (any is_available (not_declined h members))) [
          | inl c ↦ rw (a, b, c) some_of
          | inr c ↦ rw (a, b, c) some_of
        ]
      ]
    ]
