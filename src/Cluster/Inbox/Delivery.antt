-- ===== src/Cluster/Inbox/Delivery.antt =====
-- No input of a call is passed over, whoever runs the call: infra/cluster/CallInbox.js.
use callio.Prelude.{
  ℕ, ◌<◌, ◌≤◌, ◌≡◌, refl, ap, inl, inr, Bool, true, ◌&&◌, ◌||◌, some, List, [], ◌∷◌, ◌++◌, ◌==◌,
  ltb, any, filter, find, All, arith, Bool-cases,
}
use callio.Cluster.Inbox.{
  Delivered, Entry, Inbox, Reader, advance, deliver_to, entries_after, is_of, last_of, set_handler,
}

abbrev pub is_posted : ℕ → List Entry → Bool
is_posted j es = any (λ e. e.id == j) es

abbrev pub was_delivered : ℕ → List Delivered → Bool
was_delivered j ds = any (λ d. d.id == j) ds

-- All entries up to an id have been delivered.
abbrev pub UpTo : ℕ → List Entry → List Delivered → Type 0
UpTo k es ds = (j : ℕ) → is_posted j es ≡ true → j ≤ k → was_delivered j ds ≡ true

abbrev pub Fits : ℕ → List Entry → List Delivered → ℕ → Type 0
Fits n es ds k = (k < n) × UpTo k es ds

abbrev pub AllFit : ℕ → List Entry → List Delivered → List Reader → Type 0
AllFit n es ds rs = All (λ r. Fits n es ds r.last_id) rs

-- The invariant: what the cursor and each reader have behind them was delivered, and so was every entry
-- before one that was.
pub record Sound (s : Inbox) : Type 0 where
  pub cursor_fits : Fits s.next_id s.entries s.delivered s.cursor
  pub readers_fit : AllFit s.next_id s.entries s.delivered s.readers
  pub delivered_known : (i : ℕ) → was_delivered i s.delivered ≡ true → i < s.next_id
  pub posted_known : (j : ℕ) → is_posted j s.entries ≡ true → j < s.next_id
  pub in_order :
      (i j : ℕ)
      → was_delivered i s.delivered ≡ true
      → is_posted j s.entries ≡ true
      → j ≤ i
      → was_delivered j s.delivered ≡ true

pub posted-append :
    (j : ℕ) (es fs : List Entry) → is_posted j (es ++ fs) ≡ (is_posted j es || is_posted j fs)
posted-append j [] fs = refl
posted-append j (e ∷ es) fs = ground (arith, posted-append j es fs)

pub delivered-append :
    (j : ℕ) (es fs : List Delivered)
    → was_delivered j (es ++ fs) ≡ (was_delivered j es || was_delivered j fs)
delivered-append j [] fs = refl
delivered-append j (e ∷ es) fs = ground (arith, delivered-append j es fs)

pub delivered-deliver_to :
    (j w : ℕ) (es : List Entry) → was_delivered j (deliver_to w es) ≡ is_posted j es
unfolding deliver_to
delivered-deliver_to j w [] = refl
delivered-deliver_to j w (e ∷ es) = ap (λ b. e.id == j || b) (delivered-deliver_to j w es)

pub posted-entries_after :
    (j k : ℕ) (es : List Entry) → is_posted j (entries_after k es) ≡ (is_posted j es && ltb k j)
unfolding entries_after
posted-entries_after j k [] = refl
posted-entries_after j k (e ∷ es) = ground (arith, posted-entries_after j k es)

pub last_of-bound :
    (k n : ℕ) (es : List Entry)
    → ((j : ℕ) → is_posted j es ≡ true → j < n)
    → k < n
    → last_of k es < n
unfolding last_of
last_of-bound k n [] h l = l
last_of-bound k n (e ∷ es) h l =
    last_of-bound e.id n es (λ j p. h j (ground (arith, p))) (h e.id (ground arith))

-- The readers' property, through what changes them.
module _ (n : ℕ) (es : List Entry) (ds : List Delivered) where
  pub set_handler-AllFit :
      (w : ℕ) (rs : List Reader) → AllFit n es ds rs → AllFit n es ds (set_handler w rs)
  unfolding set_handler
  set_handler-AllFit w [] h = tt
  set_handler-AllFit w (r ∷ rs) (f, h) = elim (Bool-cases (is_of w r)) [
    | inl e ↦ rw e (f, set_handler-AllFit w rs h)
    | inr e ↦ rw e (f, set_handler-AllFit w rs h)
  ]

  pub advance-AllFit :
      (w k : ℕ) (rs : List Reader)
      → Fits n es ds k
      → AllFit n es ds rs
      → AllFit n es ds (advance w k rs)
  unfolding advance
  advance-AllFit w k [] g h = tt
  advance-AllFit w k (r ∷ rs) g (f, h) = elim (Bool-cases (is_of w r)) [
    | inl e ↦ rw e (g, advance-AllFit w k rs g h)
    | inr e ↦ rw e (f, advance-AllFit w k rs g h)
  ]

  pub filter-AllFit :
      (p : Reader → Bool) (rs : List Reader) → AllFit n es ds rs → AllFit n es ds (filter p rs)
  filter-AllFit p [] h = tt
  filter-AllFit p (r ∷ rs) (f, h) = elim (Bool-cases (p r)) [
    | inl e ↦ rw e (f, filter-AllFit p rs h)
    | inr e ↦ rw e (filter-AllFit p rs h)
  ]

  pub find-AllFit :
      (p : Reader → Bool) (rs : List Reader) (r : Reader)
      → AllFit n es ds rs
      → find p rs ≡ some r
      → Fits n es ds r.last_id
  find-AllFit p [] r h e = absurd (cc)
  find-AllFit p (x ∷ xs) r (f, h) e = elim (Bool-cases (p x)) [
    | inl q ↦ let same : x ≡ r = cc (rw q at e) in rw same at f
    | inr q ↦ find-AllFit p xs r h (rw q at e)
  ]

  pub weaken-AllFit :
      (m : ℕ) (fs : List Entry) (gs : List Delivered) (rs : List Reader)
      → ((k : ℕ) → Fits n es ds k → Fits m fs gs k)
      → AllFit n es ds rs
      → AllFit m fs gs rs
  weaken-AllFit m fs gs [] f h = tt
  weaken-AllFit m fs gs (r ∷ rs) f (g, h) = (f r.last_id g, weaken-AllFit m fs gs rs f h)
