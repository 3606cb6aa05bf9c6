-- ===== src/Lifecycle/NetworkLoss/Pending.antt =====
-- What a pending end of a call says of its customer's silence.
use callio.Prelude.{
  ltb, ℕ, ◌+◌, ◌≤◌, ◌≡◌, refl, String, Bool, true, false, ◌&&◌, ◌||◌, inl, inr, Option, none, some,
  List, [], ◌∷◌, ◌==◌, filter, take, zero, suc, All, arith, if◌then◌else◌, Bool-cases, Option-cases,
}
use native.Mathlib.Nat.{le_refl}
use callio.Cluster.Deadlines.{Entry, is_member, place, zrem, set, clear, remove_all, claim, tick}
use callio.Lifecycle.NetworkLoss.{
  warn_after_ms, end_after_ms, warn_kind, end_kind, MediaState, drop, active, cancel,
  on_media_state, Event, heard, call_over, ticked, rows_changed, Loss, handle, goes_on, nth,
}

-- Since when a call's deadlines stand, as its reports have been handled: the last drop for which they were set,
-- with no report handled since that the audio is back or the call over.
unfoldable pub silent_since : ℕ → ℕ → Event → Loss → Option ℕ → Option ℕ
silent_since id now (heard j state) s since = since
silent_since id now (goes_on n) s since = elim (nth n s.waiting) [
  | none ↦ since
  | some (j, state) ↦ if j == id then elim state [ drop ↦ some now | active ↦ none ] else since
]
silent_since id now (call_over j) s since = if j == id then none else since
silent_since id now ticked s since = since
silent_since id now (rows_changed db) s since = since

module _ (before : Entry → Entry → Bool) where
  -- Everything that happens, in order.
  unfoldable pub run : List (ℕ × Event) → Loss → Loss
  run [] s = s
  run ((now, e) ∷ es) s = run es (handle before now e s).0

  unfoldable pub silence : ℕ → List (ℕ × Event) → Loss → Option ℕ → Option ℕ
  silence id [] s since = since
  silence id ((now, e) ∷ es) s since =
      silence id es (handle before now e s).0 (silent_since id now e s since)

-- The end of a call that is pending is due when its customer has been silent for the grace period.
abbrev pub IsDue : ℕ → Option ℕ → Entry → Type 0
IsDue id since e =
    is_member end_kind id e ≡ true → (t : ℕ) × (since ≡ some t) × (t + end_after_ms ≤ e.due)

abbrev IsOther : ℕ → Entry → Type 0
IsOther id e = is_member end_kind id e ≡ false

module _ (P : Entry → Type 0) where
  All-filter : (p : Entry → Bool) (es : List Entry) → All P es → All P (filter p es)
  All-filter p [] h = tt
  All-filter p (e ∷ es) (h, hs) = elim (Bool-cases (p e)) [
    | inl on ↦ rw on (h, All-filter p es hs)
    | inr off ↦ rw off (All-filter p es hs)
  ]

  pub All-take : (n : ℕ) (es : List Entry) → All P es → All P (take n es)
  All-take zero es h = tt
  All-take (suc n) [] h = tt
  All-take (suc n) (e ∷ es) (h, hs) = (h, All-take n es hs)

  All-place :
      (before : Entry → Entry → Bool) (e : Entry) (es : List Entry)
      → P e
      → All P es
      → All P (place before e es)
  unfolding place
  All-place before e [] h hs = (h, tt)
  All-place before e (f ∷ fs) h (hf, hs) =
      elim (Bool-cases (ltb e.due f.due || (e.due == f.due && before e f))) [
        | inl first ↦ rw first (h, (hf, hs))
        | inr later ↦ rw later (hf, All-place before e fs h hs)
      ]

  All-zrem : (k : String) (i : ℕ) (es : List Entry) → All P es → All P (zrem k i es)
  unfolding zrem
  All-zrem k i es h = All-filter _ es h

  All-remove_all : (ds es : List Entry) → All P es → All P (remove_all ds es)
  unfolding remove_all
  All-remove_all [] es h = h
  All-remove_all (d ∷ ds) es h = All-remove_all ds _ (All-zrem d.kind d.call_id es h)

All-map : (P Q : Entry → Type 0) (es : List Entry) → ((e : Entry) → P e → Q e) → All P es → All Q es
All-map P Q [] f h = tt
All-map P Q (e ∷ es) f (h, hs) = (f e h, All-map P Q es f hs)

-- After its removal the end of a call is not pending.
zrem-Other : (id : ℕ) (es : List Entry) → All (IsOther id) (zrem end_kind id es)
unfolding zrem
zrem-Other id [] = tt
zrem-Other id (e ∷ es) = elim (Bool-cases (is_member end_kind id e)) [
  | inl hit ↦ rw hit (zrem-Other id es)
  | inr miss ↦ rw miss (miss, zrem-Other id es)
]

Other-IsDue : (id : ℕ) (since : Option ℕ) (e : Entry) → IsOther id e → IsDue id since e
Other-IsDue id since e other hit = absurd (cc)

module _ (id : ℕ) (before : Entry → Entry → Bool) (now : ℕ) (since : Option ℕ) where
  cancel-IsDue :
      (j : ℕ) (es : List Entry)
      → All (IsDue id since) es
      → All (IsDue id (if j == id then none else since)) (cancel j es)
  unfolding cancel clear
  cancel-IsDue j es h = elim (Bool-cases (j == id)) [
    | inl same ↦
        let e : j ≡ id = ground arith in
        rw (same, e) (All-map _ _ _ (Other-IsDue id none) (zrem-Other id _))
    | inr apart ↦ rw apart (All-zrem _ _ _ _ (All-zrem _ _ _ _ h))
  ]

  drop-IsDue :
      (j : ℕ) (es : List Entry)
      → All (IsDue id since) es
      → All
          (IsDue id (if j == id then some now else since))
          (set before now end_kind j end_after_ms (set before now warn_kind j warn_after_ms es))
  unfolding set
  drop-IsDue j es h =
      let w : Entry = record { kind = warn_kind; call_id = j; due = now + warn_after_ms } in
      let e : Entry = record { kind = end_kind; call_id = j; due = now + end_after_ms } in
      let others : All (IsDue id since) (place before w (zrem warn_kind j es)) =
        All-place _ before w _ (λ hit. absurd (cc)) (All-zrem _ warn_kind j es h) in
      elim (Bool-cases (j == id)) [
        | inl same ↦
            let one : j ≡ id = ground arith in
            rw (same, one)
              (All-place _ before _ _ (λ hit. (now, refl, le_refl _))
                (All-map _ _ _ (Other-IsDue id (some now)) (zrem-Other id _)))
        | inr apart ↦
            rw apart (
              All-place _ before e _ (λ hit. absurd (ground arith))
                (All-zrem _ end_kind j _ others))
      ]

  heard-IsDue :
      (j : ℕ) (state : MediaState) (es : List Entry)
      → All (IsDue id since) es
      → All
          (IsDue id (if j == id then elim state [ drop ↦ some now | active ↦ none ] else since))
          (on_media_state before now j state es)
  unfolding on_media_state
  heard-IsDue j drop es h = drop-IsDue j es h
  heard-IsDue j active es h = cancel-IsDue j es h

  handle-IsDue :
      (e : Event) (s : Loss)
      → All (IsDue id since) s.deadlines
      → All (IsDue id (silent_since id now e s since)) (handle before now e s).0.deadlines
  unfolding handle silent_since tick claim
  handle-IsDue (heard j state) s h = h
  handle-IsDue (goes_on n) s h = elim (Option-cases (nth n s.waiting)) [
    | inl e ↦ rw (handle, silent_since, e) h
    | inr ((j, state), e) ↦ rw (handle, silent_since, e) (heard-IsDue j state s.deadlines h)
  ]
  handle-IsDue (call_over j) s h = cancel-IsDue j s.deadlines h
  handle-IsDue ticked s h = All-remove_all _ _ _ h
  handle-IsDue (rows_changed db) s h = h

pub run-IsDue :
    (id : ℕ) (before : Entry → Entry → Bool) (es : List (ℕ × Event)) (s : Loss) (since : Option ℕ)
    → All (IsDue id since) s.deadlines
    → All (IsDue id (silence before id es s since)) (run before es s).deadlines
unfolding run silence
run-IsDue id before [] s since h = h
run-IsDue id before ((now, e) ∷ es) s since h =
    run-IsDue id before es (handle before now e s).0 (silent_since id now e s since)
      (handle-IsDue id before now since e s h)
