-- ===== src/Cluster/Deadlines/Once.antt =====
-- A deadline is run at most once for each time it was set, by whichever workers tick.
use callio.Prelude.{
  ℕ, zero, suc, ◌+◌, ◌≤◌, ◌≡◌, ◌⊎◌, refl, String, Bool, true, false, ◌&&◌, inl, inr, List, [], ◌∷◌,
  ◌++◌, ◌==◌, ◌===◌, leb, filter, take, arith, if◌then◌else◌, Bool-cases, eq_iff,
}
use callio.Cluster.Deadlines.{
  Entry, is_member, place, zrem, set, clear, clear_call, batch, due_entries, remove_all, claim, Run,
  runs_of, tick,
}

pub data Step : Type 0 where
  sets : String → ℕ → ℕ → Step
  clears : String → ℕ → Step
  clears_call : List String → ℕ → Step
  ticks : List String → Step

module _ (is_before : Entry → Entry → Bool) where
  unfoldable pub step : ℕ → Step → List Entry → List Entry × List Run
  step now (sets kind id in_ms) es = (set is_before now kind id in_ms es, [])
  step now (clears kind id) es = (clear kind id es, [])
  step now (clears_call kinds id) es = (clear_call kinds id es, [])
  step now (ticks kinds) es = tick kinds now es

  -- The commands of all workers in the order in which Redis runs them, with what the ticks start.
  unfoldable pub steps : List (ℕ × Step) → List Entry → List Entry × List Run
  steps [] es = (es, [])
  steps ((now, s) ∷ ss) es =
      let (after, first) = step now s es in
      let (last, rest) = steps ss after in (last, first ++ rest)

module _ (kind : String) (id : ℕ) where
  unfoldable pub pending : List Entry → ℕ
  pending [] = 0
  pending (e ∷ es) = (if is_member kind id e then 1 else 0) + pending es

  unfoldable pub runs : List Run → ℕ
  runs [] = 0
  runs (r ∷ rs) = (if r.kind === kind && r.call_id == id then 1 else 0) + runs rs

  abbrev is_set : Step → Bool
  is_set (sets k i in_ms) = k === kind && i == id
  is_set _ = false

  unfoldable pub times_set : List (ℕ × Step) → ℕ
  times_set [] = 0
  times_set ((now, s) ∷ ss) = (if is_set s then 1 else 0) + times_set ss

  runs-append : (rs qs : List Run) → runs (rs ++ qs) ≡ runs rs + runs qs
  unfolding runs
  runs-append [] qs = omega arith
  runs-append (r ∷ rs) qs = omega (arith, runs-append rs qs)

  pending-filter : (p : Entry → Bool) (es : List Entry) → pending (filter p es) ≤ pending es
  unfolding pending
  pending-filter p [] = omega arith
  pending-filter p (e ∷ es) = ground (arith, pending-filter p es)

  pending-take : (n : ℕ) (es : List Entry) → pending (take n es) ≤ pending es
  unfolding pending
  pending-take zero es = omega arith
  pending-take (suc n) [] = omega arith
  pending-take (suc n) (e ∷ es) = omega (arith, pending-take n es)

  pending-place :
      (before : Entry → Entry → Bool) (e : Entry) (es : List Entry)
      → pending (place before e es) ≡ (if is_member kind id e then 1 else 0) + pending es
  unfolding pending place
  pending-place before e [] = refl
  pending-place before e (f ∷ fs) = ground (arith, pending-place before e fs)

  pending-zrem : (k : String) (i : ℕ) (es : List Entry) → pending (zrem k i es) ≤ pending es
  unfolding zrem
  pending-zrem k i es = pending-filter _ es

  pending-zrem_self : (es : List Entry) → pending (zrem kind id es) ≡ 0
  unfolding zrem pending
  pending-zrem_self [] = refl
  pending-zrem_self (e ∷ es) = ground (arith, pending-zrem_self es)

  pending-clear_call :
      (kinds : List String) (i : ℕ) (es : List Entry) → pending (clear_call kinds i es) ≤ pending es
  unfolding clear_call
  pending-clear_call [] i es = omega arith
  pending-clear_call (k ∷ kinds) i es =
      omega (arith, pending-clear_call kinds i (zrem k i es), pending-zrem k i es)

  pending-remove_all : (ds es : List Entry) → pending (remove_all ds es) ≤ pending es
  unfolding remove_all
  pending-remove_all [] es = omega arith
  pending-remove_all (d ∷ ds) es =
      omega
        (arith, pending-remove_all ds (zrem d.kind d.call_id es), pending-zrem d.kind d.call_id es)

  pending-zrem_member :
      (d : Entry) (es : List Entry)
      → is_member kind id d ≡ true
      → pending (zrem d.kind d.call_id es) ≡ 0
  pending-zrem_member d es h =
      let same_kind : d.kind ≡ kind = ground (arith, eq_iff d.kind kind) in
      let same_id : d.call_id ≡ id = ground arith in cc (pending-zrem_self es)

  -- A member that was claimed is no longer in the set.
  pending-removed : (ds es : List Entry) → (pending ds ≡ 0) ⊎ (pending (remove_all ds es) ≡ 0)
  unfolding pending remove_all
  pending-removed [] es = inl refl
  pending-removed (d ∷ ds) es = elim (Bool-cases (is_member kind id d)) [
    | inl hit ↦ inr (
        omega
          (arith, pending-remove_all ds (zrem d.kind d.call_id es), pending-zrem_member d es hit))
    | inr miss ↦ elim (pending-removed ds (zrem d.kind d.call_id es)) [
      | inl absent ↦ inl (ground arith)
      | inr gone ↦ inr gone
    ]
  ]

  runs_of-le : (kinds : List String) (es : List Entry) → runs (runs_of kinds es) ≤ pending es
  unfolding runs runs_of pending
  runs_of-le kinds [] = omega arith
  runs_of-le kinds (e ∷ es) = ground (arith, runs_of-le kinds es)

  due-le : (now : ℕ) (es : List Entry) → pending (due_entries now es) ≤ pending es
  unfolding due_entries
  due-le now es = omega (
    arith,
    pending-take batch (filter (λ e. leb e.due now) es),
    pending-filter (λ e. leb e.due now) es,
  )

  tick_spends :
      (kinds : List String) (now : ℕ) (es : List Entry)
      → runs (tick kinds now es).1 + pending (tick kinds now es).0 ≤ pending es
  unfolding tick claim
  tick_spends kinds now es =
      let due = due_entries now es in
      let claimed : pending due ≤ pending es = due-le now es in
      let left = pending-remove_all due es in
      let run = runs_of-le kinds due in
      elim (pending-removed due es) [ inl absent ↦ omega arith | inr gone ↦ omega arith ]

  step_spends :
      (before : Entry → Entry → Bool) (now : ℕ) (s : Step) (es : List Entry)
      → runs (step before now s es).1 + pending (step before now s es).0
        ≤ (if is_set s then 1 else 0) + pending es
  unfolding step set clear runs
  step_spends before now (sets k i in_ms) es =
      let new : Entry = record { kind = k; call_id = i; due = now + in_ms } in
      omega (arith, pending-place before new (zrem k i es), pending-zrem k i es)
  step_spends before now (clears k i) es = omega (arith, pending-zrem k i es)
  step_spends before now (clears_call kinds i) es = omega (arith, pending-clear_call kinds i es)
  step_spends before now (ticks kinds) es = omega (arith, tick_spends kinds now es)

  -- However the workers set, clear and tick, and whichever handlers each of them has: the handler of a
  -- deadline runs at most as often as the deadline was set, and once more if it was pending at first.
  -- Two workers never run the same one.
  pub runs_once_per_set :
      (before : Entry → Entry → Bool) (ss : List (ℕ × Step)) (es : List Entry)
      → runs (steps before ss es).1 + pending (steps before ss es).0 ≤ times_set ss + pending es
  unfolding steps times_set runs
  runs_once_per_set before [] es = omega arith
  runs_once_per_set before ((now, s) ∷ ss) es =
      let (after, first) = step before now s es in
      omega (
        arith,
        runs-append first (steps before ss after).1,
        step_spends before now s es,
        runs_once_per_set before ss after,
      )
