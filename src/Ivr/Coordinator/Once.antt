-- ===== src/Ivr/Coordinator/Once.antt =====
-- A call's IVR is started once, and what its end leaves behind.
use callio.Prelude.{
  ℕ, zero, suc, ◌+◌, ◌≤◌, ◌<◌, ◌≡◌, ◌≢◌, ◌⊎◌, refl, Bool, true, false, not, ◌&&◌, inl, inr, Option,
  none, some, List, [], ◌∷◌, ◌++◌, ◌==◌, arith, if◌then◌else◌, Option-cases,
}
use callio.Ivr.Coordinator.{
  Outcome, transferred, hung_up, timed_out, failed, Slot, reserved, running, Setup, Stop, Sessions,
  Act, engine_started, engine_resumed, put_slot, mark, start_session, establish, nth, without,
  set_up_next, stop_session, finish_stop, finish_next, guard_setups, on_terminated, on_complete,
  completions, silence, listen, unlisten, on_ivr_complete, replay, Event, starts, set_up, stops,
  goes_on, terminated, replays, completes, step, steps, no_sessions,
}

module _ (id : ℕ) where
  abbrev starts_it : Act → ℕ
  starts_it (engine_started j) = if j == id then 1 else 0
  starts_it (engine_resumed j) = if j == id then 1 else 0
  starts_it _ = 0

  -- How often the call's engine is started on a flow, anew or where another worker left it.
  unfoldable pub started : List Act → ℕ
  started [] = 0
  started (a ∷ acts) = starts_it a + started acts

  unfoldable pub waiting : List Setup → ℕ
  waiting [] = 0
  waiting (u ∷ us) = (if u.call_id == id then 1 else 0) + waiting us

  unfoldable pub being_stopped : List Stop → ℕ
  being_stopped [] = 0
  being_stopped (t ∷ ts) = (if t.call_id == id then 1 else 0) + being_stopped ts

  started-append : (xs ys : List Act) → started (xs ++ ys) ≡ started xs + started ys
  unfolding started
  started-append [] ys = omega arith
  started-append (x ∷ xs) ys = omega (arith, started-append xs ys)

  abbrev is_running : Option Slot → Bool
  is_running none = false
  is_running (some reserved) = false
  is_running (some (running k o)) = true

  abbrev is_reserved : Option Slot → Bool
  is_reserved (some reserved) = true
  is_reserved _ = false

  -- After `n` starts: at most one start is done or waits; one that waits has its reservation, and is not
  -- latched; one that is done runs or is latched; and a stop that waits has latched.
  record StartedBy (n : ℕ) (s : Sessions) : Type 0 where
    one : n + waiting s.setups ≤ 1
    kept : 0 < waiting s.setups → (is_reserved (s.slots id) ≡ true) × (s.finished id ≡ false)
    done : 0 < n → (is_running (s.slots id) ≡ true) ⊎ (s.finished id ≡ true)
    latched : 0 < being_stopped s.stopping → s.finished id ≡ true

  waiting-without :
      (n : ℕ) (us : List Setup) (u : Setup)
      → nth n us ≡ some u
      → waiting us ≡ (if u.call_id == id then 1 else 0) + waiting (without n us)
  unfolding waiting
  waiting-without n [] u h = absurd (cc)
  waiting-without zero (v ∷ us) u h = ground arith
  waiting-without (suc n) (v ∷ us) u h = omega (arith, waiting-without n us u h)

  stopped-without :
      (n : ℕ) (ts : List Stop) (t : Stop)
      → nth n ts ≡ some t
      → being_stopped ts ≡ (if t.call_id == id then 1 else 0) + being_stopped (without n ts)
  unfolding being_stopped
  stopped-without n [] t h = absurd (cc)
  stopped-without zero (v ∷ ts) t h = ground arith
  stopped-without (suc n) (v ∷ ts) t h = omega (arith, stopped-without n ts t h)

  waiting-guard : (j : ℕ) (us : List Setup) → waiting (guard_setups j us) ≡ waiting us
  unfolding waiting guard_setups
  waiting-guard j [] = refl
  waiting-guard j (u ∷ us) = ground (arith, waiting-guard j us)

  start_keeps :
      (n j : ℕ) (resumes : Bool) (s : Sessions)
      → StartedBy n s
      → StartedBy n (start_session j resumes s)
  unfolding start_session put_slot waiting
  start_keeps n j resumes s h = ground arith

  establish_keeps :
      (n : ℕ) (u : Setup) (found : Bool) (k : ℕ) (s : Sessions)
      → n + ((if u.call_id == id then 1 else 0) + waiting s.setups) ≤ 1
      → (u.call_id ≡ id → (is_reserved (s.slots id) ≡ true) × (s.finished id ≡ false))
      → (0 < waiting s.setups → (is_reserved (s.slots id) ≡ true) × (s.finished id ≡ false))
      → (0 < n → (is_running (s.slots id) ≡ true) ⊎ (s.finished id ≡ true))
      → (0 < being_stopped s.stopping → s.finished id ≡ true)
      → StartedBy (n + started (establish u found k s).1) (establish u found k s).0
  unfolding establish put_slot listen started
  establish_keeps n u found k s one own kept done latched = ground arith

  stop_keeps :
      (n j : ℕ) (outcome : Outcome) (tells : Option Outcome) (s : Sessions)
      → StartedBy n s
      → StartedBy
          (n + started (stop_session j outcome tells s).1)
          (stop_session j outcome tells s).0
  unfolding stop_session put_slot mark unlisten started being_stopped
  stop_keeps n j outcome tells s h = ground arith

  set_up_keeps :
      (n m : ℕ) (found : Bool) (k : ℕ) (s : Sessions)
      → StartedBy n s
      → StartedBy (n + started (set_up_next m found k s).1) (set_up_next m found k s).0
  unfolding set_up_next started
  set_up_keeps n m found k s h = elim (Option-cases (nth m s.setups)) [
    | inl e ↦ ground arith
    | inr (u, e) ↦
        let split = waiting-without m s.setups u e in
        rw (set_up_next, e)
          (establish_keeps n u found k (record s { setups = without m s.setups })
            (omega (arith, h.one, split)) (λ own. ground arith) (λ more. ground arith) h.done
            h.latched)
  ]

  finish_keeps :
      (n m : ℕ) (s : Sessions)
      → StartedBy n s
      → StartedBy (n + started (finish_next m s).1) (finish_next m s).0
  unfolding finish_next finish_stop put_slot started
  finish_keeps n m s h = elim (Option-cases (nth m s.stopping)) [
    | inl e ↦ ground arith
    | inr (t, e) ↦ let split = stopped-without m s.stopping t e in ground arith
  ]

  guard_keeps :
      (n j : ℕ) (s : Sessions)
      → j ≢ id
      → StartedBy n s
      → StartedBy n (record (mark j false s) { setups = guard_setups j s.setups })
  unfolding mark
  guard_keeps n j s other h = ground (arith, waiting-guard j s.setups)

  over_keeps :
      (n j : ℕ) (s : Sessions)
      → j ≢ id
      → StartedBy n s
      → StartedBy (n + started (on_terminated j s).1) (on_terminated j s).0
  unfolding on_terminated mark unlisten started
  over_keeps n j s other h =
      let kept = guard_keeps n j s other h in
      let stopped =
        stop_keeps n j hung_up (some hung_up)
          (unlisten j (record (mark j false s) { setups = guard_setups j s.setups }))
          (ground arith) in
      ground arith

  outcome_keeps :
      (n j : ℕ) (outcome : Outcome) (s : Sessions)
      → StartedBy n s
      → StartedBy (n + started (on_complete j outcome s).1) (on_complete j outcome s).0
  unfolding on_complete started
  outcome_keeps n j transferred s h = ground arith
  outcome_keeps n j hung_up s h = stop_keeps n j hung_up (some hung_up) s h
  outcome_keeps n j timed_out s h = stop_keeps n j timed_out (some timed_out) s h
  outcome_keeps n j failed s h = stop_keeps n j failed (some failed) s h

  completions_keep :
      (m n j : ℕ) (outcome : Outcome) (s : Sessions)
      → StartedBy n s
      → StartedBy (n + started (completions m j outcome s).1) (completions m j outcome s).0
  unfolding completions started
  completions_keep zero n j outcome s h = let same : n + 0 ≡ n = omega arith in rw same h
  completions_keep (suc m) n j outcome s h =
      let kept = outcome_keeps n j outcome s h in
      let (after, first) = on_complete j outcome s in
      let rest = completions_keep m (n + started first) j outcome after kept in
      let split = started-append first (completions m j outcome after).1 in ground arith

  complete_keeps :
      (n j : ℕ) (outcome : Outcome) (s : Sessions)
      → StartedBy n s
      → StartedBy (n + started (on_ivr_complete j outcome s).1) (on_ivr_complete j outcome s).0
  unfolding on_ivr_complete silence
  complete_keeps n j outcome s h =
      completions_keep (s.listeners j) n j outcome (silence j s) (ground arith)

  replay_keeps :
      (n j : ℕ) (s : Sessions)
      → StartedBy n s
      → StartedBy (n + started (replay j s).1) (replay j s).0
  unfolding replay listen started
  replay_keeps n j s h = ground arith

  -- The events before the call's end.
  unfoldable pub precedes_end : List Event → Bool
  precedes_end [] = true
  precedes_end (terminated j ∷ es) = not (j == id) && precedes_end es
  precedes_end (starts _ _ ∷ es) = precedes_end es
  precedes_end (set_up _ _ _ ∷ es) = precedes_end es
  precedes_end (stops _ _ ∷ es) = precedes_end es
  precedes_end (goes_on _ ∷ es) = precedes_end es
  precedes_end (replays _ ∷ es) = precedes_end es
  precedes_end (completes _ _ ∷ es) = precedes_end es

  step_keeps :
      (n : ℕ) (e : Event) (es : List Event) (s : Sessions)
      → precedes_end (e ∷ es) ≡ true
      → StartedBy n s
      → StartedBy (n + started (step e s).1) (step e s).0 × (precedes_end es ≡ true)
  unfolding step precedes_end started
  step_keeps n (starts j resumes) es s quiet h =
      let same : n + 0 ≡ n = omega arith in (rw same (start_keeps n j resumes s h), quiet)
  step_keeps n (set_up m found k) es s quiet h = (set_up_keeps n m found k s h, quiet)
  step_keeps n (stops j outcome) es s quiet h = (stop_keeps n j outcome none s h, quiet)
  step_keeps n (goes_on m) es s quiet h = (finish_keeps n m s h, quiet)
  step_keeps n (terminated j) es s quiet h = (over_keeps n j s (λ e. ground arith) h, ground arith)
  step_keeps n (completes j outcome) es s quiet h = (complete_keeps n j outcome s h, quiet)
  step_keeps n (replays j) es s quiet h = (replay_keeps n j s h, quiet)

  steps_keep :
      (n : ℕ) (es : List Event) (s : Sessions)
      → precedes_end es ≡ true
      → StartedBy n s
      → n + started (steps es s).1 ≤ 1
  unfolding steps started
  steps_keep n [] s quiet h = omega (arith, h.one)
  steps_keep n (e ∷ es) s quiet h =
      let (kept, still) = step_keeps n e es s quiet h in
      omega (
        arith,
        steps_keep (n + started (step e s).1) es (step e s).0 still kept,
        started-append (step e s).1 (steps es (step e s).0).1,
      )

-- Over any events up to a call's end, in whatever order starts, setups, stops and completions come in, one
-- worker starts the call's IVR engine on its flow, or resumes it there, at most once; a replay, which
-- restarts the engine it has, is not counted.
pub started_once :
    (id : ℕ) (es : List Event) → precedes_end id es ≡ true → started id (steps es no_sessions).1 ≤ 1
unfolding waiting being_stopped
started_once id es quiet =
    let none_yet : StartedBy id 0 no_sessions = record {
      one = omega arith;
      kept = λ h. ground arith;
      done = λ h. ground arith;
      latched = λ h. ground arith;
    } in
    omega (arith, steps_keep id 0 es no_sessions quiet none_yet)

module _ (id : ℕ) where
  stop-finished :
      (j : ℕ) (outcome : Outcome) (tells : Option Outcome) (s : Sessions)
      → s.finished id ≡ true
      → (stop_session j outcome tells s).0.finished id ≡ true
  unfolding stop_session put_slot mark unlisten
  stop-finished j outcome tells s h = ground arith

  complete-finished :
      (j : ℕ) (outcome : Outcome) (s : Sessions)
      → s.finished id ≡ true
      → (on_complete j outcome s).0.finished id ≡ true
  unfolding on_complete
  complete-finished j transferred s h = h
  complete-finished j hung_up s h = stop-finished j hung_up (some hung_up) s h
  complete-finished j timed_out s h = stop-finished j timed_out (some timed_out) s h
  complete-finished j failed s h = stop-finished j failed (some failed) s h

  completions-finished :
      (m j : ℕ) (outcome : Outcome) (s : Sessions)
      → s.finished id ≡ true
      → (completions m j outcome s).0.finished id ≡ true
  unfolding completions
  completions-finished zero j outcome s h = h
  completions-finished (suc m) j outcome s h =
      completions-finished m j outcome (on_complete j outcome s).0 (complete-finished j outcome s h)

  heard-finished :
      (j : ℕ) (outcome : Outcome) (s : Sessions)
      → s.finished id ≡ true
      → (on_ivr_complete j outcome s).0.finished id ≡ true
  unfolding on_ivr_complete silence
  heard-finished j outcome s h = completions-finished (s.listeners j) j outcome (silence j s) h

  step-finished :
      (e : Event) (es : List Event) (s : Sessions)
      → precedes_end id (e ∷ es) ≡ true
      → s.finished id ≡ true
      → (step e s).0.finished id ≡ true × (precedes_end id es ≡ true)
  unfolding step precedes_end start_session set_up_next establish put_slot mark finish_next
      finish_stop on_terminated on_ivr_complete replay listen unlisten
  step-finished (starts j resumes) es s quiet h = (ground arith, quiet)
  step-finished (set_up m found k) es s quiet h = (ground arith, quiet)
  step-finished (stops j outcome) es s quiet h = (stop-finished j outcome none s h, quiet)
  step-finished (goes_on m) es s quiet h = (ground arith, quiet)
  step-finished (terminated j) es s quiet h = (grind (arith, stop-finished), ground arith)
  step-finished (completes j outcome) es s quiet h = (heard-finished j outcome s h, quiet)
  step-finished (replays j) es s quiet h = (ground arith, quiet)

  steps-finished :
      (es : List Event) (s : Sessions)
      → precedes_end id es ≡ true
      → s.finished id ≡ true
      → (steps es s).0.finished id ≡ true
  unfolding steps
  steps-finished [] s quiet h = h
  steps-finished (e ∷ es) s quiet h =
      let (kept, still) = step-finished e es s quiet h in steps-finished es (step e s).0 still kept

-- Where a call ends while its IVR session runs and hears of the end, the call stays marked as finished,
-- whatever the worker does afterwards: only another `call:terminated` of the same call would unmark it.
pub latch_outlives :
    (id k : ℕ) (s : Sessions) (es : List Event)
    → s.slots id ≡ some (running k true)
    → precedes_end id es ≡ true
    → (steps (terminated id ∷ es) s).0.finished id ≡ true
unfolding steps step on_terminated stop_session put_slot mark unlisten
latch_outlives id k s es at quiet = steps-finished id es (on_terminated id s).0 quiet (ground arith)
