-- ===== src/Ivr/Coordinator.antt =====
-- core/ivr/IvrCoordinator.js: the IVR sessions of one worker, and core/ivr/IvrTerminationHandler.js. The bus
-- runs the listeners of an event in the order in which they were added; what follows an `await` is an event
-- of its own: a session that is set up, and the rest of a stop. Log records, durations, the audio of nodes,
-- the position that is saved for another worker, the engine's notifications and `suspendAll` of a shutdown
-- are left out.

mod Tests
pub mod Once
use callio.Prelude.{
  ℕ, zero, suc, ◌-◌, Bool, true, false, not, ◌&&◌, Option, none, some, List, [], ◌∷◌, ◌++◌, ◌==◌,
  if◌then◌else◌,
}
use callio.Store.Rows.{TerminationReason, completed, timeout, system_error, system, Db}
use callio.Lifecycle.Termination.{Ending, Effect, terminate_notice, broadcast, end_by_id}

-- How a session ends, and the action of `call:ivr_complete`.
pub data Outcome : Type 0 where
  transferred hung_up timed_out failed : Outcome

-- A call's entry in `_sessions`. What is not reserved has an engine, and while `hears_over` it listens for
-- the call's end.
pub data Slot : Type 0 where
  reserved : Slot
  running : (session_id : ℕ) → (hears_over : Bool) → Slot

-- A `startSession` that waits: whether the call ended meanwhile, and whether it resumes a session.
pub record Setup : Type 0 where
  pub call_id : ℕ
  pub is_over : Bool
  pub resumes : Bool

-- A stop that has run up to its first `await`, and what its caller tells others afterwards.
pub record Stop : Type 0 where
  pub call_id : ℕ
  pub session_id : ℕ
  pub outcome : Outcome
  pub tells : Option Outcome

-- `listeners` counts the listeners for the completion of a call's flow: the bus keeps one that was added
-- twice twice, and takes off one at a time.
pub record Sessions : Type 0 where
  pub slots : ℕ → Option Slot
  pub finished : ℕ → Bool
  pub listeners : ℕ → ℕ
  pub setups : List Setup
  pub stopping : List Stop

pub data Act : Type 0 where
  engine_started engine_resumed engine_restarted engine_stopped : ℕ → Act
  row_closed : ℕ → Outcome → Act
  queue_entered state_cleared : ℕ → Act
  closed_told : ℕ → Outcome → Act
  transfer_handled : ℕ → Act
  over_told : ℕ → Outcome → Act

unfoldable pub put_slot : ℕ → Option Slot → Sessions → Sessions
put_slot id slot s = record s { slots = λ j. if j == id then slot else s.slots j }

unfoldable pub mark : ℕ → Bool → Sessions → Sessions
mark id b s = record s { finished = λ j. if j == id then b else s.finished j }

-- `EventBus.on` and `EventBus.off` for `call:ivr_complete`.
unfoldable pub listen : ℕ → Sessions → Sessions
listen id s = record s { listeners = λ j. if j == id then suc (s.listeners j) else s.listeners j }

unfoldable pub unlisten : ℕ → Sessions → Sessions
unlisten id s = record s { listeners = λ j. if j == id then s.listeners j - 1 else s.listeners j }

unfoldable pub silence : ℕ → Sessions → Sessions
silence id s = record s { listeners = λ j. if j == id then 0 else s.listeners j }

abbrev is_vacant : Option Slot → Bool
is_vacant none = true
is_vacant (some slot) = false

-- `startSession` up to its first `await`: the slot is reserved.
unfoldable pub start_session : ℕ → Bool → Sessions → Sessions
start_session id resumes s =
    if is_vacant (s.slots id) && not (s.finished id)
    then (let kept = put_slot id (some reserved) s in
        record kept {
          setups = record { call_id = id; is_over = false; resumes = resumes } ∷ kept.setups;
        })
    else s

abbrev first_act : Setup → Act
first_act u = if u.resumes then engine_resumed u.call_id else engine_started u.call_id

-- The rest of `startSession`: the flow is there or not, and its session has a row.
unfoldable pub establish : Setup → Bool → ℕ → Sessions → Sessions × List Act
establish u found session_id s =
    if not found
    then (put_slot u.call_id none s, [])
    else if u.is_over
    then (put_slot u.call_id none s, engine_stopped u.call_id ∷ row_closed session_id hung_up ∷ [])
    else (
      listen u.call_id (put_slot u.call_id (some (running session_id true)) s),
      first_act u ∷ [],
    )

-- One of what waits goes on.
abbrev pub nth {ℓ} : {A : Type ℓ} → ℕ → List A → Option A
nth n [] = none
nth zero (x ∷ xs) = some x
nth (suc n) (x ∷ xs) = nth n xs

abbrev pub without {ℓ} : {A : Type ℓ} → ℕ → List A → List A
without n [] = []
without zero (x ∷ xs) = xs
without (suc n) (x ∷ xs) = x ∷ without n xs

unfoldable pub set_up_next : ℕ → Bool → ℕ → Sessions → Sessions × List Act
set_up_next n found session_id s = elim (nth n s.setups) [
  | none ↦ (s, [])
  | some u ↦ establish u found session_id (record s { setups = without n s.setups })
]

abbrev pub tell : ℕ → Option Outcome → List Act
tell id none = []
tell id (some outcome) = over_told id outcome ∷ []

-- `stopSession` up to its first `await`. A slot that is only reserved has nothing to stop.
unfoldable pub stop_session : ℕ → Outcome → Option Outcome → Sessions → Sessions × List Act
stop_session id outcome tells s = elim (s.slots id) [
  | none ↦ (s, tell id tells)
  | some slot ↦ elim slot [
    | reserved ↦ (s, tell id tells)
    | running session_id o ↦
        let latched =
          unlisten id (put_slot id (some (running session_id false)) (mark id true s)) in
        (
          record latched {
            stopping =
                record { call_id = id; session_id = session_id; outcome = outcome; tells = tells }
                ∷ latched.stopping;
          },
          engine_stopped id ∷ [],
        )
  ]
]

abbrev state_act : ℕ → Outcome → Act
state_act id transferred = queue_entered id
state_act id _ = state_cleared id

-- The rest of `stopSession`.
unfoldable pub finish_stop : Stop → Sessions → Sessions × List Act
finish_stop t s = (
  put_slot t.call_id none s,
  row_closed t.session_id t.outcome
      ∷ state_act t.call_id t.outcome
      ∷ closed_told t.call_id t.outcome
      ∷ tell t.call_id t.tells,
)

unfoldable pub finish_next : ℕ → Sessions → Sessions × List Act
finish_next n s = elim (nth n s.stopping) [
  | none ↦ (s, [])
  | some t ↦ finish_stop t (record s { stopping = without n s.stopping })
]

-- The guards of the sessions that are being set up.
unfoldable pub guard_setups : ℕ → List Setup → List Setup
guard_setups id [] = []
guard_setups id (u ∷ us) =
    (if u.call_id == id then record u { is_over = true } else u) ∷ guard_setups id us

-- `call:terminated`: the constructor's listener runs first, then those of setups and of the session.
unfoldable pub on_terminated : ℕ → Sessions → Sessions × List Act
on_terminated id s =
    let cleared = mark id false s in
    let guarded = record cleared { setups = guard_setups id cleared.setups } in
    elim (s.slots id) [
      | none ↦ (guarded, [])
      | some slot ↦ elim slot [
        | reserved ↦ (guarded, [])
        | running k hears_over ↦
            if hears_over
            then stop_session id hung_up (some hung_up) (unlisten id guarded)
            else (guarded, [])
      ]
    ]

-- `_onComplete`
unfoldable pub on_complete : ℕ → Outcome → Sessions → Sessions × List Act
on_complete id transferred s = (s, transfer_handled id ∷ [])
on_complete id outcome s = stop_session id outcome (some outcome) s

-- The listeners that the bus calls, each of which takes itself off.
unfoldable pub completions : ℕ → ℕ → Outcome → Sessions → Sessions × List Act
completions zero id outcome s = (s, [])
completions (suc n) id outcome s =
    let (after, first) = on_complete id outcome s in
    let (last, rest) = completions n id outcome after in (last, first ++ rest)

-- `call:ivr_complete`
unfoldable pub on_ivr_complete : ℕ → Outcome → Sessions → Sessions × List Act
on_ivr_complete id outcome s = completions (s.listeners id) id outcome (silence id s)

-- `_replay`
unfoldable pub replay : ℕ → Sessions → Sessions × List Act
replay id s = elim (s.slots id) [
  | none ↦ (s, [])
  | some slot ↦ elim slot [
    | reserved ↦ (s, [])
    | running k o ↦ (listen id s, engine_restarted id ∷ [])
  ]
]

-- `ivrTerminationReason`
unfoldable pub ivr_termination_reason : Outcome → TerminationReason
ivr_termination_reason timed_out = timeout
ivr_termination_reason failed = system_error
ivr_termination_reason _ = completed

-- `#handle` of IvrTerminationHandler, for `call:ivr_terminated`.
unfoldable pub handle_ivr_terminated : ℕ → ℕ → Outcome → Db → Db × List Effect × Bool
handle_ivr_terminated now id outcome db =
    end_by_id now id
      (record {
        reason = ivr_termination_reason outcome;
        terminated_by = system;
        failure = false;
        only_if_status = none;
        provider = terminate_notice;
        media = broadcast;
        agent_goes_offline = false;
      })
      db

pub data Event : Type 0 where
  starts : ℕ → Bool → Event
  set_up : ℕ → Bool → ℕ → Event
  stops : ℕ → Outcome → Event
  goes_on : ℕ → Event
  terminated replays : ℕ → Event
  completes : ℕ → Outcome → Event

unfoldable pub step : Event → Sessions → Sessions × List Act
step (starts id resumes) s = (start_session id resumes s, [])
step (set_up n found session_id) s = set_up_next n found session_id s
step (stops id outcome) s = stop_session id outcome none s
step (goes_on n) s = finish_next n s
step (terminated id) s = on_terminated id s
step (completes id outcome) s = on_ivr_complete id outcome s
step (replays id) s = replay id s

unfoldable pub steps : List Event → Sessions → Sessions × List Act
steps [] s = (s, [])
steps (e ∷ es) s =
    let (after, first) = step e s in let (last, rest) = steps es after in (last, first ++ rest)

abbrev pub no_sessions : Sessions
no_sessions = record {
  slots = λ id. none;
  finished = λ id. false;
  listeners = λ id. 0;
  setups = [];
  stopping = [];
}
