-- ===== src/Ivr/Coordinator/Tests.antt =====
-- Runs of the IVR coordinator: a call that is started again while its setup waits, transferred and replayed.
use callio.Prelude.{◌≤◌, ◌≡◌, refl, true, false, some, List, [], ◌∷◌}
use callio.Ivr.Coordinator.{
  Sessions, transferred, running, engine_started, engine_restarted, engine_stopped, row_closed,
  queue_entered, closed_told, transfer_handled, put_slot, mark, listen, unlisten, silence,
  start_session, establish, set_up_next, stop_session, finish_stop, finish_next, guard_setups,
  on_terminated, on_complete, completions, on_ivr_complete, replay, Event, starts, set_up, stops,
  goes_on, terminated, replays, completes, step, steps, no_sessions,
}
use callio.Ivr.Coordinator.Once.{
  started, precedes_end, waiting, being_stopped, started_once, latch_outlives,
}

coordinator : Unit {0}
unfolding put_slot mark listen unlisten silence start_session establish set_up_next stop_session
    finish_stop finish_next guard_setups on_terminated on_complete completions on_ivr_complete
    replay step steps started precedes_end waiting being_stopped
coordinator = tt

abbrev transferred_call : List Event
transferred_call =
    starts 1 false
    ∷ starts 1 false
    ∷ set_up 0 true 70
    ∷ completes 1 transferred
    ∷ replays 1
    ∷ completes 1 transferred
    ∷ stops 1 transferred
    ∷ goes_on 0
    ∷ starts 1 false
    ∷ set_up 0 true 71
    ∷ []

-- The second start is refused while the first one waits, the third one since the call has finished its IVR.
acts_example :
    (steps transferred_call no_sessions).1
    ≡ engine_started 1
      ∷ transfer_handled 1
      ∷ engine_restarted 1
      ∷ transfer_handled 1
      ∷ engine_stopped 1
      ∷ row_closed 70 transferred
      ∷ queue_entered 1
      ∷ closed_told 1 transferred
      ∷ []
unfolding coordinator
acts_example = refl

started_once_example : started 1 (steps transferred_call no_sessions).1 ≤ 1
unfolding coordinator
started_once_example = started_once 1 transferred_call refl

abbrev live_session : Sessions
live_session = put_slot 1 (some (running 70 true)) no_sessions

latch_outlives_example :
    (steps (terminated 1 ∷ goes_on 0 ∷ starts 1 false ∷ []) live_session).0.finished 1 ≡ true
unfolding coordinator
latch_outlives_example =
    latch_outlives 1 70 live_session (goes_on 0 ∷ starts 1 false ∷ []) refl refl
