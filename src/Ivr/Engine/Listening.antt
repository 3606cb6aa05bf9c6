-- ===== src/Ivr/Engine/Listening.antt =====
-- The digit listener's registrations on the bus: a session has one at most, and none once it let go of it.
use callio.Prelude.{
  ℕ, zero, suc, ◌≤◌, ◌≡◌, String, true, Option, none, some, List, [], ◌∷◌, arith, lookup,
  if◌then◌else◌, inl, inr, Option-cases,
}
use callio.Ivr.Flow.{Node, NodeData, Flow}
use callio.Ivr.Engine.{
  Engine, Action, Play, Timer, Event, menu_prompt, play_prompt, error_prompt, no_input, grace, dtmf,
  played, play_failed, fired, stop_called, entry, without, create, release, complete, stop, tell,
  clear_player, clear_timer, remove_dtmf_listener, set_timer, play_kept, play_apart,
  play_error_and_hangup, enter_menu, enter_play, enter_node, arrive, navigate_to, on_dtmf,
  handle_dtmf, emit_dtmf, on_menu_timeout, execute_timeout, on_timer, on_played, on_play_failed,
  step, run, returned, listen_and_go, start,
}

-- The bus knows the listener once at most, and not at all where the session has no listener.
abbrev pub IsHeard : Engine → Type 0
IsHeard s = s.listening ≤ (if s.dtmf_handler then 1 else 0)

release-IsHeard : (s : Engine) → IsHeard s → IsHeard (release s)
unfolding release clear_player clear_timer remove_dtmf_listener
release-IsHeard s h = ground arith

complete-IsHeard :
    (a : Action) (d : Option NodeData) (s : Engine) → IsHeard s → IsHeard (complete a d s)
unfolding complete tell
complete-IsHeard a d s h = ground (arith, release-IsHeard (record s { stopped = true }) h)

stop-IsHeard : (s : Engine) → IsHeard s → IsHeard (stop s)
unfolding stop
stop-IsHeard s h = ground (arith, release-IsHeard (record s { stopped = true }) h)

hangup-IsHeard : (s : Engine) → IsHeard s → IsHeard (play_error_and_hangup s)
unfolding play_error_and_hangup play_apart
hangup-IsHeard s h =
    let r = release-IsHeard s h in
    ground (arith, complete-IsHeard Action.hung_up none (release s) r)

enter_node-IsHeard : (node : Node) (s : Engine) → IsHeard s → IsHeard (enter_node node s)
unfolding enter_node enter_menu enter_play play_kept
enter_node-IsHeard node s h = ground (
  arith,
  hangup-IsHeard s h,
  complete-IsHeard Action.transferred (some node.node_data) s h,
  complete-IsHeard Action.hung_up none s h,
  complete-IsHeard Action.error none s h,
)

arrive-IsHeard : (id : String) (node : Node) (s : Engine) → IsHeard s → IsHeard (arrive id node s)
unfolding arrive tell clear_player clear_timer
arrive-IsHeard id node s h = ground arith

navigate_to-IsHeard : (id : String) (s : Engine) → IsHeard s → IsHeard (navigate_to id s)
unfolding navigate_to
navigate_to-IsHeard id s h = elim (Option-cases (lookup id s.flow.nodes)) [
  | inl f ↦ ground (arith, complete-IsHeard Action.error none s h)
  | inr (node, f) ↦
      let there = arrive-IsHeard id node s h in
      ground (arith, enter_node-IsHeard node (arrive id node s) there)
]

on_dtmf-IsHeard :
    (node : Node) (digit : String) (s : Engine) → IsHeard s → IsHeard (on_dtmf node digit s)
unfolding on_dtmf tell
on_dtmf-IsHeard node digit s h = grind (arith, navigate_to-IsHeard)

handle_dtmf-IsHeard :
    (c : ℕ) (digit : String) (s : Engine) → IsHeard s → IsHeard (handle_dtmf c digit s)
unfolding handle_dtmf
handle_dtmf-IsHeard c digit s h = grind (arith, on_dtmf-IsHeard)

emit_dtmf-IsHeard :
    (n c : ℕ) (digit : String) (s : Engine) → IsHeard s → IsHeard (emit_dtmf n c digit s)
unfolding emit_dtmf
emit_dtmf-IsHeard zero c digit s h = h
emit_dtmf-IsHeard (suc n) c digit s h =
    emit_dtmf-IsHeard n c digit (handle_dtmf c digit s) (handle_dtmf-IsHeard c digit s h)

on_played-IsHeard :
    (p : ℕ) (purpose : Play) (s : Engine) → IsHeard s → IsHeard (on_played p purpose s)
unfolding on_played set_timer
on_played-IsHeard p (menu_prompt node) s h = ground arith
on_played-IsHeard p (play_prompt node) s h = grind (arith, navigate_to-IsHeard, complete-IsHeard)
on_played-IsHeard p error_prompt s h = grind (arith, complete-IsHeard)

on_play_failed-IsHeard :
    (p : ℕ) (purpose : Play) (s : Engine) → IsHeard s → IsHeard (on_play_failed p purpose s)
unfolding on_play_failed
on_play_failed-IsHeard p (menu_prompt node) s h = grind (arith, hangup-IsHeard)
on_play_failed-IsHeard p (play_prompt node) s h = grind (arith, hangup-IsHeard)
on_play_failed-IsHeard p error_prompt s h = grind (arith, complete-IsHeard)

on_timer-IsHeard : (t : Timer) (s : Engine) → IsHeard s → IsHeard (on_timer t s)
unfolding on_timer on_menu_timeout execute_timeout set_timer
on_timer-IsHeard (no_input node ms) s h = ground arith
on_timer-IsHeard (grace node ms) s h = grind (arith, navigate_to-IsHeard, complete-IsHeard)

step-IsHeard : (s : Engine) (e : Event) → IsHeard s → IsHeard (step s e)
unfolding step
step-IsHeard s (dtmf c digit) h = emit_dtmf-IsHeard s.listening c digit s h
step-IsHeard s (played p) h = elim (Option-cases (entry p s.pending)) [
  | inl e ↦ ground arith
  | inr (q, e) ↦
      let there = on_played-IsHeard p q (record s { pending = without p s.pending }) h in
      ground arith
]
step-IsHeard s (play_failed p) h = elim (Option-cases (entry p s.pending)) [
  | inl e ↦ ground arith
  | inr (q, e) ↦
      let there = on_play_failed-IsHeard p q (record s { pending = without p s.pending }) h in
      ground arith
]
step-IsHeard s (fired t) h = elim (Option-cases (entry t s.timers)) [
  | inl e ↦ ground arith
  | inr (q, e) ↦
      let there = on_timer-IsHeard q (record s { timers = without t s.timers }) h in ground arith
]
step-IsHeard s stop_called h = stop-IsHeard s h

pub run-IsHeard : (s : Engine) (es : List Event) → IsHeard s → IsHeard (run s es)
unfolding run
run-IsHeard s [] h = h
run-IsHeard s (e ∷ es) h = run-IsHeard (step s e) es (step-IsHeard s e h)

pub start-IsHeard : (f : Flow) (s : Engine) → start (create f) ≡ returned s → IsHeard s
unfolding create start listen_and_go
start-IsHeard f s e = grind (arith, navigate_to-IsHeard, complete-IsHeard)
