-- ===== src/Ivr/Engine/Completion.antt =====
-- A session completes at most once, and after it stopped nothing that happens has an effect.
use callio.Prelude.{
  ℕ, zero, suc, ◌≡◌, refl, ◌≤◌, ◌+◌, ◌∙◌, inl, inr, String, true, false, Option, none, some, List,
  [], ◌∷◌, arith, Option-cases, lookup,
}
use callio.Ivr.Flow.{Node, NodeData, Flow, find_by_type, edge_from}
use callio.Ivr.Engine.{
  Engine, Action, Play, Timer, Event, Effect, menu_prompt, play_prompt, error_prompt, no_input,
  grace, dtmf, played, play_failed, fired, stop_called, completed, node_entered, playing,
  player_stopped, dtmf_received, route_invalid, route_matched, input_recorded, entry, without,
  create, release, complete, stop, clear_player, clear_timer, set_timer, play_kept, play_apart,
  play_error_and_hangup, enter_menu, enter_play, enter_node, arrive, navigate_to, on_dtmf,
  handle_dtmf, emit_dtmf, on_menu_timeout, execute_timeout, on_timer, on_played, on_play_failed,
  step, run, returned, listen_and_go, start,
}

abbrev pub completions : List Effect → ℕ
completions [] = 0
completions (completed a d ∷ es) = suc (completions es)
completions (node_entered i t ∷ es) = completions es
completions (playing p a ∷ es) = completions es
completions (player_stopped p ∷ es) = completions es
completions (dtmf_received d i ∷ es) = completions es
completions (route_invalid d i ∷ es) = completions es
completions (route_matched d m i t ∷ es) = completions es
completions (input_recorded d i ∷ es) = completions es

-- No completion yet, or the session has stopped after its only one.
abbrev pub HasCompletedOnce : Engine → Type 0
HasCompletedOnce s = (completions s.trace ≤ 1) × (s.stopped ≡ false → completions s.trace ≡ 0)

release-completions :
    (s : Engine)
    → (completions (release s).trace ≡ completions s.trace) × ((release s).stopped ≡ s.stopped)
unfolding release
release-completions s = ground arith

complete_once :
    (a : Action) (d : Option NodeData) (s : Engine)
    → HasCompletedOnce s
    → HasCompletedOnce (complete a d s)
unfolding complete
complete_once a d s v = ground (arith, release-completions (record s { stopped = true }))

play_error_once : (s : Engine) → HasCompletedOnce s → HasCompletedOnce (play_error_and_hangup s)
unfolding play_error_and_hangup play_apart
play_error_once s v =
    ground (arith, complete_once Action.hung_up none (release s), release-completions s)

enter_node_once :
    (node : Node) (s : Engine) → HasCompletedOnce s → HasCompletedOnce (enter_node node s)
unfolding enter_node enter_menu enter_play play_kept
enter_node_once node s v = ground (
  arith,
  play_error_once s,
  complete_once Action.transferred (some node.node_data) s,
  complete_once Action.hung_up none s,
  complete_once Action.error none s,
)

cleared_completions :
    (s : Engine)
    → (completions (clear_timer (clear_player s)).trace ≡ completions s.trace)
      × ((clear_timer (clear_player s)).stopped ≡ s.stopped)
unfolding clear_timer clear_player
cleared_completions s = ground arith

arrive_once :
    (id : String) (node : Node) (s : Engine)
    → HasCompletedOnce s
    → HasCompletedOnce (arrive id node s)
unfolding arrive
arrive_once id node s v = ground (arith, cleared_completions s)

navigate_to_once :
    (id : String) (s : Engine) → HasCompletedOnce s → HasCompletedOnce (navigate_to id s)
unfolding navigate_to
navigate_to_once id s v = elim (Option-cases (lookup id s.flow.nodes)) [
  | inl f ↦ ground (arith, complete_once Action.error none s)
  | inr (node, f) ↦ ground (arith, enter_node_once node (arrive id node s), arrive_once id node s v)
]

on_dtmf_once :
    (node : Node) (digit : String) (s : Engine)
    → HasCompletedOnce s
    → HasCompletedOnce (on_dtmf node digit s)
unfolding on_dtmf
on_dtmf_once node digit s v = grind (arith, navigate_to_once)

handle_dtmf_once :
    (c : ℕ) (digit : String) (s : Engine)
    → HasCompletedOnce s
    → HasCompletedOnce (handle_dtmf c digit s)
unfolding handle_dtmf
handle_dtmf_once c digit s v = elim (Option-cases s.current_menu_node) [
  | inl e ↦ ground arith
  | inr (node, e) ↦ ground (arith, on_dtmf_once node digit s v)
]

emit_dtmf_once :
    (n c : ℕ) (digit : String) (s : Engine)
    → HasCompletedOnce s
    → HasCompletedOnce (emit_dtmf n c digit s)
unfolding emit_dtmf
emit_dtmf_once zero c digit s v = v
emit_dtmf_once (suc n) c digit s v =
    emit_dtmf_once n c digit (handle_dtmf c digit s) (handle_dtmf_once c digit s v)

on_played_once :
    (p : ℕ) (purpose : Play) (s : Engine)
    → HasCompletedOnce s
    → HasCompletedOnce (on_played p purpose s)
unfolding on_played set_timer
on_played_once p (menu_prompt node) s v = ground arith
on_played_once p (play_prompt node) s v = grind (arith, navigate_to_once, complete_once)
on_played_once p error_prompt s v = ground (arith, complete_once Action.hung_up none s v)

on_play_failed_once :
    (p : ℕ) (purpose : Play) (s : Engine)
    → HasCompletedOnce s
    → HasCompletedOnce (on_play_failed p purpose s)
unfolding on_play_failed
on_play_failed_once p (menu_prompt node) s v = ground (arith, play_error_once s v)
on_play_failed_once p (play_prompt node) s v = ground (arith, play_error_once s v)
on_play_failed_once p error_prompt s v = ground (arith, complete_once Action.hung_up none s v)

on_timer_once : (t : Timer) (s : Engine) → HasCompletedOnce s → HasCompletedOnce (on_timer t s)
unfolding on_timer on_menu_timeout execute_timeout set_timer
on_timer_once (no_input node ms) s v = ground arith
on_timer_once (grace node ms) s v = grind (arith, navigate_to_once, complete_once)

step_once : (s : Engine) (e : Event) → HasCompletedOnce s → HasCompletedOnce (step s e)
unfolding step stop
step_once s (dtmf c digit) v = emit_dtmf_once s.listening c digit s v
step_once s (played p) v = elim (Option-cases (entry p s.pending)) [
  | inl e ↦ ground arith
  | inr (q, e) ↦ ground (arith, on_played_once p q (record s { pending = without p s.pending }))
]
step_once s (play_failed p) v = elim (Option-cases (entry p s.pending)) [
  | inl e ↦ ground arith
  | inr (q, e) ↦
      ground (arith, on_play_failed_once p q (record s { pending = without p s.pending }))
]
step_once s (fired h) v = elim (Option-cases (entry h s.timers)) [
  | inl e ↦ ground arith
  | inr (t, e) ↦ ground (arith, on_timer_once t (record s { timers = without h s.timers }))
]
step_once s stop_called v = ground (arith, release-completions (record s { stopped = true }))

run_once : (s : Engine) (es : List Event) → HasCompletedOnce s → HasCompletedOnce (run s es)
unfolding run
run_once s [] v = v
run_once s (e ∷ es) v = run_once (step s e) es (step_once s e v)

listen_and_go_once :
    (id : String) (s t : Engine)
    → HasCompletedOnce s
    → listen_and_go id s ≡ returned t
    → HasCompletedOnce t
unfolding listen_and_go
listen_and_go_once id s t v e =
    let u : Engine = record s { listening = s.listening + 1 } in
    let same : t ≡ navigate_to id u = ground arith in rw same (navigate_to_once id u v)

start_once : (s t : Engine) → HasCompletedOnce s → start s ≡ returned t → HasCompletedOnce t
unfolding start
start_once s t v e = elim (Option-cases (find_by_type "ivr_start" s.flow.nodes)) [
  | inl f ↦ ground (arith, complete_once Action.error none s)
  | inr (node, f) ↦ elim (Option-cases (edge_from node.id s.flow.edges)) [
    | inl g ↦ ground (arith, complete_once Action.error none s)
    | inr (edge, g) ↦ listen_and_go_once edge.target s t v (rw (f, start, g) at e)
  ]
]

create_once : (f : Flow) → HasCompletedOnce (create f)
unfolding create
create_once f = ground arith

-- A session started on a new engine tells `call:ivr_complete` at most once until it is restarted: whatever
-- keys are pressed, prompts end or fail, timers fire and stops are called, in whatever order.
pub completes_once :
    (f : Flow) (s : Engine) (es : List Event)
    → start (create f) ≡ returned s
    → completions (run s es).trace ≤ 1
completes_once f s es e = (run_once s es (start_once (create f) s (create_once f) e)).0

-- What an event leaves of a stopped session: all its fields but the list of prompts and timers that
-- are still to be heard of.
abbrev pub IsUnmoved : Engine → Engine → Type 0
IsUnmoved s t =
    (t.stopped ≡ true)
    × (t.trace ≡ s.trace)
    × (t.player ≡ s.player)
    × (t.current_node_id ≡ s.current_node_id)
    × (t.current_menu_node ≡ s.current_menu_node)
    × (t.replay_count ≡ s.replay_count)
    × (t.listening ≡ s.listening)
    × (t.flow ≡ s.flow)

emit_dtmf_unmoved :
    (n c : ℕ) (digit : String) (s : Engine) → s.stopped ≡ true → emit_dtmf n c digit s ≡ s
unfolding emit_dtmf handle_dtmf on_dtmf
emit_dtmf_unmoved zero c digit s h = refl
emit_dtmf_unmoved (suc n) c digit s h =
    let same : handle_dtmf c digit s ≡ s = ground arith in
    emit_dtmf_unmoved n c digit (handle_dtmf c digit s) (ground arith) ∙ same

step-IsUnmoved : (s : Engine) (e : Event) → s.stopped ≡ true → IsUnmoved s (step s e)
unfolding step on_played on_play_failed on_timer on_menu_timeout execute_timeout stop
step-IsUnmoved s (dtmf c digit) h = ground (arith, emit_dtmf_unmoved s.listening c digit s h)
step-IsUnmoved s (played p) h = ground arith
step-IsUnmoved s (play_failed p) h = ground arith
step-IsUnmoved s (fired t) h = ground arith
step-IsUnmoved s stop_called h = ground arith

-- Once a session has stopped, no sequence of events makes it play, navigate, notify or complete
-- again: it stays stopped with its trace, position and listener registrations as they are.
pub stopped-IsUnmoved : (s : Engine) (es : List Event) → s.stopped ≡ true → IsUnmoved s (run s es)
unfolding run
stopped-IsUnmoved s [] h = ground arith
stopped-IsUnmoved s (e ∷ es) h = ground (
  arith,
  step-IsUnmoved s e h,
  λ (q : (step s e).stopped ≡ true). stopped-IsUnmoved (step s e) es q,
)
