-- ===== src/Ivr/Engine.antt =====
-- core/ivr/IvrEngine.js: one session's state machine. `Engine` holds the fields of the class and the
-- part of the runtime that they refer to: the listener registrations on the event bus, the pending
-- `play` promises, the live timers, and the trace of what the engine told others, newest first.
-- The environment's moves are `Event`s: a key press, a `play` promise that settles, a timer that
-- fires, a call of `stop`. `restart`, which the coordinator calls for a replay, is no event: a run is what
-- happens between a start and a restart. Log records are left out.
pub mod Listening
pub mod Resources
pub mod Progress
pub mod Completion
pub mod Silence
pub mod Restart
pub mod Digits
mod Tests
use callio.Prelude.{
  ℕ, zero, suc, ◌+◌, ◌-◌, ◌*◌, String, Bool, true, false, Option, none, some, List, [], ◌∷◌, ◌==◌,
  ltb, get_or, ◌===◌, lookup, if◌then◌else◌,
}
use callio.Ivr.Flow.{Node, NodeData, Flow, RouteMethod, find_by_type, edge_from, choose_route}

pub data Action : Type 0 where
  transferred hung_up timeout error : Action

-- Why a prompt plays: the promise's continuation.
pub data Play : Type 0 where
  menu_prompt play_prompt : Node → Play
  error_prompt : Play

-- A `setTimeout`, with its delay in milliseconds.
pub data Timer : Type 0 where
  no_input grace : Node → ℕ → Timer

pub data Effect : Type 0 where
  node_entered : String → String → Effect
  playing : ℕ → String → Effect
  player_stopped : ℕ → Effect
  dtmf_received : String → String → Effect
  route_invalid : String → String → Effect
  route_matched : String → RouteMethod → String → String → Effect
  input_recorded : String → String → Effect
  completed : Action → Option NodeData → Effect

pub record Engine : Type 0 where
  pub flow : Flow
  pub current_node_id : Option String
  pub current_menu_node : Option Node
  pub player : Option ℕ
  pub timer : Option ℕ
  pub stopped : Bool
  pub replay_count : ℕ
  pub dtmf_handler : Bool
  pub listening : ℕ
  pub next_handle : ℕ
  pub pending : List (ℕ × Play)
  pub timers : List (ℕ × Timer)
  pub trace : List Effect

unfoldable pub create : Flow → Engine
create flow = record {
  flow = flow;
  current_node_id = none;
  current_menu_node = none;
  player = none;
  timer = none;
  stopped = false;
  replay_count = 0;
  dtmf_handler = true;
  listening = 0;
  next_handle = 0;
  pending = [];
  timers = [];
  trace = [];
}

unfoldable pub tell : Effect → Engine → Engine
tell e s = record s { trace = e ∷ s.trace }

-- A handle's entry taken out of a list of pending work.
abbrev pub without {ℓ} : {A : Type ℓ} → ℕ → List (ℕ × A) → List (ℕ × A)
without h [] = []
without h ((g, a) ∷ xs) = if g == h then xs else (g, a) ∷ without h xs

abbrev pub entry {ℓ} : {A : Type ℓ} → ℕ → List (ℕ × A) → Option A
entry h [] = none
entry h ((g, a) ∷ xs) = if g == h then some a else entry h xs

unfoldable pub clear_player : Engine → Engine
unfolding tell
clear_player s = elim s.player [
  | none ↦ s
  | some p ↦ record s { player = none; trace = player_stopped p ∷ s.trace }
]

unfoldable pub clear_timer : Engine → Engine
clear_timer s = elim s.timer [
  | none ↦ s
  | some h ↦ record s { timer = none; timers = without h s.timers }
]

unfoldable pub set_timer : Timer → Engine → Engine
set_timer t s = record s {
  timer = some s.next_handle;
  timers = (s.next_handle, t) ∷ s.timers;
  next_handle = suc s.next_handle;
}

unfoldable pub remove_dtmf_listener : Engine → Engine
remove_dtmf_listener s =
    if s.dtmf_handler then record s { dtmf_handler = false; listening = s.listening - 1 } else s

-- `createPlayer()` and `play(audio)` on the new player, kept in `_player` by the two nodes' prompts.
unfoldable pub play_kept : String → Play → Engine → Engine
play_kept audio purpose s = record s {
  player = some s.next_handle;
  next_handle = suc s.next_handle;
  pending = (s.next_handle, purpose) ∷ s.pending;
  trace = playing s.next_handle audio ∷ s.trace;
}

unfoldable pub play_apart : String → Play → Engine → Engine
play_apart audio purpose s = record s {
  next_handle = suc s.next_handle;
  pending = (s.next_handle, purpose) ∷ s.pending;
  trace = playing s.next_handle audio ∷ s.trace;
}

-- Player, timer and listener all let go of.
unfoldable pub release : Engine → Engine
unfolding clear_player clear_timer remove_dtmf_listener
release s = remove_dtmf_listener (clear_timer (clear_player s))

unfoldable pub complete : Action → Option NodeData → Engine → Engine
unfolding tell
complete action transfer_data s =
    if s.stopped
    then s
    else tell (completed action transfer_data) (release (record s { stopped = true }))

unfoldable pub stop : Engine → Engine
stop s = if s.stopped then s else release (record s { stopped = true })

unfoldable pub play_error_and_hangup : Engine → Engine
play_error_and_hangup s = elim s.flow.error_audio [
  | none ↦ complete hung_up none (release s)
  | some audio ↦ play_apart audio error_prompt (release s)
]

-- `((data.timeoutSeconds ?? 0) * 1000) || this._defaultTimeout`
unfoldable pub menu_timeout_ms : Flow → Node → ℕ
menu_timeout_ms flow node =
    let ms = get_or node.node_data.timeout_seconds 0 * 1000 in
    if ms == 0 then flow.default_timeout else ms

unfoldable pub enter_menu : Node → Engine → Engine
enter_menu node s = elim (lookup node.id s.flow.audio_path_map) [
  | none ↦ play_error_and_hangup s
  | some audio ↦ play_kept audio (menu_prompt node) (record s { current_menu_node = some node })
]

unfoldable pub enter_play : Node → Engine → Engine
enter_play node s = elim (lookup node.id s.flow.audio_path_map) [
  | none ↦ play_error_and_hangup s
  | some audio ↦ play_kept audio (play_prompt node) s
]

-- The `switch` on the node's type.
unfoldable pub enter_node : Node → Engine → Engine
enter_node node s =
    if node.type === "ivr_menu"
    then enter_menu node s
    else if node.type === "ivr_play"
    then enter_play node s
    else if node.type === "ivr_transfer"
    then complete transferred (some node.node_data) s
    else if node.type === "ivr_hangup"
    then complete hung_up none s
    else complete error none s

abbrev is_current : String → Option String → Bool
is_current id none = false
is_current id (some old) = id === old

-- What `_navigateTo` does once it has the node, up to the `switch`.
unfoldable pub arrive : String → Node → Engine → Engine
unfolding tell
arrive id node s =
    let t = clear_timer (clear_player s) in
    tell (node_entered id node.type) (record t {
      current_menu_node = none;
      replay_count = if is_current id t.current_node_id then t.replay_count else 0;
      current_node_id = some id;
    })

unfoldable pub navigate_to : String → Engine → Engine
navigate_to id s = if s.stopped then s else elim (lookup id s.flow.nodes) [
  | none ↦ complete error none s
  | some node ↦ enter_node node (arrive id node s)
]

-- `EventBus.on('call:dtmf', handler)` throws a TypeError where the handler is null.
pub data Outcome : Type 0 where
  returned threw : Engine → Outcome

unfoldable pub listen_and_go : String → Engine → Outcome
listen_and_go id s =
    if s.dtmf_handler
    then returned (navigate_to id (record s { listening = s.listening + 1 }))
    else threw s

unfoldable pub start : Engine → Outcome
start s = elim (find_by_type "ivr_start" s.flow.nodes) [
  | none ↦ returned (complete error none s)
  | some node ↦ elim (edge_from node.id s.flow.edges) [
    | none ↦ returned (complete error none s)
    | some e ↦ listen_and_go e.target s
  ]
]

unfoldable pub start_at : String → Engine → Outcome
start_at id s = elim (lookup id s.flow.nodes) [
  | none ↦ start s
  | some _ ↦ listen_and_go id (record s { stopped = false })
]

unfoldable pub restart : Engine → Outcome
restart s = start (record s { stopped = false; current_node_id = none; replay_count = 0 })

unfoldable pub on_dtmf : Node → String → Engine → Engine
unfolding tell
on_dtmf node digit s =
    let t = tell (dtmf_received digit node.id) s in
    if s.stopped then s else elim (choose_route s.flow node digit) [
      | none ↦ tell (route_invalid digit node.id) t
      | some (target, method) ↦
          navigate_to target (
            tell (input_recorded digit node.id)
              (tell (route_matched digit method node.id target) t))
    ]

-- The listener registered in `start`.
unfoldable pub handle_dtmf : ℕ → String → Engine → Engine
handle_dtmf call_id digit s =
    if call_id == s.flow.call_id
    then elim s.current_menu_node [
      | none ↦ s
      | some node ↦ if s.stopped then s else on_dtmf node digit s
    ]
    else s

-- The bus calls a listener once for each of its registrations.
unfoldable pub emit_dtmf : ℕ → ℕ → String → Engine → Engine
emit_dtmf zero call_id digit s = s
emit_dtmf (suc n) call_id digit s = emit_dtmf n call_id digit (handle_dtmf call_id digit s)

abbrev pub grace_ms : ℕ
grace_ms = 300

abbrev pub max_replays : ℕ
max_replays = 3

unfoldable pub on_menu_timeout : Node → Engine → Engine
on_menu_timeout node s = if s.stopped then s else set_timer (grace node grace_ms) s

unfoldable pub no_input_action : Node → String
no_input_action node = get_or node.node_data.no_input_action "replay"

unfoldable pub execute_timeout : Node → Engine → Engine
execute_timeout node s =
    if s.stopped
    then s
    else if no_input_action node === "replay"
    then (if ltb max_replays (s.replay_count + 1)
        then complete hung_up none (record s { replay_count = s.replay_count + 1 })
        else navigate_to node.id (record s { replay_count = s.replay_count + 1 }))
    else elim (find_by_type "ivr_hangup" s.flow.nodes) [
      | none ↦ complete timeout none (record s { replay_count = 0 })
      | some hangup ↦ navigate_to hangup.id (record s { replay_count = 0 })
    ]

-- A timer's callback, once the runtime has taken the timer out of its list.
unfoldable pub on_timer : Timer → Engine → Engine
on_timer (no_input node ms) s = on_menu_timeout node s
on_timer (grace node ms) s = execute_timeout node (record s { timer = none })

abbrev pub is_player : ℕ → Option ℕ → Bool
is_player p none = false
is_player p (some q) = q == p

-- The continuations of `play(...)`: `.then` for a promise that resolved, `.catch` for one that was
-- rejected, with the error prompt's `.finally`. `p` is the player that the promise belongs to.
unfoldable pub on_played : ℕ → Play → Engine → Engine
on_played p (menu_prompt node) s =
    if s.stopped
    then s
    else if is_player p s.player
    then set_timer (no_input node (menu_timeout_ms s.flow node)) (record s { player = none })
    else s
on_played p (play_prompt node) s = if s.stopped then s else elim (edge_from node.id s.flow.edges) [
  | none ↦ complete hung_up none s
  | some e ↦ navigate_to e.target s
]
on_played p error_prompt s = if s.stopped then s else complete hung_up none s

unfoldable pub on_play_failed : ℕ → Play → Engine → Engine
on_play_failed p (menu_prompt node) s = if s.stopped then s else play_error_and_hangup s
on_play_failed p (play_prompt node) s = if s.stopped then s else play_error_and_hangup s
on_play_failed p error_prompt s = if s.stopped then s else complete hung_up none s

pub data Event : Type 0 where
  dtmf : ℕ → String → Event
  played play_failed fired : ℕ → Event
  stop_called : Event

-- An event that nothing waits for any more changes nothing.
unfoldable pub step : Engine → Event → Engine
step s (dtmf call_id digit) = emit_dtmf s.listening call_id digit s
step s (played p) = elim (entry p s.pending) [
  | none ↦ s
  | some purpose ↦ on_played p purpose (record s { pending = without p s.pending })
]
step s (play_failed p) = elim (entry p s.pending) [
  | none ↦ s
  | some purpose ↦ on_play_failed p purpose (record s { pending = without p s.pending })
]
step s (fired h) = elim (entry h s.timers) [
  | none ↦ s
  | some t ↦ on_timer t (record s { timers = without h s.timers })
]
step s stop_called = stop s

unfoldable pub run : Engine → List Event → Engine
run s [] = s
run s (e ∷ es) = run (step s e) es
