-- ===== src/Ivr/Engine/Tests.antt =====
-- A flow with a menu, run on concrete events, and the theorems at those inputs.
use callio.Prelude.{ℕ, ◌≡◌, ◌≤◌, refl, true, false, none, some, [], ◌∷◌, lookup}
use callio.Ivr.Flow.{
  Node, NodeData, Edge, Flow, index_nodes, find_by_type, edge_from, edge_for_digit, choose_route,
}
use callio.Ivr.Engine.{
  Engine, Action, Effect, returned, threw, create, start, restart, run, step, dtmf, played, fired,
  stop_called, menu_prompt, completed, navigate_to, on_dtmf, handle_dtmf, emit_dtmf, enter_node,
  enter_menu, arrive, play_kept, complete, release, on_played, on_timer, on_menu_timeout,
  execute_timeout, no_input_action, set_timer, menu_timeout_ms, stop, listen_and_go,
}
use callio.Ivr.Engine.Resources.{IsFree, stopped-IsFree}
use callio.Ivr.Engine.Progress.{IsLive, started-IsLive}
use callio.Ivr.Engine.Completion.{completions, completes_once}
use callio.Ivr.Engine.Silence.{PlaysMenu, silent_rounds, player_after, silent_caller}
use callio.Ivr.Engine.Restart.{restart_throws}

engine : Unit {0}
unfolding create start restart run step navigate_to on_dtmf handle_dtmf emit_dtmf enter_node
    enter_menu arrive play_kept complete release on_played on_timer on_menu_timeout execute_timeout
    no_input_action set_timer menu_timeout_ms stop listen_and_go find_by_type edge_from
    edge_for_digit choose_route lookup index_nodes
engine = tt

abbrev no_data : NodeData
no_data = record {
  label = none;
  timeout_seconds = none;
  no_input_action = none;
  dtmf_map = none;
  target_type = none;
  target_id = none;
  offline_action = none;
  offline_audio_file_id = none;
  busy_action = none;
  busy_audio_file_id = none;
}

abbrev begin : Node
begin = record { id = "s"; type = "ivr_start"; node_data = no_data }

abbrev menu : Node
menu = record { id = "m"; type = "ivr_menu"; node_data = no_data }

abbrev bye : Node
bye = record { id = "h"; type = "ivr_hangup"; node_data = no_data }

abbrev to_menu : Edge
to_menu = record { source = "s"; target = "m"; source_handle = "undefined" }

abbrev to_bye : Edge
to_bye = record { source = "m"; target = "h"; source_handle = "9" }

abbrev flow : Flow
flow = record {
  call_id = 7;
  nodes = ("s", begin) ∷ ("m", menu) ∷ ("h", bye) ∷ [];
  edges = to_menu ∷ to_bye ∷ [];
  default_timeout = 10000;
  error_audio = none;
  audio_path_map = ("m", "menu.wav") ∷ [];
  session_id = 1;
}

-- The session once the menu's prompt plays.
abbrev at_menu : Engine
at_menu = record (create flow) {
  current_node_id = some "m";
  current_menu_node = some menu;
  player = some 0;
  listening = 1;
  next_handle = 1;
  pending = (0, menu_prompt menu) ∷ [];
  trace = Effect.playing 0 "menu.wav" ∷ Effect.node_entered "m" "ivr_menu" ∷ [];
}

started : start (create flow) ≡ returned at_menu
unfolding engine
started = refl

nine_hangs_up : (run at_menu (dtmf 7 "9" ∷ [])).stopped ≡ true
unfolding engine
nine_hangs_up = refl

stopped-IsFree_example :
    IsFree (run at_menu (dtmf 7 "9" ∷ [])) × ((run at_menu (dtmf 7 "9" ∷ [])).listening ≡ 0)
stopped-IsFree_example = stopped-IsFree flow at_menu (dtmf 7 "9" ∷ []) started nine_hangs_up

started-IsLive_example : IsLive (run at_menu (played 0 ∷ fired 1 ∷ dtmf 7 "4" ∷ []))
started-IsLive_example =
    started-IsLive (create flow) at_menu (played 0 ∷ fired 1 ∷ dtmf 7 "4" ∷ []) started

completes_once_example : completions (run at_menu (dtmf 7 "9" ∷ stop_called ∷ [])).trace ≤ 1
completes_once_example = completes_once flow at_menu (dtmf 7 "9" ∷ stop_called ∷ []) started

restart_throws_example :
    (t : Engine) × (restart (run at_menu (dtmf 7 "9" ∷ [])) ≡ threw t)
    × (t.stopped ≡ false)
    × (t.player ≡ none)
    × (t.timers ≡ [])
    × (t.dtmf_handler ≡ false)
unfolding engine
restart_throws_example =
    restart_throws flow at_menu (dtmf 7 "9" ∷ []) begin to_menu started nine_hangs_up refl refl

plays : PlaysMenu menu "menu.wav" 0 0 at_menu
unfolding engine
plays = record {
  running = refl;
  on_player = refl;
  heard = refl;
  at_node = refl;
  replays = refl;
  fresh = refl;
  idle = refl;
  timer_idle = refl;
  known = refl;
  is_menu = refl;
  audible = refl;
  replaying = refl;
}

silent_caller_example :
    ((n : ℕ)
      → n ≤ 3
      → PlaysMenu menu "menu.wav" n (player_after n 0) (run at_menu (silent_rounds n 0)))
    × ((run at_menu (silent_rounds 4 0)).stopped ≡ true)
    × ((run at_menu (silent_rounds 4 0)).trace
        ≡ completed Action.hung_up none ∷ (run at_menu (silent_rounds 3 0)).trace)
silent_caller_example = silent_caller menu "menu.wav" 0 at_menu plays
