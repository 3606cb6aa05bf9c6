-- ===== src/Ivr/Engine/Silence.antt =====
-- A caller who presses nothing at a menu whose no-input action is a replay.
use callio.Prelude.{
  ℕ, zero, suc, ◌+◌, ◌≡◌, ◌<◌, ◌≤◌, refl, String, true, false, none, some, List, [], ◌∷◌, ◌++◌,
  arith, ◌∙◌, ap, eq_iff, lookup,
}
use native.Mathlib.Nat.{add-zero}
use callio.Ivr.Flow.{Node}
use callio.Ivr.Engine.{
  Engine, Event, Action, menu_prompt, played, fired, completed, entry, without, release, complete,
  clear_player, clear_timer, set_timer, play_kept, enter_menu, enter_node, arrive, navigate_to,
  max_replays, on_menu_timeout, execute_timeout, no_input_action, on_timer, on_played, step, run,
}

-- The menu's prompt is playing to the caller for the `r`th time after the first, on player `k`.
pub record PlaysMenu (node : Node) (audio : String) (r k : ℕ) (s : Engine) : Type 0 where
  pub running : s.stopped ≡ false
  pub on_player : s.player ≡ some k
  pub heard : entry k s.pending ≡ some (menu_prompt node)
  pub at_node : s.current_node_id ≡ some node.id
  pub replays : s.replay_count ≡ r
  pub fresh : s.next_handle ≡ suc k
  pub idle : s.timers ≡ []
  pub timer_idle : s.timer ≡ none
  pub known : lookup node.id s.flow.nodes ≡ some node
  pub is_menu : node.type ≡ "ivr_menu"
  pub audible : lookup node.id s.flow.audio_path_map ≡ some audio
  pub replaying : no_input_action node ≡ "replay"

-- The prompt ends, the wait for a key runs out, and so does the grace period.
abbrev pub silent_round : ℕ → List Event
silent_round k = played k ∷ fired (suc k) ∷ fired (suc (suc k)) ∷ []

abbrev pub silent_rounds : ℕ → ℕ → List Event
silent_rounds zero k = []
silent_rounds (suc n) k = silent_round k ++ silent_rounds n (suc (suc (suc k)))

-- The wait after the prompt, and after the timer.
after_prompt :
    (node : Node) (audio : String) (r k : ℕ) (s : Engine)
    → PlaysMenu node audio r k s
    → (t : Engine) × (run s (silent_round k) ≡ execute_timeout node t)
      × (t.stopped ≡ false)
      × (t.player ≡ none)
      × (t.timer ≡ none)
      × (t.timers ≡ [])
      × (t.replay_count ≡ r)
      × (t.current_node_id ≡ some node.id)
      × (t.next_handle ≡ suc (suc (suc k)))
      × (t.flow ≡ s.flow)
      × (t.trace ≡ s.trace)
unfolding run step on_played on_timer on_menu_timeout set_timer
after_prompt node audio r k s v = (
  record s {
    player = none;
    timer = none;
    timers = [];
    pending = without k s.pending;
    next_handle = suc (suc (suc k));
  },
  ground arith,
  v.running,
  refl,
  refl,
  refl,
  v.replays,
  v.at_node,
  refl,
  refl,
  refl,
)

execute_timeout-replays :
    (node : Node) (audio : String) (k : ℕ) (t : Engine)
    → t.stopped ≡ false
    → t.player ≡ none
    → t.timer ≡ none
    → t.timers ≡ []
    → t.replay_count < max_replays
    → t.current_node_id ≡ some node.id
    → t.next_handle ≡ k
    → lookup node.id t.flow.nodes ≡ some node
    → node.type ≡ "ivr_menu"
    → lookup node.id t.flow.audio_path_map ≡ some audio
    → no_input_action node ≡ "replay"
    → PlaysMenu node audio (t.replay_count + 1) k (execute_timeout node t)
unfolding execute_timeout navigate_to arrive enter_node enter_menu play_kept clear_timer
    clear_player
execute_timeout-replays node audio k t running p ti ts few at_node fresh known is_menu audible
      replaying =
    ground (
      arith,
      eq_iff (no_input_action node) "replay",
      eq_iff node.type "ivr_menu",
      eq_iff node.id node.id,
    )

execute_timeout-gives_up :
    (node : Node) (t : Engine)
    → t.stopped ≡ false
    → t.player ≡ none
    → t.timer ≡ none
    → t.replay_count ≡ max_replays
    → no_input_action node ≡ "replay"
    → ((execute_timeout node t).stopped ≡ true)
      × ((execute_timeout node t).trace ≡ completed Action.hung_up none ∷ t.trace)
unfolding execute_timeout complete release
execute_timeout-gives_up node t running p ti full replaying =
    ground (arith, eq_iff (no_input_action node) "replay")

round-replays :
    (node : Node) (audio : String) (r k : ℕ) (s : Engine)
    → r < max_replays
    → PlaysMenu node audio r k s
    → PlaysMenu node audio (r + 1) (suc (suc (suc k))) (run s (silent_round k))
round-replays node audio r k s few v =
    let (t, same, running, p, ti, ts, count, at_node, fresh, flow, trace) =
      after_prompt node audio r k s v in
    rw same (
      rw (← count) (
        execute_timeout-replays node audio _ t running p ti ts (omega arith) at_node fresh
          (rw flow v.known) v.is_menu (rw flow v.audible) v.replaying))

round-gives_up :
    (node : Node) (audio : String) (k : ℕ) (s : Engine)
    → PlaysMenu node audio max_replays k s
    → ((run s (silent_round k)).stopped ≡ true)
      × ((run s (silent_round k)).trace ≡ completed Action.hung_up none ∷ s.trace)
round-gives_up node audio k s v =
    let (t, same, running, p, ti, ts, count, at_node, fresh, flow, trace) =
      after_prompt node audio max_replays k s v in
    let over = execute_timeout-gives_up node t running p ti count v.replaying in
    rw same (over.0, over.1 ∙ ap (λ x. completed Action.hung_up none ∷ x) trace)

run-append : (s : Engine) (es fs : List Event) → run s (es ++ fs) ≡ run (run s es) fs
unfolding run
run-append s [] fs = refl
run-append s (e ∷ es) fs = run-append (step s e) es fs

-- The player of the prompt that is heard after `n` rounds.
abbrev pub player_after : ℕ → ℕ → ℕ
player_after zero k = k
player_after (suc n) k = player_after n (suc (suc (suc k)))

rounds-replay :
    (node : Node) (audio : String) (n r k : ℕ) (s : Engine)
    → n + r ≤ max_replays
    → PlaysMenu node audio r k s
    → PlaysMenu node audio (n + r) (player_after n k) (run s (silent_rounds n k))
rounds-replay node audio zero r k s few v =
    let same : 0 + r ≡ r = omega arith in rw same (unfold run in v)
rounds-replay node audio (suc n) r k s few v =
    let again = round-replays node audio r k s (omega arith) v in
    let later =
      rounds-replay node audio n (r + 1) (suc (suc (suc k))) (run s (silent_round k)) (omega arith)
        again in
    let count : suc n + r ≡ n + (r + 1) = omega arith in
    rw (count, run-append s (silent_round k) (silent_rounds n (suc (suc (suc k))))) later

-- A menu whose no-input action is a replay, and whose prompt is playing for the first time to a
-- caller who never presses a key: after up to three rounds (the prompt ends, the wait for a key runs
-- out, the grace period ends) it plays again, with as many replays counted, and after the fourth the
-- session has stopped and the last thing that it told is that the call is to be hung up.
pub silent_caller :
    (node : Node) (audio : String) (k : ℕ) (s : Engine)
    → PlaysMenu node audio 0 k s
    → ((n : ℕ) → n ≤ 3 → PlaysMenu node audio n (player_after n k) (run s (silent_rounds n k)))
      × ((run s (silent_rounds 4 k)).stopped ≡ true)
      × ((run s (silent_rounds 4 k)).trace
          ≡ completed Action.hung_up none ∷ (run s (silent_rounds 3 k)).trace)
silent_caller node audio k s v =
    let plays : (n : ℕ)
        → n ≤ 3
        → PlaysMenu node audio n (player_after n k) (run s (silent_rounds n k)) =
      λ n few. rw (add-zero n) at (rounds-replay node audio n 0 k s (omega arith) v) in
    let over =
      round-gives_up node audio (player_after 3 k) (run s (silent_rounds 3 k))
        (plays 3 (omega arith)) in
    let split = run-append s (silent_rounds 3 k) (silent_round (player_after 3 k)) in
    (plays, rw split over.0, rw split over.1)
