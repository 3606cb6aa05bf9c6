-- ===== src/Ivr/Engine/Progress.antt =====
-- A session never goes silent: until it stops, something that it waits for is still to come.
use callio.Prelude.{
  ℕ, zero, suc, ◌≡◌, ◌⊎◌, inl, inr, String, Bool, true, false, Option, none, some, List, [], ◌∷◌,
  arith, ◌==◌, ◌||◌, ◌+◌, Option-cases, lookup,
}
use callio.Ivr.Flow.{Node, NodeData, find_by_type, edge_from}
use callio.Ivr.Engine.{
  Engine, Action, Play, Timer, Event, menu_prompt, play_prompt, error_prompt, no_input, grace, dtmf,
  played, play_failed, fired, stop_called, entry, without, release, complete, stop, set_timer,
  play_kept, play_apart, play_error_and_hangup, enter_menu, enter_play, enter_node, arrive,
  navigate_to, on_dtmf, handle_dtmf, emit_dtmf, on_menu_timeout, execute_timeout, on_timer,
  on_played, on_play_failed, step, run, returned, listen_and_go, start, is_player,
}

-- A pending prompt whose end will move the session on: a menu's prompt only while it is the current
-- one, since the continuation of a replaced one does nothing.
abbrev pub moves_on : Option ℕ → ℕ → Play → Bool
moves_on current p (menu_prompt node) = is_player p current
moves_on current p (play_prompt node) = true
moves_on current p error_prompt = true

abbrev pub any_moves_on : Option ℕ → List (ℕ × Play) → Bool
any_moves_on current [] = false
any_moves_on current ((p, a) ∷ xs) = moves_on current p a || any_moves_on current xs

abbrev pub is_waited_for : Option ℕ → List (ℕ × Timer) → Bool
is_waited_for none ts = false
is_waited_for (some h) [] = false
is_waited_for (some h) ((g, t) ∷ ts) = g == h || is_waited_for (some h) ts

-- The session has stopped, or a prompt is playing whose end moves it on, or its timer is running.
abbrev pub IsLive : Engine → Type 0
IsLive s =
    (s.stopped ≡ true)
    ⊎ (any_moves_on s.player s.pending ≡ true)
    ⊎ (is_waited_for s.timer s.timers ≡ true)

complete_stops : (a : Action) (d : Option NodeData) (s : Engine) → (complete a d s).stopped ≡ true
unfolding complete release
complete_stops a d s = ground arith

play_error_and_hangup-IsLive : (s : Engine) → IsLive (play_error_and_hangup s)
unfolding play_error_and_hangup play_apart
play_error_and_hangup-IsLive s = ground (arith, complete_stops Action.hung_up none (release s))

enter_node-IsLive : (node : Node) (s : Engine) → IsLive (enter_node node s)
unfolding enter_node enter_menu enter_play play_kept
enter_node-IsLive node s = ground (
  arith,
  play_error_and_hangup-IsLive s,
  complete_stops Action.transferred (some node.node_data) s,
  complete_stops Action.hung_up none s,
  complete_stops Action.error none s,
)

pub navigate_to-IsLive : (id : String) (s : Engine) → IsLive (navigate_to id s)
unfolding navigate_to
navigate_to-IsLive id s = elim (Option-cases (lookup id s.flow.nodes)) [
  | inl f ↦ ground (arith, complete_stops Action.error none s)
  | inr (node, f) ↦ ground (arith, enter_node-IsLive node (arrive id node s))
]

on_dtmf-IsLive :
    (node : Node) (digit : String) (s : Engine) → IsLive s → IsLive (on_dtmf node digit s)
unfolding on_dtmf
on_dtmf-IsLive node digit s v = grind (arith, navigate_to-IsLive)

handle_dtmf-IsLive :
    (c : ℕ) (digit : String) (s : Engine) → IsLive s → IsLive (handle_dtmf c digit s)
unfolding handle_dtmf
handle_dtmf-IsLive c digit s v = elim (Option-cases s.current_menu_node) [
  | inl e ↦ ground arith
  | inr (node, e) ↦ ground (arith, on_dtmf-IsLive node digit s v)
]

emit_dtmf-IsLive :
    (n c : ℕ) (digit : String) (s : Engine) → IsLive s → IsLive (emit_dtmf n c digit s)
unfolding emit_dtmf
emit_dtmf-IsLive zero c digit s v = v
emit_dtmf-IsLive (suc n) c digit s v =
    emit_dtmf-IsLive n c digit (handle_dtmf c digit s) (handle_dtmf-IsLive c digit s v)

-- Taking a replaced menu's prompt off the list leaves what the session waits for.
any_moves_on-without :
    (current : Option ℕ) (p : ℕ) (node : Node) (xs : List (ℕ × Play))
    → any_moves_on current xs ≡ true
    → entry p xs ≡ some (menu_prompt node)
    → is_player p current ≡ false
    → any_moves_on current (without p xs) ≡ true
any_moves_on-without current p node [] h e q = h
any_moves_on-without current p node ((g, menu_prompt m) ∷ xs) h e q =
    ground (arith, any_moves_on-without current p node xs)
any_moves_on-without current p node ((g, play_prompt m) ∷ xs) h e q =
    ground (arith, any_moves_on-without current p node xs)
any_moves_on-without current p node ((g, error_prompt) ∷ xs) h e q =
    ground (arith, any_moves_on-without current p node xs)

played_menu-IsLive :
    (p : ℕ) (node : Node) (s : Engine)
    → IsLive s
    → entry p s.pending ≡ some (menu_prompt node)
    → IsLive (on_played p (menu_prompt node) (record s { pending = without p s.pending }))
unfolding on_played set_timer
played_menu-IsLive p node s v e = ground (arith, any_moves_on-without s.player p node s.pending)

played_other-IsLive : (p : ℕ) (node : Node) (s : Engine) → IsLive (on_played p (play_prompt node) s)
unfolding on_played
played_other-IsLive p node s = grind (arith, navigate_to-IsLive, complete_stops)

error_played-IsLive : (p : ℕ) (s : Engine) → IsLive (on_played p error_prompt s)
unfolding on_played
error_played-IsLive p s = ground (arith, complete_stops Action.hung_up none s)

on_play_failed-IsLive : (p : ℕ) (purpose : Play) (s : Engine) → IsLive (on_play_failed p purpose s)
unfolding on_play_failed
on_play_failed-IsLive p (menu_prompt node) s = ground (arith, play_error_and_hangup-IsLive s)
on_play_failed-IsLive p (play_prompt node) s = ground (arith, play_error_and_hangup-IsLive s)
on_play_failed-IsLive p error_prompt s = ground (arith, complete_stops Action.hung_up none s)

on_timer-IsLive : (t : Timer) (s : Engine) → IsLive (on_timer t s)
unfolding on_timer on_menu_timeout execute_timeout set_timer
on_timer-IsLive (no_input node ms) s = ground arith
on_timer-IsLive (grace node ms) s = grind (arith, navigate_to-IsLive, complete_stops)

on_played-IsLive :
    (p : ℕ) (purpose : Play) (s : Engine)
    → IsLive s
    → entry p s.pending ≡ some purpose
    → IsLive (on_played p purpose (record s { pending = without p s.pending }))
on_played-IsLive p (menu_prompt node) s v e = played_menu-IsLive p node s v e
on_played-IsLive p (play_prompt node) s v e = played_other-IsLive p node _
on_played-IsLive p error_prompt s v e = error_played-IsLive p _

stop_stops : (s : Engine) → (stop s).stopped ≡ true
unfolding stop release
stop_stops s = ground arith

step-IsLive : (s : Engine) (e : Event) → IsLive s → IsLive (step s e)
unfolding step
step-IsLive s (dtmf c digit) v = emit_dtmf-IsLive s.listening c digit s v
step-IsLive s (played p) v = elim (Option-cases (entry p s.pending)) [
  | inl e ↦ ground arith
  | inr (q, e) ↦ ground (arith, on_played-IsLive p q s v e)
]
step-IsLive s (play_failed p) v = elim (Option-cases (entry p s.pending)) [
  | inl e ↦ ground arith
  | inr (q, e) ↦
      ground (arith, on_play_failed-IsLive p q (record s { pending = without p s.pending }))
]
step-IsLive s (fired h) v = elim (Option-cases (entry h s.timers)) [
  | inl e ↦ ground arith
  | inr (t, e) ↦ ground (arith, on_timer-IsLive t (record s { timers = without h s.timers }))
]
step-IsLive s stop_called v = inl (stop_stops s)

run-IsLive : (s : Engine) (es : List Event) → IsLive s → IsLive (run s es)
unfolding run
run-IsLive s [] v = v
run-IsLive s (e ∷ es) v = run-IsLive (step s e) es (step-IsLive s e v)

listen_and_go-IsLive : (id : String) (s t : Engine) → listen_and_go id s ≡ returned t → IsLive t
unfolding listen_and_go
listen_and_go-IsLive id s t e =
    let same : t ≡ navigate_to id (record s { listening = s.listening + 1 }) = ground arith in
    rw same (navigate_to-IsLive id _)

start-IsLive : (s t : Engine) → start s ≡ returned t → IsLive t
unfolding start
start-IsLive s t e = elim (Option-cases (find_by_type "ivr_start" s.flow.nodes)) [
  | inl f ↦ ground (arith, complete_stops Action.error none s)
  | inr (node, f) ↦ elim (Option-cases (edge_from node.id s.flow.edges)) [
    | inl g ↦ ground (arith, complete_stops Action.error none s)
    | inr (edge, g) ↦ listen_and_go-IsLive edge.target s t (rw (f, start, g) at e)
  ]
]

-- From any `start` that does not throw on, whatever keys are pressed, prompts end or fail and timers
-- fire, in any order: the session has stopped, or a prompt is pending whose end moves it on, or its
-- own timer is running. It is never left waiting for nothing.
pub started-IsLive : (s t : Engine) (es : List Event) → start s ≡ returned t → IsLive (run t es)
started-IsLive s t es e = run-IsLive t es (start-IsLive s t e)
