-- ===== src/Ivr/Engine/Resources.antt =====
-- Timers, players and the digit listener of a session: none leaks, and a stopped session has none.
use callio.Prelude.{
  ℕ, zero, suc, ◌≡◌, refl, String, Bool, true, false, Option, none, some, List, [], ◌∷◌, arith,
  ◌==◌, Option-cases, lookup, if◌then◌else◌, inl, inr,
}
use callio.Ivr.Engine.Listening.{run-IsHeard, start-IsHeard}
use callio.Ivr.Flow.{Node, NodeData, Flow}
use callio.Ivr.Engine.{
  Engine, Action, Play, Timer, Event, menu_prompt, play_prompt, error_prompt, no_input, grace, dtmf,
  played, play_failed, fired, stop_called, entry, without, create, release, complete, stop,
  clear_player, clear_timer, set_timer, play_kept, play_apart, play_error_and_hangup, enter_menu,
  enter_play, enter_node, arrive, navigate_to, on_dtmf, handle_dtmf, emit_dtmf, on_menu_timeout,
  execute_timeout, on_timer, on_played, on_play_failed, step, run, returned, listen_and_go, start,
}

-- There is no live timer, or one: the one that the timer field names, with no player beside it.
abbrev pub is_tidy : Option ℕ → Option ℕ → List (ℕ × Timer) → Bool
is_tidy player timer [] = true
is_tidy none (some h) ((g, t) ∷ []) = g == h
is_tidy _ _ _ = false

abbrev pub IsTidy : Engine → Type 0
IsTidy s = is_tidy s.player s.timer s.timers ≡ true

abbrev pub IsFree : Engine → Type 0
IsFree s = (s.player ≡ none) × (s.timers ≡ []) × (s.dtmf_handler ≡ false)

pub record Inv (s : Engine) : Type 0 where
  pub tidy : IsTidy s
  pub quiet : s.stopped ≡ true → IsFree s

without-tidy :
    (h : ℕ) (player timer : Option ℕ) (ts : List (ℕ × Timer))
    → is_tidy player timer ts ≡ true
    → timer ≡ some h
    → without h ts ≡ []
without-tidy h player timer [] e p = refl
without-tidy h none (some k) ((g, t) ∷ []) e p = ground arith
without-tidy h (some q) (some k) ((g, t) ∷ []) e p = cc
without-tidy h player none ((g, t) ∷ ts) e p = cc
without-tidy h none (some k) ((g, t) ∷ u ∷ ts) e p = cc
without-tidy h (some q) (some k) ((g, t) ∷ u ∷ ts) e p = cc

tidy_idle :
    (player timer : Option ℕ) (ts : List (ℕ × Timer))
    → is_tidy player timer ts ≡ true
    → timer ≡ none
    → ts ≡ []
tidy_idle player timer [] e p = refl
tidy_idle none (some h) ((g, t) ∷ []) e p = cc
tidy_idle (some q) (some h) ((g, t) ∷ []) e p = cc
tidy_idle none none ((g, t) ∷ ts) e p = cc
tidy_idle (some q) none ((g, t) ∷ ts) e p = cc
tidy_idle none (some k) ((g, t) ∷ u ∷ ts) e p = cc
tidy_idle (some q) (some k) ((g, t) ∷ u ∷ ts) e p = cc

tidy_weaken :
    (player timer : Option ℕ) (ts : List (ℕ × Timer))
    → is_tidy player timer ts ≡ true
    → is_tidy none timer ts ≡ true
tidy_weaken player timer [] e = refl
tidy_weaken none timer (u ∷ ts) e = e
tidy_weaken (some q) none ((g, t) ∷ ts) e = cc
tidy_weaken (some q) (some k) ((g, t) ∷ []) e = cc
tidy_weaken (some q) (some k) ((g, t) ∷ u ∷ ts) e = cc

-- After both are cleared nothing is left of them.
pub cleared :
    (s : Engine)
    → IsTidy s
    → ((clear_timer (clear_player s)).player ≡ none) × ((clear_timer (clear_player s)).timers ≡ [])
unfolding clear_timer clear_player
cleared s h = elim (Option-cases s.timer) [
  | inl e ↦ ground (arith, tidy_idle s.player s.timer s.timers h e)
  | inr (k, e) ↦ ground (arith, without-tidy k s.player s.timer s.timers h e)
]

pub release-IsFree : (s : Engine) → IsTidy s → IsFree (release s)
unfolding release
release-IsFree s h = ground (arith, cleared s h)

IsFree-IsTidy : (s : Engine) → IsFree s → IsTidy s
IsFree-IsTidy s f = ground arith

release-Inv : (s : Engine) → IsTidy s → Inv (release s)
release-Inv s h =
    let f = release-IsFree s h in record { tidy = IsFree-IsTidy (release s) f; quiet = λ _. f }

complete-Inv : (a : Action) (d : Option NodeData) (s : Engine) → Inv s → Inv (complete a d s)
unfolding complete
complete-Inv a d s v = ground (arith, release-Inv (record s { stopped = true }) v.tidy)

stop-Inv : (s : Engine) → Inv s → Inv (stop s)
unfolding stop
stop-Inv s v = ground (arith, release-Inv (record s { stopped = true }) v.tidy)

play_error_and_hangup-Inv : (s : Engine) → Inv s → Inv (play_error_and_hangup s)
unfolding play_error_and_hangup play_apart
play_error_and_hangup-Inv s v =
    ground (arith, release-Inv s v.tidy, complete-Inv Action.hung_up none (release s))

-- What a node's entry starts from: a running engine with neither player nor timer.
abbrev IsReady : Engine → Type 0
IsReady s = (s.stopped ≡ false) × (s.player ≡ none) × (s.timers ≡ [])

IsReady-Inv : (s : Engine) → IsReady s → Inv s
IsReady-Inv s r = ground arith

enter_node-Inv : (node : Node) (s : Engine) → IsReady s → Inv (enter_node node s)
unfolding enter_node enter_menu enter_play play_kept
enter_node-Inv node s r = ground (
  arith,
  IsReady-Inv s r,
  play_error_and_hangup-Inv s,
  complete-Inv Action.transferred (some node.node_data) s,
  complete-Inv Action.hung_up none s,
  complete-Inv Action.error none s,
)

cleared_keeps :
    (s : Engine)
    → ((clear_timer (clear_player s)).stopped ≡ s.stopped)
      × ((clear_timer (clear_player s)).flow ≡ s.flow)
      × ((clear_timer (clear_player s)).replay_count ≡ s.replay_count)
      × ((clear_timer (clear_player s)).current_node_id ≡ s.current_node_id)
      × ((clear_timer (clear_player s)).dtmf_handler ≡ s.dtmf_handler)
      × ((clear_timer (clear_player s)).pending ≡ s.pending)
unfolding clear_timer clear_player
cleared_keeps s = ground arith

arrive-IsReady :
    (id : String) (node : Node) (s : Engine)
    → s.stopped ≡ false
    → Inv s
    → IsReady (arrive id node s)
unfolding arrive
arrive-IsReady id node s e v = ground (arith, cleared s v.tidy, cleared_keeps s)

pub navigate_to-Inv : (id : String) (s : Engine) → Inv s → Inv (navigate_to id s)
unfolding navigate_to
navigate_to-Inv id s v = elim (Option-cases (lookup id s.flow.nodes)) [
  | inl f ↦ ground (arith, complete-Inv Action.error none s v)
  | inr (node, f) ↦ ground (
    arith,
    enter_node-Inv node (arrive id node s),
    λ (e : s.stopped ≡ false). arrive-IsReady id node s e v,
  )
]

on_dtmf-Inv : (node : Node) (digit : String) (s : Engine) → Inv s → Inv (on_dtmf node digit s)
unfolding on_dtmf
on_dtmf-Inv node digit s v = grind (arith, navigate_to-Inv)

handle_dtmf-Inv : (c : ℕ) (digit : String) (s : Engine) → Inv s → Inv (handle_dtmf c digit s)
unfolding handle_dtmf
handle_dtmf-Inv c digit s v = grind (arith, on_dtmf-Inv)

emit_dtmf-Inv : (n c : ℕ) (digit : String) (s : Engine) → Inv s → Inv (emit_dtmf n c digit s)
unfolding emit_dtmf
emit_dtmf-Inv zero c digit s v = v
emit_dtmf-Inv (suc n) c digit s v =
    emit_dtmf-Inv n c digit (handle_dtmf c digit s) (handle_dtmf-Inv c digit s v)

on_played-Inv : (p : ℕ) (purpose : Play) (s : Engine) → Inv s → Inv (on_played p purpose s)
unfolding on_played set_timer
on_played-Inv p (menu_prompt node) s v = grind (arith, tidy_idle)
on_played-Inv p (play_prompt node) s v = grind (arith, navigate_to-Inv, complete-Inv)
on_played-Inv p error_prompt s v = grind (arith, complete-Inv)

on_play_failed-Inv :
    (p : ℕ) (purpose : Play) (s : Engine) → Inv s → Inv (on_play_failed p purpose s)
unfolding on_play_failed
on_play_failed-Inv p (menu_prompt node) s v = grind (arith, play_error_and_hangup-Inv)
on_play_failed-Inv p (play_prompt node) s v = grind (arith, play_error_and_hangup-Inv)
on_play_failed-Inv p error_prompt s v = grind (arith, complete-Inv)

fired_alone :
    (h : ℕ) (player timer : Option ℕ) (ts : List (ℕ × Timer)) {t : Timer}
    → is_tidy player timer ts ≡ true
    → entry h ts ≡ some t
    → (without h ts ≡ []) × (player ≡ none)
fired_alone h player timer [] e p = cc
fired_alone h none (some k) ((g, t) ∷ []) e p = ground arith
fired_alone h none none ((g, t) ∷ ts) e p = cc
fired_alone h (some q) none ((g, t) ∷ ts) e p = cc
fired_alone h (some q) (some k) ((g, t) ∷ []) e p = cc
fired_alone h none (some k) ((g, t) ∷ u ∷ ts) e p = cc
fired_alone h (some q) (some k) ((g, t) ∷ u ∷ ts) e p = cc

on_timer-Inv :
    (t : Timer) (s : Engine) → Inv s → s.player ≡ none → s.timers ≡ [] → Inv (on_timer t s)
unfolding on_timer on_menu_timeout execute_timeout set_timer
on_timer-Inv (no_input node ms) s v p q = ground arith
on_timer-Inv (grace node ms) s v p q = grind (arith, navigate_to-Inv, complete-Inv)

fired-Inv : (h : ℕ) (s : Engine) → Inv s → Inv (step s (fired h))
unfolding step
fired-Inv h s v = elim (Option-cases (entry h s.timers)) [
  | inl e ↦ ground arith
  | inr (t, e) ↦
      let (gone, idle) = fired_alone h s.player s.timer s.timers v.tidy e in
      let t' : Engine = record s { timers = without h s.timers } in
      let v' : Inv t' = ground arith in
      let w : Inv (on_timer t t') = on_timer-Inv t t' v' idle gone in ground arith
]

settled-Inv :
    (p : ℕ) (ok : Bool) (s : Engine) → Inv s → Inv (step s (if ok then played p else play_failed p))
unfolding step
settled-Inv p ok s v = elim (Option-cases (entry p s.pending)) [
  | inl e ↦ ground arith
  | inr (q, e) ↦
      let t : Engine = record s { pending = without p s.pending } in
      let w : Inv t = record { tidy = v.tidy; quiet = v.quiet } in
      ground (arith, on_played-Inv p q t w, on_play_failed-Inv p q t w)
]

-- Whatever happens to a session, it keeps at most one live timer, which its timer field names, never
-- a timer beside a playing prompt, and once it has stopped no player, no timer and no listener.
pub step-Inv : (s : Engine) (e : Event) → Inv s → Inv (step s e)
unfolding step
step-Inv s (dtmf c digit) v = emit_dtmf-Inv s.listening c digit s v
step-Inv s (played p) v = settled-Inv p true s v
step-Inv s (play_failed p) v = settled-Inv p false s v
step-Inv s (fired h) v = fired-Inv h s v
step-Inv s stop_called v = stop-Inv s v

pub run-Inv : (s : Engine) (es : List Event) → Inv s → Inv (run s es)
unfolding run
run-Inv s [] v = v
run-Inv s (e ∷ es) v = run-Inv (step s e) es (step-Inv s e v)

pub create-Inv : (f : Flow) → Inv (create f)
unfolding create
create-Inv f = ground arith

-- A session that `start` set going is in the invariant.
pub start-Inv : (s t : Engine) → Inv s → start s ≡ returned t → Inv t
unfolding start listen_and_go
start-Inv s t v e = grind (arith, navigate_to-Inv, complete-Inv)

-- A session started on a new engine that has then stopped, after any events short of a restart, holds
-- nothing: no player, no live timer, no digit listener, and no registration of one on the bus.
pub stopped-IsFree :
    (f : Flow) (s : Engine) (es : List Event)
    → start (create f) ≡ returned s
    → (run s es).stopped ≡ true
    → IsFree (run s es) × ((run s es).listening ≡ 0)
stopped-IsFree f s es e h =
    let free = (run-Inv s es (start-Inv (create f) s (create-Inv f) e)).quiet h in
    (free, ground (arith, run-IsHeard s es (start-IsHeard f s e)))
