-- ===== src/Routing/AutoOffline/Laws.antt =====
-- An agent is taken offline exactly at the threshold.
use callio.Prelude.{
  ℕ, suc, ◌+◌, ◌<◌, ◌≤◌, ◌≡◌, refl, ap, ◌∙◌, Bool, true, false, Option, some, List, [], ◌∷◌, arith,
  length, All,
}
use callio.Store.Rows.{Db, offline, update_agent}
use callio.Store.Rows.Laws.{AgentHoldsAt, update_agent_hit}
use callio.Store.Agents.{update_agent_availability}
use callio.Routing.Inbound.{Queue}
use callio.Routing.AutoOffline.{
  Policy, World, has_agent_active_call, counts_in, increment, reset, take_offline, record_miss,
}

module _ (p : Policy) (queues : List Queue) (queue_id : Option ℕ) (any_queue : Bool)
    (agent_id : ℕ) where
  -- The agent misses the offers of these calls, one after the other, and answers none in between.
  unfoldable pub missed : List ℕ → World → World
  missed [] w = w
  missed (c ∷ cs) w = missed cs (record_miss p queues queue_id any_queue c (some agent_id) w).0

  -- The agent has no other active call when the offer of one of these rings out.
  abbrev pub AreFree : List ℕ → Db → Type 0
  AreFree cs db = All (λ c. has_agent_active_call agent_id c db.calls ≡ false) cs

  module _ (counted : counts_in queues queue_id any_queue ≡ true) (on : p.enabled ≡ true) where
    one_miss :
        (c : ℕ) (w : World)
        → has_agent_active_call agent_id c w.db.calls ≡ false
        → suc (w.streaks agent_id) < p.threshold
        → record_miss p queues queue_id any_queue c (some agent_id) w
          ≡ (record w { streaks = increment agent_id w.streaks }, false)
    unfolding record_miss
    one_miss c w free less = ground arith

    last_miss :
        (c : ℕ) (w : World)
        → has_agent_active_call agent_id c w.db.calls ≡ false
        → p.threshold ≤ suc (w.streaks agent_id)
        → record_miss p queues queue_id any_queue c (some agent_id) w ≡ take_offline agent_id w
    unfolding record_miss
    last_miss c w free more = ground arith

    misses_add_up :
        (cs : List ℕ) (w : World)
        → AreFree cs w.db
        → w.streaks agent_id + length cs < p.threshold
        → ((missed cs w).db ≡ w.db)
          × ((missed cs w).announced ≡ w.announced)
          × ((missed cs w).streaks agent_id ≡ w.streaks agent_id + length cs)
    unfolding missed increment
    misses_add_up [] w free less = (refl, refl, omega arith)
    misses_add_up (c ∷ cs) w (free, frees) less =
        let w' : World = record w { streaks = increment agent_id w.streaks } in
        let rest = misses_add_up cs w' frees (ground arith) in
        rw (missed, one_miss c w free (omega (arith, less))) (rest.0, rest.1, rest.2 ∙ ground arith)

    hit-offline :
        (w : World)
        → AgentHoldsAt agent_id (λ a. a.is_deleted ≡ false) w.db
        → (update_agent_availability agent_id offline w.db).1 ≡ true
    unfolding update_agent_availability update_agent
    hit-offline w (a, found, here) = ground arith

    take_offline_lem :
        (w : World)
        → AgentHoldsAt agent_id (λ a. a.is_deleted ≡ false) w.db
        → ((take_offline agent_id w).1 ≡ true)
          × AgentHoldsAt agent_id (λ a. a.availability ≡ offline) (take_offline agent_id w).0.db
          × ((take_offline agent_id w).0.streaks agent_id ≡ 0)
          × ((take_offline agent_id w).0.announced
              ≡ (agent_id, suc (w.streaks agent_id)) ∷ w.announced)
    unfolding take_offline reset update_agent_availability
    take_offline_lem w exists =
        let hit = hit-offline w exists in
        rw hit (
          refl,
          update_agent_hit (λ a. a.availability ≡ offline) agent_id _ _ w.db (λ x. refl) (λ x. refl)
              hit,
          ground arith,
          refl,
        )

    -- In a tenant with the policy on and a queue whose misses count, an agent whose misses go on without
    -- an answer is taken offline exactly when the streak reaches the threshold: until then nothing is
    -- written to the database and nothing is announced, and the miss that reaches it makes the agent's
    -- shift OFFLINE, announces the agent with the threshold, and starts the streak from 0 again.
    pub offline_at_threshold :
        (cs : List ℕ) (last : ℕ) (w : World)
        → AgentHoldsAt agent_id (λ a. a.is_deleted ≡ false) w.db
        → AreFree (last ∷ cs) w.db
        → suc (w.streaks agent_id + length cs) ≡ p.threshold
        → ((missed cs w).db ≡ w.db)
          × ((missed cs w).announced ≡ w.announced)
          × ((record_miss p queues queue_id any_queue last (some agent_id) (missed cs w)).1 ≡ true)
          × AgentHoldsAt agent_id
              (λ a. a.availability ≡ offline)
              (record_miss p queues queue_id any_queue last (some agent_id) (missed cs w)).0.db
          × ((record_miss p queues queue_id any_queue last (some agent_id) (missed cs w)).0.streaks
                agent_id
              ≡ 0)
          × ((record_miss p queues queue_id any_queue last
                (some agent_id)
                (missed cs w)).0.announced
              ≡ (agent_id, p.threshold) ∷ w.announced)
    offline_at_threshold cs last w exists (free, frees) reached =
        let (same, quiet, streak) = misses_add_up cs w frees (omega (arith, reached)) in
        let still : AgentHoldsAt agent_id (λ a. a.is_deleted ≡ false) (missed cs w).db =
          rw same exists in
        let flip = take_offline_lem (missed cs w) still in
        let now = last_miss last (missed cs w) (rw same free) (omega (arith, streak, reached)) in
        let full : suc ((missed cs w).streaks agent_id) ≡ p.threshold =
          ap (λ n. suc n) streak ∙ reached in
        rw now (same, quiet, flip.0, flip.1, flip.2, flip.3 ∙ (λ i. (agent_id, full i) ∷ quiet i))
