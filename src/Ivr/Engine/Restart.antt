-- ===== src/Ivr/Engine/Restart.antt =====
-- Running the flow again after it completed, as a replay after a failed transfer does.
use callio.Prelude.{◌≡◌, refl, true, false, none, some, List, [], arith}
use callio.Ivr.Flow.{Node, Edge, Flow, find_by_type, edge_from}
use callio.Ivr.Engine.{Engine, Event, create, run, returned, threw, listen_and_go, start, restart}
use callio.Ivr.Engine.Resources.{stopped-IsFree}

restart-eq-threw :
    (s : Engine) (node : Node) (e : Edge)
    → s.dtmf_handler ≡ false
    → find_by_type "ivr_start" s.flow.nodes ≡ some node
    → edge_from node.id s.flow.edges ≡ some e
    → restart s ≡ threw (record s { stopped = false; current_node_id = none; replay_count = 0 })
unfolding restart start listen_and_go
restart-eq-threw s node e h f g = ground arith

-- A session that was started and has stopped cannot be run again: on a flow with a start node that
-- has an outgoing edge, `restart` throws at the registration of the listener that was dropped, and
-- leaves the session marked as running with no player, no live timer and no listener.
pub restart_throws :
    (f : Flow) (s : Engine) (es : List Event) (node : Node) (e : Edge)
    → start (create f) ≡ returned s
    → (run s es).stopped ≡ true
    → find_by_type "ivr_start" (run s es).flow.nodes ≡ some node
    → edge_from node.id (run s es).flow.edges ≡ some e
    → (t : Engine) × (restart (run s es) ≡ threw t)
      × (t.stopped ≡ false)
      × (t.player ≡ none)
      × (t.timers ≡ [])
      × (t.dtmf_handler ≡ false)
restart_throws f s es node e started over has_start has_edge =
    let free = (stopped-IsFree f s es started over).0 in
    (
      record (run s es) { stopped = false; current_node_id = none; replay_count = 0 },
      restart-eq-threw (run s es) node e free.2 has_start has_edge,
      refl,
      free.0,
      free.1,
      free.2,
    )
