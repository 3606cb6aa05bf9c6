-- ===== src/Ivr/Engine/Digits.antt =====
-- Where a key press leads.
use callio.Prelude.{
  ℕ, ◌≡◌, refl, sym, ◌≢◌, ◌⊎◌, inl, inr, String, Bool, true, false, none, some, List, [], ◌∷◌,
  arith, eq_iff, ◌===◌, find, Option-cases, Bool-cases, lookup, is_some,
}
use mathlib.Core.List.{Memᴰ}
use mathlib.Core.Option.{some-injective}
use callio.Ivr.Flow.{
  Node, Edge, Flow, RouteMethod, edge, legacy_map, edge_for_digit, legacy_route, choose_route,
}
use callio.Ivr.Engine.{
  Engine, route_matched, route_invalid, input_recorded, dtmf_received, navigate_to, on_dtmf,
  handle_dtmf,
}

-- An edge of the flow that the digit selects at the node.
pub record Selects (flow : Flow) (node : Node) (digit target : String) : Type 0 where
  pub via : Edge
  pub listed : Memᴰ via flow.edges
  pub from_node : via.source ≡ node.id
  pub on_digit : via.source_handle ≡ digit
  pub leads : via.target ≡ target

-- The node's map names a node of the flow for the digit.
pub record Maps (flow : Flow) (node : Node) (digit target : String) : Type 0 where
  pub table : List (String × String)
  pub has_table : node.node_data.dtmf_map ≡ some table
  pub entry : lookup digit table ≡ some target
  pub exists : is_some (lookup target flow.nodes) ≡ true

find_sound {ℓ} :
    {A : Type ℓ} (p : A → Bool) (xs : List A) {x : A}
    → find p xs ≡ some x
    → Memᴰ x xs × (p x ≡ true)
find_sound p [] e = cc
find_sound p (y ∷ ys) e = elim (Bool-cases (p y)) [
  | inl q ↦ let same = some-injective _ _ (rw q at e) in (Memᴰ.head (sym same), rw (← same) q)
  | inr q ↦ let later = find_sound p ys (rw q at e) in (Memᴰ.tail later.0, later.1)
]

edge_for_digit-Selects :
    (flow : Flow) (node : Node) (digit : String) (e : Edge)
    → edge_for_digit node.id digit flow.edges ≡ some e
    → Selects flow node digit e.target
unfolding edge_for_digit
edge_for_digit-Selects flow node digit e h =
    let (listed, passes) = find_sound _ flow.edges h in
    record {
      via = e;
      listed = listed;
      from_node = ground (arith, eq_iff e.source node.id);
      on_digit = ground (arith, eq_iff e.source_handle digit);
      leads = refl;
    }

legacy_route-Maps :
    (flow : Flow) (node : Node) (digit : String) {target : String} {m : RouteMethod}
    → legacy_route flow node digit ≡ some (target, m)
    → (m ≡ legacy_map) × Maps flow node digit target
unfolding legacy_route
legacy_route-Maps flow node digit {target} {m} h = elim (Option-cases node.node_data.dtmf_map) [
  | inl e ↦ absurd (ground arith)
  | inr (table, e) ↦ elim (Option-cases (lookup digit table)) [
    | inl f ↦ absurd (ground arith)
    | inr (t, f) ↦ (
      ground arith,
      record { table = table; has_table = e; entry = ground arith; exists = ground arith },
    )
  ]
]

-- The digit's first edge has no target, or there is no such edge.
abbrev pub HasNoEdge : Flow → Node → String → Type 0
HasNoEdge flow node digit =
    (edge_for_digit node.id digit flow.edges ≡ none)
    ⊎ ((e : Edge) × (edge_for_digit node.id digit flow.edges ≡ some e) × (e.target ≡ ""))

-- A map counts only where no edge does.
abbrev pub IsChosen : Flow → Node → String → String → RouteMethod → Type 0
IsChosen flow node digit target edge = Selects flow node digit target
IsChosen flow node digit target legacy_map = Maps flow node digit target × HasNoEdge flow node digit

via_map :
    (flow : Flow) (node : Node) (digit target : String) (m : RouteMethod)
    → HasNoEdge flow node digit
    → (m ≡ legacy_map) × Maps flow node digit target
    → IsChosen flow node digit target m
via_map flow node digit target edge n (e, maps) = cc
via_map flow node digit target legacy_map n (e, maps) = (maps, n)

choose_route-IsChosen :
    (flow : Flow) (node : Node) (digit target : String) (m : RouteMethod)
    → choose_route flow node digit ≡ some (target, m)
    → IsChosen flow node digit target m
unfolding choose_route
choose_route-IsChosen flow node digit target m h =
    elim (Option-cases (edge_for_digit node.id digit flow.edges)) [
      | inl e ↦
          via_map flow node digit target m (inl e)
            (legacy_route-Maps flow node digit (ground arith))
      | inr (x, e) ↦ elim (Bool-cases (x.target === "")) [
        | inl empty ↦
            via_map flow node digit target m (inr (x, e, (eq_iff _ _).0 empty))
              (legacy_route-Maps flow node digit (ground arith))
        | inr full ↦
            let is_target : x.target ≡ target = ground arith in
            let is_edge : edge ≡ m = ground arith in
            rw (← is_target, ← is_edge) (edge_for_digit-Selects flow node digit x e)
      ]
    ]

-- A key pressed at the current menu node of a running session, for its call: if the digit has no
-- route, the session is as it was but for the two notifications; otherwise it navigates to the target
-- of an edge of the flow that leaves the node on that digit, or, only where no edge with a target
-- does, to the existing node that the node's map names for it.
pub handle_dtmf_lem :
    (node : Node) (digit : String) (s : Engine)
    → s.stopped ≡ false
    → s.current_menu_node ≡ some node
    → (handle_dtmf s.flow.call_id digit s
        ≡ record s { trace = route_invalid digit node.id ∷ dtmf_received digit node.id ∷ s.trace })
      ⊎ ((target : String) × (m : RouteMethod) × IsChosen s.flow node digit target m
          × (handle_dtmf s.flow.call_id digit s
              ≡ navigate_to target (record s {
                trace =
                    input_recorded digit node.id
                    ∷ route_matched digit m node.id target
                    ∷ dtmf_received digit node.id
                    ∷ s.trace;
              })))
unfolding handle_dtmf on_dtmf
handle_dtmf_lem node digit s running current =
    elim (Option-cases (choose_route s.flow node digit)) [
      | inl e ↦ inl (ground arith)
      | inr ((target, m), e) ↦
          inr (target, m, choose_route-IsChosen s.flow node digit target m e, ground arith)
    ]

-- A key press for another call changes nothing.
pub other_call :
    (c : ℕ) (digit : String) (s : Engine) → c ≢ s.flow.call_id → handle_dtmf c digit s ≡ s
unfolding handle_dtmf
other_call c digit s h = ground arith
