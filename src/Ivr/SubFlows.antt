-- ===== src/Ivr/SubFlows.antt =====
-- internal/application/ivr/nodes_integration.go: SubFlowHandler runs the engine on another flow, in
-- the middle of a run. How deep that goes.
use ccc.Prelude.{
  ℕ, zero, suc, ◌≤◌, ◌≡◌, refl, sym, inl, inr, ◌⊎◌, String, Bool, true, false, Option, none, some,
  List, [], ◌∷◌, arith, ok, err, Bool-cases, Option-cases, ◌<◌,
}
use mathlib.Core.Path.{subst}
use ccc.Prelude.Int.{ℤ}
use ccc.Flow.Graph
use ccc.Flow.Graph.{NodeType, FlowNode, FlowGraph, is_start, is_end, is_known}
use ccc.Flow.Validate.Correct.{All}
use ccc.Ivr.Session.{Session, Handled, leaves, fails, overflows, Handler, visit, assign}
use ccc.Ivr.Providers.{Providers, Library}
use ccc.Ivr.Config.{Json}
use ccc.Ivr.Engine.{
  Ended, overflowed, node_by, start_of, next_node, steps, execute, engine, registry,
  sub_flow_handler, execute_flow, Fault, no_exit, target_not_found, next_id, assign_inputs,
}
use ccc.Ivr.Registry.{registry-Registered}
use ccc.Ivr.Walk.{node_by-All}
use ccc.Ivr.Execution.{start_of-All, execute-from}

abbrev pub has_overflowed : Ended → Bool
has_overflowed overflowed = true
has_overflowed _ = false

abbrev pub overflows_here : Handled → Bool
overflows_here overflows = true
overflows_here _ = false

Handled-cases :
    (r : Handled)
    → overflows_here r ≡ false
    → ((name : String) × (r ≡ leaves name)) ⊎ ((e : String) × (r ≡ fails e))
Handled-cases (leaves name) h = inl (name, refl)
Handled-cases (fails e) h = inr (e, refl)
Handled-cases overflows h = let no : ⊥ = cc in elim no [ ]

-- The next node is a node of the flow.
next_node-of :
    (ns : List FlowNode) (n : FlowNode) (name : String)
    → ((f : Fault) × (next_node ns n name ≡ err f))
      ⊎ ((m : FlowNode) × (t : String) × (next_node ns n name ≡ ok m) × (node_by t ns ≡ some m))
unfolding next_node
next_node-of ns n name = elim (Option-cases (next_id name n)) [
  | inl e ↦ inl (no_exit, ground (arith, e))
  | inr (t, e) ↦ elim (Option-cases (node_by t ns)) [
    | inl f ↦ inl (target_not_found, ground (arith, e, f))
    | inr (m, f) ↦ inr (m, t, ground (arith, e, f), f)
  ]
]

abbrev pub Shallow : {A : Type 0} → (NodeType → Option (Handler A)) → FlowNode → Type 0
Shallow {A} handlers n =
    (h : Handler A) (s : Session) (a : A)
    → handlers n.type ≡ some h
    → overflows_here (h n s a).0 ≡ false

-- If no handler of a node exhausts the stack, neither does the loop.
module _ {A : Type 0} (handlers : NodeType → Option (Handler A)) (ns : List FlowNode)
    (shallow : All (Shallow handlers) ns) where
  steps-Shallow :
      (k : ℕ) (n : FlowNode) (s : Session) (a : A)
      → Shallow handlers n
      → has_overflowed (steps handlers ns k n s a).0 ≡ false
  unfolding steps next_node
  steps-Shallow zero n s a fit = refl
  steps-Shallow (suc k) n s a fit = elim (Bool-cases (is_end n.type)) [
    | inl last ↦ ground (arith, last)
    | inr more ↦ elim (Option-cases (handlers n.type)) [
      | inl unknown ↦ ground (arith, more, unknown)
      | inr (h, registered) ↦
          let calm = fit h s a registered in
          elim (Handled-cases (h n s a).0 calm) [
            | inr (e, failed) ↦ ground (arith, more, registered, failed)
            | inl (name, left) ↦ elim (next_node-of ns n name) [
              | inl (f, stuck) ↦ ground (arith, more, registered, left, stuck)
              | inr (m, t, next, found) ↦
                  let s' : Session = visit n name (h n s a).1.0 in
                  let eq : steps handlers ns (suc k) n s a
                      ≡ steps handlers ns k m s' (h n s a).1.1 =
                    ground (arith, more, registered, left, next) in
                  subst (λ (r : Ended × (Session × A)). has_overflowed r.0 ≡ false) (sym eq)
                    (steps-Shallow k m s' (h n s a).1.1
                      (node_by-All (Shallow handlers) t ns m found shallow))
            ]
          ]
    ]
  ]

  unstarted :
      (s : Session) (a : A)
      → start_of ns ≡ none
      → has_overflowed (execute handlers ns s a).0 ≡ false
  unfolding execute
  unstarted s a e = ground (arith, e)

  execute-Shallow : (s : Session) (a : A) → has_overflowed (execute handlers ns s a).0 ≡ false
  execute-Shallow s a = elim (Option-cases (start_of ns)) [
    | inl e ↦ unstarted s a e
    | inr (n, e) ↦
        let (_, fit) = start_of-All (Shallow handlers) ns n e shallow in
        subst (λ (r : Ended × (Session × A)). has_overflowed r.0 ≡ false)
          (sym (execute-from handlers ns n s a e)) (steps-Shallow 1000 n s a fit)
  ]

module _ {A F : Type 0} (p : Providers A F) (lib : Library F) (json : Json F) where
  -- The flow that a sub flow's node names.
  abbrev pub named_flow : FlowNode → ℤ
  named_flow n = (lib.parse_int (json.sub_flow n.config).flow_id).0

  -- The sub flows that a flow's nodes name stand below a rank.
  abbrev pub Below : (ℤ → ℕ) → ℕ → List FlowNode → Type 0
  Below rank d ns = All (λ n. n.type ≡ Graph.sub_flow → rank (named_flow n) < d) ns

  -- Flows are layered by a rank: a flow names only flows of a lower rank, whenever it is loaded.
  abbrev pub Layered : (ℤ → ℕ) → Type 0
  Layered rank =
      (load : ℤ → A → Option FlowGraph × A) (flow : ℤ) (a : A) (g : FlowGraph)
      → p.flow_loader ≡ some load
      → (load flow a).0 ≡ some g
      → Below rank (rank flow) g.nodes

  -- The session that the sub flow runs in.
  unfoldable pub inner_session : FlowNode → Session → Session
  unfolding sub_flow_handler
  inner_session n s =
      let c = json.sub_flow n.config in
      record (assign "subflow_id" c.flow_id (assign_inputs p lib json c.input_vars s)) {
        flow_id = named_flow n;
        history = [];
      }

  sub_flow-calm :
      (run : List FlowNode → Session → A → Ended × (Session × A)) (n : FlowNode) (s : Session)
      (a : A)
      → ((load : ℤ → A → Option FlowGraph × A) (g : FlowGraph) (s' : Session) (b : A)
          → p.flow_loader ≡ some load
          → (load (named_flow n) a).0 ≡ some g
          → has_overflowed (run g.nodes s' b).0 ≡ false)
      → overflows_here (sub_flow_handler p lib json run n s a).0 ≡ false
  unfolding sub_flow_handler inner_session
  sub_flow-calm run n s a calm = elim (Option-cases p.flow_loader) [
    | inl e ↦ ground (arith, e)
    | inr (load, e) ↦ elim (Option-cases (load (named_flow n) a).0) [
      | inl f ↦ ground (arith, e, f)
      | inr (g, f) ↦
          let c = calm load g (inner_session n s) (load (named_flow n) a).1 e f in
          ground (arith, e, f, c)
    ]
  ]

  registered-known :
      (run : List FlowNode → Session → A → Ended × (Session × A)) (t : NodeType) (h : Handler A)
      → registry p lib json run t ≡ some h
      → is_known t ≡ true
  unfolding registry
  registered-known run t h e = ground arith

  registered-calm :
      (run : List FlowNode → Session → A → Ended × (Session × A)) (n : FlowNode)
      → ((load : ℤ → A → Option FlowGraph × A) (g : FlowGraph) (s : Session) (a b : A)
          → n.type ≡ Graph.sub_flow
          → p.flow_loader ≡ some load
          → (load (named_flow n) a).0 ≡ some g
          → has_overflowed (run g.nodes s b).0 ≡ false)
      → Shallow (registry p lib json run) n
  registered-calm run n deep h s a registered =
      let (h', registered', kind) =
        registry-Registered p lib json run n.type (registered-known run n.type h registered) in
      let same : h' ≡ h = ground (arith, registered, registered') in
      subst (λ (k : Handler A). overflows_here (k n s a).0 ≡ false) same
        (elim kind [
          | inl l ↦ ground (arith, l n s a)
          | inr (t, sub) ↦
              subst (λ (k : Handler A). overflows_here (k n s a).0 ≡ false) (sym sub)
                (sub_flow-calm run n s a (λ load g s' b e f. deep load g s' a b t e f))
        ])

  Below-mono :
      (rank : ℤ → ℕ) (d d' : ℕ) (ns : List FlowNode) → d ≤ d' → Below rank d ns → Below rank d' ns
  Below-mono rank d d' [] le b = tt
  Below-mono rank d d' (n ∷ ns) le b =
      (λ t. omega (arith, b.0 t, le), Below-mono rank d d' ns le b.1)

  module _ (rank : ℤ → ℕ) (layered : Layered rank) where
    All-Shallow :
        (d : ℕ) (ns : List FlowNode) → Below rank d ns → All (Shallow (engine p lib json d)) ns
    unfolding engine
    All-Shallow d [] b = tt
    All-Shallow zero (n ∷ ns) b = (
      registered-calm (λ ns s a. (overflowed, (s, a))) n
          (λ load g s a b' t e f. absurd (omega (arith, b.0 t))),
      All-Shallow zero ns b.1,
    )
    All-Shallow (suc d) (n ∷ ns) b = (
      registered-calm (λ ns. execute (engine p lib json d) ns) n
          (λ load g s a b' t e f.
            execute-Shallow (engine p lib json d) g.nodes
              (All-Shallow d g.nodes (
                Below-mono rank (rank (named_flow n)) d g.nodes (omega (arith, b.0 t))
                  (layered load (named_flow n) a g e f)))
              s b'),
      All-Shallow (suc d) ns b.1,
    )

-- Where flows are layered by a rank, each naming only flows of a lower rank as sub flows, a call
-- that enters a flow with room on the stack for as many sub flows as its rank never exhausts it.
pub execute_flow-bounded :
    {A F : Type 0} (p : Providers A F) (lib : Library F) (json : Json F) (rank : ℤ → ℕ) (depth : ℕ)
    (flow : ℤ) (s : Session) (a : A)
    → Layered p lib json rank
    → rank flow ≤ depth
    → has_overflowed (execute_flow p lib json depth flow s a).0 ≡ false
unfolding execute_flow
execute_flow-bounded p lib json rank depth flow s a layered room =
    elim (Option-cases p.flow_loader) [
      | inl e ↦ ground (arith, e)
      | inr (load, e) ↦ elim (Option-cases (load flow a).0) [
        | inl f ↦ ground (arith, e, f)
        | inr (g, f) ↦
            let calm =
              execute-Shallow (engine p lib json depth) g.nodes
                (All-Shallow p lib json rank layered depth g.nodes (
                  Below-mono p lib json rank (rank flow) depth g.nodes room
                    (layered load flow a g e f)))
                s (load flow a).1 in
            ground (arith, e, f, calm)
      ]
    ]
