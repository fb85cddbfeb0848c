-- ===== src/Ivr/SelfReference.antt =====
-- internal/application/ivr/nodes_integration.go: a flow that names itself as its sub flow. Nothing in
-- the engine, nor in the check before a flow is published, refuses one.
use ccc.Prelude.{ℕ, zero, suc, ◌≡◌, refl, ◌∙◌, ap, true, Option, some, List, arith, ok}
use ccc.Prelude.Int.{ℤ}
use ccc.Flow.Graph
use ccc.Flow.Graph.{NodeType, FlowNode, FlowGraph, is_start, is_end, is_known}
use ccc.Ivr.Session.{Session, visit, assign_all}
use ccc.Ivr.Providers.{Providers, Library}
use ccc.Ivr.Config.{Json}
use ccc.Ivr.Basic.{start_handler}
use ccc.Ivr.Engine.{
  Ended, overflowed, start_of, next_node, steps, execute, engine, registry, sub_flow_handler,
}
use ccc.Ivr.Execution.{execute-from}
use ccc.Ivr.SubFlows.{inner_session}

start-then-sub_flow :
    {A F : Type 0} (p : Providers A F) (lib : Library F) (json : Json F)
    (load : ℤ → A → Option FlowGraph × A) (g : FlowGraph) (n m : FlowNode) (flow : ℤ)
    (run : List FlowNode → Session → A → Ended × (Session × A)) (k : ℕ) (s : Session) (a : A)
    → p.flow_loader ≡ some load
    → ((b : A) → load flow b ≡ (some g, b))
    → n.type ≡ Graph.start
    → next_node g.nodes n "default" ≡ ok m
    → m.type ≡ Graph.sub_flow
    → lib.parse_int (json.sub_flow m.config).flow_id ≡ (flow, true)
    → ((s' : Session) (b : A) → (run g.nodes s' b).0 ≡ overflowed)
    → (steps (registry p lib json run) g.nodes (suc (suc k)) n s a).0 ≡ overflowed
unfolding steps registry start_handler sub_flow_handler inner_session visit
start-then-sub_flow p lib json load g n m flow run k s a e l t next u id deep =
    let s' : Session = visit n "default" (assign_all (json.start n.config) s) in
    ground (arith, e, l a, t, next, u, id, deep (inner_session p lib json m s') a)

-- A flow whose start leads, by the exit `default`, to a sub flow that is the flow itself exhausts
-- every stack, however many sub flows it has room for.
pub self_reference-overflows :
    {A F : Type 0} (p : Providers A F) (lib : Library F) (json : Json F)
    (load : ℤ → A → Option FlowGraph × A) (g : FlowGraph) (n m : FlowNode) (flow : ℤ) (depth : ℕ)
    (s : Session) (a : A)
    → p.flow_loader ≡ some load
    → ((b : A) → load flow b ≡ (some g, b))
    → start_of g.nodes ≡ some n
    → n.type ≡ Graph.start
    → next_node g.nodes n "default" ≡ ok m
    → m.type ≡ Graph.sub_flow
    → lib.parse_int (json.sub_flow m.config).flow_id ≡ (flow, true)
    → (execute (engine p lib json depth) g.nodes s a).0 ≡ overflowed
unfolding engine
self_reference-overflows p lib json load g n m flow zero s a e l f t next u id =
    ap {B = Ended} (λ r. r.0) (execute-from (engine p lib json zero) g.nodes n s a f)
    ∙ start-then-sub_flow p lib json load g n m flow (λ ns s a. (overflowed, (s, a))) 998 s a e l t
        next u id (λ s' b. refl)
self_reference-overflows p lib json load g n m flow (suc depth) s a e l f t next u id =
    ap {B = Ended} (λ r. r.0) (execute-from (engine p lib json (suc depth)) g.nodes n s a f)
    ∙ start-then-sub_flow p lib json load g n m flow (λ ns. execute (engine p lib json depth) ns)
        998 s a e l t next u id
        (λ s' b. self_reference-overflows p lib json load g n m flow depth s' b e l f t next u id)
