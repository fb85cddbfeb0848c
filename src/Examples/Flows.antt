-- ===== src/Examples/Flows.antt =====
-- The theorems on flows at concrete inputs.
use ccc.Prelude.{◌≡◌, refl, err, String, false, none, some, List, [], ◌∷◌, arith, ok, ℕ}
use mathlib.Core.Option
use ccc.Flow.Graph.{FlowGraph, NodeType, targets_of}
use ccc.Flow.Names.{elem}
use ccc.Flow.Search.{fresh, search_from, search_from_total}
use ccc.Flow.Search.Explored.{Explored}
use ccc.Flow.Validate.{FlowError, validate_graph, start_id, reachable, count_nodes, exits_exist}
use ccc.Flow.Validate.Correct.{
  IsWellFormed, validate_graph-IsWellFormed, validate_graph_complete, reachable-Explored,
}
use ccc.Flow.Service.{IvrFlow, FlowStatus, FlowType, Env, World, flow_of, locked}
use ccc.Flow.Sound.{AllSound}
use ccc.Flow.Published.{serve_all, serve_all-AllSound, FlowRequest}
use ccc.Flow.Editing.{lock}
use ccc.Flow.Locks.{lock-MayLock, lock-never_expires, MayLock, is_ok}

abbrev greeting : FlowGraph
greeting = record {
  nodes =
      (record { id = "a"; type = NodeType.start; config = ""; exits = ("next", "b") ∷ [] })
      ∷ (record {
        id = "b";
        type = NodeType.play;
        config = "";
        exits = ("next", "c") ∷ ("again", "b") ∷ [];
      })
      ∷ (record { id = "c"; type = NodeType.end; config = ""; exits = [] })
      ∷ [];
  edges = [];
}

validate_graph-IsWellFormed_example : (greeting ≡ greeting) × IsWellFormed greeting.nodes
unfolding validate_graph count_nodes exits_exist reachable elem fresh targets_of
validate_graph-IsWellFormed_example = validate_graph-IsWellFormed greeting greeting refl

validate_graph_complete_example : validate_graph (some greeting) ≡ ok greeting
validate_graph_complete_example =
    validate_graph_complete greeting (validate_graph-IsWellFormed_example.1)

reachable-Explored_example :
    Explored greeting.nodes (start_id greeting.nodes) [] (reachable greeting.nodes)
reachable-Explored_example = reachable-Explored greeting.nodes

search_from_total_example :
    (r : List String) × (search_from greeting.nodes 4 ("a" ∷ []) [] ≡ some r)
unfolding elem
search_from_total_example = search_from_total greeting.nodes 4 ("a" ∷ []) [] (omega arith)

abbrev env : Env
env = record { ids = λ n. n; db_fails = λ _. false; decode = λ _. some greeting }

abbrev welcome : IvrFlow
welcome = record {
  id = 1;
  tenant_id = 7;
  code = "w";
  name = "Welcome";
  flow_type = FlowType.main;
  version = 1;
  graph = "{}";
  status = FlowStatus.draft;
  locked_by = none;
  locked_at = none;
  lock_expires_at = none;
  published_at = none;
  created_at = 0;
  updated_at = 0;
}

abbrev one_flow : World
one_flow = record { flows = welcome ∷ []; versions = []; drawn = 0; queries = 0 }

lock-MayLock_example :
    MayLock welcome 3 10
    × (Option.map (λ x. x.locked_by) (flow_of 1 (lock env 1 3 10 one_flow).1.flows) ≡ some (some 3))
unfolding flow_of lock
lock-MayLock_example = lock-MayLock env 1 3 10 one_flow welcome (locked 3 10 welcome) refl refl

lock-never_expires_example :
    is_ok (lock env 1 4 9_000_000_000_000 (lock env 1 3 10 one_flow).1).0 ≡ false
unfolding flow_of lock
lock-never_expires_example =
    lock-never_expires env 1 3 4 10 9_000_000_000_000 one_flow welcome (locked 3 10 welcome) refl
      refl refl refl

abbrev no_flows : World
no_flows = record { flows = []; versions = []; drawn = 0; queries = 0 }

abbrev edits : List (ℕ × FlowRequest)
edits =
    (
      5,
      FlowRequest.creates (record {
        tenant_id = 7;
        code = "w";
        name = "W";
        flow_type = FlowType.unset_type;
        graph = "{}";
      }),
    )
    ∷ (6, FlowRequest.locks 0 3)
    ∷ (7, FlowRequest.publishes 0 3)
    ∷ []

serve_all-AllSound_example : AllSound env (serve_all env edits no_flows).flows
unfolding flow_of
serve_all-AllSound_example = serve_all-AllSound env edits no_flows (λ i f e. absurd (cc))

-- A node that no exit leads to is refused.
abbrev island : FlowGraph
island = record {
  nodes =
      (record { id = "a"; type = NodeType.start; config = ""; exits = ("next", "c") ∷ [] })
      ∷ (record { id = "b"; type = NodeType.play; config = ""; exits = ("next", "c") ∷ [] })
      ∷ (record { id = "c"; type = NodeType.end; config = ""; exits = [] })
      ∷ [];
  edges = [];
}

island_refused : validate_graph (some island) ≡ err FlowError.disconnected_node
unfolding validate_graph count_nodes exits_exist reachable elem fresh targets_of
island_refused = refl
