-- ===== src/Flow/Validate.antt =====
-- internal/domain/routing/validator.go: ValidateGraph. Decoding the JSON is not modelled: its
-- outcome is the argument, none for an error of json.Unmarshal.
pub mod Correct
use ccc.Prelude.{
  ℕ, zero, suc, ◌+◌, String, Bool, true, false, not, ◌&&◌, Option, none, some, List, [], ◌∷◌,
  length, value_or, ltb, ◌==◌, if◌then◌else◌, Result, ok, err,
}
use ccc.Flow.Names.{elem}
use ccc.Flow.Graph.{FlowNode, FlowGraph, targets, ids, is_start, is_end, is_known}
use ccc.Flow.Search.{search_from, exits_left}

pub data FlowError : Type 0 where
  invalid_graph no_start_node no_end_node disconnected_node invalid_node_type : FlowError
  flow_not_found flow_code_exists flow_locked flow_not_locked flow_not_owner : FlowError
  flow_not_draft version_not_found repository_failed : FlowError

abbrev pub one_if : Bool → ℕ → ℕ
one_if b n = if b then n + 1 else n

-- The first loop: types are checked, start and end nodes counted.
unfoldable pub count_nodes : List FlowNode → ℕ → ℕ → Result FlowError (ℕ × ℕ)
count_nodes [] starts ends = ok (starts, ends)
count_nodes (n ∷ ns) starts ends =
    let rest = count_nodes ns (one_if (is_start n.type) starts) (one_if (is_end n.type) ends) in
    if not (is_known n.type) then err FlowError.invalid_node_type else rest

-- Every target of the list is a node.
unfoldable pub targets_exist : List String → List String → Bool
targets_exist known [] = true
targets_exist known (t ∷ ts) = elem t known && targets_exist known ts

unfoldable pub exits_exist : List String → List FlowNode → Bool
unfolding targets_exist
exits_exist known [] = true
exits_exist known (n ∷ ns) = targets_exist known (targets n.exits) && exits_exist known ns

-- The name of the first start node, or the empty string.
unfoldable pub start_id : List FlowNode → String
start_id [] = ""
start_id (n ∷ ns) = if is_start n.type then n.id else start_id ns

-- The names that the search reaches; its fuel covers the start and every exit.
unfoldable pub reachable : List FlowNode → List String
unfolding search_from start_id
reachable ns = value_or [] (search_from ns (suc (exits_left ns [])) (start_id ns ∷ []) [])

infixl 5 ◌>>=◌ ◌>>◌
abbrev ◌>>=◌ : {A B : Type 0} → Result FlowError A → (A → Result FlowError B) → Result FlowError B
ok a >>= f = f a
err e >>= f = err e

abbrev ◌>>◌ : {B : Type 0} → Result FlowError (Unit {0}) → Result FlowError B → Result FlowError B
m >> k = m >>= λ _. k

abbrev fail_if : Bool → FlowError → Result FlowError (Unit {0})
fail_if b e = if b then err e else ok tt

unfoldable pub validate_graph : Option FlowGraph → Result FlowError FlowGraph
validate_graph none = err FlowError.invalid_graph
validate_graph (some g) = do
  fail_if (length g.nodes == 0) FlowError.invalid_graph
  counts ← count_nodes g.nodes 0 0
  fail_if (not (counts.0 == 1)) FlowError.no_start_node
  fail_if (ltb counts.1 1) FlowError.no_end_node
  fail_if (not (exits_exist (ids g.nodes) g.nodes)) FlowError.disconnected_node
  fail_if (not (length (reachable g.nodes) == length g.nodes)) FlowError.disconnected_node
  ok g
