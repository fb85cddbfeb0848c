-- ===== src/Ivr/Session.antt =====
-- internal/application/ivr/engine.go: the state of one call's run through a flow, and what a handler
-- of a node answers. The client of the media layer and the speech recogniser, which a Go session
-- points to, stand with the other interfaces (Ivr/Providers).
use ccc.Prelude.{ℕ, String, List, [], ◌∷◌, ◌++◌}
use ccc.Prelude.Int.{ℤ}
use ccc.Flow.Graph.{NodeType, FlowNode}
use ccc.Ivr.Variables.{Variables, set, set_all}

pub record NodeVisit : Type 0 where
  pub node_id : String
  pub node_type : NodeType
  pub exit_name : String

pub record Session : Type 0 where
  pub call_id : ℕ
  pub tenant_id : ℕ
  pub flow_id : ℤ
  pub call_uuid : String
  pub variables : Variables
  pub history : List NodeVisit

-- The name of the exit to follow, an error, or a stack that has no room left, which ends a Go
-- program.
pub data Handled : Type 0 where
  leaves : String → Handled
  fails : String → Handled
  overflows : Handled

-- A handler acts on the session and on what lies outside of it.
abbrev pub Handler : Type 0 → Type 0
Handler A = FlowNode → Session → A → Handled × (Session × A)

-- `sess.Variables[name] = v`
unfoldable pub assign : String → String → Session → Session
unfolding set
assign x v s = record s { variables = set x v s.variables }

unfoldable pub assign_all : List (String × String) → Session → Session
unfolding set_all
assign_all es s = record s { variables = set_all es s.variables }

-- `sess.History = append(sess.History, NodeVisit{...})`
unfoldable pub visit : FlowNode → String → Session → Session
visit n name s = record s {
  history = s.history ++ record { node_id = n.id; node_type = n.type; exit_name = name } ∷ [];
}
