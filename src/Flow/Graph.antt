-- ===== src/Flow/Graph.antt =====
-- internal/domain/routing/entity.go: the parsed graph of a flow. A node's exits, a Go map, are a
-- list of exit names with their targets, in the order in which a range over the map meets them.
use ccc.Prelude.{◌≡◌, String, Bool, true, false, List, [], ◌∷◌, if◌then◌else◌}
use ccc.Flow.Names.{◌==◌, elem}

pub data NodeType : Type 0 where
  start play collect_dtmf branch transfer_to_agent transfer_to_external blind_transfer : NodeType
  set_variable voicemail hangup_reason function http_request json_parser sms : NodeType
  satisfaction_rating asr sub_flow digital_employee callback nlu queue_position : NodeType
  sentiment_gate customer_lookup end : NodeType
  unknown : String → NodeType

abbrev pub is_start : NodeType → Bool
is_start start = true
is_start _ = false

abbrev pub is_end : NodeType → Bool
is_end end = true
is_end _ = false

-- The types listed in AllNodeTypes.
abbrev pub is_known : NodeType → Bool
is_known (unknown s) = false
is_known _ = true

pub record FlowNode : Type 0 where
  pub id : String
  pub type : NodeType
  pub config : String
  pub exits : List (String × String)

pub record FlowEdge : Type 0 where
  pub source : String
  pub source_port : String
  pub target : String

pub record FlowGraph : Type 0 where
  pub nodes : List FlowNode
  pub edges : List FlowEdge

abbrev pub targets : List (String × String) → List String
targets [] = []
targets ((_, t) ∷ es) = t ∷ targets es

abbrev pub ids : List FlowNode → List String
ids [] = []
ids (n ∷ ns) = n.id ∷ ids ns

-- The targets of the first node of that name.
unfoldable pub targets_of : String → List FlowNode → List String
targets_of i [] = []
targets_of i (n ∷ ns) = if n.id == i then targets n.exits else targets_of i ns

-- A node can be reached along exits.
pub data Reach (ns : List FlowNode) (s : String) : String → Type 0 where
  begin : Reach ns s s
  exit : {x t : String} → Reach ns s x → elem t (targets_of x ns) ≡ true → Reach ns s t
