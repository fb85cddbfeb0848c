-- ===== src/Examples/Ivr.antt =====
-- The theorems on the engine of voice menus at concrete inputs: a menu that greets the caller, branches
-- on what was said and hands the call to a group of agents, and menus that name each other.
use ccc.Prelude.{
  ℕ, ◌≡◌, refl, true, false, none, some, List, [], ◌∷◌, ◌++◌, arith, if◌then◌else◌, ◌==◌,
  Bool-cases, inl, inr,
}
use mathlib.Core.Path.{subst}
use ccc.Prelude.Int.{ℤ, pos, negsuc}
use ccc.Flow.Graph.{FlowGraph, FlowNode, NodeType, targets_of, is_start}
use ccc.Flow.Names.{elem, same_text}
use ccc.Flow.Search.{fresh}
use ccc.Flow.Validate.{validate_graph, reachable, count_nodes, exits_exist}
use ccc.Ivr.Session.{Session, NodeVisit}
use ccc.Ivr.Providers.{Providers, Library}
use ccc.Ivr.Config.{Json}
use ccc.Ivr.Engine.{overflowed, start_of, next_node, execute, engine, execute_flow}
use ccc.Ivr.Walk.{Walk}
use ccc.Ivr.Execution.{execute-Walked}
use ccc.Ivr.SubFlows.{has_overflowed, Below, Layered, execute_flow-bounded}
use ccc.Ivr.SelfReference.{self_reference-overflows}

-- The calls handed to a group, newest first.
abbrev Queued : Type 0
Queued = List (ℕ × (ℤ × ℤ))

abbrev pub menu : FlowGraph
menu = record {
  nodes =
      (record { id = "a"; type = NodeType.start; config = ""; exits = ("default", "b") ∷ [] })
      ∷ (record {
        id = "b";
        type = NodeType.branch;
        config = "";
        exits = ("vip", "c") ∷ ("default", "d") ∷ [];
      })
      ∷ (record {
        id = "c";
        type = NodeType.transfer_to_agent;
        config = "";
        exits = ("success", "d") ∷ ("error", "d") ∷ [];
      })
      ∷ (record { id = "d"; type = NodeType.end; config = ""; exits = [] })
      ∷ [];
  edges = [];
}

-- A menu whose second node is a sub flow with the number 8.
abbrev caller : FlowGraph
caller = record {
  nodes =
      (record { id = "a"; type = NodeType.start; config = ""; exits = ("default", "b") ∷ [] })
      ∷ (record { id = "b"; type = NodeType.sub_flow; config = "8"; exits = ("default", "c") ∷ [] })
      ∷ (record { id = "c"; type = NodeType.end; config = ""; exits = [] })
      ∷ [];
  edges = [];
}

abbrev pub lib : Library ℕ
lib = record {
  parse_int = λ s. if same_text s "8" then (pos 8, true) else (pos 3, true);
  itoa = λ _. "";
  replace_all = λ s _ _. s;
  sms_payload = λ to _ _. to;
  http_status = λ _. "";
  voicemail_path = λ _ _. "";
  asr_path = λ _. "";
  canonical_header = λ s. s;
  parse_url = λ _. none;
  new_request_fails = λ _ _. false;
  trim_prefix = λ s _. s;
  json_object = λ _. none;
  float_le = λ _ _. true;
  float_lt = λ _ _. false;
  negate = λ x. x;
  is_zero = λ _. true;
  half = 50;
  point_six = 60;
  zero = 0;
  format_2 = λ _. "";
  format_trimmed = λ _. "";
}

abbrev pub json : Json ℕ
json = record {
  start = λ _. ("level", "gold") ∷ [];
  play = λ _. record { audio_file = ""; tts_text = "" };
  assignments = λ _. [];
  hangup = λ _. "";
  transfer_agent = λ _. record {
    skill_group_id = "3";
    routing_strategy = "";
    queue_priority = pos 5;
    queue_music_id = "";
  };
  transfer_external = λ _. record { number = ""; caller_id = ""; timeout_sec = pos 0 };
  blind_transfer = λ _. record { target = ""; target_type = "" };
  callback =
      λ _. record { prompt_audio_id = ""; confirm_key = ""; reject_key = ""; callback_number = "" };
  collect_dtmf = λ _. record {
    min_digits = pos 0;
    max_digits = pos 0;
    timeout_sec = pos 0;
    term_char = "";
    retry_count = pos 0;
    prompt_audio_id = "";
    fail_audio_id = "";
  };
  voicemail = λ _. record { beep_file = ""; storage_path = "" };
  csat = λ _. record { prompt_audio_id = ""; max_rating = pos 0 };
  asr = λ _. record { timeout_ms = pos 0 };
  branch =
      λ _. (record { name = "vip"; variable = "level"; operator = "eq"; expected = "gold" }) ∷ [];
  function = λ _. record {
    url = "";
    method = "";
    headers = [];
    body = "";
    timeout_sec = pos 0;
    output_var = "";
  };
  http_request = λ _. record {
    url = "";
    method = "";
    headers = [];
    body = "";
    timeout_sec = pos 0;
    output_var = "";
  };
  json_parser = λ _. record { source_variable = ""; mappings = [] };
  sms = λ _. record { to = ""; template_code = ""; template_params = []; api_endpoint = "" };
  sub_flow = λ s. record { flow_id = s; input_vars = []; output_vars = [] };
  digital_employee = λ _. record {
    digital_employee_id = "";
    scene_id = "";
    max_turns = pos 0;
    transfer_on_failure = false;
  };
  nlu = λ _. 0;
  queue_position = λ _. none;
  sentiment_gate = λ _. none;
}

abbrev providers : (ℤ → FlowGraph) → Providers Queued ℕ
providers flows = record {
  esl = none;
  asr = none;
  acd = some (λ call group priority a. (none, (call, (group, priority)) ∷ a));
  context = none;
  queue = none;
  sentiment = none;
  nlu = none;
  crm = none;
  flow_loader = some (λ i a. (some (flows i), a));
  http = λ _ a. (none, a);
}

abbrev session : Session
session = record {
  call_id = 41;
  tenant_id = 7;
  flow_id = pos 1;
  call_uuid = "";
  variables = [];
  history = [];
}

execute-Walked_example :
    (n : FlowNode) × (vs : List NodeVisit) × (start_of menu.nodes ≡ some n)
    × (is_start n.type ≡ true)
    × Walk
        (engine (providers (λ _. menu)) lib json 0)
        menu.nodes
        1000
        n
        session
        []
        vs
        (execute (engine (providers (λ _. menu)) lib json 0) menu.nodes session []).0
    × ((execute (engine (providers (λ _. menu)) lib json 0) menu.nodes session []).1.0.history
        ≡ [] ++ vs)
unfolding validate_graph count_nodes exits_exist reachable elem fresh targets_of
execute-Walked_example = execute-Walked (providers (λ _. menu)) lib json 0 menu menu session [] refl

-- The call is handed to group 3 with priority 5.
menu_hands_over :
    (execute (engine (providers (λ _. menu)) lib json 0) menu.nodes session []).1.1
    ≡ (41, (pos 3, pos 5)) ∷ []
unfolding execute engine ccc.Ivr.Basic.start_handler ccc.Ivr.Interaction.branch_handler
    ccc.Ivr.Routing.transfer_to_agent_handler
menu_hands_over = refl

-- The flow 8 is the menu, and every other flow calls it.
abbrev layers : ℤ → FlowGraph
layers (pos n) = if n == 8 then menu else caller
layers (negsuc n) = caller

abbrev rank : ℤ → ℕ
rank (pos n) = if n == 8 then 0 else 1
rank (negsuc n) = 1

layers-Below : (flow : ℤ) → Below (providers layers) lib json rank (rank flow) (layers flow).nodes
layers-Below (pos n) = elim (Bool-cases (n == 8)) [
  | inl e ↦ rw e (ground arith)
  | inr e ↦ rw e (ground arith)
]
layers-Below (negsuc n) = ground arith

layers-Layered : Layered (providers layers) lib json rank
layers-Layered load flow a g e f =
    let same : layers flow ≡ g = ground (arith, e, f) in
    subst (λ h. Below (providers layers) lib json rank (rank flow) h.nodes) same (layers-Below flow)

execute_flow-bounded_example :
    has_overflowed (execute_flow (providers layers) lib json 1 (pos 1) session []).0 ≡ false
execute_flow-bounded_example =
    execute_flow-bounded (providers layers) lib json rank 1 (pos 1) session [] layers-Layered
      (omega arith)

self_reference-overflows_example :
    (execute (engine (providers (λ _. caller)) lib json 7) caller.nodes session []).0 ≡ overflowed
unfolding start_of next_node
self_reference-overflows_example =
    self_reference-overflows (providers (λ _. caller)) lib json (λ _ a. (some caller, a)) caller _ _
      (pos 8) 7 session [] refl (λ b. refl) refl refl refl refl refl
