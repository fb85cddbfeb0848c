-- ===== src/Ivr/Engine.antt =====
-- internal/application/ivr/engine.go: Execute, ExecuteFlow and DefaultEngine, and the handler of a sub
-- flow (nodes_integration.go), which runs the engine again. A Go stack is finite: `depth` is the
-- number of sub flows that it has room for, one inside the other.
use ccc.Prelude.{
  ℕ, zero, suc, String, true, false, Option, none, some, List, [], ◌∷◌, if◌then◌else◌, Result, ok,
  err, or_fail,
}
use ccc.Prelude.Int.{ℤ, pos}
use ccc.Flow.Names.{◌==◌}
use ccc.Flow.Graph
use ccc.Flow.Graph.{NodeType, FlowNode, FlowGraph, is_start, is_end}
use ccc.Ivr.Variables.{Variables, lookup}
use ccc.Ivr.Session.{Session, leaves, fails, overflows, Handler, assign, assign_all, visit}
use ccc.Ivr.Providers.{Providers, Library}
use ccc.Ivr.Config.{Json}
use ccc.Ivr.Basic.{
  leave, start_handler, play_handler, set_variable_handler, hangup_reason_handler, end_handler,
}
use ccc.Ivr.Routing.{
  transfer_to_agent_handler, transfer_to_external_handler, blind_transfer_handler, callback_handler,
  queue_position_handler, customer_lookup_handler,
}
use ccc.Ivr.Interaction.{
  collect_dtmf_handler, voicemail_handler, satisfaction_rating_handler, asr_handler, branch_handler,
  sentiment_gate_handler,
}
use ccc.Ivr.Integration.{
  interpolate, function_handler, http_request_handler, json_parser_handler, sms_handler,
  digital_employee_handler, nlu_handler,
}

pub data Fault : Type 0 where
  no_start_node no_handler no_exit target_not_found max_steps_exceeded : Fault
  handler_failed : String → Fault
  no_flow_loader flow_not_loaded : Fault

-- What Execute returns: nil, an error, or nothing, because the stack overflows.
pub data Ended : Type 0 where
  finished : Ended
  stopped : Fault → Ended
  overflowed : Ended

-- `nodeMap[id]`: of nodes with one name the last is kept.
unfoldable pub node_by : String → List FlowNode → Option FlowNode
node_by i [] = none
node_by i (n ∷ ns) = elim (node_by i ns) [
  | some later ↦ some later
  | none ↦ if n.id == i then some n else none
]

-- The last start node.
unfoldable pub start_of : List FlowNode → Option FlowNode
start_of [] = none
start_of (n ∷ ns) = elim (start_of ns) [
  | some later ↦ some later
  | none ↦ if is_start n.type then some n else none
]

-- The exit's target, or that of the exit `default`.
unfoldable pub next_id : String → FlowNode → Option String
unfolding lookup
next_id name n = elim (lookup name n.exits) [ some t ↦ some t | none ↦ lookup "default" n.exits ]

unfoldable pub next_node : List FlowNode → FlowNode → String → Result Fault FlowNode
unfolding next_id node_by
next_node ns n name = elim (next_id name n) [
  | none ↦ err no_exit
  | some t ↦ or_fail (node_by t ns) target_not_found
]

abbrev pub max_steps : ℕ
max_steps = 1000

module _ {A : Type 0} (handlers : NodeType → Option (Handler A)) (ns : List FlowNode) where
  -- The loop of Execute, with the rounds that are left.
  unfoldable pub steps : ℕ → FlowNode → Session → A → Ended × (Session × A)
  unfolding visit next_node
  steps zero n s a = (stopped max_steps_exceeded, (s, a))
  steps (suc k) n s a = elim (is_end n.type) [
    | true ↦ (finished, (visit n "" s, a))
    | false ↦ elim (handlers n.type) [
      | none ↦ (stopped no_handler, (s, a))
      | some handler ↦
          let (r, (s', a')) = handler n s a in
          elim r [
            | fails e ↦ (stopped (handler_failed e), (s', a'))
            | overflows ↦ (overflowed, (s', a'))
            | leaves name ↦ elim (next_node ns n name) [
              | err f ↦ (stopped f, (visit n name s', a'))
              | ok next ↦ steps k next (visit n name s') a'
            ]
          ]
    ]
  ]

  unfoldable pub execute : Session → A → Ended × (Session × A)
  unfolding steps start_of
  execute s a = elim (start_of ns) [
    | none ↦ (stopped no_start_node, (s, a))
    | some n ↦ steps max_steps n s a
  ]

-- `for _, name := range cfg.OutputVars`: what the sub flow's session has is copied.
unfoldable pub copy_outputs : List String → Variables → Session → Session
unfolding assign lookup
copy_outputs [] from s = s
copy_outputs (x ∷ xs) from s =
    copy_outputs xs from (elim (lookup x from) [ none ↦ s | some v ↦ assign x v s ])

module _ {A F : Type 0} (p : Providers A F) (lib : Library F) (json : Json F) where
  -- Inputs are written one by one, and later ones may name earlier ones.
  unfoldable pub assign_inputs : List (String × String) → Session → Session
  unfolding assign interpolate
  assign_inputs [] s = s
  assign_inputs ((k, v) ∷ es) s =
      assign_inputs es
        (assign (Prim.Native.String.◌++◌ "subflow_" k) (interpolate lib v s.variables) s)

  -- `run` is the engine's Execute.
  unfoldable pub sub_flow_handler :
      (List FlowNode → Session → A → Ended × (Session × A)) → Handler A
  unfolding assign assign_inputs copy_outputs
  sub_flow_handler run n s a =
      let c = json.sub_flow n.config in
      let s' = assign "subflow_id" c.flow_id (assign_inputs c.input_vars s) in
      elim p.flow_loader [
        | none ↦ leave "default" s' a
        | some load ↦
            let (flow, is_int) = lib.parse_int c.flow_id in
            elim is_int [
              | false ↦ leave "error" s' a
              | true ↦
                  let (loaded, a') = load flow a in
                  elim loaded [
                    | none ↦ leave "error" s' a'
                    | some g ↦
                        let (ended, (sub, b)) =
                          run g.nodes (record s' { flow_id = flow; history = [] }) a' in
                        elim ended [
                          | overflowed ↦ (overflows, (s', b))
                          | stopped _ ↦ leave "error" s' b
                          | finished ↦
                              leave "default" (copy_outputs c.output_vars sub.variables s') b
                        ]
                  ]
            ]
      ]

  -- DefaultEngine registers a handler for each type of AllNodeTypes.
  unfoldable pub registry :
      (List FlowNode → Session → A → Ended × (Session × A)) → NodeType → Option (Handler A)
  registry run Graph.start = some (start_handler p json)
  registry run Graph.play = some (play_handler p json)
  registry run Graph.collect_dtmf = some (collect_dtmf_handler p lib json)
  registry run Graph.branch = some (branch_handler p lib json)
  registry run Graph.set_variable = some (set_variable_handler p json)
  registry run Graph.hangup_reason = some (hangup_reason_handler p json)
  registry run Graph.end = some (end_handler p json)
  registry run Graph.function = some (function_handler p lib json)
  registry run Graph.http_request = some (http_request_handler p lib json)
  registry run Graph.json_parser = some (json_parser_handler p lib json)
  registry run Graph.sms = some (sms_handler p lib json)
  registry run Graph.satisfaction_rating = some (satisfaction_rating_handler p lib json)
  registry run Graph.asr = some (asr_handler p lib json)
  registry run Graph.voicemail = some (voicemail_handler p lib json)
  registry run Graph.transfer_to_agent = some (transfer_to_agent_handler p lib json)
  registry run Graph.transfer_to_external = some (transfer_to_external_handler p lib json)
  registry run Graph.blind_transfer = some (blind_transfer_handler p lib json)
  registry run Graph.sub_flow = some (sub_flow_handler run)
  registry run Graph.digital_employee = some (digital_employee_handler p lib json)
  registry run Graph.callback = some (callback_handler p lib json)
  registry run Graph.nlu = some (nlu_handler p lib json)
  registry run Graph.queue_position = some (queue_position_handler p lib json (pos 0))
  registry run Graph.sentiment_gate = some (sentiment_gate_handler p lib json)
  registry run Graph.customer_lookup = some (customer_lookup_handler p lib json)
  registry run (Graph.unknown t) = none

  -- A call of Execute with room for so many sub flows.
  unfoldable pub engine : ℕ → NodeType → Option (Handler A)
  unfolding registry
  engine zero = registry (λ ns s a. (overflowed, (s, a)))
  engine (suc depth) = registry (λ ns. execute (engine depth) ns)

  unfoldable pub execute_flow : ℕ → ℤ → Session → A → Ended × (Session × A)
  unfolding engine execute
  execute_flow depth flow s a = elim p.flow_loader [
    | none ↦ (stopped no_flow_loader, (s, a))
    | some load ↦
        let (loaded, a') = load flow a in
        elim loaded [
          | none ↦ (stopped flow_not_loaded, (s, a'))
          | some g ↦ execute (engine depth) g.nodes s a'
        ]
  ]

-- NewSession
unfoldable pub new_session : ℕ → ℕ → ℤ → String → List (String × String) → Session
unfolding assign_all
new_session call tenant flow uuid entries = assign_all entries (record {
  call_id = call;
  tenant_id = tenant;
  flow_id = flow;
  call_uuid = uuid;
  variables = [];
  history = [];
})
