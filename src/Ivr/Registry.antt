-- ===== src/Ivr/Registry.antt =====
-- internal/application/ivr/engine.go: what DefaultEngine registers for each type of node.
use ccc.Prelude.{◌≡◌, refl, true, Option, some, List, arith, inl, inr, ◌⊎◌, sym}
use mathlib.Core.Path.{subst}
use ccc.Prelude.Int.{pos}
use ccc.Flow.Graph
use ccc.Flow.Graph.{NodeType, FlowNode, is_known}
use ccc.Ivr.Session.{Session, Handler}
use ccc.Ivr.Providers.{Providers, Library}
use ccc.Ivr.Config.{Json}
use ccc.Ivr.Basic.{
  start_handler, play_handler, set_variable_handler, hangup_reason_handler, end_handler,
}
use ccc.Ivr.Routing.{
  transfer_to_agent_handler, transfer_to_external_handler, blind_transfer_handler, callback_handler,
  queue_position_handler, customer_lookup_handler,
}
use ccc.Ivr.Interaction.{
  collect_dtmf_handler, voicemail_handler, satisfaction_rating_handler, asr_handler, branch_handler,
  sentiment_gate_handler,
}
use ccc.Ivr.Integration.{
  function_handler, http_request_handler, json_parser_handler, sms_handler,
  digital_employee_handler, nlu_handler,
}
use ccc.Ivr.Engine.{Ended, sub_flow_handler, registry}
use ccc.Ivr.Manners.{
  Leaves, Polite, Polite-of_Leaves, sub_flow_handler-Polite, start_handler-Leaves,
  play_handler-Leaves, set_variable_handler-Leaves, hangup_reason_handler-Leaves,
  transfer_to_agent_handler-Leaves, transfer_to_external_handler-Leaves,
  blind_transfer_handler-Leaves, callback_handler-Leaves, queue_position_handler-Leaves,
  customer_lookup_handler-Leaves, collect_dtmf_handler-Leaves, voicemail_handler-Leaves,
  satisfaction_rating_handler-Leaves, asr_handler-Leaves, branch_handler-Leaves,
  sentiment_gate_handler-Leaves, function_handler-Leaves, http_request_handler-Leaves,
  json_parser_handler-Leaves, sms_handler-Leaves, digital_employee_handler-Leaves,
  nlu_handler-Leaves,
}

-- What a sub flow's handler may do, no other may: exhaust the stack.
abbrev pub Registered : {A : Type 0} → Handler A → NodeType → Option (Handler A) → Type 0
Registered {A} sub t o =
    (h : Handler A) × (o ≡ some h) × (Leaves h ⊎ ((t ≡ Graph.sub_flow) × (h ≡ sub)))

serve :
    {A : Type 0} {sub : Handler A} {t : NodeType} (h : Handler A)
    → Leaves h
    → Registered sub t (some h)
serve h l = (h, refl, inl l)

-- Each known type of node has a handler, which returns no error, and leaves through an exit unless it
-- is that of a sub flow.
abbrev pub Serves : {A : Type 0} → (NodeType → Option (Handler A)) → Type 0
Serves {A} handlers =
    (t : NodeType)
    → is_known t ≡ true
    → (h : Handler A) × (handlers t ≡ some h) × Polite h × (Leaves h ⊎ (t ≡ Graph.sub_flow))

module _ {A F : Type 0} (p : Providers A F) (lib : Library F) (json : Json F)
    (run : List FlowNode → Session → A → Ended × (Session × A)) where
  end_handler-Leaves : Leaves (end_handler p json)
  unfolding end_handler
  end_handler-Leaves n s a = ground arith

  pub registry-Registered :
      (t : NodeType)
      → is_known t ≡ true
      → Registered (sub_flow_handler p lib json run) t (registry p lib json run t)
  unfolding registry
  registry-Registered Graph.start k = serve (start_handler p json) (start_handler-Leaves p lib json)
  registry-Registered Graph.play k = serve (play_handler p json) (play_handler-Leaves p lib json)
  registry-Registered Graph.collect_dtmf k =
      serve (collect_dtmf_handler p lib json) (collect_dtmf_handler-Leaves p lib json)
  registry-Registered Graph.branch k =
      serve (branch_handler p lib json) (branch_handler-Leaves p lib json)
  registry-Registered Graph.transfer_to_agent k =
      serve (transfer_to_agent_handler p lib json) (transfer_to_agent_handler-Leaves p lib json)
  registry-Registered Graph.transfer_to_external k =
      serve (transfer_to_external_handler p lib json)
        (transfer_to_external_handler-Leaves p lib json)
  registry-Registered Graph.blind_transfer k =
      serve (blind_transfer_handler p lib json) (blind_transfer_handler-Leaves p lib json)
  registry-Registered Graph.set_variable k =
      serve (set_variable_handler p json) (set_variable_handler-Leaves p lib json)
  registry-Registered Graph.voicemail k =
      serve (voicemail_handler p lib json) (voicemail_handler-Leaves p lib json)
  registry-Registered Graph.hangup_reason k =
      serve (hangup_reason_handler p json) (hangup_reason_handler-Leaves p lib json)
  registry-Registered Graph.function k =
      serve (function_handler p lib json) (function_handler-Leaves p lib json)
  registry-Registered Graph.http_request k =
      serve (http_request_handler p lib json) (http_request_handler-Leaves p lib json)
  registry-Registered Graph.json_parser k =
      serve (json_parser_handler p lib json) (json_parser_handler-Leaves p lib json)
  registry-Registered Graph.sms k = serve (sms_handler p lib json) (sms_handler-Leaves p lib json)
  registry-Registered Graph.satisfaction_rating k =
      serve (satisfaction_rating_handler p lib json) (satisfaction_rating_handler-Leaves p lib json)
  registry-Registered Graph.asr k = serve (asr_handler p lib json) (asr_handler-Leaves p lib json)
  registry-Registered Graph.digital_employee k =
      serve (digital_employee_handler p lib json) (digital_employee_handler-Leaves p lib json)
  registry-Registered Graph.callback k =
      serve (callback_handler p lib json) (callback_handler-Leaves p lib json)
  registry-Registered Graph.nlu k = serve (nlu_handler p lib json) (nlu_handler-Leaves p lib json)
  registry-Registered Graph.queue_position k =
      serve (queue_position_handler p lib json (pos 0))
        (queue_position_handler-Leaves p lib json (pos 0))
  registry-Registered Graph.sentiment_gate k =
      serve (sentiment_gate_handler p lib json) (sentiment_gate_handler-Leaves p lib json)
  registry-Registered Graph.customer_lookup k =
      serve (customer_lookup_handler p lib json) (customer_lookup_handler-Leaves p lib json)
  registry-Registered Graph.end k = serve (end_handler p json) end_handler-Leaves
  registry-Registered Graph.sub_flow k = (sub_flow_handler p lib json run, refl, inr (refl, refl))
  registry-Registered (Graph.unknown t) k = ground (arith, k)

  pub registry-Serves : Serves (registry p lib json run)
  registry-Serves t k =
      let (h, registered, kind) = registry-Registered t k in
      (
        h,
        registered,
        elim kind [
          | inl l ↦ Polite-of_Leaves h l
          | inr (_, same) ↦ subst Polite (sym same) (sub_flow_handler-Polite p lib json run)
        ],
        elim kind [ inl l ↦ inl l | inr (at, _) ↦ inr at ],
      )
