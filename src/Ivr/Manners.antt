-- ===== src/Ivr/Manners.antt =====
-- internal/application/ivr: what every registered handler keeps to. It returns no error, leaves the
-- history of the session alone, and only a sub flow can exhaust the stack.
use ccc.Prelude.{◌≡◌, refl, String, Bool, true, false, List, [], ◌∷◌, arith}
use ccc.Prelude.Int.{ℤ}
use ccc.Flow.Graph.{FlowNode}
use ccc.Ivr.Variables.{Variables}
use ccc.Ivr.Session.{Session, Handled, leaves, fails, Handler, assign, assign_all}
use ccc.Ivr.Providers.{Providers, Library}
use ccc.Ivr.Config.{Json, JsonMapping}
use ccc.Ivr.Basic.{
  start_handler, play_handler, set_variable_handler, hangup_reason_handler, leave_with_error,
}
use ccc.Ivr.Routing.{
  transfer_outcome, transfer_to_agent_handler, transfer_to_external_handler, blind_transfer_handler,
  callback_handler, queue_position_handler, customer_lookup_handler,
}
use ccc.Ivr.Interaction.{
  collect_dtmf_handler, voicemail_handler, satisfaction_rating_handler, asr_handler, branch_handler,
  sentiment_gate_handler,
}
use ccc.Ivr.Integration.{
  function_handler, http_request_handler, json_parser_handler, sms_handler,
  digital_employee_handler, nlu_handler, assign_named, apply_mappings,
}
use ccc.Ivr.Engine.{Ended, sub_flow_handler, assign_inputs, copy_outputs}

abbrev pub has_left : Handled → Bool
has_left (leaves name) = true
has_left _ = false

abbrev pub has_failed : Handled → Bool
has_failed (fails e) = true
has_failed _ = false

-- It leaves through an exit.
abbrev pub Leaves : {A : Type 0} → Handler A → Type 0
Leaves {A} h =
    (n : FlowNode) (s : Session) (a : A)
    → (has_left (h n s a).0 ≡ true) × ((h n s a).1.0.history ≡ s.history)

-- It returns no error.
abbrev pub Polite : {A : Type 0} → Handler A → Type 0
Polite {A} h =
    (n : FlowNode) (s : Session) (a : A)
    → (has_failed (h n s a).0 ≡ false) × ((h n s a).1.0.history ≡ s.history)

module _ {A F : Type 0} (p : Providers A F) (lib : Library F) (json : Json F) where
  pub start_handler-Leaves : Leaves (start_handler p json)
  unfolding start_handler assign_all
  start_handler-Leaves n s a = ground arith

  pub play_handler-Leaves : Leaves (play_handler p json)
  unfolding play_handler leave_with_error assign
  play_handler-Leaves n s a = ground arith

  pub set_variable_handler-Leaves : Leaves (set_variable_handler p json)
  unfolding set_variable_handler assign_all
  set_variable_handler-Leaves n s a = ground arith

  pub hangup_reason_handler-Leaves : Leaves (hangup_reason_handler p json)
  unfolding hangup_reason_handler assign
  hangup_reason_handler-Leaves n s a = ground arith

  pub transfer_to_agent_handler-Leaves : Leaves (transfer_to_agent_handler p lib json)
  unfolding transfer_to_agent_handler transfer_outcome leave_with_error assign
  transfer_to_agent_handler-Leaves n s a = ground arith

  pub transfer_to_external_handler-Leaves : Leaves (transfer_to_external_handler p lib json)
  unfolding transfer_to_external_handler transfer_outcome leave_with_error assign
  transfer_to_external_handler-Leaves n s a = ground arith

  pub blind_transfer_handler-Leaves : Leaves (blind_transfer_handler p lib json)
  unfolding blind_transfer_handler transfer_outcome leave_with_error assign
  blind_transfer_handler-Leaves n s a = ground arith

  pub callback_handler-Leaves : Leaves (callback_handler p lib json)
  unfolding callback_handler assign
  callback_handler-Leaves n s a = ground arith

  pub queue_position_handler-Leaves : (aht : ℤ) → Leaves (queue_position_handler p lib json aht)
  unfolding queue_position_handler assign
  queue_position_handler-Leaves aht n s a = ground arith

  pub customer_lookup_handler-Leaves : Leaves (customer_lookup_handler p lib json)
  unfolding customer_lookup_handler assign
  customer_lookup_handler-Leaves n s a = ground arith

  pub collect_dtmf_handler-Leaves : Leaves (collect_dtmf_handler p lib json)
  unfolding collect_dtmf_handler assign
  collect_dtmf_handler-Leaves n s a = ground arith

  pub voicemail_handler-Leaves : Leaves (voicemail_handler p lib json)
  unfolding voicemail_handler leave_with_error assign
  voicemail_handler-Leaves n s a = ground arith

  pub satisfaction_rating_handler-Leaves : Leaves (satisfaction_rating_handler p lib json)
  unfolding satisfaction_rating_handler assign
  satisfaction_rating_handler-Leaves n s a = ground arith

  pub asr_handler-Leaves : Leaves (asr_handler p lib json)
  unfolding asr_handler leave_with_error assign
  asr_handler-Leaves n s a = ground arith

  pub branch_handler-Leaves : Leaves (branch_handler p lib json)
  unfolding branch_handler
  branch_handler-Leaves n s a = ground arith

  pub sentiment_gate_handler-Leaves : Leaves (sentiment_gate_handler p lib json)
  unfolding sentiment_gate_handler assign
  sentiment_gate_handler-Leaves n s a = ground arith

  assign_named-history : (x v : String) (s : Session) → (assign_named x v s).history ≡ s.history
  unfolding assign_named assign
  assign_named-history x v s = ground arith

  pub function_handler-Leaves : Leaves (function_handler p lib json)
  unfolding function_handler
  function_handler-Leaves n s a = grind (arith, assign_named-history)

  pub http_request_handler-Leaves : Leaves (http_request_handler p lib json)
  unfolding http_request_handler assign
  http_request_handler-Leaves n s a = grind (arith, assign_named-history)

  apply_mappings-history :
      (ms : List JsonMapping) (fields : List (String × String)) (s : Session)
      → (apply_mappings p lib json ms fields s).history ≡ s.history
  unfolding apply_mappings assign
  apply_mappings-history [] fields s = refl
  apply_mappings-history (m ∷ ms) fields s = apply_mappings-history ms fields _

  pub json_parser_handler-Leaves : Leaves (json_parser_handler p lib json)
  unfolding json_parser_handler
  json_parser_handler-Leaves n s a = grind (arith, apply_mappings-history)

  pub sms_handler-Leaves : Leaves (sms_handler p lib json)
  unfolding sms_handler assign
  sms_handler-Leaves n s a = ground arith

  pub digital_employee_handler-Leaves : Leaves (digital_employee_handler p lib json)
  unfolding digital_employee_handler assign
  digital_employee_handler-Leaves n s a = ground arith

  pub nlu_handler-Leaves : Leaves (nlu_handler p lib json)
  unfolding nlu_handler assign
  nlu_handler-Leaves n s a = ground arith

  assign_inputs-history :
      (es : List (String × String)) (s : Session)
      → (assign_inputs p lib json es s).history ≡ s.history
  unfolding assign_inputs assign
  assign_inputs-history [] s = refl
  assign_inputs-history ((k, v) ∷ es) s = assign_inputs-history es _

copy_outputs-history :
    (xs : List String) (from : Variables) (s : Session)
    → (copy_outputs xs from s).history ≡ s.history
unfolding copy_outputs assign
copy_outputs-history [] from s = refl
copy_outputs-history (x ∷ xs) from s = grind (arith, copy_outputs-history xs from)

pub Polite-of_Leaves : {A : Type 0} (h : Handler A) → Leaves h → Polite h
Polite-of_Leaves h l n s a = ground (arith, l n s a)

module _ {A F : Type 0} (p : Providers A F) (lib : Library F) (json : Json F)
    (run : List FlowNode → Session → A → Ended × (Session × A)) where
  pub sub_flow_handler-Polite : Polite (sub_flow_handler p lib json run)
  unfolding sub_flow_handler assign
  sub_flow_handler-Polite n s a =
      grind (arith, copy_outputs-history, assign_inputs-history p lib json)
