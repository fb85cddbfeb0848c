-- ===== src/Lifecycle/Hooks.antt =====
-- internal/application/lifecycle/service.go: postCallHooksAsync, which EndCall leaves to a goroutine.
-- The goroutines of several calls run in any order: a step takes one of those that wait.
use ccc.Prelude.{
  ℕ, zero, suc, true, not, ◌&&◌, Option, none, some, List, [], ◌∷◌, ltb, leb, if◌then◌else◌,
  is_empty,
}
use ccc.Prelude.Int.{pos, ltb_ℤ}
use ccc.Call.Entity.{Call}
use ccc.Call.Supervise.{update_customer_id}
use ccc.Campaign.Cases.{mark_case_completed, mark_case_failed}
use ccc.Lifecycle.World.{
  Env, World, ended, deliver, trigger_survey, record_interaction, remember_agent, auto_inspect,
  create_ticket, emit,
}
use ccc.Lifecycle.Service.{is_inbound, is_outbound, talk_seconds, natural}
use ccc.Call.Lifecycle.{is_some}

module _ (env : Env) where
  -- `s.customerSvc.FindByPhone` for the other end of a call that an agent had.
  unfoldable pub customer_of : Call → Option ℕ
  customer_of c = elim env.find_customer [
    | none ↦ none
    | some find_by_phone ↦
        if is_some c.agent_user_id
        then find_by_phone c.tenant_id (if is_outbound c.direction then c.callee else c.caller)
        else none
  ]

  -- `if c.CustomerID == nil { ...; _ = s.callSvc.UpdateCustomerID(...) }`
  unfoldable pub link_call : Call → ℕ → World → World
  link_call c customer w =
      if is_some c.customer_id
      then w
      else record w { calls = (update_customer_id env.calls c.id customer w.calls).1 }

  -- The customer is linked to the call, and the call is noted with the customer.
  unfoldable pub link_customer : Call → World → World
  link_customer c w = elim (customer_of c) [
    | none ↦ w
    | some customer ↦
        emit true
          (record_interaction customer
            (if is_some c.customer_id then c else record c { customer_id = some customer }))
          (link_call c customer w)
  ]

  -- The case that the call was placed for: completed if it was answered, and else failed.
  unfoldable pub write_back : Call → ℕ → World → World
  write_back c now w = elim env.campaigns [
    | none ↦ w
    | some cenv ↦ elim c.campaign_case_id [
      | none ↦ w
      | some case_id ↦ elim c.answered_at [
        | some _ ↦ record w {
          campaigns =
              (mark_case_completed cenv case_id "completed" (natural (talk_seconds c)) now
                w.campaigns).1;
        }
        | none ↦ record w { campaigns = (mark_case_failed cenv case_id now w.campaigns).1 }
      ]
    ]
  ]

  unfoldable pub remember : Call → World → World
  remember c w = elim env.familiar_days [
    | none ↦ w
    | some days_of ↦ elim c.agent_user_id [
      | none ↦ w
      | some a ↦
          let days = days_of c.tenant_id in
          emit (is_inbound c.direction && not (is_empty c.caller))
            (remember_agent c.tenant_id c.caller a
              (if ltb_ℤ (pos 0) days then natural days else 30))
            w
    ]
  ]

  unfoldable pub escalate : Call → World → World
  escalate c w = elim env.repeat_count [
    | none ↦ w
    | some count_of ↦
        if is_inbound c.direction && not (is_empty c.caller)
        then elim (count_of c.tenant_id c.caller) [
          | none ↦ w
          | some n ↦
              emit (ltb 0 env.repeat_threshold && leb env.repeat_threshold n)
                (create_ticket c.tenant_id c.caller n c.id) w
        ]
        else w
  ]

  unfoldable pub post_call_hooks : Call → ℕ → World → World
  post_call_hooks c now w =
      let w1 = emit env.has_survey (trigger_survey c.tenant_id c.id c.agent_user_id) w in
      let w2 = link_customer c (emit env.has_webhook (deliver ended c) w1) in
      let w3 = remember c (write_back c now w2) in
      escalate c
        (emit (env.has_inspection && is_some c.answered_at) (auto_inspect c.tenant_id c.id) w3)

-- The goroutine at a position, and those that go on waiting.
unfoldable pub take_hook : ℕ → List Call → Option (Call × List Call)
take_hook k [] = none
take_hook zero (c ∷ cs) = some (c, cs)
take_hook (suc k) (c ∷ cs) = elim (take_hook k cs) [
  | none ↦ none
  | some (d, rest) ↦ some (d, c ∷ rest)
]

unfoldable pub run_hook : Env → ℕ → ℕ → World → World
run_hook env k now w = elim (take_hook k w.hooks) [
  | none ↦ w
  | some (c, rest) ↦ post_call_hooks env c now (record w { hooks = rest })
]
