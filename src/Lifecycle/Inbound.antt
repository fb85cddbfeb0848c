-- ===== src/Lifecycle/Inbound.antt =====
-- internal/application/lifecycle/service.go: HandleInboundCall. The voice menu that it runs is the
-- engine of internal/application/ivr, whose handlers act on the state of the lifecycle service.
use ccc.Prelude.{
  ℕ, ◌+◌, Bool, true, false, Option, none, some, [], ◌∷◌, ok, err, Result, if◌then◌else◌,
}
use ccc.Prelude.Int.{pos, ◌+ℤ◌}
use ccc.Call.Entity.{Call, Error}
use ccc.Call.World.{World as CallWorld}
use ccc.Call.Create.{CreateCallInput, create_inbound_call}
use ccc.Ivr.Session.{Session}
use ccc.Ivr.Providers.{Providers, Library}
use ccc.Ivr.Config.{Json}
use ccc.Ivr.Engine.{finished, stopped, overflowed, execute_flow, new_session}
use ccc.Lifecycle.World.{
  Env, World, Outcome, created, publish, deliver, limit_exceeded, call_failed, crashed, emit,
  written, check_concurrency_limit,
}

-- s.ivrEngine, with the room that the stack has for sub flows.
pub record Menus (F : Type 0) : Type 0 where
  pub providers : Providers World F
  pub library : Library F
  pub json : Json F
  pub depth : ℕ

module _ {F : Type 0} (env : Env) (menus : Option (Menus F)) where
  abbrev pub menu_session : Menus F → Call → ℕ → Session
  unfolding new_session
  menu_session m c flow = new_session c.id c.tenant_id (pos flow) c.channel_uuid (
      ("caller_number", c.caller)
      ∷ ("callee_number", c.callee)
      ∷ ("call_id", m.library.itoa (pos c.id))
      ∷ [])

  -- The flow of the call, its error written down; false if the stack overflows.
  unfoldable pub run_menu : Call → ℕ → World → Bool × World
  run_menu c now w = elim menus [
    | none ↦ (true, w)
    | some m ↦ elim c.ivr_flow_id [
      | none ↦ (true, w)
      | some flow ↦
          let (ended, (s, w')) =
            execute_flow m.providers m.library m.json m.depth (pos flow) (menu_session m c flow)
              w in
          elim ended [
            | finished ↦ (true, w')
            | overflowed ↦ (false, w')
            | stopped f ↦ (
              true,
              record w' {
                rows_written = w'.rows_written + 1;
                trackings =
                    written env w'
                      (record {
                        call_id = c.id;
                        tenant_id = c.tenant_id;
                        ivr_flow_id = flow;
                        entered_at = now;
                      })
                      w'.trackings;
              },
            )
          ]
    ]
  ]

  -- The menu, then the webhook and the bus.
  unfoldable pub greet : Call → ℕ → World → Outcome Call
  greet c now w =
      let (alive, w') = run_menu c now w in
      elim alive [
        | false ↦ (err crashed, w')
        | true ↦ (
          ok c,
          emit env.has_publisher (publish created c) (emit env.has_webhook (deliver created c) w'),
        )
      ]

  -- What follows CreateInboundCall.
  unfoldable pub received : Result Error Call × CallWorld → ℕ → World → Outcome Call
  received (err e, calls) now w = (err (call_failed e), record w { calls = calls })
  received (ok c, calls) now w =
      greet c now (record w { calls = calls; active_gauge = w.active_gauge +ℤ pos 1 })

  unfoldable pub handle_inbound_call : CreateCallInput → ℕ → World → Outcome Call
  handle_inbound_call i now w =
      let (allowed, w') = check_concurrency_limit env i.tenant_id w in
      if allowed
      then received (create_inbound_call env.calls i now w'.calls) now w'
      else (err limit_exceeded, w')
