-- ===== src/Lifecycle/Joint.antt =====
-- internal/application/lifecycle/service.go: the tables of calls and of agents' presence under the
-- service, through any request and any goroutine of EndCall.
use ccc.Prelude.{
  ℕ, ◌≡◌, refl, ◌∙◌, arith, Option-cases, Result-cases, inl, inr, ◌⊎◌, Bool, not, ◌&&◌, is_empty,
}
use ccc.Call.Entity.{Call}
use ccc.Call.Table.{find}
use ccc.Call.Lifecycle.{Evolves}
use ccc.Presence.World.{Env as PresenceEnv}
use ccc.Presence.Entity.{PresenceStatus, talking, dialing}
use ccc.Presence.Table.{row_of}
use ccc.Presence.Moves.{Moves, Moves-refl, transition_to-Moves}
use ccc.Presence.Service.{set_acw}
use ccc.Presence.History.{set_acw-Moves}
use ccc.Lifecycle.World.{
  Env, World, Effect, queued, ringing, answered, notify_agent, publish, deliver, screen_pop,
  announce, start_recording, count_at, emit,
}
use ccc.Call.World.{World as CallWorld}
use ccc.Call.Entity.{Error}
use ccc.Prelude.{Result}
use ccc.Prelude.Int.{pos}
use ccc.Lifecycle.Service.{
  wrap_up, save_snapshot, continue, after_answer, after_ringing, tell_of_answer, follow_agent,
  after_end, start_to_record, notify_its_agent,
}
use ccc.Lifecycle.Frame.{after_end-LetGo, notify_its_agent-calls, notify_its_agent-SameDomains}

-- Every call's row takes at most one step of its life, and every agent's row one of its own.
pub record Together (w w' : World) : Type 0 where
  pub calls : (i : ℕ) → Evolves (find i w.calls.calls) (find i w'.calls.calls)
  pub agents : (a : ℕ) → Moves (row_of a w.presence.rows) (row_of a w'.presence.rows)

module _ (env : Env) where
  pub emit-lem :
      (b : Bool) (e : Effect) (w : World)
      → ((emit b e w).calls ≡ w.calls) × ((emit b e w).presence ≡ w.presence)
  unfolding emit
  emit-lem b e w = ground arith

  save_snapshot-lem :
      (c : Call) (group now : ℕ) (w : World)
      → ((save_snapshot env c group now w).calls ≡ w.calls)
        × ((save_snapshot env c group now w).presence ≡ w.presence)
  unfolding save_snapshot
  save_snapshot-lem c group now w = ground arith

  wrap_up-cases :
      (c : Call) (now : ℕ) (w : World)
      → ((wrap_up env c now w).presence ≡ w.presence)
        ⊎ ((penv : PresenceEnv) × (agent : ℕ) × ((wrap_up env c now w).presence
              ≡ (set_acw penv agent "" now w.presence).1))
  unfolding wrap_up
  wrap_up-cases c now w = elim (Option-cases env.presence) [
    | inl e ↦ inl (ground (arith, e))
    | inr (penv, e) ↦ elim (Option-cases c.agent_user_id) [
      | inl f ↦ inl (ground (arith, e, f))
      | inr (agent, f) ↦ inr (penv, agent, ground (arith, e, f))
    ]
  ]

  wrap_up-Moves :
      (c : Call) (now : ℕ) (w : World) (a : ℕ)
      → Moves (row_of a w.presence.rows) (row_of a (wrap_up env c now w).presence.rows)
  unfolding wrap_up
  wrap_up-Moves c now w a = elim (wrap_up-cases c now w) [
    | inl kept ↦ rw kept (Moves-refl _)
    | inr (penv, agent, went) ↦ rw went (set_acw-Moves a penv agent "" now w.presence)
  ]

  pub after_end-agents :
      (c : Call) (now : ℕ) (w : World) (a : ℕ)
      → Moves (row_of a w.presence.rows) (row_of a (after_end env c now w).1.presence.rows)
  after_end-agents c now w a =
      rw ((after_end-LetGo env c now w).wrapped_up) (wrap_up-Moves c now w a)

  tell_of_answer-lem :
      (agent : ℕ) (c : Call) (w : World)
      → ((tell_of_answer env agent c w).calls ≡ w.calls)
        × ((tell_of_answer env agent c w).presence ≡ w.presence)
  unfolding tell_of_answer
  tell_of_answer-lem agent c w =
      let w1 : World = emit env.has_notifier (notify_agent agent answered c) w in
      let w2 : World = emit env.has_screen_pop (screen_pop c) w1 in
      let w3 : World = emit env.has_webhook (deliver answered c) w2 in
      let (a, a') = emit-lem env.has_notifier (notify_agent agent answered c) w in
      let (b, b') = emit-lem env.has_screen_pop (screen_pop c) w1 in
      let (d, d') = emit-lem env.has_webhook (deliver answered c) w2 in
      let (e, e') = emit-lem env.has_publisher (publish answered c) w3 in
      (e ∙ d ∙ b ∙ a, e' ∙ d' ∙ b' ∙ a')

  start_to_record-lem :
      (c : Call) (w : World)
      → ((start_to_record env c w).calls ≡ w.calls)
        × ((start_to_record env c w).presence ≡ w.presence)
  unfolding start_to_record
  start_to_record-lem c w =
      let there = env.has_esl && not (is_empty c.channel_uuid) in
      let w1 : World = emit (there && env.announces c.tenant_id) (announce c.channel_uuid) w in
      let (a, a') = emit-lem (there && env.announces c.tenant_id) (announce c.channel_uuid) w in
      let (b, b') = emit-lem there (start_recording c.channel_uuid) w1 in (b ∙ a, b' ∙ a')

  -- An agent's presence follows the call: the calls stay, and his row takes a step.
  follow_agent-lem :
      (agent : ℕ) (to : PresenceStatus) (now : ℕ) (w : World) (a : ℕ)
      → ((follow_agent env agent to now w).calls ≡ w.calls)
        × Moves
            (row_of a w.presence.rows)
            (row_of a (follow_agent env agent to now w).presence.rows)
  unfolding follow_agent
  follow_agent-lem agent to now w a = elim (Option-cases env.presence) [
    | inl e ↦ rw e (refl, Moves-refl _)
    | inr (penv, e) ↦ rw e (refl, transition_to-Moves a penv agent to now w.presence)
  ]

  pub after_answer-lem :
      (agent : ℕ) (c : Call) (now : ℕ) (w : World) (a : ℕ)
      → ((after_answer env agent c now w).1.calls ≡ w.calls)
        × Moves
            (row_of a w.presence.rows)
            (row_of a (after_answer env agent c now w).1.presence.rows)
  unfolding after_answer
  after_answer-lem agent c now w a =
      let w1 : World = record w { tenant_gauge = count_at c.tenant_id (pos 1) w.tenant_gauge } in
      let w2 : World = follow_agent env agent talking now w1 in
      let w3 : World = start_to_record env c w2 in
      let (f, moved) = follow_agent-lem agent talking now w1 a in
      let (s, s') = start_to_record-lem c w2 in
      let (t, t') = tell_of_answer-lem agent c w3 in (t ∙ s ∙ f, rw (t' ∙ s') moved)

  pub after_ringing-lem :
      (agent : ℕ) (c : Call) (now : ℕ) (w : World) (a : ℕ)
      → ((after_ringing env agent c now w).1.calls ≡ w.calls)
        × Moves
            (row_of a w.presence.rows)
            (row_of a (after_ringing env agent c now w).1.presence.rows)
  unfolding after_ringing
  after_ringing-lem agent c now w a =
      let w1 : World = follow_agent env agent dialing now w in
      let (f, moved) = follow_agent-lem agent dialing now w a in
      let (t, t') = emit-lem env.has_notifier (notify_agent agent ringing c) w1 in
      (t ∙ f, rw t' moved)

  pub after_queue-lem :
      (c : Call) (group now : ℕ) (w : World)
      → ((notify_its_agent env queued c (save_snapshot env c group now w)).calls ≡ w.calls)
        × ((notify_its_agent env queued c (save_snapshot env c group now w)).presence ≡ w.presence)
  after_queue-lem c group now w =
      let w1 : World = save_snapshot env c group now w in
      let (s, s') = save_snapshot-lem c group now w in
      let n = notify_its_agent-SameDomains env queued c w1 in
      (notify_its_agent-calls env queued c w1 ∙ s, n.same_presence ∙ s')

-- A method that asks the call service first, and goes on only where it succeeds.
module _ (r : Result Error Call × CallWorld) (f : Call → World → Call × World) (w : World) where
  pub continue-calls :
      (i : ℕ)
      → Evolves (find i w.calls.calls) (find i r.1.calls)
      → ((c : Call) → (f c (record w { calls = r.1 })).1.calls ≡ r.1)
      → Evolves (find i w.calls.calls) (find i (continue r f w).1.calls.calls)
  unfolding continue
  continue-calls i evolves same = elim (Result-cases r.0) [
    | inl (c, e) ↦
        let eq : (continue r f w).1.calls ≡ r.1 = ground (arith, e, same c) in rw eq evolves
    | inr (x, e) ↦ let eq : (continue r f w).1.calls ≡ r.1 = ground (arith, e) in rw eq evolves
  ]

  pub continue-agents :
      (a : ℕ)
      → ((c : Call)
          → Moves
              (row_of a w.presence.rows)
              (row_of a (f c (record w { calls = r.1 })).1.presence.rows))
      → Moves (row_of a w.presence.rows) (row_of a (continue r f w).1.presence.rows)
  unfolding continue
  continue-agents a moves = elim (Result-cases r.0) [
    | inl (c, e) ↦
        let eq : (continue r f w).1.presence ≡ (f c (record w { calls = r.1 })).1.presence =
          ground (arith, e) in
        rw eq (moves c)
    | inr (x, e) ↦
        let eq : (continue r f w).1.presence ≡ w.presence = ground (arith, e) in
        rw eq (Moves-refl _)
  ]
