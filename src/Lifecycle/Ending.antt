-- ===== src/Lifecycle/Ending.antt =====
-- internal/application/lifecycle/service.go: EndCall as a whole, in both of its outcomes.
use ccc.Prelude.{
  none, true, Bool-cases, Option-cases, ==_refl, ==→eq, ℕ, ◌≡◌, refl, sym, ◌∙◌, Option, some, [],
  ◌∷◌, ◌++◌, arith, Result-cases, inl, inr, ok, err,
}
use mathlib.Core.Path.{subst}
use ccc.Prelude.Int.{ℤ, negsuc, ◌+ℤ◌}
use ccc.Presence.World.{Env as PresenceEnv, World as PresenceWorld}
use ccc.Presence.Service.{set_acw}
use ccc.Presence.Wrapping.{WrapsUp, set_acw-WrapsUp}
use ccc.Call.Entity.{Call, Error, HangupBy, HangupReason, completed}
use ccc.Call.World.{Env as CallEnv, World as CallWorld, get_call, update_call, log_event}
use ccc.Call.Control
use ccc.Lifecycle.World.{Env, World, Outcome, release, call_failed}
use ccc.Lifecycle.Service.{continue, after_end, end_call, wrap_up}
use ccc.Lifecycle.Frame.{after_end-LetGo, SameDomains, release-slots, wrap_up-presence}

-- A place of the tenant is given back, unless none are counted or Redis fails.
pub data Freed (env : Env) (tenant : ℕ) (w : World) (slots : ℕ → ℤ) : Type 0 where
  uncounted : env.limit_of ≡ none → slots ≡ w.slots → Freed env tenant w slots
  lost : env.redis_fails w.redis_commands ≡ true → slots ≡ w.slots → Freed env tenant w slots
  freed :
      slots tenant ≡ w.slots tenant +ℤ negsuc 0
      → ((o : ℕ) → ¬ (o ≡ tenant) → slots o ≡ w.slots o)
      → Freed env tenant w slots

-- After-call work of the call's agent, if it has one and there is a service of presences.
pub data WrappedUp (env : Env) (c : Call) (w : World) (presence : PresenceWorld) : Type 0 where
  unserved : env.presence ≡ none → presence ≡ w.presence → WrappedUp env c w presence
  alone : c.agent_user_id ≡ none → presence ≡ w.presence → WrappedUp env c w presence
  wraps :
      {penv : PresenceEnv} {a : ℕ}
      → env.presence ≡ some penv
      → c.agent_user_id ≡ some a
      → WrapsUp penv a w.presence presence
      → WrappedUp env c w presence

release-Freed :
    (env : Env) (tenant : ℕ) (w : World) → Freed env tenant w (release env tenant w).slots
unfolding release
release-Freed env tenant w = elim (Option-cases env.limit_of) [
  | inl e ↦ uncounted e (ground (arith, e))
  | inr (l, e) ↦ elim (Bool-cases (env.redis_fails w.redis_commands)) [
    | inl fails ↦ lost fails (ground (arith, e, fails))
    | inr works ↦
        freed (ground (arith, e, works, ==_refl tenant))
          (λ o other. ground (arith, e, works, other, ==→eq o tenant))
  ]
]

wrap_up-WrappedUp :
    (env : Env) (c : Call) (now : ℕ) (w : World) → WrappedUp env c w (wrap_up env c now w).presence
unfolding wrap_up
wrap_up-WrappedUp env c now w = elim (Option-cases env.presence) [
  | inl e ↦ unserved e (ground (arith, e))
  | inr (penv, e) ↦ elim (Option-cases c.agent_user_id) [
    | inl f ↦ alone f (ground (arith, e, f))
    | inr (a, f) ↦
        let same : (wrap_up env c now w).presence ≡ (set_acw penv a "" now w.presence).1 =
          ground (arith, e, f) in
        wraps e f
          (subst (WrapsUp penv a w.presence) (sym same) (set_acw-WrapsUp penv a "" now w.presence))
  ]
]

-- What EndCall returned, and what it left of the state before it.
abbrev pub Ended : Env → HangupReason → ℕ → World → Outcome Call → Type 0
Ended env reason now w (err e, w') =
    (w'.calls.calls ≡ w.calls.calls)
    × (w'.calls.events ≡ w.calls.events)
    × (w'.effects ≡ w.effects)
    × (w'.recordings ≡ w.recordings)
    × SameDomains w w'
Ended env reason now w (ok c, w') =
    (c.status ≡ completed)
    × (c.ended_at ≡ some now)
    × (c.hangup_reason ≡ some reason)
    × (w'.hooks ≡ w.hooks ++ c ∷ [])
    × Freed env c.tenant_id w w'.slots
    × (w'.active_gauge ≡ w.active_gauge +ℤ negsuc 0)
    × WrappedUp env c w w'.presence
    × (w'.campaigns ≡ w.campaigns)

control-ended :
    (env : CallEnv) (id : ℕ) (reason : HangupReason) (by : Option HangupBy) (now : ℕ)
    (w : CallWorld) (c : Call)
    → (Control.end_call env id reason by now w).0 ≡ ok c
    → (c.status ≡ completed) × (c.ended_at ≡ some now) × (c.hangup_reason ≡ some reason)
unfolding Control.end_call get_call update_call log_event
control-ended env id reason by now w c done = ground (arith, done)

control-refused :
    (env : CallEnv) (id : ℕ) (reason : HangupReason) (by : Option HangupBy) (now : ℕ)
    (w : CallWorld) (e : Error)
    → (Control.end_call env id reason by now w).0 ≡ err e
    → ((Control.end_call env id reason by now w).1.calls ≡ w.calls)
      × ((Control.end_call env id reason by now w).1.events ≡ w.events)
unfolding Control.end_call get_call update_call log_event
control-refused env id reason by now w e failed = ground (arith, failed)

-- An EndCall that fails leaves the calls, the agents, the campaigns, the counters and the goroutines
-- as they were, and tells nobody. One that succeeds returns the completed call, starts one goroutine
-- for it, lowers its tenant's counter by one and no other, unless no limits are kept or Redis fails,
-- and takes its agent into after-call work, if the agent is on a call and the database works; the
-- campaigns wait for the goroutine.
pub end_call-Ended :
    (env : Env) (id : ℕ) (reason : HangupReason) (by : Option HangupBy) (now : ℕ) (w : World)
    → Ended env reason now w (end_call env id reason by now w)
unfolding end_call continue
end_call-Ended env id reason by now w =
    let run = Control.end_call env.calls id reason by now w.calls in
    let w1 : World = record w { calls = run.1 } in
    elim (Result-cases run.0) [
      | inr (e, failed) ↦
          let (rows, events) = control-refused env.calls id reason by now w.calls e failed in
          let eq : end_call env id reason by now w ≡ (err (call_failed e), w1) =
            ground (arith, failed) in
          subst (Ended env reason now w) (sym eq) (rows, events, refl, refl, ground arith)
      | inl (c, done) ↦
          let (over, at, why) = control-ended env.calls id reason by now w.calls c done in
          let gone = after_end-LetGo env c now w1 in
          let d : Call = (after_end env c now w1).0 in
          let eq : end_call env id reason by now w
              ≡ (ok (after_end env c now w1).0, (after_end env c now w1).1) =
            ground (arith, done) in
          subst (Ended env reason now w) (sym eq) (
            gone.alike.same_status ∙ over,
            gone.alike.same_end ∙ at,
            gone.alike.same_reason ∙ why,
            gone.hooked,
            subst (Freed env d.tenant_id w)
                (sym (
                  gone.released
                  ∙ release-slots env d.tenant_id c.tenant_id w w1 (sym gone.alike.same_tenant) refl
                      refl))
                (release-Freed env d.tenant_id w),
            gone.fewer,
            subst (WrappedUp env d w)
                (sym (
                  gone.wrapped_up
                  ∙ wrap_up-presence env d c now w w1 (sym gone.alike.same_agent) refl))
                (wrap_up-WrappedUp env d now w),
            gone.same_cases,
          )
    ]
