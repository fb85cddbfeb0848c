-- ===== src/Lifecycle/Frame.antt =====
-- internal/application/lifecycle/service.go: which part of the state each step of EndCall acts on.
use ccc.Prelude.{ℕ, ◌+◌, ◌≡◌, ◌∙◌, ap, List, [], ◌∷◌, ◌++◌, arith, if◌then◌else◌}
use ccc.Prelude.Int.{negsuc, ◌+ℤ◌}
use ccc.Call.Entity.{Call, CallEvent, EventKind}
use ccc.Call.Durations.{Marks, mark, mark_all, calculate_durations}
use ccc.Lifecycle.World.{Env, World, Moment, ended, release, emit, count_at}
use ccc.Lifecycle.Service.{
  save_call, save_recording, store_recording, insert_recording, save_durations, wrap_up,
  notify_its_agent, let_go, hang_up, with_durations, after_end, events_of,
}

-- Nothing but the table of calls, the recordings and the commands to other systems.
pub record SameDomains (w w' : World) : Type 0 where
  pub same_presence : w'.presence ≡ w.presence
  pub same_campaigns : w'.campaigns ≡ w.campaigns
  pub same_slots : w'.slots ≡ w.slots
  pub same_redis : w'.redis_commands ≡ w.redis_commands
  pub same_hooks : w'.hooks ≡ w.hooks
  pub same_gauge : w'.active_gauge ≡ w.active_gauge
  pub same_gauges : w'.tenant_gauge ≡ w.tenant_gauge

SameDomains-trans : {u v w : World} → SameDomains u v → SameDomains v w → SameDomains u w
SameDomains-trans h k = ground arith

module _ (env : Env) where
  save_call-SameDomains : (c : Call) (w : World) → SameDomains w (save_call env c w)
  unfolding save_call
  save_call-SameDomains c w = ground arith

  hang_up-SameDomains : (c : Call) (w : World) → SameDomains w (hang_up env c w)
  unfolding hang_up emit
  hang_up-SameDomains c w = ground arith

  save_recording-SameDomains :
      (c : Call) (now : ℕ) (w : World) → SameDomains w (save_recording env c now w).1
  unfolding save_recording store_recording insert_recording save_call
  save_recording-SameDomains c now w = ground arith

  with_durations-SameDomains :
      (c : Call) (es : List CallEvent) (w : World) → SameDomains w (with_durations env c es w).1
  unfolding with_durations save_call
  with_durations-SameDomains c [] w = ground arith
  with_durations-SameDomains c (e ∷ es) w = ground arith

  save_durations-SameDomains : (c : Call) (w : World) → SameDomains w (save_durations env c w).1
  unfolding save_durations
  save_durations-SameDomains c w =
      let w' : World = record w { calls = record (w.calls) { queries = w.calls.queries + 1 } } in
      SameDomains-trans {v = w'} (ground arith) (
        with_durations-SameDomains c
          (if env.calls.db_fails w.calls.queries then [] else events_of c.id w.calls.events) w')

  pub notify_its_agent-calls :
      (m : Moment) (c : Call) (w : World) → (notify_its_agent env m c w).calls ≡ w.calls
  unfolding notify_its_agent emit
  notify_its_agent-calls m c w = ground arith

  pub notify_its_agent-SameDomains :
      (m : Moment) (c : Call) (w : World) → SameDomains w (notify_its_agent env m c w)
  unfolding notify_its_agent emit
  notify_its_agent-SameDomains m c w = ground arith

-- What EndCall still writes into a call that has ended: the recording's path and three durations.
pub record Alike (c d : Call) : Type 0 where
  pub same_id : d.id ≡ c.id
  pub same_tenant : d.tenant_id ≡ c.tenant_id
  pub same_agent : d.agent_user_id ≡ c.agent_user_id
  pub same_case : d.campaign_case_id ≡ c.campaign_case_id
  pub same_status : d.status ≡ c.status
  pub same_reason : d.hangup_reason ≡ c.hangup_reason
  pub same_end : d.ended_at ≡ c.ended_at
  pub same_answer : d.answered_at ≡ c.answered_at
  pub same_group : d.skill_group_id ≡ c.skill_group_id
  pub same_holds : d.hold_count ≡ c.hold_count
  pub same_transfers : d.transfer_count ≡ c.transfer_count

pub Alike-trans : {a b c : Call} → Alike a b → Alike b c → Alike a c
Alike-trans h k = ground arith

mark-Alike :
    (c : Call) (k : EventKind) (at : ℕ) (m : Marks) → Alike c m.call → Alike c (mark k at m).call
unfolding mark
mark-Alike c k at m h = ground arith

mark_all-Alike :
    (c : Call) (es : List CallEvent) (m : Marks) → Alike c m.call → Alike c (mark_all es m).call
unfolding mark_all
mark_all-Alike c [] m h = h
mark_all-Alike c (e ∷ es) m h =
    mark_all-Alike c es (mark e.event e.created_at m) (mark-Alike c e.event e.created_at m h)

pub calculate_durations-Alike :
    (c : Call) (es : List CallEvent) → Alike c (calculate_durations c es)
unfolding calculate_durations
calculate_durations-Alike c es = mark_all-Alike c es _ (ground arith)

module _ (env : Env) where
  pub save_recording-Alike :
      (c : Call) (now : ℕ) (w : World) → Alike c (save_recording env c now w).0
  unfolding save_recording store_recording
  save_recording-Alike c now w = ground arith

  with_durations-Alike :
      (c : Call) (es : List CallEvent) (w : World) → Alike c (with_durations env c es w).0
  unfolding with_durations
  with_durations-Alike c [] w = ground arith
  with_durations-Alike c (e ∷ es) w = calculate_durations-Alike c (e ∷ es)

  save_durations-Alike : (c : Call) (w : World) → Alike c (save_durations env c w).0
  unfolding save_durations
  save_durations-Alike c w =
      with_durations-Alike c
        (if env.calls.db_fails w.calls.queries then [] else events_of c.id w.calls.events)
        (record w { calls = record (w.calls) { queries = w.calls.queries + 1 } })

  -- The agent's presence is all that after-call work acts on.
  pub wrap_up-presence :
      (c c' : Call) (now : ℕ) (w w' : World)
      → c'.agent_user_id ≡ c.agent_user_id
      → w'.presence ≡ w.presence
      → (wrap_up env c' now w').presence ≡ (wrap_up env c now w).presence
  unfolding wrap_up
  wrap_up-presence c c' now w w' a e = ground arith

  pub wrap_up-others :
      (c : Call) (now : ℕ) (w : World)
      → ((wrap_up env c now w).calls ≡ w.calls)
        × SameDomains w (record (wrap_up env c now w) { presence = w.presence })
  unfolding wrap_up
  wrap_up-others c now w = ground arith

  pub let_go-lem :
      (c : Call) (w : World)
      → ((let_go env c w).calls ≡ w.calls)
        × ((let_go env c w).presence ≡ w.presence)
        × ((let_go env c w).campaigns ≡ w.campaigns)
        × ((let_go env c w).hooks ≡ w.hooks ++ c ∷ [])
        × ((let_go env c w).slots ≡ (release env c.tenant_id w).slots)
        × ((let_go env c w).active_gauge ≡ w.active_gauge +ℤ negsuc 0)
        × ((let_go env c w).tenant_gauge ≡ count_at c.tenant_id (negsuc 0) w.tenant_gauge)
  unfolding let_go release emit
  let_go-lem c w = ground arith

  pub release-slots :
      (t t' : ℕ) (w w' : World)
      → t' ≡ t
      → w'.slots ≡ w.slots
      → w'.redis_commands ≡ w.redis_commands
      → (release env t' w').slots ≡ (release env t w).slots
  unfolding release
  release-slots t t' w w' e s r = ground arith

-- What EndCall leaves of a call `c` that has ended, returned as `c'`.
pub record LetGo (env : Env) (c : Call) (now : ℕ) (w : World) (c' : Call) (w' : World)
    : Type 0 where
  pub alike : Alike c c'
  pub hooked : w'.hooks ≡ w.hooks ++ c' ∷ []
  pub released : w'.slots ≡ (release env c.tenant_id w).slots
  pub fewer : w'.active_gauge ≡ w.active_gauge +ℤ negsuc 0
  pub fewer_here : w'.tenant_gauge ≡ count_at c.tenant_id (negsuc 0) w.tenant_gauge
  pub wrapped_up : w'.presence ≡ (wrap_up env c now w).presence
  pub same_cases : w'.campaigns ≡ w.campaigns

pub after_end-LetGo :
    (env : Env) (c : Call) (now : ℕ) (w : World)
    → LetGo env c now w (after_end env c now w).0 (after_end env c now w).1
unfolding after_end
after_end-LetGo env c now w =
    let (c1, w1) = save_recording env c now (hang_up env c w) in
    let (c2, w2) = save_durations env c1 w1 in
    let alike : Alike c c2 =
      Alike-trans (save_recording-Alike env c now (hang_up env c w))
        (save_durations-Alike env c1 w1) in
    let s : SameDomains w w2 = SameDomains-trans (hang_up-SameDomains env c w) (
      SameDomains-trans (save_recording-SameDomains env c now (hang_up env c w))
        (save_durations-SameDomains env c1 w1)) in
    let w3 : World = wrap_up env c2 now w2 in
    let (_, k) = wrap_up-others env c2 now w2 in
    let w4 : World = notify_its_agent env ended c2 w3 in
    let n = notify_its_agent-SameDomains env ended c2 w3 in
    let (_, presence, campaigns, hooks, slots, gauge, gauges) = let_go-lem env c2 w4 in
    let quiet : SameDomains w (record w4 { presence = w.presence }) = ground (arith, s, k, n) in
    record {
      alike = alike;
      hooked = hooks ∙ ap (λ h. h ++ c2 ∷ []) quiet.same_hooks;
      released =
          slots
          ∙ release-slots env c.tenant_id c2.tenant_id w w4 alike.same_tenant quiet.same_slots
              quiet.same_redis;
      fewer = gauge ∙ ap (λ g. g +ℤ negsuc 0) quiet.same_gauge;
      fewer_here =
          gauges
          ∙ ap (λ t. count_at t (negsuc 0) w4.tenant_gauge) alike.same_tenant
          ∙ ap (λ g. count_at c.tenant_id (negsuc 0) g) quiet.same_gauges;
      wrapped_up =
          presence
          ∙ n.same_presence
          ∙ wrap_up-presence env c c2 now w w2 alike.same_agent s.same_presence;
      same_cases = campaigns ∙ quiet.same_campaigns;
    }
