-- ===== src/Presence/Service.antt =====
-- internal/domain/identity/service.go: AgentPresenceService. `now` is the one reading of the clock
-- in each call.
use ccc.Prelude.{
  ℕ, ◌+◌, String, Bool, true, false, not, ◌||◌, ◌++◌, none, some, List, [], ◌∷◌, ltb, if◌then◌else◌,
  ok, pure, fail_if, ◌>>=◌, ◌>>◌,
}
use ccc.Prelude.Int.{pos}
use ccc.Presence.Entity.{
  AgentPresence, PresenceStatus, offline, online, idle, break, talking, acw, dialing, SubState,
  no_sub_state, WorkMode, other_mode, Shift, invalid_state_transition, invalid_work_mode,
}
use ccc.Presence.Table.{open_shift, end_shift}
use ccc.Presence.World.{
  Env, World, Action, cancel_acw_timer, schedule_acw_timeout, call_hooks, get_presence, upsert,
  next_id, log_transition,
}
use ccc.Call.Durations.{seconds_between}

-- The map `validTransitions`.
unfoldable pub valid_transitions : PresenceStatus → List PresenceStatus
valid_transitions offline = online ∷ []
valid_transitions online = idle ∷ offline ∷ []
valid_transitions idle = dialing ∷ talking ∷ break ∷ offline ∷ []
valid_transitions dialing = talking ∷ acw ∷ idle ∷ offline ∷ []
valid_transitions talking = acw ∷ idle ∷ offline ∷ []
valid_transitions acw = idle ∷ offline ∷ []
valid_transitions break = idle ∷ offline ∷ []

abbrev pub is : PresenceStatus → PresenceStatus → Bool
is offline offline = true
is online online = true
is idle idle = true
is break break = true
is talking talking = true
is acw acw = true
is dialing dialing = true
is _ _ = false

unfoldable pub is_one_of : PresenceStatus → List PresenceStatus → Bool
is_one_of to [] = false
is_one_of to (allowed ∷ rest) = is allowed to || is_one_of to rest

unfoldable pub is_valid_transition : PresenceStatus → PresenceStatus → Bool
unfolding valid_transitions is_one_of
is_valid_transition from to = is_one_of to (valid_transitions from)

-- What TransitionTo writes into the row that it has read.
abbrev pub moved : PresenceStatus → ℕ → AgentPresence → AgentPresence
moved to now p =
    let rests = is to idle || is to offline in
    record p {
      status = to;
      sub_state = if is to talking then p.sub_state else no_sub_state;
      current_call_id = if rests then none else p.current_call_id;
      disposition_code = if rests then "" else p.disposition_code;
      break_reason_code = if rests then "" else p.break_reason_code;
      updated_at = now;
      last_status_at = now;
    }

-- What CheckOut and ResetGhostAgents write.
abbrev pub detached : PresenceStatus → ℕ → AgentPresence → AgentPresence
detached to now p = record p {
  status = to;
  sub_state = no_sub_state;
  current_call_id = none;
  updated_at = now;
  last_status_at = now;
}

module _ (env : Env) where
  -- `if s.shifts != nil { _ = s.shifts.Create(...) }`
  unfoldable pub open_new_shift : ℕ → ℕ → ℕ → Action (Unit {0})
  open_new_shift tenant_id agent_id now w =
      let s : Shift = record {
        id = env.ids w.drawn;
        tenant_id = tenant_id;
        agent_id = agent_id;
        check_in_at = now;
        check_out_at = none;
        total_online_sec = pos 0;
      } in
      let w' : World = record w {
        shifts = if env.db_fails w.queries then w.shifts else w.shifts ++ s ∷ [];
        drawn = w.drawn + 1;
        queries = w.queries + 1;
      } in
      (ok tt, if env.keeps_shifts then w' else w)

  -- `if shift, err := s.shifts.GetOpenShift(...); err == nil && shift != nil { ... EndShift ... }`
  unfoldable pub close_shift : ℕ → ℕ → Action (Unit {0})
  close_shift agent_id now w =
      let w' : World =
        elim (if env.db_fails w.queries then none else open_shift agent_id w.shifts) [
          | none ↦ record w { queries = w.queries + 1 }
          | some s ↦ record w {
            shifts =
                if env.db_fails (w.queries + 1)
                then w.shifts
                else end_shift s.id now (seconds_between s.check_in_at now) w.shifts;
            queries = w.queries + 2;
          }
        ] in
      (ok tt, if env.keeps_shifts then w' else w)

  unfoldable pub check_in : ℕ → ℕ → WorkMode → ℕ → Action AgentPresence
  unfolding next_id upsert open_new_shift
  check_in tenant_id agent_id work_mode now = do
    id ← next_id env
    let p : AgentPresence = record {
      id = id;
      tenant_id = tenant_id;
      agent_id = agent_id;
      status = online;
      sub_state = no_sub_state;
      work_mode = work_mode;
      break_reason_code = "";
      disposition_code = "";
      current_call_id = none;
      acw_seconds = 0;
      checked_in_at = some now;
      last_status_at = now;
      updated_at = now;
    }
    upsert env p
    open_new_shift tenant_id agent_id now
    pure p

  unfoldable pub check_out : ℕ → ℕ → Action (Unit {0})
  unfolding get_presence log_transition close_shift upsert
  check_out agent_id now = do
    p ← get_presence env agent_id
    log_transition env p now
    close_shift agent_id now
    upsert env (detached offline now p)

  unfoldable pub transition_to : ℕ → PresenceStatus → ℕ → Action AgentPresence
  unfolding get_presence log_transition cancel_acw_timer upsert call_hooks
  transition_to agent_id to now = do
    p ← get_presence env agent_id
    fail_if (not (is_valid_transition p.status to)) invalid_state_transition
    log_transition env p now
    cancel_acw_timer agent_id
    let p' = moved to now p
    upsert env p'
    call_hooks p' p.status
    pure p'

  unfoldable pub set_sub_state : ℕ → SubState → ℕ → Action AgentPresence
  unfolding get_presence upsert
  set_sub_state agent_id sub_state now = do
    p ← get_presence env agent_id
    let p' = record p { sub_state = sub_state; updated_at = now }
    upsert env p'
    pure p'

  unfoldable pub switch_work_mode : ℕ → WorkMode → ℕ → Action AgentPresence
  unfolding get_presence upsert
  switch_work_mode agent_id mode now = do
    fail_if (elim mode [ other_mode ↦ true | _ ↦ false ]) invalid_work_mode
    p ← get_presence env agent_id
    let p' = record p { work_mode = mode; updated_at = now }
    upsert env p'
    pure p'

  unfoldable pub set_break : ℕ → String → ℕ → Action AgentPresence
  unfolding upsert
  set_break agent_id reason_code now = do
    p ← transition_to agent_id break now
    let p' = record p { break_reason_code = reason_code; updated_at = now }
    upsert env p'
    pure p'

  -- The resolver's answer, if it is above 0, else the row's own seconds.
  abbrev pub acw_seconds_of : AgentPresence → ℕ
  acw_seconds_of p = elim env.acw_resolver [
    | none ↦ p.acw_seconds
    | some resolve ↦
        let seconds = resolve p.tenant_id p.agent_id in
        if ltb 0 seconds then seconds else p.acw_seconds
  ]

  unfoldable pub set_acw : ℕ → String → ℕ → Action AgentPresence
  unfolding upsert schedule_acw_timeout
  set_acw agent_id disposition_code now = do
    p ← transition_to agent_id acw now
    let p' = record p {
      disposition_code = disposition_code;
      acw_seconds = acw_seconds_of p;
      updated_at = now;
    }
    upsert env p'
    (if ltb 0 p'.acw_seconds then schedule_acw_timeout agent_id p'.acw_seconds now else pure tt)
    pure p'
