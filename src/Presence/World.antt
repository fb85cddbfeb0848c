-- ===== src/Presence/World.antt =====
-- What AgentPresenceService acts on (internal/domain/identity/service.go): the tables behind its
-- repositories, the timers of after-call work, and the hooks it has called. The database, the id
-- generator and the resolver that main.go installs are not part of the package: `Env` holds their
-- answers, with any statement free to fail.
use ccc.Prelude.{
  ℕ, ◌+◌, ◌*◌, Bool, true, false, Option, none, some, List, [], ◌∷◌, ◌++◌, ◌==◌, if◌then◌else◌, ok,
  err, Method, or_fail,
}
use ccc.Presence.Entity.{
  AgentPresence, PresenceLog, PresenceStatus, Shift, Error, presence_not_found, repository_failed,
}
use ccc.Presence.Table.{row_of, upsert_row}
use ccc.Call.Durations.{second, seconds_between}

-- A goroutine that waits: until `due`, or until its channel is closed.
pub record Timer : Type 0 where
  pub timer_id : ℕ
  pub agent_id : ℕ
  pub due : ℕ
  pub stopped : Bool

-- `acw_resolver` is none for nil; an answer below 0 counts like 0. `keeps_shifts` is
-- `s.shifts != nil`.
pub record Env : Type 0 where
  pub ids : ℕ → ℕ
  pub db_fails : ℕ → Bool
  pub default_acw : ℕ
  pub acw_resolver : Option (ℕ → ℕ → ℕ)
  pub keeps_shifts : Bool

-- `acw_timers` is the map `s.acwTimers`, from an agent to the timer whose channel the entry closes;
-- `changes` holds the calls of each hook, with the status before.
pub record World : Type 0 where
  pub rows : List AgentPresence
  pub logs : List PresenceLog
  pub shifts : List Shift
  pub acw_timers : ℕ → Option ℕ
  pub waiting : List Timer
  pub started : ℕ
  pub changes : List (AgentPresence × PresenceStatus)
  pub drawn : ℕ
  pub queries : ℕ

abbrev pub Action : Type 0 → Type 0
Action = Method World Error

unfoldable pub stop_timer : ℕ → List Timer → List Timer
stop_timer i [] = []
stop_timer i (t ∷ ts) =
    (if t.timer_id == i then record t { stopped = true } else t) ∷ stop_timer i ts

-- `delete(s.acwTimers, agentID)`, and the assignment to an entry.
abbrev pub set_entry : ℕ → Option ℕ → (ℕ → Option ℕ) → ℕ → Option ℕ
set_entry a e m b = if a == b then e else m b

unfoldable pub cancel_acw_timer : ℕ → Action (Unit {0})
cancel_acw_timer a w = elim (w.acw_timers a) [
  | none ↦ (ok tt, w)
  | some i ↦ (
    ok tt,
    record w { acw_timers = set_entry a none w.acw_timers; waiting = stop_timer i w.waiting },
  )
]

unfoldable pub schedule_acw_timeout : ℕ → ℕ → ℕ → Action (Unit {0})
schedule_acw_timeout a seconds now w =
    let t : Timer = record {
      timer_id = w.started;
      agent_id = a;
      due = now + seconds * second;
      stopped = false;
    } in
    (
      ok tt,
      record w {
        acw_timers = set_entry a (some w.started) w.acw_timers;
        waiting =
            elim (w.acw_timers a) [ none ↦ w.waiting | some i ↦ stop_timer i w.waiting ] ++ t ∷ [];
        started = w.started + 1;
      },
    )

-- `for _, h := range s.changeHooks { go h(ctx, p, oldStatus) }`
unfoldable pub call_hooks : AgentPresence → PresenceStatus → Action (Unit {0})
call_hooks p old w = (ok tt, record w { changes = w.changes ++ (p, old) ∷ [] })

module _ (env : Env) where
  -- `p, err := s.presence.GetByAgentID(ctx, agentID); if err != nil || p == nil { ... }`
  unfoldable pub get_presence : ℕ → Action AgentPresence
  get_presence a w = (
    if env.db_fails w.queries
        then err presence_not_found
        else or_fail (row_of a w.rows) presence_not_found,
    record w { queries = w.queries + 1 },
  )

  unfoldable pub upsert : AgentPresence → Action (Unit {0})
  upsert p w = elim (env.db_fails w.queries) [
    | true ↦ (err repository_failed, record w { queries = w.queries + 1 })
    | false ↦
        (ok tt, record w { queries = w.queries + 1; rows = upsert_row env.default_acw p w.rows })
  ]

  unfoldable pub next_id : Action ℕ
  next_id w = (ok (env.ids w.drawn), record w { drawn = w.drawn + 1 })

  -- The error of the repository is dropped.
  unfoldable pub log_transition : AgentPresence → ℕ → Action (Unit {0})
  unfolding seconds_between
  log_transition p now w =
      let l : PresenceLog = record {
        id = env.ids w.drawn;
        tenant_id = p.tenant_id;
        agent_id = p.agent_id;
        status = p.status;
        sub_state = p.sub_state;
        work_mode = p.work_mode;
        break_reason_code = p.break_reason_code;
        duration_sec = seconds_between p.last_status_at now;
        created_at = now;
      } in
      (
        ok tt,
        record w {
          logs = if env.db_fails w.queries then w.logs else w.logs ++ l ∷ [];
          drawn = w.drawn + 1;
          queries = w.queries + 1;
        },
      )
