-- ===== src/Presence/Reset.antt =====
-- internal/domain/identity/service.go: ResetGhostAgents.
use ccc.Prelude.{
  ℕ, ◌+◌, ◌*◌, Bool, ◌||◌, ◌&&◌, Option, none, some, List, [], ◌∷◌, ltb, if◌then◌else◌, ok, err,
}
use ccc.Presence.Entity.{
  AgentPresence, offline, online, idle, talking, acw, dialing, repository_failed,
}
use ccc.Presence.Table.{rows_of_tenant}
use ccc.Presence.World.{Env, World, Action, upsert, log_transition}
use ccc.Presence.Service.{is, detached}

abbrev pub is_stuck : ℕ → ℕ → AgentPresence → Bool
is_stuck max_duration now p =
    (is p.status talking || is p.status dialing) && ltb (p.last_status_at + max_duration) now

abbrev pub is_stale : ℕ → ℕ → AgentPresence → Bool
is_stale max_duration now p =
    (is p.status online || is p.status idle || is p.status acw)
    && ltb (p.updated_at + 3 * max_duration) now

-- The two cases of the switch: what becomes of a row, none for neither case.
unfoldable pub reset_row : ℕ → ℕ → AgentPresence → Option AgentPresence
reset_row max_duration now p =
    if is_stuck max_duration now p
    then some (detached idle now p)
    else if is_stale max_duration now p
    then some (detached offline now p)
    else none

module _ (env : Env) where
  -- One turn of the loop, with the count so far.
  unfoldable pub reset_one : ℕ → ℕ → AgentPresence → ℕ → World → ℕ × World
  unfolding log_transition upsert
  reset_one max_duration now p count w = elim (reset_row max_duration now p) [
    | none ↦ (count, w)
    | some p' ↦
        let (r, w') = upsert env p' (log_transition env p now w).1 in
        elim r [ ok _ ↦ (count + 1, w') | err _ ↦ (count, w') ]
  ]

  unfoldable pub reset_all : ℕ → ℕ → List AgentPresence → ℕ → World → ℕ × World
  unfolding reset_one
  reset_all max_duration now [] count w = (count, w)
  reset_all max_duration now (p ∷ ps) count w =
      let (count', w') = reset_one max_duration now p count w in
      reset_all max_duration now ps count' w'

  unfoldable pub reset_ghost_agents : ℕ → ℕ → ℕ → Action ℕ
  unfolding reset_all rows_of_tenant
  reset_ghost_agents tenant_id max_duration now w =
      let start : World = record w { queries = w.queries + 1 } in
      let (count, w') = reset_all max_duration now (rows_of_tenant tenant_id w.rows) 0 start in
      if env.db_fails w.queries then (err repository_failed, start) else (ok count, w')
