-- ===== src/Presence/History.antt =====
-- Every request moves every agent's row along the diagram.
use ccc.Prelude.{ℕ, ◌≡◌, refl, true, none, some, List, ◌⊎◌, inl, inr, arith, Option-cases, String}
use ccc.Presence.Entity.{AgentPresence, PresenceStatus, offline, idle, break, acw, WorkMode}
use ccc.Presence.Table.{row_of, upsert_row, row_of-agent}
use ccc.Presence.World.{Env, World}
use ccc.Presence.Service.{
  check_out, transition_to, switch_work_mode, set_break, set_acw, is_valid_transition, moved,
  detached, acw_seconds_of,
}
use ccc.Presence.Timer.{timer_fires, timer_wakes, timer_of, drop_timer}
use ccc.Presence.Request.{Request, handle}
use ccc.Presence.Moves.{
  Moves, Moves-refl, Moves-of_upsert, upsert-upsert, edge_of_valid, stay, leave,
  transition_to-Moves, set_sub_state-Moves,
}

switch_work_mode-Moves :
    (a : ℕ) (env : Env) (id : ℕ) (mode : WorkMode) (now : ℕ) (w : World)
    → Moves (row_of a w.rows) (row_of a (switch_work_mode env id mode now w).1.rows)
unfolding switch_work_mode
switch_work_mode-Moves a env id mode now w =
    Moves-of_upsert a id env.default_acw (λ p. record p { work_mode = mode; updated_at = now })
      (λ p. true) w.rows (switch_work_mode env id mode now w).1.rows (λ p. refl) (λ p m. stay)
      (λ e. ground arith) (λ p e. ground arith)

check_out-Moves :
    (a : ℕ) (env : Env) (id now : ℕ) (w : World)
    → Moves (row_of a w.rows) (row_of a (check_out env id now w).1.rows)
unfolding check_out
check_out-Moves a env id now w =
    Moves-of_upsert a id env.default_acw (detached offline now) (λ p. true) w.rows
      (check_out env id now w).1.rows (λ p. refl) (λ p m. leave) (λ e. ground arith)
      (λ p e. ground arith)

-- What a method did that goes to the state `to` and then upserts its row once more.
abbrev Wrote :
    (to : PresenceStatus) (now d : ℕ) (again : AgentPresence → AgentPresence)
    → AgentPresence
    → List AgentPresence
    → List AgentPresence
    → Type 0
Wrote to now d again p t t' =
    (t' ≡ t)
    ⊎ ((is_valid_transition p.status to ≡ true)
        × ((t' ≡ upsert_row d (moved to now p) t)
            ⊎ (t' ≡ upsert_row d (again (moved to now p)) (upsert_row d (moved to now p) t))))

Moves-of_two :
    (a id d : ℕ) (to : PresenceStatus) (now : ℕ) (again : AgentPresence → AgentPresence)
    (t t' : List AgentPresence)
    → ((p : AgentPresence) → (again p).agent_id ≡ p.agent_id)
    → ((p : AgentPresence) → (again p).status ≡ p.status)
    → (row_of id t ≡ none → t' ≡ t)
    → ((p : AgentPresence) → row_of id t ≡ some p → Wrote to now d again p t t')
    → Moves (row_of a t) (row_of a t')
Moves-of_two a id d to now again t t' same_agent same_status missing wrote =
    elim (Option-cases (row_of id t)) [
      | inl e ↦ rw (missing e) (Moves-refl _)
      | inr (p, e) ↦
          let found : row_of p.agent_id t ≡ some p = cc (e, row_of-agent id t p e) in
          elim (wrote p e) [
            | inl kept ↦ rw kept (Moves-refl _)
            | inr (m, inl once) ↦
                Moves-of_upsert a id d (moved to now) (λ q. is_valid_transition q.status to) t t'
                  (λ q. refl) (λ q. edge_of_valid q.status to) (λ none_there. ground arith)
                  (λ q there. ground arith)
            | inr (m, inr twice) ↦
                let over =
                  upsert-upsert d (moved to now p) (again (moved to now p)) p t (same_agent _)
                    found in
                Moves-of_upsert a id d (λ q. again (moved to now q))
                  (λ q. is_valid_transition q.status to) t t' (λ q. same_agent _)
                  (λ q v. rw (same_status (moved to now q)) (edge_of_valid q.status to v))
                  (λ none_there. ground arith) (λ q there. ground (arith, over))
          ]
    ]

set_break-Moves :
    (a : ℕ) (env : Env) (id : ℕ) (reason : String) (now : ℕ) (w : World)
    → Moves (row_of a w.rows) (row_of a (set_break env id reason now w).1.rows)
unfolding set_break transition_to
set_break-Moves a env id reason now w =
    Moves-of_two a id env.default_acw break now
      (λ p. record p { break_reason_code = reason; updated_at = now }) w.rows
      (set_break env id reason now w).1.rows (λ p. refl) (λ p. refl) (λ e. ground arith)
      (λ p e. ground arith)

pub set_acw-Moves :
    (a : ℕ) (env : Env) (id : ℕ) (code : String) (now : ℕ) (w : World)
    → Moves (row_of a w.rows) (row_of a (set_acw env id code now w).1.rows)
unfolding set_acw transition_to
set_acw-Moves a env id code now w =
    Moves-of_two a id env.default_acw acw now
      (λ p. record p {
        disposition_code = code;
        acw_seconds = acw_seconds_of env p;
        updated_at = now;
      })
      w.rows (set_acw env id code now w).1.rows (λ p. refl) (λ p. refl) (λ e. ground arith)
      (λ p e. ground arith)

timer_fires-Moves :
    (a : ℕ) (env : Env) (i now : ℕ) (w : World)
    → Moves (row_of a w.rows) (row_of a (timer_fires env i now w).1.rows)
unfolding timer_fires
timer_fires-Moves a env i now w = elim (Option-cases (timer_of i w.waiting)) [
  | inl e ↦
      let kept : (timer_fires env i now w).1.rows ≡ w.rows = ground arith in rw kept (Moves-refl _)
  | inr (t, e) ↦
      let w' : World = record w { waiting = drop_timer i w.waiting } in
      let rows_after : ((timer_fires env i now w).1.rows ≡ w.rows)
          ⊎ ((timer_fires env i now w).1.rows ≡ (transition_to env t.agent_id idle now w').1.rows) =
        ground arith in
      elim rows_after [
        | inl kept ↦ rw kept (Moves-refl _)
        | inr went ↦ rw went (transition_to-Moves a env t.agent_id idle now w')
      ]
]

timer_wakes-rows : (i : ℕ) (w : World) → (timer_wakes i w).1.rows ≡ w.rows
unfolding timer_wakes
timer_wakes-rows i w = ground arith

-- Every request but signing in moves every agent's row along the diagram of the states, or leaves it
-- where it was, also when the database refuses any of its statements: no row is made or deleted, and
-- none changes its agent, its tenant, the time of the sign-in or its seconds of after-call work.
pub handle-Moves :
    (env : Env) (r : Request) (now : ℕ) (w : World) (a : ℕ)
    → Moves (row_of a w.rows) (row_of a (handle env r now w).rows)
unfolding handle
handle-Moves env (Request.checks_out id) now w a = check_out-Moves a env id now w
handle-Moves env (Request.goes id to) now w a = transition_to-Moves a env id to now w
handle-Moves env (Request.sets_sub_state id sub) now w a = set_sub_state-Moves a env id sub now w
handle-Moves env (Request.works id mode) now w a = switch_work_mode-Moves a env id mode now w
handle-Moves env (Request.breaks id reason) now w a = set_break-Moves a env id reason now w
handle-Moves env (Request.wraps_up id code) now w a = set_acw-Moves a env id code now w
handle-Moves env (Request.fires i) now w a = timer_fires-Moves a env i now w
handle-Moves env (Request.wakes i) now w a = rw (timer_wakes-rows i w) (Moves-refl _)
