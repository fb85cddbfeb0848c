-- ===== src/Presence/Stale.antt =====
-- What the timers of after-call work do after the method that started them.
use ccc.Prelude.{
  ℕ, ◌+◌, ◌*◌, ◌≤◌, ◌≡◌, refl, true, false, none, some, arith, String, ok, err, ltb, ==_refl,
  Option-cases, inl, inr,
}
use ccc.Presence.Entity.{
  AgentPresence, PresenceStatus, online, idle, acw, WorkMode, repository_failed, no_sub_state,
}
use ccc.Presence.Table.{row_of, upsert_row, row_of-agent, row_of-upsert}
use ccc.Presence.World.{Env, World, Timer, stop_timer}
use ccc.Presence.Service.{
  check_in, check_out, transition_to, set_acw, is_valid_transition, moved, acw_seconds_of,
}
use ccc.Presence.Timer.{timer_fires, timer_wakes, timer_of, drop_timer}
use ccc.Presence.Moves.{upsert-upsert}
use ccc.Presence.Timers.{
  status_of, status_of-upsert, transition_to-status, timer_of-append, timer_of-stop,
}
use ccc.Call.Durations.{second}

timer_fires-status :
    (env : Env) (i now : ℕ) (s : PresenceStatus) (w : World) (t : Timer)
    → ((n : ℕ) → env.db_fails n ≡ false)
    → timer_of i w.waiting ≡ some t
    → t.due ≤ now
    → t.stopped ≡ false
    → status_of t.agent_id w.rows ≡ some s
    → is_valid_transition s idle ≡ true
    → status_of t.agent_id (timer_fires env i now w).1.rows ≡ some idle
unfolding timer_fires
timer_fires-status env i now s w t never waits due runs there valid = ground (
  arith,
  transition_to-status env t.agent_id s idle now (record w { waiting = drop_timer i w.waiting })
      never there valid,
)

check_out-waiting :
    (env : Env) (a now : ℕ) (w : World) → (check_out env a now w).1.waiting ≡ w.waiting
unfolding check_out
check_out-waiting env a now w = ground arith

check_in-waiting :
    (env : Env) (tenant a : ℕ) (mode : WorkMode) (now : ℕ) (w : World)
    → (check_in env tenant a mode now w).1.waiting ≡ w.waiting
unfolding check_in
check_in-waiting env tenant a mode now w = ground arith

check_in-status :
    (env : Env) (tenant a : ℕ) (mode : WorkMode) (now : ℕ) (w : World)
    → ((n : ℕ) → env.db_fails n ≡ false)
    → status_of a (check_in env tenant a mode now w).1.rows ≡ some online
unfolding check_in
check_in-status env tenant a mode now w never =
    let p : AgentPresence = record {
      id = env.ids w.drawn;
      tenant_id = tenant;
      agent_id = a;
      status = online;
      sub_state = no_sub_state;
      work_mode = mode;
      break_reason_code = "";
      disposition_code = "";
      current_call_id = none;
      acw_seconds = 0;
      checked_in_at = some now;
      last_status_at = now;
      updated_at = now;
    } in
    let rows : (check_in env tenant a mode now w).1.rows ≡ upsert_row env.default_acw p w.rows =
      ground (arith, never w.queries) in
    rw (rows, row_of-upsert, ==_refl a)
      (elim (Option-cases (row_of a w.rows)) [ inl e ↦ rw e refl | inr (q, e) ↦ rw e refl ])

-- Signing out does not stop the timer of after-call work. With the database up, an agent who has a
-- row and a waiting timer that nobody has stopped signs out and in again; when the timer fires at its time or later, it makes
-- the agent idle.
pub check_out-stale_timer :
    (env : Env) (i tenant : ℕ) (mode : WorkMode) (out back now : ℕ) (w : World) (t : Timer)
    (p : AgentPresence)
    → ((n : ℕ) → env.db_fails n ≡ false)
    → timer_of i w.waiting ≡ some t
    → t.due ≤ now
    → t.stopped ≡ false
    → row_of t.agent_id w.rows ≡ some p
    → status_of t.agent_id
        (timer_fires env i now
          (check_in env tenant t.agent_id mode back (check_out env t.agent_id out w).1).1).1.rows
      ≡ some idle
unfolding is_valid_transition
check_out-stale_timer env i tenant mode out back now w t p never waits due runs there =
    let left : World = (check_out env t.agent_id out w).1 in
    timer_fires-status env i now online (check_in env tenant t.agent_id mode back left).1 t never
      (rw (check_in-waiting env tenant t.agent_id mode back left)
        (rw (check_out-waiting env t.agent_id out w) waits))
      due runs (check_in-status env tenant t.agent_id mode back left never) refl

-- A transition out of after-call work that the database refuses leaves the agent's row as it was,
-- and the agent's timer cancelled all the same: no timer will end the after-call work.
transition_to-lost_timer :
    (env : Env) (a : ℕ) (to : PresenceStatus) (now : ℕ) (w : World)
    → (transition_to env a to now w).0 ≡ err repository_failed
    → ((transition_to env a to now w).1.rows ≡ w.rows)
      × ((transition_to env a to now w).1.acw_timers a ≡ none)
unfolding transition_to
transition_to-lost_timer env a to now w failed = ground (arith, ==_refl a)

-- A stopped timer that wakes late deletes the entry of the agent's newer timer, so the agent's next
-- transition does not stop that one: the list of waiting timers, less the late one, stays.
timer_wakes-lost_entry :
    (env : Env) (i : ℕ) (to : PresenceStatus) (now : ℕ) (w : World) (t : Timer)
    → timer_of i w.waiting ≡ some t
    → t.stopped ≡ true
    → (transition_to env t.agent_id to now (timer_wakes i w).1).1.waiting ≡ drop_timer i w.waiting
unfolding transition_to timer_wakes
timer_wakes-lost_entry env i to now w t waits stopped = ground (arith, ==_refl t.agent_id)

set_acw-waiting :
    (env : Env) (a : ℕ) (code : String) (now : ℕ) (w : World) (p' : AgentPresence)
    → timer_of w.started w.waiting ≡ none
    → (set_acw env a code now w).0 ≡ ok p'
    → ltb 0 p'.acw_seconds ≡ true
    → timer_of w.started (set_acw env a code now w).1.waiting
      ≡ some (record {
        timer_id = w.started;
        agent_id = a;
        due = now + p'.acw_seconds * second;
        stopped = false;
      })
unfolding set_acw transition_to
set_acw-waiting env a code now w p' fresh done positive =
    let t : Timer = record {
      timer_id = w.started;
      agent_id = a;
      due = now + p'.acw_seconds * second;
      stopped = false;
    } in
    elim (Option-cases (w.acw_timers a)) [
      | inl e ↦ ground (arith, timer_of-append w.started w.waiting t fresh refl)
      | inr (j, e) ↦
          let kept = timer_of-stop w.started j w.waiting fresh in
          ground (
            arith,
            timer_of-append w.started (stop_timer j w.waiting) t kept refl,
            timer_of-append w.started w.waiting t fresh refl,
          )
    ]

set_acw-status :
    (env : Env) (a : ℕ) (code : String) (now : ℕ) (w : World) (p p' : AgentPresence)
    → row_of a w.rows ≡ some p
    → (set_acw env a code now w).0 ≡ ok p'
    → status_of a (set_acw env a code now w).1.rows ≡ some acw
unfolding set_acw transition_to
set_acw-status env a code now w p p' there done =
    let p2 : AgentPresence = record (moved acw now p) {
      disposition_code = code;
      acw_seconds = acw_seconds_of env (moved acw now p);
      updated_at = now;
    } in
    let same : p.agent_id ≡ a = row_of-agent a w.rows p there in
    let found : row_of p.agent_id w.rows ≡ some p = cc (there, same) in
    let rows : (set_acw env a code now w).1.rows
        ≡ upsert_row env.default_acw p2 (upsert_row env.default_acw (moved acw now p) w.rows) =
      ground arith in
    rw rows (
      rw (upsert-upsert env.default_acw (moved acw now p) p2 p w.rows refl found)
        (status_of-upsert a env.default_acw p p2 w.rows there same))

-- After-call work of more than 0 seconds ends by itself, with the database up: if SetACW succeeds
-- for an agent with a row, the timer that it started, whose number no other one has, waits without
-- being stopped, and makes the agent idle when it fires at its time.
pub set_acw-timer_fires :
    (env : Env) (a : ℕ) (code : String) (now : ℕ) (w : World) (p p' : AgentPresence)
    → ((n : ℕ) → env.db_fails n ≡ false)
    → row_of a w.rows ≡ some p
    → timer_of w.started w.waiting ≡ none
    → (set_acw env a code now w).0 ≡ ok p'
    → ltb 0 p'.acw_seconds ≡ true
    → status_of a
        (timer_fires env w.started
          (now + p'.acw_seconds * second)
          (set_acw env a code now w).1).1.rows
      ≡ some idle
unfolding is_valid_transition
set_acw-timer_fires env a code now w p p' never there fresh done positive =
    let t : Timer = record {
      timer_id = w.started;
      agent_id = a;
      due = now + p'.acw_seconds * second;
      stopped = false;
    } in
    timer_fires-status env w.started (now + p'.acw_seconds * second) acw
      (set_acw env a code now w).1 t never (set_acw-waiting env a code now w p' fresh done positive)
      (omega arith) refl (set_acw-status env a code now w p p' there done) refl
