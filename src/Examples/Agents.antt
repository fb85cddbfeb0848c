-- ===== src/Examples/Agents.antt =====
-- The theorems on agents at concrete inputs: an agent in after-call work, with a timer of 30 seconds
-- that ends at 30 seconds.
use ccc.Prelude.{
  ◌+◌, ◌*◌, ◌≡◌, refl, ok, true, false, none, some, [], ◌∷◌, arith, ◌==◌, if◌then◌else◌,
}
use ccc.Presence.Entity.{AgentPresence, PresenceStatus, idle, talking, acw, SubState, WorkMode}
use ccc.Presence.Table.{row_of, upsert_row, rows_of_tenant}
use ccc.Presence.World.{Env, World, Timer}
use ccc.Presence.Service.{transition_to, set_acw, check_in, check_out, moved, is_valid_transition}
use ccc.Presence.Timer.{timer_of, timer_fires}
use ccc.Presence.Request.{Request, handle}
use ccc.Presence.Reset.{reset_ghost_agents, reset_row}
use ccc.Presence.Moves.{Moves}
use ccc.Presence.History.{handle-Moves}
use ccc.Presence.Ghosts.{reset_ghost_agents-Moves}
use ccc.Presence.Timers.{status_of}
use ccc.Presence.Stale.{check_out-stale_timer, set_acw-timer_fires}
use ccc.Call.Durations.{second}

abbrev env : Env
env = record {
  ids = λ n. n;
  db_fails = λ _. false;
  default_acw = 0;
  acw_resolver = some (λ _ _. 30);
  keeps_shifts = true;
}

-- The write of a transition fails.
abbrev refusing : Env
refusing = record env { db_fails = λ q. q == 2 }

abbrev agent_in : PresenceStatus → AgentPresence
agent_in s = record {
  id = 1;
  tenant_id = 7;
  agent_id = 3;
  status = s;
  sub_state = SubState.no_sub_state;
  work_mode = WorkMode.office;
  break_reason_code = "";
  disposition_code = "";
  current_call_id = none;
  acw_seconds = 30;
  checked_in_at = some 0;
  last_status_at = 0;
  updated_at = 0;
}

abbrev timer : Timer
timer = record { timer_id = 0; agent_id = 3; due = 30 * second; stopped = false }

abbrev wrapping_up : World
wrapping_up = record {
  rows = agent_in acw ∷ [];
  logs = [];
  shifts = [];
  acw_timers = λ a. if a == 3 then some 0 else none;
  waiting = timer ∷ [];
  started = 1;
  changes = [];
  drawn = 0;
  queries = 0;
}

abbrev on_call : World
on_call = record wrapping_up {
  rows = agent_in talking ∷ [];
  acw_timers = λ a. none;
  waiting = [];
  started = 0;
}

-- The first timer was stopped and has not woken yet; the second one counts.
abbrev late : World
late = record wrapping_up {
  waiting =
      (record timer { stopped = true })
      ∷ (record { timer_id = 1; agent_id = 3; due = 60 * second; stopped = false })
      ∷ [];
  acw_timers = λ a. if a == 3 then some 1 else none;
  started = 2;
}

handle-Moves_example :
    Moves
      (row_of 3 wrapping_up.rows)
      (row_of 3 (handle env (Request.fires 0) (30 * second) wrapping_up).rows)
handle-Moves_example = handle-Moves env (Request.fires 0) (30 * second) wrapping_up 3

reset_ghost_agents-Moves_example :
    Moves (row_of 3 on_call.rows) (row_of 3 (reset_ghost_agents env 7 10 40 on_call).1.rows)
reset_ghost_agents-Moves_example = reset_ghost_agents-Moves env 7 10 40 on_call 3 refl

check_out-stale_timer_example :
    status_of 3
      (timer_fires env 0
        (30 * second)
        (check_in env 7 3 WorkMode.office 9 (check_out env 3 5 wrapping_up).1).1).1.rows
    ≡ some idle
unfolding row_of timer_of
check_out-stale_timer_example =
    check_out-stale_timer env 0 7 WorkMode.office 5 9 (30 * second) wrapping_up timer (agent_in acw)
      (λ n. refl) refl (omega arith) refl refl

set_acw-timer_fires_example :
    status_of 3 (timer_fires env 0 (5 + 30 * second) (set_acw env 3 "sold" 5 on_call).1).1.rows
    ≡ some idle
unfolding row_of timer_of set_acw transition_to is_valid_transition
set_acw-timer_fires_example =
    set_acw-timer_fires env 3 "sold" 5 on_call (agent_in talking)
      (record (moved acw 5 (agent_in talking)) { disposition_code = "sold"; acw_seconds = 30 })
      (λ n. refl) refl refl refl refl

-- An agent stuck on a call is reset to idle, and counted.
stuck_reset : (reset_ghost_agents env 7 10 40 on_call).0 ≡ ok 1
unfolding reset_ghost_agents rows_of_tenant reset_row
stuck_reset = refl

stuck_idle : status_of 3 (reset_ghost_agents env 7 10 40 on_call).1.rows ≡ some idle
unfolding reset_ghost_agents rows_of_tenant reset_row row_of upsert_row
stuck_idle = refl
