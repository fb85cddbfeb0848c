-- ===== src/Presence/Request.antt =====
-- One call into AgentPresenceService (internal/domain/identity/service.go), or the end of one of its
-- goroutines, as a value; and a sequence of them. CheckIn is left out of `Request`, which are the
-- calls for an agent who has a row.
use ccc.Prelude.{ℕ, String}
use ccc.Presence.Entity.{PresenceStatus, SubState, WorkMode}
use ccc.Presence.World.{Env, World}
use ccc.Presence.Service.{
  check_out, transition_to, set_sub_state, switch_work_mode, set_break, set_acw,
}
use ccc.Presence.Timer.{timer_fires, timer_wakes}

pub data Request : Type 0 where
  checks_out : ℕ → Request
  goes : ℕ → PresenceStatus → Request
  sets_sub_state : ℕ → SubState → Request
  works : ℕ → WorkMode → Request
  breaks : ℕ → String → Request
  wraps_up : ℕ → String → Request
  fires wakes : ℕ → Request

-- The state that a request leaves.
unfoldable pub handle : Env → Request → ℕ → World → World
handle env (Request.checks_out a) now w = (check_out env a now w).1
handle env (Request.goes a to) now w = (transition_to env a to now w).1
handle env (Request.sets_sub_state a sub) now w = (set_sub_state env a sub now w).1
handle env (Request.works a mode) now w = (switch_work_mode env a mode now w).1
handle env (Request.breaks a reason) now w = (set_break env a reason now w).1
handle env (Request.wraps_up a code) now w = (set_acw env a code now w).1
handle env (Request.fires i) now w = (timer_fires env i now w).1
handle env (Request.wakes i) now w = (timer_wakes i w).1
