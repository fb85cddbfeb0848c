-- ===== src/Presence/Timer.antt =====
-- internal/domain/identity/service.go: the two ways in which a goroutine that scheduleACWTimeout
-- starts may end. Either way it deletes the agent's entry of `s.acwTimers`, whichever timer that
-- entry is by then.
use ccc.Prelude.{ℕ, Option, none, some, List, [], ◌∷◌, ◌==◌, leb, ◌&&◌, not, if◌then◌else◌, ok}
use ccc.Presence.Entity.{idle}
use ccc.Presence.World.{Env, Action, Timer, set_entry}
use ccc.Presence.Service.{transition_to}

unfoldable pub timer_of : ℕ → List Timer → Option Timer
timer_of i [] = none
timer_of i (t ∷ ts) = if t.timer_id == i then some t else timer_of i ts

unfoldable pub drop_timer : ℕ → List Timer → List Timer
drop_timer i [] = []
drop_timer i (t ∷ ts) = let rest = drop_timer i ts in if t.timer_id == i then rest else t ∷ rest

-- `case <-time.After(...)`: the agent goes idle, and an error is dropped. A timer that was stopped has
-- ended its wait by the other case.
unfoldable pub timer_fires : Env → ℕ → ℕ → Action (Unit {0})
timer_fires env i now w = elim (timer_of i w.waiting) [
  | none ↦ (ok tt, w)
  | some t ↦
      let w' =
        (transition_to env t.agent_id idle now (record w { waiting = drop_timer i w.waiting })).1 in
      if leb t.due now && not t.stopped
      then (ok tt, record w' { acw_timers = set_entry t.agent_id none w'.acw_timers })
      else (ok tt, w)
]

-- `case <-stopCh`
unfoldable pub timer_wakes : ℕ → Action (Unit {0})
timer_wakes i w = elim (timer_of i w.waiting) [
  | none ↦ (ok tt, w)
  | some t ↦
      if t.stopped
      then (
        ok tt,
        record w {
          waiting = drop_timer i w.waiting;
          acw_timers = set_entry t.agent_id none w.acw_timers;
        },
      )
      else (ok tt, w)
]
