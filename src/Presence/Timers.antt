-- ===== src/Presence/Timers.antt =====
-- The timers of after-call work.
use ccc.Prelude.{
  ℕ, ◌+◌, ◌≡◌, refl, true, false, Option, none, some, List, [], ◌∷◌, ◌++◌, arith, ==_refl, ◌||◌,
  Option-cases, inl, inr, ◌==◌,
}
use mathlib.Core.Option
use ccc.Presence.Entity.{AgentPresence, PresenceStatus, offline, idle, talking, no_sub_state}
use ccc.Presence.Table.{row_of, upsert_row, row_of-agent, row_of-upsert}
use ccc.Presence.World.{Env, World, Timer, stop_timer}
use ccc.Presence.Service.{transition_to, is_valid_transition, moved, is}
use ccc.Presence.Timer.{timer_of}
use ccc.Presence.Moves.{◌⟶◌}

abbrev pub status_of : ℕ → List AgentPresence → Option PresenceStatus
status_of a t = Option.map (λ p. p.status) (row_of a t)

pub status_of-upsert :
    (a d : ℕ) (p p' : AgentPresence) (t : List AgentPresence)
    → row_of a t ≡ some p
    → p'.agent_id ≡ a
    → status_of a (upsert_row d p' t) ≡ some p'.status
status_of-upsert a d p p' t found same =
    let hit : (p'.agent_id == a) ≡ true = ground (arith, ==_refl a, same) in
    rw (row_of-upsert, hit, found) refl

-- What a transition from `p` to the state `to` returns and leaves.
pub record IsMoved (p : AgentPresence) (to : PresenceStatus) (w : World) (p' : AgentPresence)
    (w' : World) : Type 0 where
  pub legal : p.status ⟶ to
  pub reached : p'.status ≡ to
  pub stored : status_of p.agent_id w'.rows ≡ some to
  pub unsupervised : is to talking ≡ false → p'.sub_state ≡ no_sub_state
  pub free : (is to idle || is to offline) ≡ true → p'.current_call_id ≡ none
  pub explained : (is to idle || is to offline) ≡ true → p'.break_reason_code ≡ ""
  pub untimed : w'.acw_timers p.agent_id ≡ none
  pub cancelled :
      (i : ℕ) (t : Timer)
      → w.acw_timers p.agent_id ≡ some i
      → timer_of i w.waiting ≡ some t
      → timer_of i w'.waiting ≡ some (record t { stopped = true })
  pub announced : w'.changes ≡ w.changes ++ (p', p.status) ∷ []

pub transition_to-status :
    (env : Env) (a : ℕ) (s to : PresenceStatus) (now : ℕ) (w : World)
    → ((n : ℕ) → env.db_fails n ≡ false)
    → status_of a w.rows ≡ some s
    → is_valid_transition s to ≡ true
    → status_of a (transition_to env a to now w).1.rows ≡ some to
unfolding transition_to
transition_to-status env a s to now w never there valid = elim (Option-cases (row_of a w.rows)) [
  | inl e ↦ ground arith
  | inr (p, e) ↦ ground (
    arith,
    never w.queries,
    never (w.queries + 1),
    never (w.queries + 1 + 1),
    row_of-agent a w.rows p e,
    status_of-upsert a env.default_acw p (moved to now p) w.rows e,
  )
]

pub timer_of-append :
    (i : ℕ) (ts : List Timer) (t : Timer)
    → timer_of i ts ≡ none
    → t.timer_id ≡ i
    → timer_of i (ts ++ t ∷ []) ≡ some t
unfolding timer_of
timer_of-append i [] t none_there same = ground (arith, ==_refl i)
timer_of-append i (x ∷ ts) t none_there same = ground (arith, timer_of-append i ts t)

pub timer_of-stop :
    (i j : ℕ) (ts : List Timer) → timer_of i ts ≡ none → timer_of i (stop_timer j ts) ≡ none
unfolding timer_of stop_timer
timer_of-stop i j [] none_there = ground arith
timer_of-stop i j (x ∷ ts) none_there = ground (arith, timer_of-stop i j ts)
