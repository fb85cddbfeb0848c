-- ===== src/Call/Timing.antt =====
-- The durations that a call records.
use ccc.Prelude.{ℕ, ◌≤◌, ◌≡◌, Option, none, some, List, [], ◌∷◌, arith, value_or, ok}
use ccc.Prelude.Int.{pos, ◌≤ℤ◌}
use ccc.Call.Entity.{Call, CallEvent, EventKind, HangupBy, HangupReason}
use ccc.Call.Table.{find}
use ccc.Call.World.{Env, World}
use ccc.Call.Control.{end_call}
use ccc.Call.Durations.{seconds_between, Marks, mark, mark_all, calculate_durations}

seconds_between_nonneg : (a b : ℕ) → a ≤ b → pos 0 ≤ℤ seconds_between a b
unfolding seconds_between
seconds_between_nonneg a b h = ground arith

seconds_between_mono : (a b c : ℕ) → a ≤ b → b ≤ c → seconds_between a b ≤ℤ seconds_between a c
unfolding seconds_between
seconds_between_mono a b c h k = ground arith

-- The record that ends a call holds the whole seconds since its start, and a wait between 0 and
-- that, if the clock has not gone back since the start and the answer.
end_call_durations :
    (env : Env) (id : ℕ) (reason : HangupReason) (by : Option HangupBy) (now : ℕ) (w : World)
    (c c' : Call)
    → find id w.calls ≡ some c
    → c.started_at ≤ value_or now c.answered_at
    → value_or now c.answered_at ≤ now
    → (end_call env id reason by now w).0 ≡ ok c'
    → (pos 0 ≤ℤ c'.wait_duration_sec)
      × (c'.wait_duration_sec ≤ℤ c'.duration_sec)
      × (c'.duration_sec ≡ seconds_between c.started_at now)
unfolding end_call
end_call_durations env id reason by now w c c' e h k done = ground (
  arith,
  seconds_between_nonneg c.started_at (value_or now c.answered_at),
  seconds_between_mono c.started_at (value_or now c.answered_at) now,
)

-- No event is older than `t`, and each is at least as old as the next.
abbrev pub Sorted : ℕ → List CallEvent → Type 0
Sorted t [] = Unit
Sorted t (e ∷ es) = (t ≤ e.created_at) × Sorted e.created_at es

abbrev BeforeOrUnset : Option ℕ → ℕ → Type 0
BeforeOrUnset none t = Unit
BeforeOrUnset (some s) t = s ≤ t

pub record Durations (c : Call) : Type 0 where
  pub ivr_nonneg : pos 0 ≤ℤ c.ivr_duration_sec
  pub queue_nonneg : pos 0 ≤ℤ c.queue_duration_sec
  pub ring_nonneg : pos 0 ≤ℤ c.ring_duration_sec

record Marked (t : ℕ) (m : Marks) : Type 0 where
  durations : Durations m.call
  ivr_before : BeforeOrUnset m.ivr_start t
  queue_before : BeforeOrUnset m.queue_start t
  ring_before : BeforeOrUnset m.ring_start t

mark-Marked : (k : EventKind) (t at : ℕ) (m : Marks) → t ≤ at → Marked t m → Marked at (mark k at m)
unfolding mark
mark-Marked k t at m h v = grind (arith, seconds_between_nonneg)

mark_all-Durations :
    (es : List CallEvent) (t : ℕ) (m : Marks)
    → Sorted t es
    → Marked t m
    → Durations (mark_all es m).call
unfolding mark_all
mark_all-Durations [] t m s v = v.durations
mark_all-Durations (e ∷ es) t m s v =
    mark_all-Durations es e.created_at (mark e.event e.created_at m) s.1
      (mark-Marked e.event t e.created_at m s.0 v)

-- From events in the order of their times no duration comes out negative.
calculate_durations_nonneg :
    (c : Call) (es : List CallEvent)
    → Sorted 0 es
    → Durations c
    → Durations (calculate_durations c es)
unfolding calculate_durations
calculate_durations_nonneg c es s d =
    mark_all-Durations es 0 _ s
      (record { durations = d; ivr_before = tt; queue_before = tt; ring_before = tt })
