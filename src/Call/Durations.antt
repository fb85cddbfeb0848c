-- ===== src/Call/Durations.antt =====
-- internal/domain/call/service.go: `int(b.Sub(a).Seconds())` on times in nanoseconds, and
-- CalculateDurations. The sum is exact here; Go's float64 of seconds rounds only at spans of months.
use ccc.Prelude.{ℕ, ◌/◌, suc, Option, none, some, List, [], ◌∷◌}
use ccc.Prelude.Int.{ℤ, pos, negsuc, sub_ℕ}
use ccc.Call.Entity.{
  Call, CallEvent, EventKind, call_created, ivr_completed, queue_entered, agent_ringing,
  call_answered,
}

abbrev pub second : ℕ
second = 1_000_000_000

-- Conversion to int cuts towards zero.
abbrev truncate : ℤ → ℤ
truncate (pos n) = pos (n / second)
truncate (negsuc n) = sub_ℕ 0 (suc n / second)

unfoldable pub seconds_between : ℕ → ℕ → ℤ
seconds_between a b = truncate (sub_ℕ b a)

-- The variables of the loop; none is the zero time.
pub record Marks : Type 0 where
  pub call : Call
  pub ivr_start : Option ℕ
  pub queue_start : Option ℕ
  pub ring_start : Option ℕ

-- `if !start.IsZero() { d = int(at.Sub(start).Seconds()) }`
abbrev since : Option ℕ → ℕ → ℤ → ℤ
since none at d = d
since (some start) at d = seconds_between start at

unfoldable pub mark : EventKind → ℕ → Marks → Marks
mark call_created at m = record m { ivr_start = some at }
mark ivr_completed at m = record m {
  call = record (m.call) { ivr_duration_sec = since m.ivr_start at m.call.ivr_duration_sec };
  queue_start = some at;
}
mark queue_entered at m = record m { queue_start = some at }
mark agent_ringing at m = record m {
  call = record (m.call) { queue_duration_sec = since m.queue_start at m.call.queue_duration_sec };
  ring_start = some at;
}
mark call_answered at m = record m {
  call = record (m.call) { ring_duration_sec = since m.ring_start at m.call.ring_duration_sec };
}
mark _ at m = m

unfoldable pub mark_all : List CallEvent → Marks → Marks
mark_all [] m = m
mark_all (e ∷ es) m = mark_all es (mark e.event e.created_at m)

unfoldable pub calculate_durations : Call → List CallEvent → Call
unfolding mark_all
calculate_durations c es =
    (mark_all es
      (record { call = c; ivr_start = none; queue_start = none; ring_start = none })).call
