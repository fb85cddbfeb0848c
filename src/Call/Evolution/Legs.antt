-- ===== src/Call/Evolution/Legs.antt =====
-- The methods that create calls (Call/Create.antt, Call/Supervise.antt).
use ccc.Prelude.{ℕ, arith, is_empty, not, ◌&&◌}
use ccc.Prelude.Int.{ℤ}
use ccc.Call.Entity.{
  CallType, active, conference, outbound, inbound, call_created, monitor_started, coach_started,
  Error, lit, direction_text, timeout_text,
}
use ccc.Call.Control.{is}
use ccc.Call.Table.{inserted_row}
use ccc.Call.World.{Env, Command}
use ccc.Call.Create.{
  CreateCallInput, create_inbound_call, create_outbound_call, create_internal_call, inbound_call,
  outbound_call, internal_call, direction_or,
}
use ccc.Call.Supervise.{
  MonitorMode, monitor_call, coach_call, supervisor_leg, mode_name, spy_command, coach_timeout,
}
use ccc.Call.Evolution.Frames.{
  Grows, Grows-after, Grows-before, Grows-create, Grows-leg, Keeps-end, Keeps-fail_if,
  Keeps-resolve, Keeps-mode, Keeps-get, Keeps-next_id, Keeps-originate, Keeps-supervised,
}

module _ (env : Env) (now i : ℕ) where
  pub create_inbound_call-Grows :
      (input : CreateCallInput) → Grows i (create_inbound_call env input now)
  unfolding create_inbound_call inserted_row
  create_inbound_call-Grows input = Grows-after (Keeps-resolve input.media_type) λ mt.
      Grows-after (Keeps-next_id env) λ id.
        Grows-before (Grows-create env i (inbound_call input mt id now) (ground arith)) λ _.
          Keeps-end env (inbound_call input mt id now) call_created
            (direction_text (direction_or inbound input.direction)) now

  pub create_outbound_call-Grows :
      (input : CreateCallInput) → Grows i (create_outbound_call env input now)
  unfolding create_outbound_call inserted_row
  create_outbound_call-Grows input =
      Grows-after (Keeps-fail_if (is_empty input.callee) Error.missing_callee) λ _.
        Grows-after (Keeps-fail_if (is_empty input.caller) Error.missing_caller) λ _.
          Grows-after (Keeps-resolve input.media_type) λ mt. Grows-after (Keeps-next_id env) λ id.
            Grows-after (Keeps-originate env (lit input.callee) (lit input.caller)) λ u.
              Grows-before (Grows-create env i (outbound_call input mt id u now) (ground arith))
                λ _.
                  Keeps-end env (outbound_call input mt id u now) call_created
                    (direction_text outbound) now

  pub create_internal_call-Grows :
      (input : CreateCallInput) → Grows i (create_internal_call env input now)
  unfolding create_internal_call inserted_row
  create_internal_call-Grows input =
      Grows-after (Keeps-fail_if (is_empty input.callee) Error.missing_callee) λ _.
        Grows-after (Keeps-fail_if (is_empty input.caller) Error.missing_caller) λ _.
          Grows-after (Keeps-resolve input.media_type) λ mt. Grows-after (Keeps-next_id env) λ id.
            Grows-before (Grows-create env i (internal_call input mt id now) (ground arith))
              λ _. Keeps-end env (internal_call input mt id now) call_created (lit "INTERNAL") now

  pub monitor_call-Grows :
      (tenant target user : ℕ) (mode : MonitorMode)
      → Grows i (monitor_call env tenant target user mode now)
  unfolding monitor_call inserted_row
  monitor_call-Grows tenant target user mode = Grows-after (Keeps-get env target) λ c.
      Grows-after
        (Keeps-fail_if (not (is c.status active) && not (is c.status conference))
          Error.monitor_target_not_active)
        λ _. Grows-after (Keeps-mode mode) λ ct. Grows-after (Keeps-next_id env) λ id.
          Grows-after
            (Keeps-supervised env c user "monitor" (λ spy. spy_command mode spy c.channel_uuid))
            λ u.
              Grows-before
                (Grows-leg env i (supervisor_leg id tenant target user ct u now) (ground arith))
                λ _.
                  Keeps-end env (supervisor_leg id tenant target user ct u now) monitor_started
                    (lit (mode_name mode)) now

  pub coach_call-Grows :
      (tenant target user : ℕ) (timeout : ℤ)
      → Grows i (coach_call env tenant target user timeout now)
  unfolding coach_call inserted_row
  coach_call-Grows tenant target user timeout = Grows-after (Keeps-get env target) λ c.
      Grows-after (Keeps-fail_if (not (is c.status active)) Error.monitor_target_not_active) λ _.
        Grows-after (Keeps-next_id env) λ id.
          Grows-after
            (Keeps-supervised env c user "coach" (λ spy. Command.coach spy c.channel_uuid))
            λ u.
              Grows-before
                (Grows-leg env i (supervisor_leg id tenant target user CallType.coach u now)
                  (ground arith))
                λ _.
                  Keeps-end env (supervisor_leg id tenant target user CallType.coach u now)
                    coach_started (timeout_text (coach_timeout timeout)) now
