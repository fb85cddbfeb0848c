-- ===== src/Call/Control.antt =====
-- internal/domain/call/service.go: the methods that move an existing call between its states.
-- `now` is the one reading of the clock in each call.
use ccc.Prelude.{
  ℕ, ◌+◌, Bool, true, false, not, ◌&&◌, Option, some, value_or, pure, fail_if, ◌>>=◌, ◌>>◌,
}
use mathlib.Core.Option
use ccc.Prelude.Int.{◌-ℤ◌}
use ccc.Call.Entity.{
  Call, CallStatus, ivr, queue, ringing, active, held, consulting, conference, completed, failed,
  HangupBy, HangupReason, call_ended, queue_entered, agent_ringing, call_bridged, call_answered,
  call_held, call_retrieved, lit, numbered, reason_text, Error,
}
use ccc.Call.World
use ccc.Call.World.{Env, Action, get_call, update_call, log_event, command}
use ccc.Call.Durations.{seconds_between}

abbrev pub is : CallStatus → CallStatus → Bool
is ivr ivr = true
is queue queue = true
is ringing ringing = true
is active active = true
is held held = true
is consulting consulting = true
is conference conference = true
is completed completed = true
is CallStatus.abandoned CallStatus.abandoned = true
is failed failed = true
is _ _ = false

-- What each method writes into the record that it has read.
abbrev pub ended : HangupReason → Option HangupBy → ℕ → Call → Call
ended reason hangup_by now c = record c {
  status = completed;
  hangup_reason = some reason;
  hangup_by = value_or c.hangup_by (Option.map some hangup_by);
  ended_at = some now;
  duration_sec = seconds_between c.started_at now;
  wait_duration_sec = seconds_between c.started_at (value_or now c.answered_at);
}

abbrev pub queued : ℕ → Call → Call
queued skill_group_id c = record c { status = queue; skill_group_id = some skill_group_id }

abbrev pub rung : ℕ → Call → Call
rung agent_user_id c = record c { status = ringing; agent_user_id = some agent_user_id }

abbrev pub bridged : ℕ → Call → Call
bridged now c = record c {
  status = active;
  answered_at = some (value_or now c.answered_at);
  ring_duration_sec =
      seconds_between c.started_at now -ℤ c.queue_duration_sec -ℤ c.ivr_duration_sec;
}

abbrev pub answered : ℕ → ℕ → Call → Call
answered agent_user_id now c = record c {
  status = active;
  answered_at = some now;
  agent_user_id = some agent_user_id;
  wait_duration_sec = seconds_between c.started_at now;
}

abbrev pub put_on_hold : Call → Call
put_on_hold c = record c { status = held; hold_count = c.hold_count + 1 }

abbrev pub taken_off_hold : Call → Call
taken_off_hold c = record c { status = active }

module _ (env : Env) where
  unfoldable pub end_call : ℕ → HangupReason → Option HangupBy → ℕ → Action Call
  unfolding get_call update_call log_event seconds_between
  end_call id reason hangup_by now = do
    c ← get_call env id
    fail_if (is c.status completed) Error.call_already_ended
    let c' = ended reason hangup_by now c
    update_call env c'
    log_event env c' call_ended (reason_text reason) now
    pure c'

  unfoldable pub transition_to_queue : ℕ → ℕ → ℕ → Action Call
  unfolding get_call update_call log_event
  transition_to_queue id skill_group_id now = do
    c ← get_call env id
    fail_if (not (is c.status ivr)) Error.call_not_active
    let c' = queued skill_group_id c
    update_call env c'
    log_event env c' queue_entered (numbered "skill_group_" skill_group_id) now
    pure c'

  unfoldable pub transition_to_ringing : ℕ → ℕ → ℕ → Action Call
  unfolding get_call update_call log_event
  transition_to_ringing id agent_user_id now = do
    c ← get_call env id
    fail_if (not (is c.status queue) && not (is c.status ivr)) Error.call_not_active
    let c' = rung agent_user_id c
    update_call env c'
    log_event env c' agent_ringing (numbered "agent_" agent_user_id) now
    pure c'

  unfoldable pub transition_to_active : ℕ → ℕ → Action Call
  unfolding get_call update_call log_event seconds_between
  transition_to_active id now = do
    c ← get_call env id
    fail_if (not (is c.status ringing) && not (is c.status queue)) Error.call_not_active
    let c' = bridged now c
    update_call env c'
    log_event env c' call_bridged (lit "media_path_established") now
    pure c'

  unfoldable pub answer_call : ℕ → ℕ → ℕ → Action Call
  unfolding get_call update_call log_event seconds_between
  answer_call id agent_user_id now = do
    c ← get_call env id
    fail_if (not (is c.status ringing) && not (is c.status ivr) && not (is c.status queue))
        Error.call_not_active
    let c' = answered agent_user_id now c
    update_call env c'
    log_event env c' call_answered (numbered "agent_" agent_user_id) now
    pure c'

  unfoldable pub hold_call : ℕ → ℕ → Action Call
  unfolding get_call update_call log_event command
  hold_call id now = do
    c ← get_call env id
    fail_if (not (is c.status active)) Error.call_not_active
    let c' = put_on_hold c
    command env (World.hold c'.channel_uuid)
    update_call env c'
    log_event env c' call_held (lit "") now
    pure c'

  unfoldable pub retrieve_call : ℕ → ℕ → Action Call
  unfolding get_call update_call log_event command
  retrieve_call id now = do
    c ← get_call env id
    fail_if (not (is c.status held)) Error.call_not_held
    let c' = taken_off_hold c
    command env (World.retrieve c'.channel_uuid)
    update_call env c'
    log_event env c' call_retrieved (lit "") now
    pure c'
