-- ===== src/Call/Supervise.antt =====
-- internal/domain/call/service.go: supervision of a running call, and notes on a call.
use ccc.Prelude.{
  true, false, ℕ, String, not, ◌&&◌, some, if◌then◌else◌, is_empty, ok, err, pure, fail, fail_if,
  ◌>>=◌, ◌>>◌,
}
use ccc.Prelude.Int.{ℤ, pos, ltb_ℤ}
use ccc.Call.Entity.{
  Call, CallType, active, conference, outbound, audio, monitor_started, coach_started, whispered,
  disposition_set, lit, numbered, timeout_text, Error,
}
use ccc.Call.World.{
  Env, Action, Command, get_call, update_call, create_call, next_id, log_event, command,
  command_quietly, on_channel, has_channel,
}
use ccc.Call.Create.{blank_call}
use ccc.Call.Control.{is}

-- The `mode` strings, with all others as one.
pub data MonitorMode : Type 0 where
  listen whisper barge intercept unknown_mode : MonitorMode

abbrev pub mode_name : MonitorMode → String
mode_name listen = "listen"
mode_name whisper = "whisper"
mode_name barge = "barge"
mode_name intercept = "intercept"
mode_name unknown_mode = ""

abbrev pub mode_type : MonitorMode → Action CallType
mode_type listen = pure CallType.monitor
mode_type whisper = pure CallType.whisper
mode_type barge = pure CallType.barge
mode_type intercept = pure CallType.intercept
mode_type unknown_mode = fail Error.missing_monitor_target

-- The command that joins the spying channel to the target's.
abbrev pub spy_command : MonitorMode → String → String → Command
spy_command whisper = Command.eavesdrop_whisper
spy_command barge = Command.eavesdrop_barge
spy_command intercept = Command.intercept
spy_command _ = Command.eavesdrop

-- `if err := m; err != nil { cleanup; return err }`
abbrev pub on_error : {A : Type 0} → Action A → Action (Unit {0}) → Action A
on_error m cleanup w =
    let (r, w') = m w in elim r [ ok a ↦ (ok a, w') | err e ↦ (err e, (cleanup w').1) ]

-- The call record of a supervisor's channel, in both methods.
abbrev pub supervisor_leg : ℕ → ℕ → ℕ → ℕ → CallType → String → ℕ → Call
supervisor_leg id tenant_id target_call_id user ct uuid now = record (blank_call id tenant_id now) {
  direction = outbound;
  call_type = ct;
  media_type = audio;
  agent_user_id = some user;
  parent_call_id = some target_call_id;
  status = active;
  channel_uuid = uuid;
}

abbrev pub disposed : String → Call → Call
disposed code c = record c { disposition_code = some code }

abbrev pub linked : ℕ → Call → Call
linked customer_id c = record c { customer_id = some customer_id }

-- `if timeoutSec <= 0 { timeoutSec = 30 }`
abbrev pub coach_timeout : ℤ → ℤ
coach_timeout t = if ltb_ℤ (pos 0) t then t else pos 30

module _ (env : Env) where
  -- The block `if s.tp != nil && target.ChannelUUID != ""` of both methods: the supervisor's
  -- channel is originated and joined; a channel that cannot be joined is hung up.
  unfoldable pub join_channel : ℕ → String → (String → Command) → Action String
  unfolding command command_quietly
  join_channel user caller_id join = do
    uuid ← command env (Command.originate (numbered "user/" user) (lit caller_id))
    on_error (command env (join uuid)) (command_quietly env (Command.hangup uuid))
    pure uuid

  abbrev pub supervised : Call → Action String → Action String
  supervised target m = if has_channel env target then m else pure ""

  -- `if s.tp != nil && monitor.ChannelUUID != "" { _ = s.tp.Hangup(...) }`
  unfoldable pub abandon_leg : Call → Action (Unit {0})
  unfolding command_quietly
  abandon_leg c w = elim (is_empty c.channel_uuid) [
    | true ↦ (ok tt, w)
    | false ↦ command_quietly env (Command.hangup c.channel_uuid) w
  ]

  -- `if err := s.calls.Create(...); err != nil { ...; return nil, err }`
  unfoldable pub create_leg : Call → Action (Unit {0})
  unfolding create_call abandon_leg
  create_leg c = on_error (create_call env c) (abandon_leg c)

  unfoldable pub monitor_call : ℕ → ℕ → ℕ → MonitorMode → ℕ → Action Call
  unfolding get_call next_id log_event
  monitor_call tenant_id target_call_id supervisor_id mode now = do
    target ← get_call env target_call_id
    fail_if (not (is target.status active) && not (is target.status conference))
        Error.monitor_target_not_active
    ct ← mode_type mode
    id ← next_id env
    uuid ←
        supervised target
          (join_channel supervisor_id "monitor" (λ spy. spy_command mode spy target.channel_uuid))
    let monitor = supervisor_leg id tenant_id target_call_id supervisor_id ct uuid now
    create_leg monitor
    log_event env monitor monitor_started (lit (mode_name mode)) now
    pure monitor

  unfoldable pub coach_call : ℕ → ℕ → ℕ → ℤ → ℕ → Action Call
  unfolding get_call next_id log_event
  coach_call tenant_id target_call_id coach_id timeout_sec now = do
    target ← get_call env target_call_id
    fail_if (not (is target.status active)) Error.monitor_target_not_active
    let timeout = coach_timeout timeout_sec
    id ← next_id env
    uuid ←
        supervised target
          (join_channel coach_id "coach" (λ coach. Command.coach coach target.channel_uuid))
    let coach = supervisor_leg id tenant_id target_call_id coach_id CallType.coach uuid now
    create_leg coach
    log_event env coach coach_started (timeout_text timeout) now
    pure coach

  unfoldable pub whisper_pre_connect : ℕ → String → ℕ → Action (Unit {0})
  unfolding get_call log_event command on_channel
  whisper_pre_connect id message now = do
    c ← get_call env id
    on_channel c (command env (Command.whisper_announcement c.channel_uuid message))
    log_event env c whispered (lit message) now

  unfoldable pub set_disposition : ℕ → String → ℕ → Action Call
  unfolding get_call update_call log_event
  set_disposition id code now = do
    c ← get_call env id
    let c' = disposed code c
    update_call env c'
    log_event env c' disposition_set (lit code) now
    pure c'

  unfoldable pub update_customer_id : ℕ → ℕ → Action (Unit {0})
  unfolding get_call update_call
  update_customer_id id customer_id = do c ← get_call env id; update_call env (linked customer_id c)
