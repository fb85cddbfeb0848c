-- ===== src/Call/Entity.antt =====
-- internal/domain/call/entity.go, errors.go: the types of a call. Identifiers are ℕ; a time is a
-- number of nanoseconds since a fixed origin; durations are integers, as Go's `int`.
use ccc.Prelude.{ℕ, String, Bool, true, false, Option, List}
use ccc.Prelude.Int.{ℤ}

pub data CallDirection : Type 0 where
  unset_direction inbound outbound : CallDirection

pub data CallType : Type 0 where
  unset_type normal consult transfer monitor whisper barge coach intercept : CallType
  conference_type internal double_call callback preview progressive power predictive : CallType

pub data CallStatus : Type 0 where
  ivr queue ringing active held consulting conference completed abandoned failed : CallStatus

pub data HangupBy : Type 0 where
  agent customer system : HangupBy

pub data HangupReason : Type 0 where
  normal_clearing busy no_answer reject abandon queue_timeout queue_overflow : HangupReason
  blacklist off_hours ivr_hangup system_error transfer_failed voicemail_completed : HangupReason

-- The empty string, the two valid values, and any other string.
pub data MediaType : Type 0 where
  unset_media audio video : MediaType
  other_media : String → MediaType

unfoldable pub valid_media_type : MediaType → Bool
valid_media_type audio = true
valid_media_type video = true
valid_media_type _ = false

pub record Call : Type 0 where
  pub id : ℕ
  pub channel_uuid : String
  pub tenant_id : ℕ
  pub direction : CallDirection
  pub call_type : CallType
  pub media_type : MediaType
  pub caller : String
  pub callee : String
  pub masked_callee : Option String
  pub agent_user_id : Option ℕ
  pub skill_group_id : Option ℕ
  pub ivr_flow_id : Option ℕ
  pub phone_number_id : Option ℕ
  pub carrier_id : Option ℕ
  pub sip_trunk_id : Option ℕ
  pub parent_call_id : Option ℕ
  pub campaign_case_id : Option ℕ
  pub customer_id : Option ℕ
  pub status : CallStatus
  pub hangup_reason : Option HangupReason
  pub hangup_by : Option HangupBy
  pub disposition_code : Option String
  pub hold_count : ℕ
  pub transfer_count : ℕ
  pub satisfaction_rating : Option ℤ
  pub ivr_duration_sec : ℤ
  pub ring_duration_sec : ℤ
  pub queue_duration_sec : ℤ
  pub wait_duration_sec : ℤ
  pub duration_sec : ℤ
  pub recording_url : Option String
  pub custom_data : String
  pub started_at : ℕ
  pub answered_at : Option ℕ
  pub ended_at : Option ℕ

-- The values of `CallEvent.Event` that the service writes.
pub data EventKind : Type 0 where
  call_created call_ended queue_entered agent_ringing call_bridged call_answered call_held :
      EventKind
  call_retrieved blind_transferred dtmf_sent attended_transferred consult_initiated : EventKind
  consult_transfer_completed consult_cancelled conference_started monitor_started : EventKind
  coach_started whispered disposition_set ivr_completed : EventKind

-- A text that the code formats: a literal, two texts joined by ':', or a number after a prefix.
pub data Text : Type 0 where
  lit : String → Text
  colon : Text → Text → Text
  numbered : String → ℕ → Text
  direction_text : CallDirection → Text
  reason_text : HangupReason → Text
  digits_text : List ℕ → Text
  timeout_text : ℤ → Text

pub record CallEvent : Type 0 where
  pub id : ℕ
  pub call_id : ℕ
  pub tenant_id : ℕ
  pub event : EventKind
  pub detail : Text
  pub created_at : ℕ

pub data Error : Type 0 where
  call_not_found call_already_ended missing_callee missing_caller call_not_active : Error
  call_not_held missing_transfer_target missing_dtmf invalid_dtmf_digits : Error
  callback_not_found call_not_consulting monitor_target_not_active : Error
  missing_monitor_target invalid_media_type repository_failed provider_failed : Error
