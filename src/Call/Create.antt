-- ===== src/Call/Create.antt =====
-- internal/domain/call/service.go: the methods that create a call.
use ccc.Prelude.{ℕ, String, Option, none, is_empty, if◌then◌else◌, pure, fail, fail_if, ◌>>=◌, ◌>>◌}
use ccc.Prelude.Int.{pos}
use ccc.Call.Entity.{
  Call, CallDirection, CallType, MediaType, valid_media_type, unset_direction, inbound, outbound,
  unset_type, internal, unset_media, audio, ivr, ringing, call_created, lit, direction_text, Error,
}
use ccc.Call.World.{Env, Action, create_call, next_id, log_event, originate_channel}

pub record CreateCallInput : Type 0 where
  pub tenant_id : ℕ
  pub direction : CallDirection
  pub call_type : CallType
  pub media_type : MediaType
  pub caller : String
  pub callee : String
  pub channel_uuid : String
  pub agent_user_id : Option ℕ
  pub ivr_flow_id : Option ℕ
  pub phone_number_id : Option ℕ
  pub carrier_id : Option ℕ
  pub sip_trunk_id : Option ℕ
  pub campaign_case_id : Option ℕ

unfoldable pub resolve_media_type : MediaType → Action MediaType
unfolding valid_media_type
resolve_media_type unset_media = pure audio
resolve_media_type mt = if valid_media_type mt then pure mt else fail Error.invalid_media_type

abbrev pub direction_or : CallDirection → CallDirection → CallDirection
direction_or d unset_direction = d
direction_or d x = x

abbrev type_or_normal : CallType → CallType
type_or_normal unset_type = CallType.normal
type_or_normal x = x

-- A `Call{}` literal: every field that the code leaves out has Go's zero value.
abbrev pub blank_call : ℕ → ℕ → ℕ → Call
blank_call id tenant_id now = record {
  id = id;
  channel_uuid = "";
  tenant_id = tenant_id;
  direction = unset_direction;
  call_type = unset_type;
  media_type = unset_media;
  caller = "";
  callee = "";
  masked_callee = none;
  agent_user_id = none;
  skill_group_id = none;
  ivr_flow_id = none;
  phone_number_id = none;
  carrier_id = none;
  sip_trunk_id = none;
  parent_call_id = none;
  campaign_case_id = none;
  customer_id = none;
  status = ivr;
  hangup_reason = none;
  hangup_by = none;
  disposition_code = none;
  hold_count = 0;
  transfer_count = 0;
  satisfaction_rating = none;
  ivr_duration_sec = pos 0;
  ring_duration_sec = pos 0;
  queue_duration_sec = pos 0;
  wait_duration_sec = pos 0;
  duration_sec = pos 0;
  recording_url = none;
  custom_data = "";
  started_at = now;
  answered_at = none;
  ended_at = none;
}

-- The records that the three methods build.
abbrev pub inbound_call : CreateCallInput → MediaType → ℕ → ℕ → Call
inbound_call i mt id now = record (blank_call id i.tenant_id now) {
  direction = direction_or inbound i.direction;
  call_type = type_or_normal i.call_type;
  media_type = mt;
  caller = i.caller;
  callee = i.callee;
  channel_uuid = i.channel_uuid;
  ivr_flow_id = i.ivr_flow_id;
  phone_number_id = i.phone_number_id;
  carrier_id = i.carrier_id;
  status = ivr;
}

abbrev pub outbound_call : CreateCallInput → MediaType → ℕ → String → ℕ → Call
outbound_call i mt id uuid now = record (blank_call id i.tenant_id now) {
  direction = outbound;
  call_type = type_or_normal i.call_type;
  media_type = mt;
  caller = i.caller;
  callee = i.callee;
  agent_user_id = i.agent_user_id;
  phone_number_id = i.phone_number_id;
  carrier_id = i.carrier_id;
  sip_trunk_id = i.sip_trunk_id;
  campaign_case_id = i.campaign_case_id;
  status = ringing;
  channel_uuid = uuid;
}

abbrev pub internal_call : CreateCallInput → MediaType → ℕ → ℕ → Call
internal_call i mt id now = record (blank_call id i.tenant_id now) {
  direction = outbound;
  call_type = internal;
  media_type = mt;
  caller = i.caller;
  callee = i.callee;
  agent_user_id = i.agent_user_id;
  status = ringing;
}

module _ (env : Env) where
  unfoldable pub create_inbound_call : CreateCallInput → ℕ → Action Call
  unfolding resolve_media_type next_id create_call log_event
  create_inbound_call i now = do
    mt ← resolve_media_type i.media_type
    id ← next_id env
    let c = inbound_call i mt id now
    create_call env c
    log_event env c call_created (direction_text c.direction) now
    pure c

  unfoldable pub create_outbound_call : CreateCallInput → ℕ → Action Call
  unfolding resolve_media_type next_id create_call log_event originate_channel
  create_outbound_call i now = do
    fail_if (is_empty i.callee) Error.missing_callee
    fail_if (is_empty i.caller) Error.missing_caller
    mt ← resolve_media_type i.media_type
    id ← next_id env
    uuid ← originate_channel env (lit i.callee) (lit i.caller)
    let c = outbound_call i mt id uuid now
    create_call env c
    log_event env c call_created (direction_text outbound) now
    pure c

  unfoldable pub create_internal_call : CreateCallInput → ℕ → Action Call
  unfolding resolve_media_type next_id create_call log_event
  create_internal_call i now = do
    fail_if (is_empty i.callee) Error.missing_callee
    fail_if (is_empty i.caller) Error.missing_caller
    mt ← resolve_media_type i.media_type
    id ← next_id env
    let c = internal_call i mt id now
    create_call env c
    log_event env c call_created (lit "INTERNAL") now
    pure c
