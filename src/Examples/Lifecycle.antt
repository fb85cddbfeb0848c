-- ===== src/Examples/Lifecycle.antt =====
-- The theorems on the lifecycle of calls at concrete inputs: a tenant with a limit of two calls at
-- once, an agent who talks, and an outbound call that ends.
use ccc.Prelude.{ℕ, ◌≡◌, refl, false, true, none, some, [], ◌∷◌, err, Option}
use ccc.Prelude.Int.{ℤ, pos, ◌+ℤ◌}
use ccc.Call.Entity.{
  Call, Error, outbound, active, unset_direction, unset_type, MediaType, HangupReason,
  valid_media_type,
}
use ccc.Call.World.{Env as CallEnv}
use ccc.Call.Create.{CreateCallInput, blank_call}
use ccc.Call.Table.{find}
use ccc.Presence.Entity.{AgentPresence, talking, no_sub_state, WorkMode}
use ccc.Presence.World.{Env as PresenceEnv}
use ccc.Lifecycle.World.{Env, World, call_failed, emit}
use ccc.Call.Control
use ccc.Call.Control.{ended}
use ccc.Call.Durations.{calculate_durations, mark}
use ccc.Lifecycle.Service.{
  end_call, continue, after_end, save_durations, with_durations, events_of, save_recording,
  store_recording, save_call, insert_recording, hang_up,
}
use ccc.Lifecycle.Inbound.{Menus, handle_inbound_call}
use ccc.Examples.Ivr.{menu, lib, json}
use ccc.Ivr.Providers.{Providers}
use ccc.Lifecycle.Ending.{Ended, end_call-Ended}
use ccc.Lifecycle.Slots.{
  admit_times, admit_times-min, end_call-frees, handle_inbound_call-keeps_slot,
}

abbrev no_menus : (F : Type 0) → Option (Menus F)
no_menus F = none

abbrev calls_env : CallEnv
calls_env = record { ids = λ n. n; db_fails = λ _. false; provider = none }

abbrev presence_env : PresenceEnv
presence_env = record {
  ids = λ n. n;
  db_fails = λ _. false;
  default_acw = 30;
  acw_resolver = none;
  keeps_shifts = false;
}

abbrev two_calls : ℕ → ℤ
two_calls _ = pos 2

abbrev env : Env
env = record {
  calls = calls_env;
  presence = some presence_env;
  campaigns = none;
  limit_of = some two_calls;
  redis_fails = λ _. false;
  row_fails = λ _. false;
  keeps_recordings = true;
  keeps_snapshots = true;
  encrypts = false;
  recording_path = λ _ _. "/recordings/7/1.wav";
  has_esl = true;
  announces = λ _. false;
  has_notifier = true;
  has_publisher = true;
  has_webhook = true;
  has_screen_pop = false;
  has_survey = true;
  has_inspection = false;
  find_customer = none;
  familiar_days = none;
  repeat_count = none;
  repeat_threshold = 0;
}

abbrev sale : Call
sale = record (blank_call 1 7 0) {
  channel_uuid = "c-1";
  direction = outbound;
  status = active;
  agent_user_id = some 3;
  answered_at = some 2;
}

abbrev agent : AgentPresence
agent = record {
  id = 1;
  tenant_id = 7;
  agent_id = 3;
  status = talking;
  sub_state = no_sub_state;
  work_mode = WorkMode.office;
  break_reason_code = "";
  disposition_code = "";
  current_call_id = none;
  acw_seconds = 30;
  checked_in_at = some 0;
  last_status_at = 0;
  updated_at = 0;
}

abbrev world : World
world = record {
  calls = record { calls = sale ∷ []; events = []; media = []; drawn = 0; queries = 0 };
  presence = record {
    rows = agent ∷ [];
    logs = [];
    shifts = [];
    acw_timers = λ _. none;
    waiting = [];
    started = 0;
    changes = [];
    drawn = 0;
    queries = 0;
  };
  campaigns = record { dnc_list = []; campaigns = []; cases = []; drawn = 0; queries = 0 };
  slots = λ _. pos 0;
  redis_commands = 0;
  rows_written = 0;
  recordings = [];
  snapshots = [];
  trackings = [];
  active_gauge = pos 0;
  tenant_gauge = λ _. pos 0;
  effects = [];
  hooks = [];
}

abbrev fax : CreateCallInput
fax = record {
  tenant_id = 7;
  direction = unset_direction;
  call_type = unset_type;
  media_type = MediaType.other_media "fax";
  caller = "555";
  callee = "100";
  channel_uuid = "c-2";
  agent_user_id = none;
  ivr_flow_id = none;
  phone_number_id = none;
  carrier_id = none;
  sip_trunk_id = none;
  campaign_case_id = none;
}

-- An inbound call enters the menu, whose interfaces here do nothing.
abbrev menu_world : Providers World ℕ
menu_world = record {
  esl = none;
  asr = none;
  acd = none;
  context = none;
  queue = none;
  sentiment = none;
  nlu = none;
  crm = none;
  flow_loader = some (λ i w. (some menu, w));
  http = λ _ w. (none, w);
}

abbrev menus : Option (Menus ℕ)
menus = some (record { providers = menu_world; library = lib; json = json; depth = 3 })

abbrev enquiry : CreateCallInput
enquiry = record fax { media_type = MediaType.audio; ivr_flow_id = some 1 }

end_call-Ended_example :
    Ended env HangupReason.normal_clearing 9 world
      (end_call env 1 HangupReason.normal_clearing none 9 world)
end_call-Ended_example = end_call-Ended env 1 HangupReason.normal_clearing none 9 world

-- Two places, and five calls that arrive.
admit_times-min_example : (admit_times env 7 5 world).0 ≡ 2
unfolding ◌+ℤ◌
admit_times-min_example = admit_times-min env two_calls 7 1 refl (λ _. refl) refl 5 2 world refl

abbrev ended_sale : Call
ended_sale = record (ended HangupReason.normal_clearing none 9 sale) {
  recording_url = some "/recordings/7/1.wav";
}

-- After the outbound call, for which no place was taken, three calls are let in.
end_call-frees_example :
    (admit_times env 7 5 (end_call env 1 HangupReason.normal_clearing none 9 world).1).0 ≡ 3
unfolding end_call continue Control.end_call find after_end save_durations with_durations events_of
    save_recording store_recording save_call insert_recording hang_up emit calculate_durations mark
    ◌+ℤ◌
end_call-frees_example =
    end_call-frees env two_calls 7 1 refl (λ _. refl) refl 1 HangupReason.normal_clearing none 9 5 2
      world ended_sale refl refl refl

handle_inbound_call-keeps_slot_example :
    ((handle_inbound_call env (no_menus ℕ) fax 9 world).0
      ≡ err (call_failed Error.invalid_media_type))
    × ((handle_inbound_call env (no_menus ℕ) fax 9 world).1.calls.calls ≡ sale ∷ [])
    × ((handle_inbound_call env (no_menus ℕ) fax 9 world).1.slots 7 ≡ pos 1)
unfolding valid_media_type ◌+ℤ◌
handle_inbound_call-keeps_slot_example =
    handle_inbound_call-keeps_slot env two_calls 7 1 refl (λ _. refl) refl (no_menus ℕ) fax 9 1
      world refl refl (λ e. cc) refl
