-- ===== src/Examples/Calls.antt =====
-- The theorems on calls at concrete inputs: a database that always answers, a media layer that opens
-- the channel "c-9", and a call that an agent answers, holds and ends.
use ccc.Prelude.{
  ℕ, ◌+◌, ◌≤◌, ◌≡◌, refl, String, false, Option, none, some, List, [], ◌∷◌, arith, ◌==◌, value_or,
  is_empty, ap, sym, err,
}
use ccc.Call.Entity.{
  Call, CallEvent, completed, active, HangupReason, lit, numbered, unset_direction, unset_type,
  unset_media, repository_failed, call_answered, call_created, agent_ringing, Error,
}
use ccc.Call.Table.{find, update_rows, updated_row, insert_row, inserted_row}
use ccc.Call.World.{Env, World, Command}
use ccc.Call.Create.{CreateCallInput, blank_call, create_inbound_call}
use ccc.Call.Control.{end_call, answer_call, ended}
use ccc.Call.Supervise.{MonitorMode, monitor_call, join_channel, create_leg}
use ccc.Call.Transfer.{send_dtmf, dtmf_digit, all_dtmf}
use ccc.Call.Request.{Request, handle, run}
use ccc.Call.Lifecycle.{IsValid, Evolves, SameEnd, SameIdentity, ◌⟶*◌}
use ccc.Call.History.{run-IsValid, handle-Evolves, run-SameEnd, run-⟶*}
use ccc.Call.Atomicity.{handle-Atomic, Atomic}
use ccc.Call.EventLog.{handle-Logged, Logged, event_of, subject}
use ccc.Call.Supervision.{monitor_call-Closed, Closed}

abbrev answers_all : List Command → Option String
answers_all _ = some "c-9"

abbrev up : Env
up = record { ids = λ n. n + 100; db_fails = λ _. false; provider = some answers_all }

-- The INSERT of a new call fails.
abbrev refusing : Env
refusing = record { ids = λ n. n + 100; db_fails = λ q. q == 1; provider = some answers_all }

named : (m : List Command) (u : String) → answers_all m ≡ some u → is_empty u ≡ false
named m u e = ap (λ o. is_empty (value_or "" o)) (sym e)

abbrev input : CreateCallInput
input = record {
  tenant_id = 7;
  direction = unset_direction;
  call_type = unset_type;
  media_type = unset_media;
  caller = "555";
  callee = "100";
  channel_uuid = "c-1";
  agent_user_id = none;
  ivr_flow_id = none;
  phone_number_id = none;
  carrier_id = none;
  sip_trunk_id = none;
  campaign_case_id = none;
}

abbrev empty : World
empty = record { calls = []; events = []; media = []; drawn = 0; queries = 0 }

abbrev talk : Call
talk = record (blank_call 1 7 0) {
  channel_uuid = "c-1";
  status = active;
  agent_user_id = some 3;
  answered_at = some 2;
}

abbrev over : Call
over = ended HangupReason.normal_clearing none 9 talk

abbrev one_talk : World
one_talk = record { calls = talk ∷ []; events = []; media = []; drawn = 0; queries = 0 }

abbrev one_over : World
one_over = record { calls = over ∷ []; events = []; media = []; drawn = 0; queries = 0 }

abbrev history : List (ℕ × Request)
history =
    (5, Request.inbound input)
    ∷ (6, Request.answers 100 3)
    ∷ (9, Request.ends 100 HangupReason.normal_clearing none)
    ∷ []

abbrev at_100 : Call
at_100 = value_or talk (find 100 (run up history empty).calls)

run-IsValid_example : IsValid at_100
unfolding run handle create_inbound_call answer_call end_call find insert_row inserted_row
    update_rows updated_row
run-IsValid_example = run-IsValid up history empty (λ i c e. ground arith) 100 at_100 refl

handle-Evolves_example :
    Evolves (find 1 one_talk.calls) (find 1 (handle up (Request.holds 1) 5 one_talk).1.calls)
handle-Evolves_example = handle-Evolves up (Request.holds 1) 5 1 one_talk

run-SameEnd_example :
    (c' : Call) × (find 1 (run up ((20, Request.ends 1 HangupReason.busy none) ∷ []) one_over).calls
      ≡ some c')
    × SameEnd over c'
unfolding find
run-SameEnd_example =
    run-SameEnd up ((20, Request.ends 1 HangupReason.busy none) ∷ []) one_over 1 over refl refl

run-⟶*_example :
    (c' : Call) × (find 1
        (run up ((4, Request.holds 1) ∷ (5, Request.retrieves 1) ∷ []) one_talk).calls
      ≡ some c')
    × (talk.status ⟶* c'.status)
    × SameIdentity talk c'
    × (talk.hold_count ≤ c'.hold_count)
    × (talk.transfer_count ≤ c'.transfer_count)
unfolding find
run-⟶*_example =
    run-⟶* up ((4, Request.holds 1) ∷ (5, Request.retrieves 1) ∷ []) one_talk 1 talk refl

handle-Atomic_example :
    Atomic one_talk (handle refusing (Request.ends 1 HangupReason.normal_clearing none) 9 one_talk)
handle-Atomic_example =
    handle-Atomic refusing (Request.ends 1 HangupReason.normal_clearing none) 9 one_talk

handle-Logged_example :
    Logged
      (event_of (Request.holds 1))
      (subject up one_talk (Request.holds 1))
      5
      one_talk
      (handle up (Request.holds 1) 5 one_talk)
handle-Logged_example = handle-Logged up (Request.holds 1) 5 one_talk (λ q. refl)

monitor_call-Closed_example :
    Closed
      (some "c-9")
      (Command.originate (numbered "user/" 4) (lit "monitor"))
      (λ u. Command.eavesdrop u "c-1")
      []
      (monitor_call refusing 7 1 4 MonitorMode.listen 5 one_talk).1.media
unfolding find monitor_call join_channel create_leg
monitor_call-Closed_example =
    monitor_call-Closed refusing 7 1 4 MonitorMode.listen 5 one_talk repository_failed talk
      answers_all refl named refl refl

abbrev marks : List CallEvent
marks =
    (record {
      id = 1;
      call_id = 1;
      tenant_id = 7;
      event = call_created;
      detail = lit "";
      created_at = 1;
    })
    ∷ (record {
      id = 2;
      call_id = 1;
      tenant_id = 7;
      event = agent_ringing;
      detail = lit "";
      created_at = 4;
    })
    ∷ (record {
      id = 3;
      call_id = 1;
      tenant_id = 7;
      event = call_answered;
      detail = lit "";
      created_at = 8;
    })
    ∷ []

-- The history leaves the call of the witness completed, with an answer and an end.
history_ends :
    (at_100.status ≡ completed) × (at_100.answered_at ≡ some 6) × (at_100.ended_at ≡ some 9)
unfolding run handle create_inbound_call answer_call end_call find insert_row inserted_row
    update_rows updated_row
history_ends = (refl, refl, refl)

-- A letter that is no DTMF digit is refused before the call is looked up.
dtmf_refused : (send_dtmf up 1 (b'1' ∷ b'x' ∷ []) 5 one_talk).0 ≡ err Error.invalid_dtmf_digits
unfolding send_dtmf dtmf_digit all_dtmf
dtmf_refused = refl
