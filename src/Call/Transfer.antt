-- ===== src/Call/Transfer.antt =====
-- internal/domain/call/service.go: transfers, consultation, conference and DTMF on a call.
use ccc.Prelude.{
  ℕ, ◌+◌, String, Bool, true, false, not, ◌&&◌, ◌||◌, Option, List, [], ◌∷◌, if◌then◌else◌,
  is_empty, leb, ◌==◌, pure, fail_if, ◌>>=◌, ◌>>◌,
}
use ccc.Call.Entity.{
  Call, active, held, consulting, conference, completed, failed, blind_transferred, dtmf_sent,
  attended_transferred, consult_initiated, consult_transfer_completed, consult_cancelled,
  conference_started, Text, lit, colon, numbered, digits_text, Error,
}
use ccc.Call.World.{
  Env, Action, Command, get_call, update_call, log_event, command, command_quietly, on_channel,
}
use ccc.Call.Control.{is}

pub record TransferTarget : Type 0 where
  pub kind : String
  pub skill_group_id : Option ℕ
  pub agent_user_id : Option ℕ
  pub external_num : String

-- `detail := ...; if target.ExternalNum != "" { detail += ":" + target.ExternalNum }`
abbrev transfer_detail : Text → TransferTarget → Text
transfer_detail t target =
    if is_empty target.external_num then t else colon t (lit target.external_num)

-- The digits of a DTMF string, as code points.
unfoldable pub dtmf_digit : ℕ → Bool
dtmf_digit c = (leb b'0' c && leb c b'9') || c == b'*' || c == b'#' || (leb b'A' c && leb c b'D')

unfoldable pub all_dtmf : List ℕ → Bool
all_dtmf [] = true
all_dtmf (c ∷ cs) = dtmf_digit c && all_dtmf cs

abbrev no_digits : List ℕ → Bool
no_digits [] = true
no_digits (_ ∷ _) = false

-- What each method writes into the record that it has read.
abbrev pub transferred : Call → Call
transferred c = record c { transfer_count = c.transfer_count + 1 }

abbrev pub consulted : Call → Call
consulted c = record c { status = consulting }

abbrev pub consult_completed : Call → Call
consult_completed c = record c { transfer_count = c.transfer_count + 1; status = active }

abbrev pub consult_ended : Call → Call
consult_ended c = record c { status = active }

abbrev pub conferenced : Call → Call
conferenced c = record c { status = conference }

module _ (env : Env) where
  unfoldable pub blind_transfer : ℕ → TransferTarget → ℕ → Action Call
  unfolding get_call update_call log_event command
  blind_transfer id target now = do
    c ← get_call env id
    fail_if (is c.status completed || is c.status failed) Error.call_already_ended
    fail_if (is_empty target.kind) Error.missing_transfer_target
    let c' = transferred c
    let detail = transfer_detail (lit target.kind) target
    command env (Command.transfer c'.channel_uuid detail)
    update_call env c'
    log_event env c' blind_transferred detail now
    pure c'

  unfoldable pub send_dtmf : ℕ → List ℕ → ℕ → Action (Unit {0})
  unfolding get_call log_event command
  send_dtmf id digits now = do
    fail_if (no_digits digits) Error.missing_dtmf
    fail_if (not (all_dtmf digits)) Error.invalid_dtmf_digits
    c ← get_call env id
    fail_if (is c.status completed || is c.status failed) Error.call_already_ended
    command env (Command.send_dtmf c.channel_uuid digits)
    log_event env c dtmf_sent (digits_text digits) now

  unfoldable pub attended_transfer : ℕ → TransferTarget → ℕ → Action Call
  unfolding get_call update_call log_event command
  attended_transfer id target now = do
    c ← get_call env id
    fail_if (not (is c.status active) && not (is c.status held)) Error.call_not_active
    fail_if (is_empty target.kind) Error.missing_transfer_target
    let c' = transferred c
    let detail = transfer_detail (colon (lit "attended") (lit target.kind)) target
    command env (Command.transfer c'.channel_uuid detail)
    update_call env c'
    log_event env c' attended_transferred detail now
    pure c'

  unfoldable pub initiate_consult : ℕ → TransferTarget → ℕ → Action Call
  unfolding get_call update_call log_event command on_channel
  initiate_consult id target now = do
    c ← get_call env id
    fail_if (not (is c.status active)) Error.call_not_active
    fail_if (is_empty target.kind) Error.missing_transfer_target
    on_channel c (command env (Command.hold c.channel_uuid))
    let c' = consulted c
    update_call env c'
    log_event env c' consult_initiated (lit target.kind) now
    pure c'

  unfoldable pub complete_consult_transfer : ℕ → ℕ → Action Call
  unfolding get_call update_call log_event
  complete_consult_transfer id now = do
    c ← get_call env id
    fail_if (not (is c.status consulting)) Error.call_not_consulting
    let c' = consult_completed c
    update_call env c'
    log_event env c' consult_transfer_completed (lit "") now
    pure c'

  unfoldable pub cancel_consult : ℕ → ℕ → Action Call
  unfolding get_call update_call log_event command_quietly on_channel
  cancel_consult id now = do
    c ← get_call env id
    fail_if (not (is c.status consulting)) Error.call_not_consulting
    on_channel c (command_quietly env (Command.retrieve c.channel_uuid))
    let c' = consult_ended c
    update_call env c'
    log_event env c' consult_cancelled (lit "") now
    pure c'

  unfoldable pub start_conference : ℕ → ℕ → Action Call
  unfolding get_call update_call log_event command on_channel
  start_conference id now = do
    c ← get_call env id
    fail_if (not (is c.status active) && not (is c.status consulting)) Error.call_not_active
    let name = numbered "conf_" c.id
    on_channel c (command env (Command.conference c.channel_uuid name))
    let c' = conferenced c
    update_call env c'
    log_event env c' conference_started name now
    pure c'
