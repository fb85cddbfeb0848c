-- ===== src/Call/Request.antt =====
-- One request to the call service (internal/domain/call/service.go), and a history of them.
use ccc.Prelude.{ℕ, String, Option, List, [], ◌∷◌, pure, ◌>>=◌}
use ccc.Prelude.Int.{ℤ}
use ccc.Call.Entity.{HangupBy, HangupReason}
use ccc.Call.World.{Env, World, Action}
use ccc.Call.Control.{
  end_call, transition_to_queue, transition_to_ringing, transition_to_active, answer_call,
  hold_call, retrieve_call,
}
use ccc.Call.Transfer.{
  TransferTarget, blind_transfer, send_dtmf, attended_transfer, initiate_consult,
  complete_consult_transfer, cancel_consult, start_conference,
}
use ccc.Call.Create.{
  CreateCallInput, create_inbound_call, create_outbound_call, create_internal_call,
}
use ccc.Call.Supervise.{
  MonitorMode, monitor_call, coach_call, whisper_pre_connect, set_disposition, update_customer_id,
}

-- A method of `CallService` that changes state, with its arguments but the context.
pub data Request : Type 0 where
  inbound outbound internal : CreateCallInput → Request
  ends : ℕ → HangupReason → Option HangupBy → Request
  queues rings answers : ℕ → ℕ → Request
  bridges holds retrieves : ℕ → Request
  transfers attends consults : ℕ → TransferTarget → Request
  dials : ℕ → List ℕ → Request
  completes_consult cancels_consult confers : ℕ → Request
  monitors : ℕ → ℕ → ℕ → MonitorMode → Request
  coaches : ℕ → ℕ → ℕ → ℤ → Request
  whispers disposes : ℕ → String → Request
  links : ℕ → ℕ → Request

-- Only whether the method failed.
abbrev pub run_only : {A : Type 0} → Action A → Action (Unit {0})
run_only m = m >>= λ _. pure tt

unfoldable pub handle : Env → Request → ℕ → Action (Unit {0})
handle env (inbound input) now = run_only (create_inbound_call env input now)
handle env (outbound input) now = run_only (create_outbound_call env input now)
handle env (internal input) now = run_only (create_internal_call env input now)
handle env (ends id reason by) now = run_only (end_call env id reason by now)
handle env (queues id group) now = run_only (transition_to_queue env id group now)
handle env (rings id agent) now = run_only (transition_to_ringing env id agent now)
handle env (answers id agent) now = run_only (answer_call env id agent now)
handle env (bridges id) now = run_only (transition_to_active env id now)
handle env (holds id) now = run_only (hold_call env id now)
handle env (retrieves id) now = run_only (retrieve_call env id now)
handle env (transfers id target) now = run_only (blind_transfer env id target now)
handle env (attends id target) now = run_only (attended_transfer env id target now)
handle env (consults id target) now = run_only (initiate_consult env id target now)
handle env (dials id digits) now = send_dtmf env id digits now
handle env (completes_consult id) now = run_only (complete_consult_transfer env id now)
handle env (cancels_consult id) now = run_only (cancel_consult env id now)
handle env (confers id) now = run_only (start_conference env id now)
handle env (monitors tenant target user mode) now =
    run_only (monitor_call env tenant target user mode now)
handle env (coaches tenant target user timeout) now =
    run_only (coach_call env tenant target user timeout now)
handle env (whispers id message) now = whisper_pre_connect env id message now
handle env (disposes id code) now = run_only (set_disposition env id code now)
handle env (links id customer) now = update_customer_id env id customer

-- Requests one after the other, each with the time of the clock.
unfoldable pub run : Env → List (ℕ × Request) → World → World
run env [] w = w
run env ((now, r) ∷ rs) w = run env rs (handle env r now w).1
