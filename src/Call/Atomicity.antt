-- ===== src/Call/Atomicity.antt =====
-- A request that fails leaves the tables as they were.
use ccc.Prelude.{ℕ, ◌≡◌, arith, Result, ok, err}
use ccc.Call.Entity.{Error}
use ccc.Call.World.{Env, World}
use ccc.Call.Control.{
  end_call, transition_to_queue, transition_to_ringing, transition_to_active, answer_call,
  hold_call, retrieve_call,
}
use ccc.Call.Transfer.{
  blind_transfer, send_dtmf, attended_transfer, initiate_consult, complete_consult_transfer,
  cancel_consult, start_conference,
}
use ccc.Call.Create.{create_inbound_call, create_outbound_call, create_internal_call}
use ccc.Call.Supervise.{
  MonitorMode, join_channel, create_leg, monitor_call, coach_call, whisper_pre_connect,
  set_disposition, update_customer_id,
}
use ccc.Call.Request.{Request, handle}

-- What a call of a method left: if it failed, the tables are as they were.
abbrev pub Atomic : {A : Type 0} → World → Result Error A × World → Type 0
Atomic w (ok _, w') = Unit
Atomic w (err _, w') = (w'.calls ≡ w.calls) × (w'.events ≡ w.events)

-- A request that fails changes neither the calls nor the events, wherever it fails: at a guard, at
-- the media layer or at the database.
pub handle-Atomic : (env : Env) (r : Request) (now : ℕ) (w : World) → Atomic w (handle env r now w)
unfolding handle join_channel create_leg create_inbound_call create_outbound_call
    create_internal_call end_call transition_to_queue transition_to_ringing transition_to_active
    answer_call hold_call retrieve_call blind_transfer attended_transfer initiate_consult send_dtmf
    complete_consult_transfer cancel_consult start_conference monitor_call coach_call
    whisper_pre_connect set_disposition update_customer_id
handle-Atomic env (Request.inbound input) now w = ground arith
handle-Atomic env (Request.outbound input) now w = ground arith
handle-Atomic env (Request.internal input) now w = ground arith
handle-Atomic env (Request.ends id reason by) now w = ground arith
handle-Atomic env (Request.queues id group) now w = ground arith
handle-Atomic env (Request.rings id agent) now w = ground arith
handle-Atomic env (Request.answers id agent) now w = ground arith
handle-Atomic env (Request.bridges id) now w = ground arith
handle-Atomic env (Request.holds id) now w = ground arith
handle-Atomic env (Request.retrieves id) now w = ground arith
handle-Atomic env (Request.transfers id target) now w = ground arith
handle-Atomic env (Request.attends id target) now w = ground arith
handle-Atomic env (Request.consults id target) now w = ground arith
handle-Atomic env (Request.dials id digits) now w = ground arith
handle-Atomic env (Request.completes_consult id) now w = ground arith
handle-Atomic env (Request.cancels_consult id) now w = ground arith
handle-Atomic env (Request.confers id) now w = ground arith
handle-Atomic env (Request.monitors tenant target user MonitorMode.listen) now w = ground arith
handle-Atomic env (Request.monitors tenant target user MonitorMode.whisper) now w = ground arith
handle-Atomic env (Request.monitors tenant target user MonitorMode.barge) now w = ground arith
handle-Atomic env (Request.monitors tenant target user MonitorMode.intercept) now w = ground arith
handle-Atomic env (Request.monitors tenant target user MonitorMode.unknown_mode) now w =
    ground arith
handle-Atomic env (Request.coaches tenant target user timeout) now w = ground arith
handle-Atomic env (Request.whispers id message) now w = ground arith
handle-Atomic env (Request.disposes id code) now w = ground arith
handle-Atomic env (Request.links id customer) now w = ground arith
