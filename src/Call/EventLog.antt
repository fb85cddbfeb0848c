-- ===== src/Call/EventLog.antt =====
-- The event log: what a request that succeeds writes to it.
use ccc.Prelude.{ℕ, ◌≡◌, Option, none, some, [], ◌∷◌, ◌++◌, false, arith, Result, ok, err}
use ccc.Call.Entity.{CallEvent, EventKind, Error}
use ccc.Call.Table.{find-id}
use ccc.Call.World.{Env, World}
use ccc.Call.Control.{
  end_call, transition_to_queue, transition_to_ringing, transition_to_active, answer_call,
  hold_call, retrieve_call,
}
use ccc.Call.Transfer.{
  blind_transfer, send_dtmf, attended_transfer, initiate_consult, complete_consult_transfer,
  cancel_consult, start_conference,
}
use ccc.Call.Create.{create_inbound_call, create_outbound_call, create_internal_call}
use ccc.Call.Supervise.{
  join_channel, create_leg, monitor_call, coach_call, whisper_pre_connect, set_disposition,
  update_customer_id,
}
use ccc.Call.Request.{Request, handle}

-- The kind of event that a request logs. Linking a customer logs none.
abbrev pub event_of : Request → Option EventKind
event_of (Request.inbound _) = some EventKind.call_created
event_of (Request.outbound _) = some EventKind.call_created
event_of (Request.internal _) = some EventKind.call_created
event_of (Request.ends _ _ _) = some EventKind.call_ended
event_of (Request.queues _ _) = some EventKind.queue_entered
event_of (Request.rings _ _) = some EventKind.agent_ringing
event_of (Request.answers _ _) = some EventKind.call_answered
event_of (Request.bridges _) = some EventKind.call_bridged
event_of (Request.holds _) = some EventKind.call_held
event_of (Request.retrieves _) = some EventKind.call_retrieved
event_of (Request.transfers _ _) = some EventKind.blind_transferred
event_of (Request.attends _ _) = some EventKind.attended_transferred
event_of (Request.consults _ _) = some EventKind.consult_initiated
event_of (Request.dials _ _) = some EventKind.dtmf_sent
event_of (Request.completes_consult _) = some EventKind.consult_transfer_completed
event_of (Request.cancels_consult _) = some EventKind.consult_cancelled
event_of (Request.confers _) = some EventKind.conference_started
event_of (Request.monitors _ _ _ _) = some EventKind.monitor_started
event_of (Request.coaches _ _ _ _) = some EventKind.coach_started
event_of (Request.whispers _ _) = some EventKind.whispered
event_of (Request.disposes _ _) = some EventKind.disposition_set
event_of (Request.links _ _) = none

-- The call that a request is about: a new one has the next identifier.
abbrev pub subject : Env → World → Request → ℕ
subject env w (Request.inbound _) = env.ids w.drawn
subject env w (Request.outbound _) = env.ids w.drawn
subject env w (Request.internal _) = env.ids w.drawn
subject env w (Request.ends id _ _) = id
subject env w (Request.queues id _) = id
subject env w (Request.rings id _) = id
subject env w (Request.answers id _) = id
subject env w (Request.bridges id) = id
subject env w (Request.holds id) = id
subject env w (Request.retrieves id) = id
subject env w (Request.transfers id _) = id
subject env w (Request.attends id _) = id
subject env w (Request.consults id _) = id
subject env w (Request.dials id _) = id
subject env w (Request.completes_consult id) = id
subject env w (Request.cancels_consult id) = id
subject env w (Request.confers id) = id
subject env w (Request.monitors _ _ _ _) = env.ids w.drawn
subject env w (Request.coaches _ _ _ _) = env.ids w.drawn
subject env w (Request.whispers id _) = id
subject env w (Request.disposes id _) = id
subject env w (Request.links id _) = id

abbrev pub Logged : Option EventKind → ℕ → ℕ → World → Result Error (Unit {0}) × World → Type 0
Logged k call now w (err _, w') = Unit
Logged none call now w (ok _, w') = w'.events ≡ w.events
Logged (some k) call now w (ok _, w') =
    (e : CallEvent) × (w'.events ≡ w.events ++ e ∷ [])
    × (e.event ≡ k)
    × (e.call_id ≡ call)
    × (e.created_at ≡ now)

-- While the database answers, a request that succeeds logs one event, of its kind, about its call
-- and at its time, after those that were there; the change of a call's customer, which has no kind of
-- event, logs none.
pub handle-Logged :
    (env : Env) (r : Request) (now : ℕ) (w : World)
    → ((q : ℕ) → env.db_fails q ≡ false)
    → Logged (event_of r) (subject env w r) now w (handle env r now w)
unfolding handle join_channel create_leg create_inbound_call create_outbound_call
    create_internal_call end_call transition_to_queue transition_to_ringing transition_to_active
    answer_call hold_call retrieve_call blind_transfer attended_transfer initiate_consult send_dtmf
    complete_consult_transfer cancel_consult start_conference monitor_call coach_call
    whisper_pre_connect set_disposition update_customer_id
handle-Logged env (Request.inbound input) now w up = grind (arith, find-id, up)
handle-Logged env (Request.outbound input) now w up = grind (arith, find-id, up)
handle-Logged env (Request.internal input) now w up = grind (arith, find-id, up)
handle-Logged env (Request.ends id reason by) now w up = grind (arith, find-id, up)
handle-Logged env (Request.queues id group) now w up = grind (arith, find-id, up)
handle-Logged env (Request.rings id agent) now w up = grind (arith, find-id, up)
handle-Logged env (Request.answers id agent) now w up = grind (arith, find-id, up)
handle-Logged env (Request.bridges id) now w up = grind (arith, find-id, up)
handle-Logged env (Request.holds id) now w up = grind (arith, find-id, up)
handle-Logged env (Request.retrieves id) now w up = grind (arith, find-id, up)
handle-Logged env (Request.transfers id target) now w up = grind (arith, find-id, up)
handle-Logged env (Request.attends id target) now w up = grind (arith, find-id, up)
handle-Logged env (Request.consults id target) now w up = grind (arith, find-id, up)
handle-Logged env (Request.dials id digits) now w up = grind (arith, find-id, up)
handle-Logged env (Request.completes_consult id) now w up = grind (arith, find-id, up)
handle-Logged env (Request.cancels_consult id) now w up = grind (arith, find-id, up)
handle-Logged env (Request.confers id) now w up = grind (arith, find-id, up)
handle-Logged env (Request.monitors tenant target user mode) now w up = grind (arith, find-id, up)
handle-Logged env (Request.coaches tenant target user timeout) now w up = grind (arith, find-id, up)
handle-Logged env (Request.whispers id message) now w up = grind (arith, find-id, up)
handle-Logged env (Request.disposes id code) now w up = grind (arith, find-id, up)
handle-Logged env (Request.links id customer) now w up = grind (arith, find-id, up)
