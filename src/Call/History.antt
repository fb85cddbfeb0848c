-- ===== src/Call/History.antt =====
-- What holds of a call through any history of requests.
use ccc.Prelude.{ℕ, ◌≤◌, ◌≡◌, refl, Option, none, some, List, [], ◌∷◌, ◌∙◌, arith}
use ccc.Call.Entity.{Call, CallStatus, completed}
use mathlib.Core.Path.{subst}
use ccc.Call.Table.{find}
use ccc.Call.World.{Env, World, Action}
use ccc.Call.Control.{
  end_call, transition_to_queue, transition_to_ringing, transition_to_active, answer_call,
  hold_call, retrieve_call,
}
use ccc.Call.Transfer.{
  blind_transfer, attended_transfer, initiate_consult, complete_consult_transfer, cancel_consult,
  start_conference,
}
use ccc.Call.Create.{create_inbound_call, create_outbound_call, create_internal_call}
use ccc.Call.Supervise.{monitor_call, coach_call, set_disposition}
use ccc.Call.Request.{Request, handle, run, run_only}
use ccc.Call.Lifecycle.{Evolves, Step, IsValid, SameEnd, SameIdentity, ◌⟶◌, ◌⟶*◌, here, then}
use ccc.Call.Evolution.Moves.{
  end_call-Evolves, transition_to_queue-Evolves, transition_to_ringing-Evolves,
  transition_to_active-Evolves, answer_call-Evolves, hold_call-Evolves, retrieve_call-Evolves,
}
use ccc.Call.Evolution.Talk.{
  blind_transfer-Evolves, attended_transfer-Evolves, send_dtmf-calls, initiate_consult-Evolves,
  complete_consult-Evolves, cancel_consult-Evolves, start_conference-Evolves,
  whisper_pre_connect-calls, set_disposition-Evolves, update_customer_id-Evolves,
}
use ccc.Call.Evolution.Legs.{
  create_inbound_call-Grows, create_outbound_call-Grows, create_internal_call-Grows,
  monitor_call-Grows, coach_call-Grows,
}
use ccc.Call.Evolution.Rules.{Evolves-refl}

run_only-calls : {A : Type 0} (m : Action A) (w : World) → (run_only m w).1.calls ≡ (m w).1.calls
run_only-calls m w = ground arith

only :
    {A : Type 0} (i : ℕ) (w : World) (m : Action A)
    → Evolves (find i w.calls) (find i (m w).1.calls)
    → Evolves (find i w.calls) (find i (run_only m w).1.calls)
only i w m h = rw (run_only-calls m w) h

same_call : {c d : Call} → some c ≡ some d → c ≡ d
same_call e = cc

IsValid-after :
    (o o' : Option Call) (c : Call)
    → Evolves o o'
    → o' ≡ some c
    → ((d : Call) → o ≡ some d → IsValid d)
    → IsValid c
IsValid-after none none c h e v = cc
IsValid-after none (some x) c h e v = subst IsValid (same_call e) h.0
IsValid-after (some d) none c h e v = cc
IsValid-after (some d) (some x) c h e v = subst IsValid (same_call e) (h.valid (v d refl))

kept_after :
    (o o' : Option Call) (c : Call)
    → Evolves o o'
    → o ≡ some c
    → (d : Call) × (o' ≡ some d) × Step c d
kept_after none o' c h e = cc
kept_after (some d) none c h e = absurd h
kept_after (some d) (some x) c h e = (x, refl, subst (λ y. Step y x) (same_call e) h)

before : {s t u : CallStatus} → s ⟶ t → t ⟶* u → s ⟶* u
before e here = then here e
before e (then p q) = then (before e p) q

SameIdentity-trans : {a b c : Call} → SameIdentity a b → SameIdentity b c → SameIdentity a c
SameIdentity-trans h k = ground arith

SameEnd-trans : {a b c : Call} → SameEnd a b → SameEnd b c → SameEnd a c
SameEnd-trans h k = ground arith

-- Whatever the request is and however the database and the media layer answer, each row of the
-- table is kept or makes one step of the life of a call, and a new row is well formed.
pub handle-Evolves :
    (env : Env) (r : Request) (now i : ℕ) (w : World)
    → Evolves (find i w.calls) (find i (handle env r now w).1.calls)
unfolding handle
handle-Evolves env (Request.inbound input) now i w =
    only i w (create_inbound_call env input now)
      ((create_inbound_call-Grows env now i input).grown w)
handle-Evolves env (Request.outbound input) now i w =
    only i w (create_outbound_call env input now)
      ((create_outbound_call-Grows env now i input).grown w)
handle-Evolves env (Request.internal input) now i w =
    only i w (create_internal_call env input now)
      ((create_internal_call-Grows env now i input).grown w)
handle-Evolves env (Request.ends id reason by) now i w =
    only i w (end_call env id reason by now) (end_call-Evolves env id now i w reason by)
handle-Evolves env (Request.queues id group) now i w =
    only i w (transition_to_queue env id group now)
      (transition_to_queue-Evolves env id now i w group)
handle-Evolves env (Request.rings id agent) now i w =
    only i w (transition_to_ringing env id agent now)
      (transition_to_ringing-Evolves env id now i w agent)
handle-Evolves env (Request.answers id agent) now i w =
    only i w (answer_call env id agent now) (answer_call-Evolves env id now i w agent)
handle-Evolves env (Request.bridges id) now i w =
    only i w (transition_to_active env id now) (transition_to_active-Evolves env id now i w)
handle-Evolves env (Request.holds id) now i w =
    only i w (hold_call env id now) (hold_call-Evolves env id now i w)
handle-Evolves env (Request.retrieves id) now i w =
    only i w (retrieve_call env id now) (retrieve_call-Evolves env id now i w)
handle-Evolves env (Request.transfers id target) now i w =
    only i w (blind_transfer env id target now) (blind_transfer-Evolves env id now i w target)
handle-Evolves env (Request.attends id target) now i w =
    only i w (attended_transfer env id target now) (attended_transfer-Evolves env id now i w target)
handle-Evolves env (Request.consults id target) now i w =
    only i w (initiate_consult env id target now) (initiate_consult-Evolves env id now i w target)
handle-Evolves env (Request.dials id digits) now i w =
    rw (send_dtmf-calls env id now i w digits) (Evolves-refl _)
handle-Evolves env (Request.completes_consult id) now i w =
    only i w (complete_consult_transfer env id now) (complete_consult-Evolves env id now i w)
handle-Evolves env (Request.cancels_consult id) now i w =
    only i w (cancel_consult env id now) (cancel_consult-Evolves env id now i w)
handle-Evolves env (Request.confers id) now i w =
    only i w (start_conference env id now) (start_conference-Evolves env id now i w)
handle-Evolves env (Request.monitors tenant target user mode) now i w =
    only i w (monitor_call env tenant target user mode now)
      ((monitor_call-Grows env now i tenant target user mode).grown w)
handle-Evolves env (Request.coaches tenant target user timeout) now i w =
    only i w (coach_call env tenant target user timeout now)
      ((coach_call-Grows env now i tenant target user timeout).grown w)
handle-Evolves env (Request.whispers id message) now i w =
    rw (whisper_pre_connect-calls env id now i w message) (Evolves-refl _)
handle-Evolves env (Request.disposes id code) now i w =
    only i w (set_disposition env id code now) (set_disposition-Evolves env id now i w code)
handle-Evolves env (Request.links id customer) now i w =
    update_customer_id-Evolves env id i w customer

-- A well-formed table stays well formed through any history.
pub run-IsValid :
    (env : Env) (rs : List (ℕ × Request)) (w : World)
    → ((i : ℕ) (c : Call) → find i w.calls ≡ some c → IsValid c)
    → (i : ℕ) (c : Call) → find i (run env rs w).calls ≡ some c
    → IsValid c
unfolding run
run-IsValid env [] w v i c e = v i c e
run-IsValid env ((now, r) ∷ rs) w v i c e =
    run-IsValid env rs (handle env r now w).1
      (λ j d f. IsValid-after (find j w.calls) _ d (handle-Evolves env r now j w) f (v j)) i c e

-- Any history takes a call along the diagram and keeps its identity; its counters never fall.
pub run-⟶* :
    (env : Env) (rs : List (ℕ × Request)) (w : World) (i : ℕ) (c : Call)
    → find i w.calls ≡ some c
    → (c' : Call) × (find i (run env rs w).calls ≡ some c')
      × (c.status ⟶* c'.status)
      × SameIdentity c c'
      × (c.hold_count ≤ c'.hold_count)
      × (c.transfer_count ≤ c'.transfer_count)
unfolding run
run-⟶* env [] w i c e = (c, e, here, ground arith, omega arith, omega arith)
run-⟶* env ((now, r) ∷ rs) w i c e =
    let (d, f, st) = kept_after (find i w.calls) _ c (handle-Evolves env r now i w) e in
    let (c', g, path, same, holds, transfers) = run-⟶* env rs (handle env r now w).1 i d f in
    (
      c',
      g,
      before st.edge path,
      SameIdentity-trans st.identity same,
      omega (arith, st.holds, holds),
      omega (arith, st.transfers, transfers),
    )

-- The first hangup wins: what a completed call records of its end is never changed again.
pub run-SameEnd :
    (env : Env) (rs : List (ℕ × Request)) (w : World) (i : ℕ) (c : Call)
    → find i w.calls ≡ some c
    → c.status ≡ completed
    → (c' : Call) × (find i (run env rs w).calls ≡ some c') × SameEnd c c'
unfolding run
run-SameEnd env [] w i c e done = (c, e, ground arith)
run-SameEnd env ((now, r) ∷ rs) w i c e done =
    let (d, f, st) = kept_after (find i w.calls) _ c (handle-Evolves env r now i w) e in
    let fr = st.frozen done in
    let (c', g, same) = run-SameEnd env rs (handle env r now w).1 i d f (fr.same_status ∙ done) in
    (c', g, SameEnd-trans fr same)
