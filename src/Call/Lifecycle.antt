-- ===== src/Call/Lifecycle.antt =====
-- The specification of a call's life: the diagram of its states, what makes a record well formed,
-- and how one request may change a row of the table. internal/domain/call/entity.go has the states.
use ccc.Prelude.{◌≤◌, ◌≡◌, Bool, true, false, Option, none, some}
use ccc.Call.Entity.{
  Call, CallStatus, ivr, queue, ringing, active, held, consulting, conference, completed,
}

-- The diagram. A call that has not completed may complete from any state.
infix 40 ◌⟶◌ ◌⟶*◌
pub data ◌⟶◌ : CallStatus → CallStatus → Type 0 where
  stay : {s : CallStatus} → s ⟶ s
  finish : {s : CallStatus} → s ⟶ completed
  enqueue : ivr ⟶ queue
  ring : queue ⟶ ringing
  ring_directly : ivr ⟶ ringing
  bridge : ringing ⟶ active
  bridge_queued : queue ⟶ active
  pick_up : ivr ⟶ active
  put_on_hold : active ⟶ held
  take_off_hold : held ⟶ active
  consult : active ⟶ consulting
  end_consult : consulting ⟶ active
  join : active ⟶ conference
  join_consulted : consulting ⟶ conference

pub data ◌⟶*◌ : CallStatus → CallStatus → Type 0 where
  here : {s : CallStatus} → s ⟶* s
  then : {s t u : CallStatus} → s ⟶* t → t ⟶ u → s ⟶* u

pub ruleset edges = (
  stay, finish, enqueue, ring, ring_directly, bridge, bridge_queued, pick_up, put_on_hold,
  take_off_hold, consult, end_consult, join, join_consulted,
)

abbrev pub is_some {ℓ} : {A : Type ℓ} → Option A → Bool
is_some none = false
is_some (some _) = true

-- The customer and an agent talk, or could at once.
abbrev pub is_live : CallStatus → Bool
is_live active = true
is_live held = true
is_live consulting = true
is_live conference = true
is_live _ = false

-- A supervisor's leg, which names its parent, starts live without being answered.
pub record IsValid (c : Call) : Type 0 where
  pub answered : c.parent_call_id ≡ none → is_live c.status ≡ true → is_some c.answered_at ≡ true
  pub ended : c.status ≡ completed → is_some c.ended_at ≡ true
  pub explained : c.status ≡ completed → is_some c.hangup_reason ≡ true
  pub running : is_some c.ended_at ≡ true → c.status ≡ completed
  pub queued : c.status ≡ queue → is_some c.skill_group_id ≡ true

-- What no request changes once a call has completed.
pub record SameEnd (c c' : Call) : Type 0 where
  pub same_status : c'.status ≡ c.status
  pub same_reason : c'.hangup_reason ≡ c.hangup_reason
  pub same_end : c'.ended_at ≡ c.ended_at
  pub same_answer : c'.answered_at ≡ c.answered_at
  pub same_duration : c'.duration_sec ≡ c.duration_sec
  pub same_wait : c'.wait_duration_sec ≡ c.wait_duration_sec

-- What no request changes at all.
pub record SameIdentity (c c' : Call) : Type 0 where
  pub same_id : c'.id ≡ c.id
  pub same_tenant : c'.tenant_id ≡ c.tenant_id
  pub same_parent : c'.parent_call_id ≡ c.parent_call_id
  pub same_channel : c'.channel_uuid ≡ c.channel_uuid
  pub same_start : c'.started_at ≡ c.started_at

pub record Step (c c' : Call) : Type 0 where
  pub edge : c.status ⟶ c'.status
  pub identity : SameIdentity c c'
  pub frozen : c.status ≡ completed → SameEnd c c'
  pub valid : IsValid c → IsValid c'
  pub holds : c.hold_count ≤ c'.hold_count
  pub transfers : c.transfer_count ≤ c'.transfer_count

-- A row before and after a request: it is never deleted, a kept row makes a step, and a new row is
-- well formed, and live only as a supervisor's leg.
abbrev pub Evolves : Option Call → Option Call → Type 0
Evolves none none = Unit
Evolves none (some c) = IsValid c × (is_live c.status ≡ true → is_some c.parent_call_id ≡ true)
Evolves (some c) none = ⊥
Evolves (some c) (some c') = Step c c'
