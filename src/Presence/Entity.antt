-- ===== src/Presence/Entity.antt =====
-- internal/domain/identity/entity.go and errors.go: the state of an agent.
use ccc.Prelude.{ℕ, String, Option}
use ccc.Prelude.Int.{ℤ}

-- `other_mode` stands for any other string.
pub data WorkMode : Type 0 where
  on_site off_site office other_mode : WorkMode

pub data PresenceStatus : Type 0 where
  offline online idle break talking acw dialing : PresenceStatus

pub data SubState : Type 0 where
  no_sub_state monitored consulted consulting conference monitoring : SubState

-- Times are in nanoseconds; none is a nil pointer.
pub record AgentPresence : Type 0 where
  pub id : ℕ
  pub tenant_id : ℕ
  pub agent_id : ℕ
  pub status : PresenceStatus
  pub sub_state : SubState
  pub work_mode : WorkMode
  pub break_reason_code : String
  pub disposition_code : String
  pub current_call_id : Option ℕ
  pub acw_seconds : ℕ
  pub checked_in_at : Option ℕ
  pub last_status_at : ℕ
  pub updated_at : ℕ

pub record PresenceLog : Type 0 where
  pub id : ℕ
  pub tenant_id : ℕ
  pub agent_id : ℕ
  pub status : PresenceStatus
  pub sub_state : SubState
  pub work_mode : WorkMode
  pub break_reason_code : String
  pub duration_sec : ℤ
  pub created_at : ℕ

-- `ShiftDate` is the day of `check_in_at`, and is left out.
pub record Shift : Type 0 where
  pub id : ℕ
  pub tenant_id : ℕ
  pub agent_id : ℕ
  pub check_in_at : ℕ
  pub check_out_at : Option ℕ
  pub total_online_sec : ℤ

pub data Error : Type 0 where
  presence_not_found invalid_state_transition invalid_work_mode repository_failed : Error
