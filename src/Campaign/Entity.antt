-- ===== src/Campaign/Entity.antt =====
-- internal/domain/campaign/entity.go and errors.go: outbound campaigns and their cases.
use ccc.Prelude.{ℕ, String, Option}

-- `other_mode` stands for any other string.
pub data DialingMode : Type 0 where
  predictive preview progressive power other_mode : DialingMode

-- `unset_status` is the empty string of a zero value.
pub data CampaignStatus : Type 0 where
  draft running paused completed aborted unset_status : CampaignStatus

pub data CaseStatus : Type 0 where
  pending dialing completed failed skipped : CaseStatus

-- `ratio_multiplier` and `max_abandon_rate`, a float64 each, are in thousandths.
pub record Campaign : Type 0 where
  pub id : ℕ
  pub tenant_id : ℕ
  pub name : String
  pub dialing_mode : DialingMode
  pub skill_group_id : ℕ
  pub cli_policy_id : Option ℕ
  pub status : CampaignStatus
  pub ratio_multiplier : ℕ
  pub max_abandon_rate : ℕ
  pub preview_timeout_sec : ℕ
  pub concurrent_limit : ℕ
  pub max_retries : ℕ
  pub retry_interval_sec : ℕ
  pub timezone : String
  pub schedule_days : String
  pub schedule_start_hour : ℕ
  pub schedule_end_hour : ℕ
  pub total_cases : ℕ
  pub completed_cases : ℕ
  pub success_cases : ℕ
  pub failed_cases : ℕ
  pub started_at : Option ℕ
  pub completed_at : Option ℕ
  pub created_at : ℕ
  pub updated_at : ℕ

pub record CampaignCase : Type 0 where
  pub id : ℕ
  pub campaign_id : ℕ
  pub tenant_id : ℕ
  pub phone_number : String
  pub customer_name : String
  pub custom_data : String
  pub status : CaseStatus
  pub attempt_count : ℕ
  pub agent_user_id : Option ℕ
  pub call_id : Option ℕ
  pub duration_sec : ℕ
  pub disposition_code : String
  pub next_attempt_at : Option ℕ
  pub completed_at : Option ℕ
  pub created_at : ℕ
  pub updated_at : ℕ

pub data CampaignError : Type 0 where
  campaign_not_found case_not_found campaign_not_draft campaign_not_running : CampaignError
  invalid_dialing_mode campaign_no_cases repository_failed : CampaignError
