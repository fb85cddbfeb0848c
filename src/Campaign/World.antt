-- ===== src/Campaign/World.antt =====
-- What CampaignService acts on (internal/domain/campaign/service.go), with what the statements of
-- internal/infrastructure/mysql/campaign_repo.go do to the rows. The database and the id generator are
-- parameters: `Env` holds their answers, with any statement free to fail.
use ccc.Prelude.{
  ℕ, ◌+◌, String, Bool, true, false, not, ◌&&◌, Option, none, some, List, [], ◌∷◌, ◌++◌, ◌==◌, leb,
  ltb, if◌then◌else◌, ok, err, Method, or_fail,
}
use ccc.Flow.Names.{elem}
use ccc.Prelude.Rows.{row_by, update_by}
use ccc.Campaign.Entity.{
  Campaign, CampaignCase, CaseStatus, pending, unset_status, other_mode, CampaignError,
  campaign_not_found, case_not_found, repository_failed,
}

-- `has_dnc` is `s.dncSvc != nil`.
pub record Env : Type 0 where
  pub ids : ℕ → ℕ
  pub db_fails : ℕ → Bool
  pub has_dnc : Bool

-- A row of the do-not-call list (internal/domain/integration).
pub record DncEntry : Type 0 where
  pub tenant_id : ℕ
  pub number : String
  pub expires_at : Option ℕ

pub record World : Type 0 where
  pub dnc_list : List DncEntry
  pub campaigns : List Campaign
  pub cases : List CampaignCase
  pub drawn : ℕ
  pub queries : ℕ

abbrev pub Action : Type 0 → Type 0
Action = Method World CampaignError

abbrev pub campaign_key : Campaign → ℕ
campaign_key c = c.id

abbrev pub case_key : CampaignCase → ℕ
case_key c = c.id

abbrev pub campaign_of : ℕ → List Campaign → Option Campaign
campaign_of = row_by campaign_key

abbrev pub case_of : ℕ → List CampaignCase → Option CampaignCase
case_of = row_by case_key

-- The UPDATE of a campaign.
abbrev pub updated_campaign : Campaign → Campaign → Campaign
updated_campaign c old = record old {
  name = c.name;
  status = c.status;
  ratio_multiplier = c.ratio_multiplier;
  max_abandon_rate = c.max_abandon_rate;
  preview_timeout_sec = c.preview_timeout_sec;
  concurrent_limit = c.concurrent_limit;
  max_retries = c.max_retries;
  retry_interval_sec = c.retry_interval_sec;
  total_cases = c.total_cases;
  completed_cases = c.completed_cases;
  success_cases = c.success_cases;
  failed_cases = c.failed_cases;
  updated_at = c.updated_at;
  started_at = c.started_at;
  completed_at = c.completed_at;
}

-- The UPDATE of a case lists neither completed_at nor call_id.
abbrev pub updated_case : CampaignCase → CampaignCase → CampaignCase
updated_case c old = record old {
  status = c.status;
  attempt_count = c.attempt_count;
  agent_user_id = c.agent_user_id;
  duration_sec = c.duration_sec;
  disposition_code = c.disposition_code;
  next_attempt_at = c.next_attempt_at;
  updated_at = c.updated_at;
}

abbrev pub is_pending : CaseStatus → Bool
is_pending pending = true
is_pending _ = false

-- `SUM(CASE WHEN status = 'pending' ...) ... WHERE campaign_id = ?`
unfoldable pub count_pending : ℕ → List CampaignCase → ℕ
count_pending id [] = 0
count_pending id (c ∷ t) =
    (if (c.campaign_id == id) && is_pending c.status then 1 else 0) + count_pending id t

-- ... WHERE campaign_id = ? AND status = 'pending' AND (next_attempt_at IS NULL OR
-- next_attempt_at <= NOW())
abbrev pub is_due : ℕ → ℕ → CampaignCase → Bool
is_due id now c =
    (c.campaign_id == id)
    && is_pending c.status
    && elim c.next_attempt_at [ none ↦ true | some at ↦ leb at now ]

-- SELECT number FROM dnc_list WHERE tenant_id = ? AND number IN (?) AND (expires_at IS NULL OR
-- expires_at > NOW())
unfoldable pub check_numbers : ℕ → ℕ → List String → List DncEntry → List String
check_numbers tenant now numbers [] = []
check_numbers tenant now numbers (e ∷ es) =
    let rest = check_numbers tenant now numbers es in
    if (e.tenant_id == tenant)
      && elem e.number numbers
      && elim e.expires_at [ none ↦ true | some at ↦ ltb now at ]
    then e.number ∷ rest
    else rest

-- ... ORDER BY id LIMIT 1
unfoldable pub next_pending : ℕ → ℕ → List CampaignCase → Option CampaignCase
next_pending id now [] = none
next_pending id now (c ∷ t) = elim (next_pending id now t) [
  | none ↦ if is_due id now c then some c else none
  | some d ↦ if is_due id now c && leb c.id d.id then some c else some d
]

-- The rows of a transaction, each with an id that is free.
unfoldable pub insert_all : List CampaignCase → List CampaignCase → Option (List CampaignCase)
insert_all [] t = some t
insert_all (c ∷ cs) t =
    let rest = insert_all cs (t ++ c ∷ []) in elim (case_of c.id t) [ none ↦ rest | some _ ↦ none ]

-- The `Campaign{}` that GetByID returns together with an error.
abbrev pub zero_campaign : Campaign
zero_campaign = record {
  id = 0;
  tenant_id = 0;
  name = "";
  dialing_mode = other_mode;
  skill_group_id = 0;
  cli_policy_id = none;
  status = unset_status;
  ratio_multiplier = 0;
  max_abandon_rate = 0;
  preview_timeout_sec = 0;
  concurrent_limit = 0;
  max_retries = 0;
  retry_interval_sec = 0;
  timezone = "";
  schedule_days = "";
  schedule_start_hour = 0;
  schedule_end_hour = 0;
  total_cases = 0;
  completed_cases = 0;
  success_cases = 0;
  failed_cases = 0;
  started_at = none;
  completed_at = none;
  created_at = 0;
  updated_at = 0;
}

-- `len(numbers) == 0`
abbrev pub has_none : List String → Bool
has_none [] = true
has_none (_ ∷ _) = false

module _ (env : Env) where
  -- `c, err := s.campaigns.GetByID(ctx, id); if err != nil || c == nil { ... }`
  unfoldable pub get_campaign : ℕ → Action Campaign
  get_campaign i w = (
    if env.db_fails w.queries
        then err campaign_not_found
        else or_fail (campaign_of i w.campaigns) campaign_not_found,
    record w { queries = w.queries + 1 },
  )

  -- `c, _ := s.campaigns.GetByID(ctx, id)`: a query that fails gives the zero record, not nil.
  unfoldable pub peek_campaign : ℕ → Action (Option Campaign)
  peek_campaign i w = (
    ok (if env.db_fails w.queries then some zero_campaign else campaign_of i w.campaigns),
    record w { queries = w.queries + 1 },
  )

  unfoldable pub get_case : ℕ → Action CampaignCase
  get_case i w = (
    if env.db_fails w.queries
        then err case_not_found
        else or_fail (case_of i w.cases) case_not_found,
    record w { queries = w.queries + 1 },
  )

  unfoldable pub update_campaign : Campaign → Action (Unit {0})
  update_campaign c w = elim (env.db_fails w.queries) [
    | true ↦ (err repository_failed, record w { queries = w.queries + 1 })
    | false ↦ (
      ok tt,
      record w {
        queries = w.queries + 1;
        campaigns = update_by campaign_key c.id (updated_campaign c) w.campaigns;
      },
    )
  ]

  unfoldable pub update_case : CampaignCase → Action (Unit {0})
  update_case c w = elim (env.db_fails w.queries) [
    | true ↦ (err repository_failed, record w { queries = w.queries + 1 })
    | false ↦ (
      ok tt,
      record w {
        queries = w.queries + 1;
        cases = update_by case_key c.id (updated_case c) w.cases;
      },
    )
  ]

  -- The primary key refuses an id that is taken.
  unfoldable pub insert_campaign : Campaign → Action (Unit {0})
  insert_campaign c w = elim (env.db_fails w.queries) [
    | true ↦ (err repository_failed, record w { queries = w.queries + 1 })
    | false ↦ elim (campaign_of c.id w.campaigns) [
      | some _ ↦ (err repository_failed, record w { queries = w.queries + 1 })
      | none ↦ (ok tt, record w { queries = w.queries + 1; campaigns = w.campaigns ++ c ∷ [] })
    ]
  ]

  -- BulkCreate is one transaction: all rows are inserted, or none.
  unfoldable pub bulk_create : List CampaignCase → Action (Unit {0})
  bulk_create cs w = elim (env.db_fails w.queries) [
    | true ↦ (err repository_failed, record w { queries = w.queries + 1 })
    | false ↦ elim (insert_all cs w.cases) [
      | none ↦ (err repository_failed, record w { queries = w.queries + 1 })
      | some t ↦ (ok tt, record w { queries = w.queries + 1; cases = t })
    ]
  ]

  -- `blockedList, _ := s.dncSvc.CheckBatch(...)`, with a service and with numbers: a query that fails
  -- blocks none.
  unfoldable pub check_batch : ℕ → ℕ → List String → World → List String
  check_batch tenant now numbers w =
      if env.has_dnc && not (has_none numbers) && not (env.db_fails w.queries)
      then check_numbers tenant now numbers w.dnc_list
      else []

  -- The statements that this took.
  unfoldable pub asked_dnc : List String → World → World
  asked_dnc numbers w =
      if env.has_dnc && not (has_none numbers) then record w { queries = w.queries + 1 } else w

  -- `_ = m`: the error is dropped.
  abbrev pub quietly : Action (Unit {0}) → Action (Unit {0})
  quietly m w = (ok tt, (m w).1)
