-- ===== src/Campaign/Service.antt =====
-- internal/domain/campaign/service.go: CampaignService. `now` is the one reading of the clock in
-- each call.
use ccc.Prelude.{
  ℕ, ◌+◌, String, Bool, true, false, not, ◌&&◌, ◌||◌, Option, none, some, List, [], ◌∷◌, length,
  ◌==◌, leb, ltb, is_empty, if◌then◌else◌, ok, err, pure, fail_if, ◌>>=◌, ◌>>◌,
}
use ccc.Flow.Names.{elem}
use ccc.Campaign.Entity.{
  Campaign, CampaignCase, DialingMode, predictive, preview, progressive, power, other_mode,
  CampaignStatus, draft, running, paused, aborted, pending, CampaignError, campaign_not_draft,
  campaign_not_running, invalid_dialing_mode, campaign_no_cases,
}
use ccc.Campaign.World.{
  Env, Action, get_campaign, update_campaign, insert_campaign, bulk_create, check_batch, asked_dnc,
  count_pending, next_pending, zero_campaign, World,
}

pub record CreateCampaignInput : Type 0 where
  pub tenant_id : ℕ
  pub name : String
  pub dialing_mode : DialingMode
  pub skill_group_id : ℕ
  pub cli_policy_id : Option ℕ

pub record CaseInput : Type 0 where
  pub phone_number : String
  pub customer_name : String
  pub custom_data : String

abbrev pub is_mode : DialingMode → Bool
is_mode other_mode = false
is_mode _ = true

abbrev pub is : CampaignStatus → CampaignStatus → Bool
is draft draft = true
is running running = true
is paused paused = true
is CampaignStatus.completed CampaignStatus.completed = true
is aborted aborted = true
is CampaignStatus.unset_status CampaignStatus.unset_status = true
is _ _ = false

-- The second switch of Create: the defaults of each mode.
abbrev pub with_mode : DialingMode → Campaign → Campaign
with_mode predictive c = record c {
  ratio_multiplier = 1500;
  max_abandon_rate = 3000;
  concurrent_limit = 10;
}
with_mode preview c = record c { preview_timeout_sec = 30; ratio_multiplier = 1000 }
with_mode progressive c = record c { ratio_multiplier = 1000; concurrent_limit = 1 }
with_mode power c = record c { ratio_multiplier = 3000; concurrent_limit = 10 }
with_mode other_mode c = c

abbrev pub new_campaign : ℕ → CreateCampaignInput → ℕ → Campaign
new_campaign id input now = with_mode input.dialing_mode (record zero_campaign {
  id = id;
  tenant_id = input.tenant_id;
  name = input.name;
  dialing_mode = input.dialing_mode;
  skill_group_id = input.skill_group_id;
  cli_policy_id = input.cli_policy_id;
  status = draft;
  max_retries = 3;
  retry_interval_sec = 300;
  created_at = now;
  updated_at = now;
})

unfoldable pub auto_complete : ℕ → Campaign → Campaign
auto_complete now c =
    if is c.status running && ltb 0 c.total_cases && leb c.total_cases c.completed_cases
    then record c { status = CampaignStatus.completed; completed_at = some now }
    else c

-- `c.CompletedCases++; c.FailedCases++; c.UpdatedAt = now; s.autoComplete(c, now)`
abbrev pub with_failure : ℕ → Campaign → Campaign
with_failure now c = auto_complete now (record c {
  completed_cases = c.completed_cases + 1;
  failed_cases = c.failed_cases + 1;
  updated_at = now;
})

abbrev pub with_success : ℕ → ℕ → Campaign → Campaign
with_success duration_sec now c = auto_complete now (record c {
  completed_cases = c.completed_cases + 1;
  success_cases = if ltb 0 duration_sec then c.success_cases + 1 else c.success_cases;
  updated_at = now;
})

-- The loop that collects the numbers to check.
unfoldable pub numbers_of : List CaseInput → List String
numbers_of [] = []
numbers_of (i ∷ is) =
    let rest = numbers_of is in if is_empty i.phone_number then rest else i.phone_number ∷ rest

abbrev pub new_case : ℕ → Campaign → CaseInput → ℕ → ℕ → CampaignCase
new_case id c input campaign_id now = record {
  id = id;
  campaign_id = campaign_id;
  tenant_id = c.tenant_id;
  phone_number = input.phone_number;
  customer_name = input.customer_name;
  custom_data = input.custom_data;
  status = pending;
  attempt_count = 0;
  agent_user_id = none;
  call_id = none;
  duration_sec = 0;
  disposition_code = "";
  next_attempt_at = none;
  completed_at = none;
  created_at = now;
  updated_at = now;
}

-- The states that Start and Abort accept.
abbrev pub may_start : CampaignStatus → Bool
may_start s = is s draft || is s paused

abbrev pub may_abort : CampaignStatus → Bool
may_abort s = is s running || is s paused

module _ (env : Env) where
  -- The loop that builds the cases; each draws an id. `i` counts the ids drawn.
  unfoldable pub valid_cases :
      Campaign → ℕ → List String → ℕ → ℕ → List CaseInput → List CampaignCase
  valid_cases c campaign_id blocked now i [] = []
  valid_cases c campaign_id blocked now i (input ∷ inputs) =
      let skip = valid_cases c campaign_id blocked now i inputs in
      let keep = valid_cases c campaign_id blocked now (i + 1) inputs in
      if is_empty input.phone_number || elem input.phone_number blocked
      then skip
      else new_case (env.ids i) c input campaign_id now ∷ keep

  unfoldable pub create_campaign : CreateCampaignInput → ℕ → Action Campaign
  unfolding insert_campaign
  create_campaign input now = do
    fail_if (not (is_mode input.dialing_mode)) invalid_dialing_mode
    id ← (λ w. (ok (env.ids w.drawn), record w { drawn = w.drawn + 1 }))
    let c = new_campaign id input now
    insert_campaign env c
    pure c

  -- `s.cases.CountByStatus(ctx, c.ID)`
  unfoldable pub pending_cases : ℕ → Action ℕ
  unfolding count_pending
  pending_cases id w = (
    if env.db_fails w.queries
        then err CampaignError.repository_failed
        else ok (count_pending id w.cases),
    record w { queries = w.queries + 1 },
  )

  unfoldable pub start : ℕ → ℕ → Action Campaign
  unfolding get_campaign pending_cases update_campaign
  start id now = do
    c ← get_campaign env id
    fail_if (not (may_start c.status)) campaign_not_draft
    n ← pending_cases c.id
    fail_if (n == 0) campaign_no_cases
    let c' = record c { status = running; started_at = some now; updated_at = now }
    update_campaign env c'
    pure c'

  unfoldable pub pause : ℕ → ℕ → Action Campaign
  unfolding get_campaign update_campaign
  pause id now = do
    c ← get_campaign env id
    fail_if (not (is c.status running)) campaign_not_running
    let c' = record c { status = paused; updated_at = now }
    update_campaign env c'
    pure c'

  unfoldable pub abort : ℕ → ℕ → Action Campaign
  unfolding get_campaign update_campaign
  abort id now = do
    c ← get_campaign env id
    fail_if (not (may_abort c.status)) campaign_not_running
    let c' = record c { status = aborted; completed_at = some now; updated_at = now }
    update_campaign env c'
    pure c'

  -- `Update`: the handler's record is written.
  unfoldable pub save_campaign : Campaign → ℕ → Action (Unit {0})
  unfolding update_campaign
  save_campaign c now = update_campaign env (record c { updated_at = now })

  -- `if len(validCases) > 0 { ... }`
  unfoldable pub store_cases : Campaign → List CampaignCase → ℕ → Action (Unit {0})
  unfolding bulk_create update_campaign
  store_cases c [] now = pure tt
  store_cases c (d ∷ ds) now = do
    bulk_create env (d ∷ ds)
    update_campaign env
        (record c { total_cases = c.total_cases + length (d ∷ ds); updated_at = now })

  -- The cases that an import makes, in the world that it starts from.
  abbrev pub imported : Campaign → ℕ → List CaseInput → ℕ → World → List CampaignCase
  imported c campaign_id inputs now w =
      valid_cases c campaign_id (check_batch env c.tenant_id now (numbers_of inputs) w) now w.drawn
        inputs

  unfoldable pub import_cases : ℕ → List CaseInput → ℕ → Action (Unit {0})
  unfolding get_campaign asked_dnc
  import_cases campaign_id inputs now = do
    c ← get_campaign env campaign_id
    cs ← (λ w. (ok (imported c campaign_id inputs now w), asked_dnc env (numbers_of inputs) w))
    (λ w. (ok tt, record w { drawn = w.drawn + length cs }))
    store_cases c cs now

  unfoldable pub get_next_case : ℕ → ℕ → Action (Option CampaignCase)
  unfolding next_pending
  get_next_case id now w = (
    if env.db_fails w.queries
        then err CampaignError.repository_failed
        else ok (next_pending id now w.cases),
    record w { queries = w.queries + 1 },
  )
