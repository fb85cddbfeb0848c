-- ===== src/Campaign/Cases.antt =====
-- internal/domain/campaign/service.go: the methods of CampaignService that record what became of a
-- case.
use ccc.Prelude.{
  ℕ, ◌+◌, ◌*◌, String, Bool, true, false, not, Option, none, some, ◌==◌, leb, if◌then◌else◌, pure,
  fail_if, ◌>>=◌, ◌>>◌,
}
use ccc.Call.Durations.{second}
use ccc.Campaign.Entity.{
  Campaign, CampaignCase, CaseStatus, pending, dialing, completed, failed, skipped, case_not_found,
}
use ccc.Campaign.World.{Env, Action, peek_campaign, get_case, update_campaign, update_case, quietly}
use ccc.Campaign.Service.{with_failure, with_success}

abbrev pub is_completed : CaseStatus → Bool
is_completed completed = true
is_completed _ = false

-- What the methods write into a case.
abbrev pub done : String → ℕ → ℕ → CampaignCase → CampaignCase
done disposition_code duration_sec now cs = record cs {
  status = completed;
  disposition_code = disposition_code;
  duration_sec = duration_sec;
  attempt_count = cs.attempt_count + 1;
  completed_at = some now;
  updated_at = now;
}

-- The case after an attempt that failed: failed for good, or pending again.
abbrev pub retried : ℕ → ℕ → ℕ → CampaignCase → CampaignCase
retried max_retries retry_interval now cs =
    let tried : CampaignCase = record cs {
      attempt_count = cs.attempt_count + 1;
      updated_at = now;
    } in
    if leb max_retries (cs.attempt_count + 1)
    then record tried { status = failed; completed_at = some now }
    else record tried { status = pending; next_attempt_at = some (now + retry_interval * second) }

-- `maxRetries := 3; retryInterval := 300; if c != nil { ... }`
abbrev pub max_retries_of : Option Campaign → ℕ
max_retries_of none = 3
max_retries_of (some c) = c.max_retries

abbrev pub retry_interval_of : Option Campaign → ℕ
retry_interval_of none = 300
retry_interval_of (some c) = c.retry_interval_sec

module _ (env : Env) where
  -- `if c != nil { ...; _ = s.campaigns.Update(ctx, c) }`
  unfoldable pub count_on : (Campaign → Campaign) → Option Campaign → Action (Unit {0})
  unfolding update_campaign
  count_on change none = pure tt
  count_on change (some c) = quietly env (update_campaign env (change c))

  unfoldable pub mark_case_completed : ℕ → String → ℕ → ℕ → Action CampaignCase
  unfolding get_case update_case peek_campaign count_on
  mark_case_completed case_id disposition_code duration_sec now = do
    cs ← get_case env case_id
    (elim (is_completed cs.status) [
      | true ↦ pure cs
      | false ↦ do
        let cs' = done disposition_code duration_sec now cs
        update_case env cs'
        c ← peek_campaign env cs.campaign_id
        count_on (with_success duration_sec now) c
        pure cs'
    ])

  unfoldable pub mark_case_failed : ℕ → ℕ → Action CampaignCase
  unfolding get_case update_case peek_campaign count_on
  mark_case_failed case_id now = do
    cs ← get_case env case_id
    c ← peek_campaign env cs.campaign_id
    let cs' = retried (max_retries_of c) (retry_interval_of c) now cs
    (if leb (max_retries_of c) cs'.attempt_count then count_on (with_failure now) c else pure tt)
    update_case env cs'
    pure cs'

  unfoldable pub dial_case : ℕ → ℕ → ℕ → Action (Unit {0})
  unfolding get_case update_case
  dial_case campaign_id case_id now = do
    cs ← get_case env case_id
    fail_if (not (cs.campaign_id == campaign_id)) case_not_found
    update_case env
        (record cs { status = dialing; attempt_count = cs.attempt_count + 1; updated_at = now })

  unfoldable pub skip_case : ℕ → ℕ → ℕ → Action (Unit {0})
  unfolding get_case update_case peek_campaign count_on
  skip_case campaign_id case_id now = do
    cs ← get_case env case_id
    fail_if (not (cs.campaign_id == campaign_id)) case_not_found
    update_case env (record cs { status = skipped; updated_at = now; completed_at = some now })
    c ← peek_campaign env campaign_id
    count_on (with_failure now) c
