-- ===== src/Examples/Campaigns.antt =====
-- The theorems on campaigns and on the dialer at concrete inputs: a campaign of two cases, of which
-- each may be tried twice.
use ccc.Prelude.{
  ℕ, String, List, map, ◌+◌, ◌≡◌, refl, true, false, none, some, [], ◌∷◌, ◌++◌, arith,
}
use ccc.Prelude.Rows.{row_by, update_by, Evolved}
use ccc.Campaign.Entity.{
  Campaign, CampaignCase, running, CampaignStatus, CaseStatus, pending, power,
}
use ccc.Campaign.World.{
  Env, World, case_of, zero_campaign, next_pending, count_pending, campaign_of,
}
use ccc.Campaign.Service.{CaseInput, import_cases, auto_complete, start, pause}
use ccc.Campaign.Lifecycle.{Grown, Progress}
use ccc.Campaign.Cases.{skip_case, mark_case_completed}
use ccc.Campaign.History.{CampaignRequest, run, process, run-Progress}
use ccc.Campaign.Retries.{fail_times, fail_times-IsFailed}
use ccc.Campaign.DoNotCall.{Callable, import_cases-Callable}
use ccc.Dialer.World as Dialers
use ccc.Dialer.Service.{dial_batch}
use ccc.Dialer.Bounds.{WithinLimit, dial_batch-WithinLimit}

abbrev env : Env
env = record { ids = λ n. n + 100; db_fails = λ _. false; has_dnc = true }

abbrev campaign : Campaign
campaign = record zero_campaign {
  id = 1;
  tenant_id = 7;
  dialing_mode = power;
  status = running;
  ratio_multiplier = 3000;
  concurrent_limit = 2;
  max_retries = 2;
  retry_interval_sec = 300;
  total_cases = 2;
}

abbrev case_number : ℕ → CampaignCase
case_number id = record {
  id = id;
  campaign_id = 1;
  tenant_id = 7;
  phone_number = "555";
  customer_name = "";
  custom_data = "";
  status = pending;
  attempt_count = 0;
  agent_user_id = none;
  call_id = none;
  duration_sec = 0;
  disposition_code = "";
  next_attempt_at = none;
  completed_at = none;
  created_at = 0;
  updated_at = 0;
}

abbrev two_cases : World
two_cases = record {
  dnc_list = record { tenant_id = 7; number = "666"; expires_at = none } ∷ [];
  campaigns = campaign ∷ [];
  cases = case_number 10 ∷ case_number 11 ∷ [];
  drawn = 0;
  queries = 0;
}

abbrev day : List (CampaignRequest × ℕ)
day =
    (CampaignRequest.pauses 1, 5)
    ∷ (CampaignRequest.starts 1, 6)
    ∷ (CampaignRequest.completes 10 "sold" 60, 7)
    ∷ (CampaignRequest.skips 1 11, 8)
    ∷ []

run-Progress_example :
    Evolved Grown Progress
      (campaign_of 1 two_cases.campaigns)
      (campaign_of 1 (run env day two_cases).campaigns)
unfolding row_by
run-Progress_example = run-Progress env day 1 two_cases (λ n. omega arith) refl

-- With both cases done the campaign is completed.
day_done : map (λ c. c.status) (run env day two_cases).campaigns ≡ CampaignStatus.completed ∷ []
unfolding run process row_by update_by count_pending auto_complete skip_case mark_case_completed
    start pause
day_done = refl

fail_times-IsFailed_example :
    (d : CampaignCase) × (case_of 10 (fail_times 2 env 10 5 two_cases).cases ≡ some d)
    × (d.status ≡ CaseStatus.failed)
    × (d.attempt_count ≡ 2)
unfolding row_by
fail_times-IsFailed_example =
    fail_times-IsFailed 1 env 10 5 two_cases (case_number 10) campaign (λ _. refl) refl refl
      (omega arith)

abbrev callee : String → CaseInput
callee number = record { phone_number = number; customer_name = ""; custom_data = "" }

abbrev callees : List CaseInput
callees = callee "666" ∷ callee "" ∷ callee "777" ∷ []

import_cases-Callable_example :
    (cs : List CampaignCase) × ((import_cases env 1 callees 5 two_cases).1.cases
      ≡ two_cases.cases ++ cs)
    × Callable 7 5 two_cases.dnc_list cs
unfolding row_by
import_cases-Callable_example =
    import_cases-Callable env 1 callees 5 two_cases campaign refl refl refl

abbrev dialing : Dialers.World
dialing = record {
  store = two_cases;
  active = λ i. some 0;
  states = λ i. record {
    mode = power;
    active_calls = 0;
    abandon_count = 0;
    total_dialed = 0;
    started_at = 0;
  };
  made = 1;
  spawned = [];
  counts = λ p d. 0;
  commands = 0;
  dials = 0;
}

abbrev dialer : Dialers.Env
dialer = record {
  campaigns = env;
  local_time = λ zone now. ([], 10);
  dial_works = λ _. true;
  max_daily = 0;
  redis_fails = λ _. false;
  day = λ now. 0;
}

dial_batch-WithinLimit_example :
    (k : ℕ) × WithinLimit k campaign 0 5 dialing (dial_batch dialer 1 0 5 dialing)
unfolding row_by
dial_batch-WithinLimit_example =
    dial_batch-WithinLimit dialer 1 0 5 dialing campaign refl (omega arith)

-- Both calls of the tick are for the first case.
same_case_twice :
    map (λ s. s.dialed_case.id) (dial_batch dialer 1 0 5 dialing).spawned ≡ 10 ∷ 10 ∷ []
unfolding dial_batch next_pending row_by
same_case_twice = refl
