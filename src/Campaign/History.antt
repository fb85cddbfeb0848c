-- ===== src/Campaign/History.antt =====
-- Histories of requests to CampaignService (internal/domain/campaign/service.go). `Update`, which
-- writes a record that its caller chose, is left out.
use ccc.Prelude.{
  ◌<◌, arith, Option, some, [], ◌∷◌, inl, inr, Option-cases, ℕ, ◌≡◌, String, none, List,
}
use mathlib.Core.Path.{subst}
use ccc.Prelude.Rows.{Evolved, row_by-key}
use ccc.Campaign.Entity.{Campaign}
use ccc.Campaign.Lifecycle.{CampaignBorn, CampaignStep, Grown, Progress, done, then}
use ccc.Campaign.World.{campaign_key, Env, World, campaign_of}
use ccc.Campaign.Service.{
  CreateCampaignInput, CaseInput, create_campaign, start, pause, abort, import_cases,
}
use ccc.Campaign.Cases.{mark_case_completed, mark_case_failed, dial_case, skip_case}
use ccc.Campaign.Steps.{Steps, start-Steps, pause-Steps, abort-Steps}
use ccc.Campaign.Counts.{
  create_campaign-Steps, import_cases-Steps, mark_case_completed-Steps, mark_case_failed-Steps,
  dial_case-Steps, skip_case-Steps,
}

pub data CampaignRequest : Type 0 where
  creates : CreateCampaignInput → CampaignRequest
  starts pauses aborts : ℕ → CampaignRequest
  imports : ℕ → List CaseInput → CampaignRequest
  completes : ℕ → String → ℕ → CampaignRequest
  fails : ℕ → CampaignRequest
  dials skips : ℕ → ℕ → CampaignRequest

-- The state that a request leaves.
unfoldable pub process : Env → CampaignRequest → ℕ → World → World
process env (CampaignRequest.creates input) now w = (create_campaign env input now w).1
process env (CampaignRequest.starts id) now w = (start env id now w).1
process env (CampaignRequest.pauses id) now w = (pause env id now w).1
process env (CampaignRequest.aborts id) now w = (abort env id now w).1
process env (CampaignRequest.imports id inputs) now w = (import_cases env id inputs now w).1
process env (CampaignRequest.completes id code duration) now w =
    (mark_case_completed env id code duration now w).1
process env (CampaignRequest.fails id) now w = (mark_case_failed env id now w).1
process env (CampaignRequest.dials campaign id) now w = (dial_case env campaign id now w).1
process env (CampaignRequest.skips campaign id) now w = (skip_case env campaign id now w).1

process-Steps :
    (env : Env) (r : CampaignRequest) (now i : ℕ) (w : World)
    → ((n : ℕ) → 0 < env.ids n)
    → campaign_of 0 w.campaigns ≡ none
    → Steps i w (process env r now w)
unfolding process
process-Steps env (CampaignRequest.creates input) now i w named free =
    create_campaign-Steps env input now i w (named w.drawn)
process-Steps env (CampaignRequest.starts id) now i w named free = start-Steps env id now i w
process-Steps env (CampaignRequest.pauses id) now i w named free = pause-Steps env id now i w
process-Steps env (CampaignRequest.aborts id) now i w named free = abort-Steps env id now i w
process-Steps env (CampaignRequest.imports id inputs) now i w named free =
    import_cases-Steps env id inputs now i w
process-Steps env (CampaignRequest.completes id code duration) now i w named free =
    mark_case_completed-Steps env id code duration now i w free
process-Steps env (CampaignRequest.fails id) now i w named free =
    mark_case_failed-Steps env id now i w free
process-Steps env (CampaignRequest.dials campaign id) now i w named free =
    dial_case-Steps env campaign id now i w
process-Steps env (CampaignRequest.skips campaign id) now i w named free =
    skip_case-Steps env campaign id now i w free

-- A row where there was none is new.
born_of :
    (o o' : Option Campaign) (c : Campaign)
    → o ≡ none
    → o' ≡ some c
    → Evolved CampaignBorn CampaignStep o o'
    → CampaignBorn c
born_of none (some d) c e f born =
    let same : d ≡ c = ground (arith, f) in subst CampaignBorn same born
born_of none none c e f born = ground (arith, f)
born_of (some d) o' c e f born = ground (arith, e)

-- A step, and more.
Progress-step :
    (o o' o'' : Option Campaign)
    → Evolved CampaignBorn CampaignStep o o'
    → Evolved Grown Progress o' o''
    → Evolved Grown Progress o o''
Progress-step none none o'' s p = p
Progress-step none (some d) none s p = elim p [ ]
Progress-step none (some d) (some e) s p = (d, s, p)
Progress-step (some c) none o'' s p = elim s [ ]
Progress-step (some c) (some d) none s p = elim p [ ]
Progress-step (some c) (some d) (some e) s p = then s p

Progress-none : (o : Option Campaign) → Evolved Grown Progress o o
Progress-none none = tt
Progress-none (some c) = done

-- No request makes a campaign with the id 0.
process-unnamed :
    (env : Env) (r : CampaignRequest) (now : ℕ) (w : World)
    → ((n : ℕ) → 0 < env.ids n)
    → campaign_of 0 w.campaigns ≡ none
    → campaign_of 0 (process env r now w).campaigns ≡ none
process-unnamed env r now w named free =
    let step = process-Steps env r now 0 w named free in
    elim (Option-cases (campaign_of 0 (process env r now w).campaigns)) [
      | inl e ↦ e
      | inr (c, e) ↦
          let born = born_of _ _ c free e step in
          let at : c.id ≡ 0 = row_by-key campaign_key 0 (process env r now w).campaigns c e in
          let no : ⊥ = omega (arith, born.named, at) in elim no [ ]
    ]

-- A history: requests with their times.
unfoldable pub run : Env → List (CampaignRequest × ℕ) → World → World
run env [] w = w
run env ((r, now) ∷ rs) w = run env rs (process env r now w)

-- Whatever statements the database refuses, any history, Update aside, takes each campaign of the
-- table along steps of the specified life of a campaign, deletes none, and takes each that it makes
-- along such steps from a draft without counts. A step completes a campaign only when its counter of
-- finished cases has reached its total, which is not 0. The ids drawn are positive, and no campaign has the id 0.
pub run-Progress :
    (env : Env) (rs : List (CampaignRequest × ℕ)) (i : ℕ) (w : World)
    → ((n : ℕ) → 0 < env.ids n)
    → campaign_of 0 w.campaigns ≡ none
    → Evolved Grown Progress (campaign_of i w.campaigns) (campaign_of i (run env rs w).campaigns)
unfolding run
run-Progress env [] i w named free = Progress-none (campaign_of i w.campaigns)
run-Progress env ((r, now) ∷ rs) i w named free =
    let w' = process env r now w in
    Progress-step (campaign_of i w.campaigns) (campaign_of i w'.campaigns)
      (campaign_of i (run env rs w').campaigns) (process-Steps env r now i w named free)
      (run-Progress env rs i w' named (process-unnamed env r now w named free))
