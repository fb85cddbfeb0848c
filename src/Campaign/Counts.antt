-- ===== src/Campaign/Counts.antt =====
-- The step of the methods that count cases, and the request as a value.
use ccc.Prelude.{
  ◌<◌, ℕ, ◌+◌, ◌≡◌, refl, true, none, some, List, [], ◌∷◌, ◌++◌, ◌⊎◌, inl, inr, arith, Option-cases,
  Bool-cases, String, length, ◌&&◌, leb, ltb, if◌then◌else◌,
}
use ccc.Prelude.Rows.{Evolved-append, Evolved-update, update_by}
use ccc.Campaign.Entity.{Campaign, CampaignCase, CampaignStatus, running}
use ccc.Campaign.World.{
  asked_dnc, Env, World, campaign_key, campaign_of, updated_campaign, case_of, zero_campaign,
}
use ccc.Campaign.Service.{
  CreateCampaignInput, CaseInput, create_campaign, import_cases, imported, numbers_of, store_cases,
  is, new_campaign, with_failure, with_success, auto_complete, store_cases,
}
use ccc.Campaign.Cases.{mark_case_completed, mark_case_failed, dial_case, skip_case}
use ccc.Campaign.Lifecycle.{CampaignStep, CampaignBorn, CampaignStep-refl, stay, ◌⟶◌, edges}
use ccc.Campaign.Steps.{Steps, Steps-kept, Steps-written}

finish-edge : (s : CampaignStatus) → is s running ≡ true → s ⟶ CampaignStatus.completed
finish-edge s h = grind (arith, edges)

-- Completing a campaign by its counters.
auto_complete-edge : (now : ℕ) (c : Campaign) → c.status ⟶ (auto_complete now c).status
unfolding auto_complete
auto_complete-edge now c =
    elim (Bool-cases
      (is c.status running && ltb 0 c.total_cases && leb c.total_cases c.completed_cases)) [
        | inl full ↦ rw full (finish-edge c.status (ground arith))
        | inr less ↦ rw less stay
      ]

with_failure-Step :
    (now : ℕ) (c : Campaign) → CampaignStep c (updated_campaign (with_failure now c) c)
unfolding auto_complete
with_failure-Step now c = record {
  edge = auto_complete-edge now (record c {
    completed_cases = c.completed_cases + 1;
    failed_cases = c.failed_cases + 1;
    updated_at = now;
  });
  balanced = λ b. ground arith;
  totals = ground arith;
  dones = ground arith;
  successes = ground arith;
  failures = ground arith;
  finished = λ r f. ground arith;
  same_id = ground arith;
  same_tenant = ground arith;
  same_mode = ground arith;
}

with_success-Step :
    (duration now : ℕ) (c : Campaign)
    → CampaignStep c (updated_campaign (with_success duration now c) c)
unfolding auto_complete
with_success-Step duration now c = record {
  edge = auto_complete-edge now (record c {
    completed_cases = c.completed_cases + 1;
    success_cases = if ltb 0 duration then c.success_cases + 1 else c.success_cases;
    updated_at = now;
  });
  balanced = λ b. ground arith;
  totals = ground arith;
  dones = ground arith;
  successes = ground arith;
  failures = ground arith;
  finished = λ r f. ground arith;
  same_id = ground arith;
  same_tenant = ground arith;
  same_mode = ground arith;
}

-- Writing the zero record, whose id no row has.
zero-Steps :
    (i : ℕ) (w w' : World) (change : Campaign → Campaign)
    → campaign_of 0 w.campaigns ≡ none
    → (w'.campaigns ≡ w.campaigns)
      ⊎ (w'.campaigns
          ≡ update_by campaign_key 0 (updated_campaign (change zero_campaign)) w.campaigns)
    → Steps i w w'
zero-Steps i w w' change free (inl kept) = Steps-kept i w w' kept
zero-Steps i w w' change free (inr wrote) = rw wrote (
    Evolved-update campaign_key CampaignBorn CampaignStep CampaignStep-refl i 0
      (updated_campaign (change zero_campaign)) w.campaigns (λ x. refl)
      (λ x e. absurd (ground (arith, free))))

pub mark_case_completed-Steps :
    (env : Env) (id : ℕ) (code : String) (duration now i : ℕ) (w : World)
    → campaign_of 0 w.campaigns ≡ none
    → Steps i w (mark_case_completed env id code duration now w).1
unfolding mark_case_completed auto_complete
mark_case_completed-Steps env id code duration now i w free =
    elim (Option-cases (case_of id w.cases)) [
      | inl e ↦ Steps-kept i w (mark_case_completed env id code duration now w).1 (ground arith)
      | inr (cs, e) ↦ elim (Bool-cases (env.db_fails (w.queries + 1 + 1))) [
        | inl fails ↦
            zero-Steps i w (mark_case_completed env id code duration now w).1
              (with_success duration now) free (ground arith)
        | inr works ↦
            Steps-written i cs.campaign_id (with_success duration now) (λ c. true) w
              (mark_case_completed env id code duration now w).1 (λ c. ground arith)
              (λ c m. with_success-Step duration now c) (λ n. ground arith) (λ c m. ground arith)
      ]
    ]

pub mark_case_failed-Steps :
    (env : Env) (id now i : ℕ) (w : World)
    → campaign_of 0 w.campaigns ≡ none
    → Steps i w (mark_case_failed env id now w).1
unfolding mark_case_failed auto_complete
mark_case_failed-Steps env id now i w free = elim (Option-cases (case_of id w.cases)) [
  | inl e ↦ Steps-kept i w (mark_case_failed env id now w).1 (ground arith)
  | inr (cs, e) ↦ elim (Bool-cases (env.db_fails (w.queries + 1))) [
    | inl fails ↦
        zero-Steps i w (mark_case_failed env id now w).1 (with_failure now) free (ground arith)
    | inr works ↦
        Steps-written i cs.campaign_id (with_failure now) (λ c. true) w
          (mark_case_failed env id now w).1 (λ c. ground arith) (λ c m. with_failure-Step now c)
          (λ n. ground arith) (λ c m. ground arith)
  ]
]

pub skip_case-Steps :
    (env : Env) (campaign id now i : ℕ) (w : World)
    → campaign_of 0 w.campaigns ≡ none
    → Steps i w (skip_case env campaign id now w).1
unfolding skip_case auto_complete
skip_case-Steps env campaign id now i w free =
    elim (Bool-cases (env.db_fails (w.queries + 1 + 1))) [
      | inl fails ↦
          zero-Steps i w (skip_case env campaign id now w).1 (with_failure now) free (ground arith)
      | inr works ↦
          Steps-written i campaign (with_failure now) (λ c. true) w
            (skip_case env campaign id now w).1 (λ c. ground arith) (λ c m. with_failure-Step now c)
            (λ n. ground arith) (λ c m. ground arith)
    ]

pub dial_case-Steps :
    (env : Env) (campaign id now i : ℕ) (w : World) → Steps i w (dial_case env campaign id now w).1
unfolding dial_case
dial_case-Steps env campaign id now i w =
    Steps-kept i w (dial_case env campaign id now w).1 (ground arith)

new_campaign-Born :
    (id : ℕ) (input : CreateCampaignInput) (now : ℕ)
    → 0 < id
    → CampaignBorn (new_campaign id input now)
new_campaign-Born id input now named = ground (arith, named)

pub create_campaign-Steps :
    (env : Env) (input : CreateCampaignInput) (now i : ℕ) (w : World)
    → 0 < env.ids w.drawn
    → Steps i w (create_campaign env input now w).1
unfolding create_campaign
create_campaign-Steps env input now i w named =
    let c = new_campaign (env.ids w.drawn) input now in
    let outcome : ((create_campaign env input now w).1.campaigns ≡ w.campaigns)
        ⊎ ((campaign_of c.id w.campaigns ≡ none)
            × ((create_campaign env input now w).1.campaigns ≡ w.campaigns ++ c ∷ [])) =
      ground arith in
    elim outcome [
      | inl kept ↦ Steps-kept i w (create_campaign env input now w).1 kept
      | inr (free, wrote) ↦ rw wrote (
          Evolved-append campaign_key CampaignBorn CampaignStep CampaignStep-refl i c w.campaigns
            free (new_campaign-Born (env.ids w.drawn) input now named))
    ]

more_cases-Step :
    (n now : ℕ) (c : Campaign)
    → CampaignStep c
        (updated_campaign (record c { total_cases = c.total_cases + n; updated_at = now }) c)
more_cases-Step n now c = record {
  edge = stay;
  balanced = λ b. b;
  totals = omega arith;
  dones = omega arith;
  successes = omega arith;
  failures = omega arith;
  finished = λ r f. ground arith;
  same_id = ground arith;
  same_tenant = ground arith;
  same_mode = ground arith;
}

store_cases-campaigns :
    (env : Env) (c : Campaign) (cs : List CampaignCase) (now : ℕ) (w : World)
    → ((store_cases env c cs now w).1.campaigns ≡ w.campaigns)
      ⊎ ((store_cases env c cs now w).1.campaigns
          ≡ update_by campaign_key c.id
              (updated_campaign
                (record c { total_cases = c.total_cases + length cs; updated_at = now }))
              w.campaigns)
unfolding store_cases
store_cases-campaigns env c [] now w = ground arith
store_cases-campaigns env c (d ∷ ds) now w = ground arith

import_cases-campaigns :
    (env : Env) (id : ℕ) (inputs : List CaseInput) (now : ℕ) (w : World) (c : Campaign)
    → campaign_of id w.campaigns ≡ some c
    → ((import_cases env id inputs now w).1.campaigns ≡ w.campaigns)
      ⊎ ((import_cases env id inputs now w).1.campaigns
          ≡ update_by campaign_key c.id
              (updated_campaign (record c {
                total_cases =
                    c.total_cases
                    + length (imported env c id inputs now (record w { queries = w.queries + 1 }));
                updated_at = now;
              }))
              w.campaigns)
unfolding import_cases
import_cases-campaigns env id inputs now w c e =
    let w1 : World = record w { queries = w.queries + 1 } in
    let cs = imported env c id inputs now w1 in
    let asked = asked_dnc env (numbers_of inputs) w1 in
    ground
      (arith, store_cases-campaigns env c cs now (record asked { drawn = asked.drawn + length cs }))

pub import_cases-Steps :
    (env : Env) (id : ℕ) (inputs : List CaseInput) (now i : ℕ) (w : World)
    → Steps i w (import_cases env id inputs now w).1
unfolding import_cases
import_cases-Steps env id inputs now i w = elim (Option-cases (campaign_of id w.campaigns)) [
  | inl e ↦ Steps-kept i w (import_cases env id inputs now w).1 (ground arith)
  | inr (d, e) ↦
      let n = length (imported env d id inputs now (record w { queries = w.queries + 1 })) in
      let wrote = import_cases-campaigns env id inputs now w d e in
      Steps-written i id (λ c. record c { total_cases = c.total_cases + n; updated_at = now })
        (λ c. true) w (import_cases env id inputs now w).1 (λ c. refl)
        (λ c m. more_cases-Step n now c) (λ a. ground arith)
        (λ c f. let same : d ≡ c = cc (e, f) in ground (arith, wrote))
]
