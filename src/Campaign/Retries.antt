-- ===== src/Campaign/Retries.antt =====
-- What becomes of a case that fails again and again.
use ccc.Prelude.{
  ℕ, zero, suc, ◌+◌, ◌≤◌, ◌≡◌, refl, true, false, some, arith, inl, inr, if◌then◌else◌, ◌==◌, leb,
  ==_refl, Bool-cases, ◌∙◌,
}
use ccc.Prelude.Rows.{update_by, row_by-update, row_by-key}
use ccc.Campaign.Entity.{Campaign, CampaignCase, failed}
use ccc.Campaign.World.{
  Env, World, campaign_of, case_of, campaign_key, case_key, updated_campaign, updated_case,
}
use ccc.Campaign.Service.{with_failure, auto_complete}
use ccc.Campaign.Cases.{mark_case_failed, retried}

-- What a failed attempt writes while the database answers.
failed-cases :
    (env : Env) (id now : ℕ) (w : World) (cs : CampaignCase) (c : Campaign)
    → ((n : ℕ) → env.db_fails n ≡ false)
    → case_of id w.cases ≡ some cs
    → campaign_of cs.campaign_id w.campaigns ≡ some c
    → (mark_case_failed env id now w).1.cases
      ≡ update_by case_key cs.id
          (updated_case (retried c.max_retries c.retry_interval_sec now cs))
          w.cases
unfolding mark_case_failed
failed-cases env id now w cs c never found owner = grind (arith, never)

failed-campaigns :
    (env : Env) (id now : ℕ) (w : World) (cs : CampaignCase) (c : Campaign)
    → ((n : ℕ) → env.db_fails n ≡ false)
    → case_of id w.cases ≡ some cs
    → campaign_of cs.campaign_id w.campaigns ≡ some c
    → (mark_case_failed env id now w).1.campaigns ≡ (
        if leb c.max_retries (cs.attempt_count + 1)
        then update_by campaign_key c.id (updated_campaign (with_failure now c)) w.campaigns
        else w.campaigns)
unfolding mark_case_failed auto_complete
failed-campaigns env id now w cs c never found owner = grind (arith, never)

case_after :
    (env : Env) (id now : ℕ) (w : World) (cs : CampaignCase) (c : Campaign)
    → ((n : ℕ) → env.db_fails n ≡ false)
    → case_of id w.cases ≡ some cs
    → campaign_of cs.campaign_id w.campaigns ≡ some c
    → case_of id (mark_case_failed env id now w).1.cases
      ≡ some (updated_case (retried c.max_retries c.retry_interval_sec now cs) cs)
case_after env id now w cs c never found owner =
    let at : (cs.id == id) ≡ true =
      ground (arith, ==_refl id, row_by-key case_key id w.cases cs found) in
    rw (failed-cases env id now w cs c never found owner) (
      rw
        (row_by-update case_key id cs.id
          (updated_case (retried c.max_retries c.retry_interval_sec now cs)) w.cases (λ x. refl))
        (rw (at, found) refl))

retried_count :
    (m r now : ℕ) (cs : CampaignCase) → (retried m r now cs).attempt_count ≡ cs.attempt_count + 1
retried_count m r now cs = ground arith

-- The campaign keeps its limit of attempts.
limit_after :
    (env : Env) (id now : ℕ) (w : World) (cs : CampaignCase) (c : Campaign)
    → ((n : ℕ) → env.db_fails n ≡ false)
    → case_of id w.cases ≡ some cs
    → campaign_of cs.campaign_id w.campaigns ≡ some c
    → (d : Campaign) × (campaign_of cs.campaign_id (mark_case_failed env id now w).1.campaigns
        ≡ some d)
      × (d.max_retries ≡ c.max_retries)
unfolding auto_complete
limit_after env id now w cs c never found owner =
    let at : (c.id == cs.campaign_id) ≡ true =
      ground (
        arith,
        ==_refl cs.campaign_id,
        row_by-key campaign_key cs.campaign_id w.campaigns c owner,
      ) in
    rw (failed-campaigns env id now w cs c never found owner)
      (elim (Bool-cases (leb c.max_retries (cs.attempt_count + 1))) [
        | inl last ↦ (
          updated_campaign (with_failure now c) c,
          rw
              (
                last,
                row_by-update campaign_key cs.campaign_id c.id
                    (updated_campaign (with_failure now c)) w.campaigns (λ x. refl),
              )
              (rw (at, owner) refl),
          ground arith,
        )
        | inr more ↦ (c, rw more owner, refl)
      ])

-- `n` failed attempts of one case, one after the other.
unfoldable pub fail_times : ℕ → Env → ℕ → ℕ → World → World
fail_times zero env id now w = w
fail_times (suc n) env id now w = fail_times n env id now (mark_case_failed env id now w).1

-- Retries end: while the database answers, a case whose attempts reach the limit of its campaign with
-- the n-th failure in a row, or have reached it before, is failed for good, and all n are counted.
pub fail_times-IsFailed :
    (n : ℕ) (env : Env) (id now : ℕ) (w : World) (cs : CampaignCase) (c : Campaign)
    → ((q : ℕ) → env.db_fails q ≡ false)
    → case_of id w.cases ≡ some cs
    → campaign_of cs.campaign_id w.campaigns ≡ some c
    → c.max_retries ≤ cs.attempt_count + suc n
    → (d : CampaignCase) × (case_of id (fail_times (suc n) env id now w).cases ≡ some d)
      × (d.status ≡ failed)
      × (d.attempt_count ≡ cs.attempt_count + suc n)
unfolding fail_times
fail_times-IsFailed zero env id now w cs c never found owner enough = (
  updated_case (retried c.max_retries c.retry_interval_sec now cs) cs,
  case_after env id now w cs c never found owner,
  ground arith,
  ground arith,
)
fail_times-IsFailed (suc n) env id now w cs c never found owner enough =
    let counted = retried_count c.max_retries c.retry_interval_sec now cs in
    let next = updated_case (retried c.max_retries c.retry_interval_sec now cs) cs in
    let (d, owned, same) = limit_after env id now w cs c never found owner in
    let (e, at, gone, count) =
      fail_times-IsFailed n env id now (mark_case_failed env id now w).1 next d never
        (case_after env id now w cs c never found owner) owned (rw (same, counted) (omega arith)) in
    (e, at, gone, count ∙ rw counted (omega arith))
