-- ===== src/Campaign/Lifecycle.antt =====
-- The specification of a campaign's life: internal/domain/campaign/entity.go has the states.
use ccc.Prelude.{◌+◌, ◌≤◌, ◌<◌, ◌≡◌, arith}
use ccc.Campaign.Entity.{Campaign, CampaignStatus, draft, running, paused, aborted}

infix 40 ◌⟶◌
pub data ◌⟶◌ : CampaignStatus → CampaignStatus → Type 0 where
  stay : {s : CampaignStatus} → s ⟶ s
  begin : draft ⟶ running
  resume : paused ⟶ running
  suspend : running ⟶ paused
  stop : running ⟶ aborted
  stop_paused : paused ⟶ aborted
  finish : running ⟶ CampaignStatus.completed

pub ruleset edges = (stay, begin, resume, suspend, stop, stop_paused, finish)

-- A campaign counts no more successes and failures than cases done.
abbrev pub IsBalanced : Campaign → Type 0
IsBalanced c = c.success_cases + c.failed_cases ≤ c.completed_cases

-- How one request may change a campaign.
pub record CampaignStep (c c' : Campaign) : Type 0 where
  pub edge : c.status ⟶ c'.status
  pub balanced : IsBalanced c → IsBalanced c'
  pub totals : c.total_cases ≤ c'.total_cases
  pub dones : c.completed_cases ≤ c'.completed_cases
  pub successes : c.success_cases ≤ c'.success_cases
  pub failures : c.failed_cases ≤ c'.failed_cases
  pub finished :
      c.status ≡ running
      → c'.status ≡ CampaignStatus.completed
      → (0 < c'.total_cases) × (c'.total_cases ≤ c'.completed_cases)
  pub same_id : c'.id ≡ c.id
  pub same_tenant : c'.tenant_id ≡ c.tenant_id
  pub same_mode : c'.dialing_mode ≡ c.dialing_mode

-- A campaign that is new.
pub record CampaignBorn (c : Campaign) : Type 0 where
  pub named : 0 < c.id
  pub drafted : c.status ≡ draft
  pub uncounted : c.total_cases + c.completed_cases + c.success_cases + c.failed_cases ≡ 0

pub CampaignStep-refl : (c : Campaign) → CampaignStep c c
CampaignStep-refl c = record {
  edge = stay;
  balanced = λ b. b;
  totals = omega arith;
  dones = omega arith;
  successes = omega arith;
  failures = omega arith;
  finished = λ r f. ground arith;
  same_id = ground arith;
  same_tenant = ground arith;
  same_mode = ground arith;
}

-- Steps in a row.
pub data Progress : Campaign → Campaign → Type 0 where
  done : {c : Campaign} → Progress c c
  then : {c d e : Campaign} → CampaignStep c d → Progress d e → Progress c e

-- A new campaign, and steps in a row.
abbrev pub Grown : Campaign → Type 0
Grown d = (c : Campaign) × CampaignBorn c × Progress c d
