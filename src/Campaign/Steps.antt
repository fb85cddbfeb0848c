-- ===== src/Campaign/Steps.antt =====
-- The step that each method takes with the rows of the table `campaigns`.
use ccc.Prelude.{ℕ, ◌≡◌, refl, Bool, true, false, none, some, ◌⊎◌, arith}
use ccc.Prelude.Rows.{Evolved, Evolved-write, Evolved-refl, update_by}
use ccc.Campaign.Entity.{Campaign, CampaignStatus, running, paused, aborted}
use ccc.Campaign.World.{Env, World, campaign_key, campaign_of, updated_campaign}
use ccc.Campaign.Service.{start, pause, abort, may_start, may_abort, is}
use ccc.Campaign.Lifecycle.{CampaignStep, CampaignBorn, CampaignStep-refl, ◌⟶◌, edges}

-- Every row of the table makes a step.
abbrev pub Steps : ℕ → World → World → Type 0
Steps i w w' =
    Evolved CampaignBorn CampaignStep (campaign_of i w.campaigns) (campaign_of i w'.campaigns)

pub Steps-kept : (i : ℕ) (w w' : World) → w'.campaigns ≡ w.campaigns → Steps i w w'
Steps-kept i w w' kept =
    rw kept (Evolved-refl campaign_key CampaignBorn CampaignStep CampaignStep-refl _)

pub Steps-written :
    (i id : ℕ) (change : Campaign → Campaign) (may : Campaign → Bool) (w w' : World)
    → ((c : Campaign) → (change c).id ≡ c.id)
    → ((c : Campaign) → may c ≡ true → CampaignStep c (updated_campaign (change c) c))
    → (campaign_of id w.campaigns ≡ none → w'.campaigns ≡ w.campaigns)
    → ((c : Campaign)
        → campaign_of id w.campaigns ≡ some c
        → (w'.campaigns ≡ w.campaigns)
          ⊎ ((may c ≡ true)
              × (w'.campaigns
                  ≡ update_by campaign_key
                      (change c).id
                      (updated_campaign (change c))
                      w.campaigns)))
    → Steps i w w'
Steps-written i id change may w w' same step missing wrote =
    Evolved-write campaign_key CampaignBorn CampaignStep CampaignStep-refl i id change
      updated_campaign may w.campaigns w'.campaigns same (λ c d. refl) step missing wrote

start-edge : (s : CampaignStatus) → may_start s ≡ true → s ⟶ running
start-edge s h = grind (arith, edges)

abort-edge : (s : CampaignStatus) → may_abort s ≡ true → s ⟶ aborted
abort-edge s h = grind (arith, edges)

pause-edge : (s : CampaignStatus) → is s running ≡ true → s ⟶ paused
pause-edge s h = grind (arith, edges)

-- A change of the state alone.
status-Step :
    (c c' : Campaign)
    → c.status ⟶ c'.status
    → (is c'.status CampaignStatus.completed ≡ false)
    → c' ≡ record c {
      status = c'.status;
      started_at = c'.started_at;
      completed_at = c'.completed_at;
      updated_at = c'.updated_at;
    }
    → CampaignStep c c'
status-Step c c' e open_ same = record {
  edge = e;
  balanced = λ b. ground arith;
  totals = ground arith;
  dones = ground arith;
  successes = ground arith;
  failures = ground arith;
  finished = λ r f. ground arith;
  same_id = ground arith;
  same_tenant = ground arith;
  same_mode = ground arith;
}

pub start-Steps : (env : Env) (id now i : ℕ) (w : World) → Steps i w (start env id now w).1
unfolding start
start-Steps env id now i w =
    Steps-written i id (λ c. record c { status = running; started_at = some now; updated_at = now })
      (λ c. may_start c.status) w (start env id now w).1 (λ c. refl)
      (λ c m. status-Step c _ (start-edge c.status m) refl (ground arith)) (λ e. ground arith)
      (λ c e. ground arith)

pub pause-Steps : (env : Env) (id now i : ℕ) (w : World) → Steps i w (pause env id now w).1
unfolding pause
pause-Steps env id now i w =
    Steps-written i id (λ c. record c { status = paused; updated_at = now })
      (λ c. is c.status running) w (pause env id now w).1 (λ c. refl)
      (λ c m. status-Step c _ (pause-edge c.status m) refl (ground arith)) (λ e. ground arith)
      (λ c e. ground arith)

pub abort-Steps : (env : Env) (id now i : ℕ) (w : World) → Steps i w (abort env id now w).1
unfolding abort
abort-Steps env id now i w =
    Steps-written i id
      (λ c. record c { status = aborted; completed_at = some now; updated_at = now })
      (λ c. may_abort c.status) w (abort env id now w).1 (λ c. refl)
      (λ c m. status-Step c _ (abort-edge c.status m) refl (ground arith)) (λ e. ground arith)
      (λ c e. ground arith)
