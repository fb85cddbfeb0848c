-- ===== src/Dialer/Calls.antt =====
-- internal/application/dialer/service.go: the calls that the dialer places, and their results.
use ccc.Prelude.{
  ℕ, ◌+◌, ◌-◌, String, Bool, true, false, not, ◌&&◌, none, some, [], ◌∷◌, ◌++◌, ◌==◌, ltb,
  if◌then◌else◌, Result, ok, err,
}
use ccc.Flow.Names.{◌==◌ as same_text}
use ccc.Campaign.Entity.{Campaign, CampaignError}
use ccc.Campaign.World as Campaigns
use ccc.Campaign.Cases.{mark_case_completed, mark_case_failed}
use ccc.Dialer.World.{Env, World, DialerState, Spawn, set_at}
use ccc.Dialer.Service.{one_more}

pub data DialerError : Type 0 where
  already_active : DialerError
  campaign_error : CampaignError → DialerError

-- `state.activeCalls--`, not below 0.
abbrev pub one_done : Bool → DialerState → DialerState
one_done connected d = record d {
  active_calls = d.active_calls - 1;
  abandon_count = if connected then d.abandon_count else d.abandon_count + 1;
}

-- `if c != nil { tenantID = c.TenantID }`
abbrev pub tenant_of : ℕ → Result CampaignError Campaign → ℕ
tenant_of own (ok c) = c.tenant_id
tenant_of own (err _) = own

module _ (env : Env) where
  -- The goroutine of dialLoop gets the state; its ticks are calls of dial_batch.
  unfoldable pub start_dialing : ℕ → ℕ → World → Result DialerError ℕ × World
  unfolding Campaigns.get_campaign
  start_dialing id now w =
      let (r, s) = Campaigns.get_campaign env.campaigns id w.store in
      let w' : World = record w { store = s } in
      elim r [
        | err e ↦ (err (campaign_error e), w')
        | ok c ↦ elim (w.active id) [
          | some _ ↦ (err already_active, w')
          | none ↦
              let d : DialerState = record {
                mode = c.dialing_mode;
                active_calls = 0;
                abandon_count = 0;
                total_dialed = 0;
                started_at = now;
              } in
              (
                ok w.made,
                record w' {
                  made = w.made + 1;
                  states = set_at w.made d w.states;
                  active = set_at id (some w.made) w.active;
                },
              )
        ]
      ]

  -- Of the state that is active for the campaign, if there is one.
  abbrev pub change_active : ℕ → (DialerState → DialerState) → World → World
  change_active id change w = elim (w.active id) [
    | none ↦ w
    | some state ↦ record w { states = set_at state (change (w.states state)) w.states }
  ]

  unfoldable pub record_call_result : ℕ → ℕ → Bool → ℕ → String → ℕ → World → World
  unfolding mark_case_completed mark_case_failed
  record_call_result id case_id connected duration_sec disposition_code now w =
      let w' = change_active id (one_done connected) w in
      record w' {
        store =
            if connected
            then (mark_case_completed env.campaigns case_id disposition_code duration_sec now
                w'.store).1
            else (mark_case_failed env.campaigns case_id now w'.store).1;
      }

  -- RedisFrequencyChecker.IncrAndCheck; an error counts as allowed. The key is gone after 25 hours,
  -- when its day is over.
  unfoldable pub incr_and_check : String → ℕ → World → Bool × World
  incr_and_check phone now w = elim (env.redis_fails w.commands) [
    | true ↦ (true, record w { commands = w.commands + 1 })
    | false ↦
        let count = w.counts phone (env.day now) + 1 in
        (
          not (ltb env.max_daily count),
          record w {
            commands = w.commands + 1;
            counts =
                λ p. λ d. if same_text p phone && (d == env.day now) then count else w.counts p d;
          },
        )
  ]

  -- `if s.freqChecker != nil && s.maxDailyPerPhone > 0 { ... }`
  unfoldable pub may_dial : String → ℕ → World → Bool × World
  unfolding incr_and_check
  may_dial phone now w = elim (ltb 0 env.max_daily) [
    | false ↦ (true, w)
    | true ↦ incr_and_check phone now w
  ]

  -- The goroutine of a call.
  unfoldable pub dial_case : Spawn → ℕ → World → World
  unfolding may_dial record_call_result
  dial_case s now w =
      let (allowed, w1) = may_dial s.dialed_case.phone_number now w in
      elim allowed [
        | false ↦ record_call_result s.campaign_id s.dialed_case.id false 0 "frequency_limit" now w1
        | true ↦
            let w2 : World = record w1 { dials = w1.dials + 1 } in
            let connected = env.dial_works w1.dials in
            record_call_result s.campaign_id s.dialed_case.id connected 0
              (if connected then "connected" else "dial_failed") now w2
      ]

  unfoldable pub preview_accept : ℕ → World → Result CampaignError (Unit {0}) × World
  unfolding Campaigns.get_case Campaigns.get_campaign
  preview_accept case_id w =
      let (r, s) = Campaigns.get_case env.campaigns case_id w.store in
      elim r [
        | err e ↦ (err e, record w { store = s })
        | ok cs ↦
            let (found, s') = Campaigns.get_campaign env.campaigns cs.campaign_id s in
            let w' = change_active cs.campaign_id one_more (record w { store = s' }) in
            (
              ok tt,
              record w' {
                spawned =
                    w'.spawned
                    ++ record {
                      campaign_id = cs.campaign_id;
                      tenant_id = tenant_of cs.tenant_id found;
                      dialed_case = cs;
                    }
                      ∷ [];
              },
            )
      ]

  -- `_, err := s.campaignSvc.MarkCaseFailed(ctx, caseID); return err`
  unfoldable pub preview_skip : ℕ → ℕ → World → Result CampaignError (Unit {0}) × World
  unfolding mark_case_failed
  preview_skip case_id now w =
      let (r, s) = mark_case_failed env.campaigns case_id now w.store in
      (elim r [ err e ↦ err e | ok _ ↦ ok tt ], record w { store = s })
