-- ===== src/Dialer/Service.antt =====
-- internal/application/dialer/service.go: the dialer. Numbers of slots below 0 count like 0, which
-- every use of them does too; rates and ratios are exact, in thousandths.
use ccc.Prelude.{
  ℕ, zero, suc, ◌+◌, ◌-◌, ◌*◌, ◌/◌, Bool, true, false, ◌&&◌, Option, none, some, [], ◌∷◌, ◌++◌, map,
  ◌==◌, leb, ltb, if◌then◌else◌, is_empty, ok, err,
}
use ccc.Campaign.Entity.{
  DialingMode, predictive, preview, progressive, power, other_mode, Campaign, CampaignCase, running,
}
use ccc.Campaign.World as Campaigns
use ccc.Campaign.Service.{is, get_next_case}
use ccc.Dialer.World.{Env, World, DialerState, set_at, codes, lower, contains}

-- `state.activeCalls++; state.totalDialed++`
abbrev pub one_more : DialerState → DialerState
one_more d = record d { active_calls = d.active_calls + 1; total_dialed = d.total_dialed + 1 }

abbrev pub earlier : ℕ → ℕ → ℕ
earlier a b = if ltb b a then b else a

-- The slots of the power mode, and of the predictive mode before the throttle.
abbrev pub slots_of : Campaign → ℕ → ℕ
slots_of c active =
    let slots = c.ratio_multiplier / 1000 - active in
    if ltb 0 c.concurrent_limit then earlier slots (c.concurrent_limit - active) else slots

abbrev pub is_at_limit : Campaign → ℕ → Bool
is_at_limit c active = ltb 0 c.concurrent_limit && leb c.concurrent_limit active

-- `abandonRate > c.MaxAbandonRate`: abandoned of total in percent, against thousandths of a percent.
abbrev pub is_over_rate : Campaign → DialerState → Bool
is_over_rate c d =
    ltb 0 c.max_abandon_rate
    && ltb 0 d.total_dialed
    && ltb (c.max_abandon_rate * d.total_dialed) (d.abandon_count * 100000)

-- `overshoot >= 2.0` leaves none; else the slots are divided by it, and one is left at least.
abbrev pub throttled : Campaign → DialerState → ℕ → ℕ
throttled c d slots =
    if leb (2 * (c.max_abandon_rate * d.total_dialed)) (d.abandon_count * 100000)
    then 0
    else let n = slots * (c.max_abandon_rate * d.total_dialed) / (d.abandon_count * 100000) in
      if ltb n 1 then 1 else n

abbrev pub predictive_slots : Campaign → DialerState → ℕ
predictive_slots c d =
    let slots = slots_of c d.active_calls in if is_over_rate c d then throttled c d slots else slots

abbrev pub hours_of : Campaign → ℕ × ℕ
hours_of c =
    if (c.schedule_start_hour == 0) && (c.schedule_end_hour == 0)
    then (9, 20)
    else (c.schedule_start_hour, c.schedule_end_hour)

module _ (env : Env) where
  abbrev pub is_within_schedule : Campaign → ℕ → Bool
  is_within_schedule c now =
      let (weekday, hour) = env.local_time c.timezone now in
      (if is_empty c.schedule_days
        then true
        else contains (map lower (codes c.schedule_days)) weekday)
      && leb (hours_of c).0 hour
      && ltb hour (hours_of c).1

  -- `cs, err := s.campaignSvc.GetNextCase(ctx, c.ID); if err != nil || cs == nil { return }`
  unfoldable pub next_case : ℕ → ℕ → World → Option CampaignCase × World
  unfolding get_next_case
  next_case id now w =
      let (r, s) = get_next_case env.campaigns id now w.store in
      (elim r [ err _ ↦ none | ok found ↦ found ], record w { store = s })

  -- One call more in the state, and its goroutine.
  abbrev pub spawn : Campaign → CampaignCase → ℕ → World → World
  spawn c cs state w = record w {
    states = set_at state (one_more (w.states state)) w.states;
    spawned =
        w.spawned ++ record { campaign_id = c.id; tenant_id = c.tenant_id; dialed_case = cs } ∷ [];
  }

  -- `for i := 0; i < slots; i++`
  unfoldable pub dial_slots : ℕ → Campaign → ℕ → ℕ → World → World
  unfolding next_case
  dial_slots zero c state now w = w
  dial_slots (suc n) c state now w = elim (next_case c.id now w).0 [
    | none ↦ (next_case c.id now w).1
    | some cs ↦ dial_slots n c state now (spawn c cs state (next_case c.id now w).1)
  ]

  unfoldable pub dial_predictive : Campaign → ℕ → ℕ → World → World
  unfolding dial_slots
  dial_predictive c state now w =
      if is_at_limit c (w.states state).active_calls
      then w
      else dial_slots (predictive_slots c (w.states state)) c state now w

  unfoldable pub dial_progressive : Campaign → ℕ → ℕ → World → World
  unfolding dial_slots
  dial_progressive c state now w =
      if leb 1 (w.states state).active_calls then w else dial_slots 1 c state now w

  unfoldable pub dial_power : Campaign → ℕ → ℕ → World → World
  unfolding dial_slots
  dial_power c state now w =
      if is_at_limit c (w.states state).active_calls
      then w
      else dial_slots (slots_of c (w.states state).active_calls) c state now w

  -- `close(state.stopCh); delete(s.active, campaignID)`
  unfoldable pub stop_dialing : ℕ → World → World
  stop_dialing id w = record w { active = set_at id none w.active }

  -- The switch on the mode.
  unfoldable pub dial_in_mode : DialingMode → Campaign → ℕ → ℕ → World → World
  unfolding dial_predictive dial_progressive dial_power
  dial_in_mode predictive c state now w = dial_predictive c state now w
  dial_in_mode preview c state now w = w
  dial_in_mode progressive c state now w = dial_progressive c state now w
  dial_in_mode power c state now w = dial_power c state now w
  dial_in_mode other_mode c state now w = w

  unfoldable pub dial_batch : ℕ → ℕ → ℕ → World → World
  unfolding stop_dialing dial_in_mode Campaigns.get_campaign
  dial_batch id state now w =
      let (r, s) = Campaigns.get_campaign env.campaigns id w.store in
      let w' : World = record w { store = s } in
      elim r [
        | err _ ↦ w'
        | ok c ↦ elim (is c.status running) [
          | false ↦ stop_dialing id w'
          | true ↦
              if is_within_schedule c now
              then dial_in_mode (w.states state).mode c state now w'
              else w'
        ]
      ]
