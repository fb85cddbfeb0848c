-- ===== src/Dialer/Bounds.antt =====
-- How many calls one tick of a dialer places, and which: internal/application/dialer/service.go.
use ccc.Prelude.{ℕ, ◌+◌, ◌≤◌, ◌<◌, ◌≡◌, refl, sym, some, ◌⊎◌, inl, inr, arith, Bool-cases, leb}
use mathlib.Core.Path.{subst}
use ccc.Campaign.Entity.{
  Campaign, DialingMode, predictive, preview, progressive, power, other_mode, running,
}
use ccc.Campaign.World as Campaigns
use ccc.Campaign.Service.{is}
use ccc.Dialer.World.{Env, World}
use ccc.Dialer.Service.{
  dial_slots, dial_predictive, dial_progressive, dial_power, dial_in_mode, dial_batch, slots_of,
  predictive_slots, is_at_limit, stop_dialing, is_within_schedule,
}
use ccc.Dialer.Placed.{Placed, Placed-none, Placed-asked, dial_slots-Placed}
use ccc.Dialer.Slots.{predictive_slots_le}

-- The new calls fit in the limit of concurrent calls.
abbrev pub WithinLimit : ℕ → Campaign → ℕ → ℕ → World → World → Type 0
WithinLimit k c state now w w' =
    Placed k c state now w w' × ((k ≡ 0) ⊎ ((w.states state).active_calls + k ≤ c.concurrent_limit))

module _ (env : Env) where
  -- No call more, or as many as there are slots.
  kept-WithinLimit :
      (c : Campaign) (state now : ℕ) (w w' : World)
      → w'.states ≡ w.states
      → w'.spawned ≡ w.spawned
      → (k : ℕ) × WithinLimit k c state now w w'
  kept-WithinLimit c state now w w' s t = (0, (Placed-none c state now w w' s t, inl refl))

  slots-WithinLimit :
      (n : ℕ) (c : Campaign) (state now : ℕ) (w w' : World)
      → w' ≡ dial_slots env n c state now w
      → (w.states state).active_calls + n ≤ c.concurrent_limit
      → (k : ℕ) × WithinLimit k c state now w w'
  slots-WithinLimit n c state now w w' same fits =
      let (k, small, placed) = dial_slots-Placed env n c state now w in
      (k, (subst (Placed k c state now w) (sym same) placed, inr (omega (arith, small, fits))))

  dial_power-WithinLimit :
      (c : Campaign) (state now : ℕ) (w : World)
      → 0 < c.concurrent_limit
      → (k : ℕ) × WithinLimit k c state now w (dial_power env c state now w)
  unfolding dial_power
  dial_power-WithinLimit c state now w limited =
      elim (Bool-cases (is_at_limit c (w.states state).active_calls)) [
        | inl f ↦
            kept-WithinLimit c state now w (dial_power env c state now w) (ground (arith, f))
              (ground (arith, f))
        | inr f ↦
            slots-WithinLimit (slots_of c (w.states state).active_calls) c state now w _
              (ground (arith, f)) (ground (arith, f, limited))
      ]

  dial_predictive-WithinLimit :
      (c : Campaign) (state now : ℕ) (w : World)
      → 0 < c.concurrent_limit
      → (k : ℕ) × WithinLimit k c state now w (dial_predictive env c state now w)
  unfolding dial_predictive
  dial_predictive-WithinLimit c state now w limited =
      let d = w.states state in
      elim (Bool-cases (is_at_limit c d.active_calls)) [
        | inl f ↦
            kept-WithinLimit c state now w (dial_predictive env c state now w) (ground (arith, f))
              (ground (arith, f))
        | inr f ↦
            slots-WithinLimit (predictive_slots c d) c state now w _ (ground (arith, f))
              (predictive_slots_le c d limited f)
      ]

  dial_progressive-WithinLimit :
      (c : Campaign) (state now : ℕ) (w : World)
      → 0 < c.concurrent_limit
      → (k : ℕ) × WithinLimit k c state now w (dial_progressive env c state now w)
  unfolding dial_progressive
  dial_progressive-WithinLimit c state now w limited =
      elim (Bool-cases (leb 1 (w.states state).active_calls)) [
        | inl f ↦
            kept-WithinLimit c state now w (dial_progressive env c state now w) (ground (arith, f))
              (ground (arith, f))
        | inr f ↦
            slots-WithinLimit 1 c state now w _ (ground (arith, f)) (ground (arith, f, limited))
      ]

  dial_in_mode-WithinLimit :
      (mode : DialingMode) (c : Campaign) (state now : ℕ) (w : World)
      → 0 < c.concurrent_limit
      → (k : ℕ) × WithinLimit k c state now w (dial_in_mode env mode c state now w)
  unfolding dial_in_mode
  dial_in_mode-WithinLimit predictive c state now w l = dial_predictive-WithinLimit c state now w l
  dial_in_mode-WithinLimit preview c state now w l = kept-WithinLimit c state now w w refl refl
  dial_in_mode-WithinLimit progressive c state now w l =
      dial_progressive-WithinLimit c state now w l
  dial_in_mode-WithinLimit power c state now w l = dial_power-WithinLimit c state now w l
  dial_in_mode-WithinLimit other_mode c state now w l = kept-WithinLimit c state now w w refl refl

  -- One tick of the dialer of a campaign with a limit, in every mode and whatever the database
  -- answers: the calls that it adds stay within the limit of concurrent calls; and all of them are for
  -- one case, the next that is due when the tick begins.
  pub dial_batch-WithinLimit :
      (id state now : ℕ) (w : World) (c : Campaign)
      → Campaigns.campaign_of id w.store.campaigns ≡ some c
      → 0 < c.concurrent_limit
      → (k : ℕ) × WithinLimit k c state now w (dial_batch env id state now w)
  unfolding dial_batch Campaigns.get_campaign stop_dialing
  dial_batch-WithinLimit id state now w c found limited =
      let w' : World = record w { store = record w.store { queries = w.store.queries + 1 } } in
      elim (Bool-cases (env.campaigns.db_fails w.store.queries)) [
        | inl f ↦
            kept-WithinLimit c state now w (dial_batch env id state now w) (ground (arith, f))
              (ground (arith, f))
        | inr f ↦ elim (Bool-cases (is c.status running)) [
          | inr r ↦
              kept-WithinLimit c state now w (dial_batch env id state now w)
                (ground (arith, f, r, found)) (ground (arith, f, r, found))
          | inl r ↦ elim (Bool-cases (is_within_schedule env c now)) [
            | inr s ↦
                kept-WithinLimit c state now w (dial_batch env id state now w)
                  (ground (arith, f, r, s, found)) (ground (arith, f, r, s, found))
            | inl s ↦
                let mode = (w.states state).mode in
                let same : dial_batch env id state now w ≡ dial_in_mode env mode c state now w' =
                  ground (arith, f, r, s, found) in
                let (k, within) = dial_in_mode-WithinLimit mode c state now w' limited in
                let from = Placed-asked k c state now (w.store.queries + 1) w _ within.0 in
                (k, (subst (Placed k c state now w) (sym same) from, within.1))
          ]
        ]
      ]
