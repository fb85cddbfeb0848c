-- ===== src/Dialer/World.antt =====
-- What the dialer acts on (internal/application/dialer/service.go): the campaigns behind
-- CampaignService, the map of running dialers with the states it points to, the goroutines spawned,
-- and the counters of calls a day in Redis.
use ccc.Prelude.{
  ℕ, ◌+◌, String, Bool, true, false, ◌&&◌, ◌||◌, Option, List, [], ◌∷◌, ◌==◌, leb, if◌then◌else◌,
}
use Prim.Native.Char.{code}
use ccc.Campaign.Entity.{DialingMode, CampaignCase}
use ccc.Campaign.World as Campaigns

-- `local_time` is the weekday, in small letters, and the hour in a time zone ("" is the server's;
-- an unknown one too). `dial_works` answers the calls of dialFn, `max_daily` is
-- `s.maxDailyPerPhone`, 0 also without a FrequencyChecker; `day` is the date of a time.
pub record Env : Type 0 where
  pub campaigns : Campaigns.Env
  pub local_time : String → ℕ → List ℕ × ℕ
  pub dial_works : ℕ → Bool
  pub max_daily : ℕ
  pub redis_fails : ℕ → Bool
  pub day : ℕ → ℕ

pub record DialerState : Type 0 where
  pub mode : DialingMode
  pub active_calls : ℕ
  pub abandon_count : ℕ
  pub total_dialed : ℕ
  pub started_at : ℕ

-- A goroutine of dialCase that has not run yet. `tenant_id` is that of its campaign.
pub record Spawn : Type 0 where
  pub campaign_id : ℕ
  pub tenant_id : ℕ
  pub dialed_case : CampaignCase

-- `active` is `s.active`, from a campaign to its state in `states`; `made` counts the states made.
pub record World : Type 0 where
  pub store : Campaigns.World
  pub active : ℕ → Option ℕ
  pub states : ℕ → DialerState
  pub made : ℕ
  pub spawned : List Spawn
  pub counts : String → ℕ → ℕ
  pub commands : ℕ
  pub dials : ℕ

-- An assignment through a pointer, or to an entry of a map.
abbrev pub set_at : {A : Type 0} → ℕ → A → (ℕ → A) → ℕ → A
set_at i a f j = if i == j then a else f j

-- The code points of a text.
abbrev pub codes : String → List ℕ
codes String.[] = []
codes (String.◌∷◌ c s) = code c ∷ codes s

-- `strings.ToLower` on ASCII.
abbrev pub lower : ℕ → ℕ
lower c = if leb b'A' c && leb c b'Z' then c + 32 else c

abbrev pub starts_with : List ℕ → List ℕ → Bool
starts_with s [] = true
starts_with [] (_ ∷ _) = false
starts_with (a ∷ s) (b ∷ t) = (a == b) && starts_with s t

-- `strings.Contains`
abbrev pub contains : List ℕ → List ℕ → Bool
contains [] t = starts_with [] t
contains (a ∷ s) t = starts_with (a ∷ s) t || contains s t
