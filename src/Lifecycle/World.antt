-- ===== src/Lifecycle/World.antt =====
-- internal/application/lifecycle/service.go: the state that the lifecycle service joins, and the
-- interfaces that it calls. The tables of calls, of agents' presence and of campaigns are those of the
-- three domain services; what a message bus, a webhook or a survey does is not part of the service, so
-- their calls are kept in a list. internal/infrastructure/redis/concurrency.go counts a tenant's calls.
use ccc.Prelude.{
  ℕ, ◌+◌, String, Bool, true, false, Option, none, some, List, [], ◌∷◌, ◌++◌, ◌==◌, if◌then◌else◌,
  Result,
}
use ccc.Prelude.Int.{ℤ, pos, negsuc, ◌+ℤ◌, ltb_ℤ}
use ccc.Call.Entity.{Call}
use ccc.Call.Entity
use ccc.Call.World.{Env as CallEnv, World as CallWorld}
use ccc.Presence.World.{Env as PresenceEnv, World as PresenceWorld}
use ccc.Campaign.World.{Env as CampaignEnv, World as CampaignWorld}

pub record Recording : Type 0 where
  pub tenant_id : ℕ
  pub call_id : ℕ
  pub agent_user_id : Option ℕ
  pub file_path : String
  pub duration_sec : ℤ
  pub encrypted : Bool
  pub created_at : ℕ

pub record QueueSnapshot : Type 0 where
  pub tenant_id : ℕ
  pub skill_group_id : ℕ
  pub waiting_count : ℕ
  pub snapshot_at : ℕ

-- The row that RecordIVRTracking writes for a flow that failed.
pub record IvrTracking : Type 0 where
  pub call_id : ℕ
  pub tenant_id : ℕ
  pub ivr_flow_id : ℕ
  pub entered_at : ℕ

pub data Moment : Type 0 where
  created queued ringing answered ended : Moment

-- The calls of other systems, with their arguments.
pub data Effect : Type 0 where
  hangup_channel announce start_recording : String → Effect
  notify_agent : ℕ → Moment → Call → Effect
  publish deliver : Moment → Call → Effect
  screen_pop : Call → Effect
  trigger_survey : (tenant call : ℕ) (agent : Option ℕ) → Effect
  record_interaction : (customer : ℕ) → Call → Effect
  remember_agent : (tenant : ℕ) (caller : String) (agent days : ℕ) → Effect
  auto_inspect : (tenant call : ℕ) → Effect
  create_ticket : (tenant : ℕ) (caller : String) (count call : ℕ) → Effect

-- An interface that is nil is none or false. `limit_of` is s.concurrency with s.tenantSettings, and a
-- command to Redis may fail, by its number.
pub record Env : Type 0 where
  pub calls : CallEnv
  pub presence : Option PresenceEnv
  pub campaigns : Option CampaignEnv
  pub limit_of : Option (ℕ → ℤ)
  pub redis_fails : ℕ → Bool
  pub row_fails : ℕ → Bool
  pub keeps_recordings : Bool
  pub keeps_snapshots : Bool
  pub encrypts : Bool
  pub recording_path : ℕ → ℕ → String
  pub has_esl : Bool
  pub announces : ℕ → Bool
  pub has_notifier : Bool
  pub has_publisher : Bool
  pub has_webhook : Bool
  pub has_screen_pop : Bool
  pub has_survey : Bool
  pub has_inspection : Bool
  pub find_customer : Option (ℕ → String → Option ℕ)
  pub familiar_days : Option (ℕ → ℤ)
  pub repeat_count : Option (ℕ → String → Option ℕ)
  pub repeat_threshold : ℕ

-- `slots` are the counters of the concurrency guard; `hooks` are the goroutines of EndCall that have
-- not run yet, with their call; `active_gauge` and `tenant_gauge` are the two gauges of metrics.
pub record World : Type 0 where
  pub calls : CallWorld
  pub presence : PresenceWorld
  pub campaigns : CampaignWorld
  pub slots : ℕ → ℤ
  pub redis_commands : ℕ
  pub rows_written : ℕ
  pub recordings : List Recording
  pub snapshots : List QueueSnapshot
  pub trackings : List IvrTracking
  pub active_gauge : ℤ
  pub tenant_gauge : ℕ → ℤ
  pub effects : List Effect
  pub hooks : List Call

pub data LifecycleError : Type 0 where
  limit_exceeded : LifecycleError
  call_failed : Entity.Error → LifecycleError
  crashed : LifecycleError

abbrev pub Outcome : Type 0 → Type 0
Outcome A = Result LifecycleError A × World

abbrev pub count_at : ℕ → ℤ → (ℕ → ℤ) → ℕ → ℤ
count_at t d m u = if t == u then m u +ℤ d else m u

-- A call of another system, made if it is there.
unfoldable pub emit : Bool → Effect → World → World
emit b e w = if b then record w { effects = w.effects ++ e ∷ [] } else w

-- `for INSERT`: a row of a table that only grows, written unless the statement fails.
unfoldable pub written : {A : Type 0} → Env → World → A → List A → List A
written env w row t = if env.row_fails w.rows_written then t else t ++ row ∷ []

-- ConcurrencyGuard.Acquire: INCR, and DECR where the limit is exceeded; true where Redis fails.
unfoldable pub acquire : Env → ℕ → ℤ → World → Bool × World
acquire env tenant limit w =
    let one = record w { redis_commands = w.redis_commands + 1 } in
    let two = record w { redis_commands = w.redis_commands + 2 } in
    if env.redis_fails w.redis_commands
    then (true, one)
    else (if ltb_ℤ limit (w.slots tenant +ℤ pos 1)
        then (
          false,
          if env.redis_fails (w.redis_commands + 1)
              then record two { slots = count_at tenant (pos 1) w.slots }
              else two,
        )
        else (true, record one { slots = count_at tenant (pos 1) w.slots }))

-- ConcurrencyGuard.Release: DECR, its error dropped.
unfoldable pub release : Env → ℕ → World → World
release env tenant w = elim env.limit_of [
  | none ↦ w
  | some _ ↦ record w {
    redis_commands = w.redis_commands + 1;
    slots =
        if env.redis_fails w.redis_commands then w.slots else count_at tenant (negsuc 0) w.slots;
  }
]

-- checkConcurrencyLimit: false for an error.
unfoldable pub check_concurrency_limit : Env → ℕ → World → Bool × World
unfolding acquire
check_concurrency_limit env tenant w = elim env.limit_of [
  | none ↦ (true, w)
  | some limit_of ↦
      if ltb_ℤ (pos 0) (limit_of tenant) then acquire env tenant (limit_of tenant) w else (true, w)
]
