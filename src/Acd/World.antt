-- ===== src/Acd/World.antt =====
-- What the dispatcher acts on (internal/application/acd/service.go): its keys in Redis, and behind
-- the interfaces LifecycleService, PresenceRepo, MembersRepo, SkillGroups and CallLookup the rest of
-- the program, a state `S` of its own. A command of Redis that reports an error has done nothing.
use ccc.Prelude.{
  ℕ, ◌+◌, String, Bool, true, false, ◌&&◌, Option, none, some, List, [], ◌∷◌, ◌==◌, leb, ltb,
  if◌then◌else◌, length,
}
use ccc.Prelude.Int.{ℤ}
use ccc.Flow.Names.{◌==◌ as same_text}
use ccc.Presence.Entity.{AgentPresence}
use ccc.Acd.Queue.{Entry, has_member, remove_member, add_entry}

-- `other_policy` stands for least_recent, skill_weight and any other string.
pub data RoutingPolicy : Type 0 where
  round_robin random familiar_agent other_policy : RoutingPolicy

-- The fields of identity.SkillGroup (internal/domain/identity/entity.go) that the dispatcher reads.
-- A negative number counts like 0.
pub record SkillGroup : Type 0 where
  pub id : ℕ
  pub tenant_id : ℕ
  pub routing_policy : RoutingPolicy
  pub max_queue_size : ℕ
  pub max_wait_sec : ℕ
  pub overflow_group : Option ℕ

-- The interfaces; none is an error or nil. A call has a tenant and a caller; `find_call` is none for
-- a nil CallLookup. `ring` and `end_call` answer whether they succeeded.
pub record Backend (S : Type 0) : Type 0 where
  pub find_group : ℕ → S → Option SkillGroup
  pub members_of : ℕ → S → Option (List ℕ)
  pub presences_of : List ℕ → S → Option (List AgentPresence)
  pub find_call : Option (ℤ → S → Option (ℕ × String))
  pub ring : ℤ → ℕ → S → Bool × S
  pub end_call : ℤ → S → Bool × S

-- `rolls` are the raw draws of the random generator; `walk` is the order in which Go walks a map.
pub record Env : Type 0 where
  pub redis_fails : ℕ → Bool
  pub rolls : ℕ → ℕ
  pub walk : List (ℕ × SkillGroup) → List (ℕ × SkillGroup)

-- Agents remembered for a tenant and a caller, with the time the key expires.
pub record Memory : Type 0 where
  pub tenant_id : ℕ
  pub caller : String
  pub agent_id : ℕ
  pub expires_at : ℕ

-- A claim is none, or the time in milliseconds that its key expires; `commands` counts those sent.
pub record World (S : Type 0) : Type 0 where
  pub backend : S
  pub queues : ℕ → List Entry
  pub active_groups : List ℕ
  pub claims : ℕ → Option ℕ
  pub cursors : ℕ → ℕ
  pub memories : List Memory
  pub commands : ℕ
  pub rolled : ℕ

abbrev pub set_at : {A : Type 0} → ℕ → A → (ℕ → A) → ℕ → A
set_at i a f j = if i == j then a else f j

abbrev pub agent_claim_ttl : ℕ
agent_claim_ttl = 30000

-- The active groups are a set.
unfoldable pub add_group : ℕ → List ℕ → List ℕ
add_group id [] = id ∷ []
add_group id (g ∷ gs) = if g == id then g ∷ gs else g ∷ add_group id gs

-- A claim that has expired is none.
abbrev pub is_free : ℕ → Option ℕ → Bool
is_free now none = true
is_free now (some at) = leb at now

-- The entry of a key that has not expired.
unfoldable pub remembered : ℕ → String → ℕ → List Memory → Option ℕ
remembered tenant caller now [] = none
remembered tenant caller now (m ∷ ms) =
    let rest = remembered tenant caller now ms in
    if (m.tenant_id == tenant) && same_text m.caller caller && ltb now m.expires_at
    then some m.agent_id
    else rest

module _ {S : Type 0} (env : Env) where
  -- The length, 0 with an error.
  unfoldable pub zcard : ℕ → World S → ℕ × World S
  zcard id w = (
    if env.redis_fails w.commands then 0 else length (w.queues id),
    record w { commands = w.commands + 1 },
  )

  -- Whether it succeeded.
  unfoldable pub zadd : ℕ → Entry → World S → Bool × World S
  zadd id e w = elim (env.redis_fails w.commands) [
    | true ↦ (false, record w { commands = w.commands + 1 })
    | false ↦ (
      true,
      record w {
        commands = w.commands + 1;
        queues = set_at id (add_entry e (w.queues id)) w.queues;
      },
    )
  ]

  -- `removed, err := ...ZRem(...)`: whether the member was there and is gone.
  unfoldable pub zrem : ℕ → List ℕ → World S → Bool × World S
  zrem id m w = elim (env.redis_fails w.commands) [
    | true ↦ (false, record w { commands = w.commands + 1 })
    | false ↦ (
      has_member m (w.queues id),
      record w {
        commands = w.commands + 1;
        queues = set_at id (remove_member m (w.queues id)) w.queues;
      },
    )
  ]

  -- The whole queue, or its head; empty with an error.
  unfoldable pub zrange : ℕ → World S → List Entry × World S
  zrange id w = (
    if env.redis_fails w.commands then [] else w.queues id,
    record w { commands = w.commands + 1 },
  )

  -- SADD of the active groups.
  unfoldable pub sadd : ℕ → World S → Bool × World S
  sadd id w = elim (env.redis_fails w.commands) [
    | true ↦ (false, record w { commands = w.commands + 1 })
    | false ↦
        (true, record w { commands = w.commands + 1; active_groups = add_group id w.active_groups })
  ]

  -- SETNX with the time to live.
  unfoldable pub try_claim : ℕ → ℕ → World S → Bool × World S
  try_claim agent now w = elim (env.redis_fails w.commands) [
    | true ↦ (false, record w { commands = w.commands + 1 })
    | false ↦ elim (is_free now (w.claims agent)) [
      | false ↦ (false, record w { commands = w.commands + 1 })
      | true ↦ (
        true,
        record w {
          commands = w.commands + 1;
          claims = set_at agent (some (now + agent_claim_ttl)) w.claims;
        },
      )
    ]
  ]

  -- DEL; the error is dropped.
  unfoldable pub release_claim : ℕ → World S → World S
  release_claim agent w = elim (env.redis_fails w.commands) [
    | true ↦ record w { commands = w.commands + 1 }
    | false ↦ record w { commands = w.commands + 1; claims = set_at agent none w.claims }
  ]
