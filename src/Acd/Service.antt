-- ===== src/Acd/Service.antt =====
-- internal/application/acd/service.go: the dispatcher, with Redis configured (`s.rdb` is not nil).
-- `now` is the clock in milliseconds.
use ccc.Prelude.{
  ℕ, zero, suc, ◌+◌, ◌*◌, ◌%◌, String, Bool, true, false, ◌&&◌, ◌||◌, Option, none, some, List, [],
  ◌∷◌, ◌==◌, leb, ltb, if◌then◌else◌, length, is_empty, Result, ok, err,
}
use ccc.Prelude.Int.{ℤ, pos, ◌-ℤ◌, ltb_ℤ}
use ccc.Presence.Entity.{AgentPresence, PresenceStatus, idle}
use ccc.Presence.Table.{row_of}
use ccc.Acd.Member.{member_for, parse_member}
use ccc.Acd.Queue.{Entry, score_for}
use ccc.Acd.World.{
  round_robin, random, familiar_agent, other_policy, SkillGroup, Backend, Env, World, Memory,
  remembered, set_at, zcard, zadd, zrem, zrange, sadd, try_claim, release_claim,
}

pub data AcdError : Type 0 where
  queue_full zadd_failed sadd_failed : AcdError

-- `idleAgent`: an agent with the time of its last change of status.
abbrev pub IdleAgent : Type 0
IdleAgent = ℕ × ℕ

abbrev pub is_idle : PresenceStatus → Bool
is_idle idle = true
is_idle _ = false

-- The loop over the members.
unfoldable pub candidates : List ℕ → List AgentPresence → List IdleAgent
unfolding row_of
candidates [] ps = []
candidates (a ∷ rest) ps =
    let others = candidates rest ps in
    elim (row_of a ps) [
      | none ↦ others
      | some p ↦ if is_idle p.status then (a, p.last_status_at) ∷ others else others
    ]

-- The loop of the default policy.
unfoldable pub longest_idle : IdleAgent → List IdleAgent → IdleAgent
longest_idle best [] = best
longest_idle best (c ∷ cs) = longest_idle (if ltb c.1 best.1 then c else best) cs

-- `candidates[i].ID`; 0 stands for the panic behind the end.
unfoldable pub agent_at : ℕ → List IdleAgent → ℕ
agent_at i [] = 0
agent_at zero (c ∷ cs) = c.0
agent_at (suc i) (c ∷ cs) = agent_at i cs

unfoldable pub is_candidate : ℕ → List IdleAgent → Bool
is_candidate a [] = false
is_candidate a (c ∷ cs) = (c.0 == a) || is_candidate a cs

abbrev pub is_zero : ℤ → Bool
is_zero (pos zero) = true
is_zero _ = false

-- An entry of unknown age (0), or not yet due.
abbrev pub is_kept : ℤ → ℤ → Bool
is_kept deadline enqueued_at = is_zero enqueued_at || ltb_ℤ deadline enqueued_at

module _ {S : Type 0} (b : Backend S) (env : Env) where
  -- `if s.calls == nil || err != nil || c == nil || c.Caller == "" { return 0 }`, and the GET.
  unfoldable pub lookup_familiar_agent : ℤ → ℕ → World S → ℕ × World S
  unfolding remembered
  lookup_familiar_agent call now w = elim b.find_call [
    | none ↦ (0, w)
    | some find ↦ elim (find call w.backend) [
      | none ↦ (0, w)
      | some (tenant, caller) ↦ elim (is_empty caller) [
        | true ↦ (0, w)
        | false ↦ (
          if env.redis_fails w.commands
              then 0
              else elim (remembered tenant caller now w.memories) [ none ↦ 0 | some a ↦ a ],
          record w { commands = w.commands + 1 },
        )
      ]
    ]
  ]

  -- SET with the time to live; the error is dropped.
  unfoldable pub remember_agent : ℕ → String → ℕ → ℕ → ℕ → World S → World S
  remember_agent tenant caller agent ttl_days now w =
      elim (is_empty caller || (agent == 0) || (ttl_days == 0)) [
        | true ↦ w
        | false ↦ elim (env.redis_fails w.commands) [
          | true ↦ record w { commands = w.commands + 1 }
          | false ↦
              let m : Memory = record {
                tenant_id = tenant;
                caller = caller;
                agent_id = agent;
                expires_at = now + ttl_days * 24 * 3600000;
              } in
              record w { commands = w.commands + 1; memories = m ∷ w.memories }
        ]
      ]

  -- The switch on the policy, with at least one candidate.
  unfoldable pub choose : SkillGroup → ℤ → ℕ → IdleAgent → List IdleAgent → World S → ℕ × World S
  unfolding longest_idle agent_at is_candidate lookup_familiar_agent
  choose g call now c cs w = elim g.routing_policy [
    | random ↦ (
      agent_at (env.rolls w.rolled % length (c ∷ cs)) (c ∷ cs),
      record w { rolled = w.rolled + 1 },
    )
    | round_robin ↦ elim (env.redis_fails w.commands) [
      | true ↦ (c.0, record w { commands = w.commands + 1 })
      | false ↦ (
        agent_at (w.cursors g.id % length (c ∷ cs)) (c ∷ cs),
        record w {
          commands = w.commands + 1;
          cursors = set_at g.id (w.cursors g.id + 1) w.cursors;
        },
      )
    ]
    | familiar_agent ↦
        let (preferred, w') = lookup_familiar_agent call now w in
        (
          if ltb 0 preferred && is_candidate preferred (c ∷ cs)
              then preferred
              else (longest_idle c cs).0,
          w',
        )
    | other_policy ↦ ((longest_idle c cs).0, w)
  ]

  -- 0 is no agent; the caller treats an error like it.
  unfoldable pub pick_agent : SkillGroup → ℤ → ℕ → World S → ℕ × World S
  unfolding candidates choose
  pick_agent g call now w = elim (b.members_of g.id w.backend) [
    | none ↦ (0, w)
    | some members ↦ elim (b.presences_of members w.backend) [
      | none ↦ (0, w)
      | some ps ↦ elim (candidates members ps) [ [] ↦ (0, w) | c ∷ cs ↦ choose g call now c cs w ]
    ]
  ]

  -- The part of Enqueue behind the checks.
  unfoldable pub store : ℤ → ℕ → ℤ → ℕ → World S → Result AcdError (Unit {0}) × World S
  unfolding zadd sadd
  store call id priority now w =
      let entry : Entry = record {
        score = score_for priority now;
        member = member_for call (pos now);
      } in
      let (added, w') = zadd env id entry w in
      elim added [
        | false ↦ (err zadd_failed, w')
        | true ↦
            let (known, w'') = sadd env id w' in (if known then ok tt else err sadd_failed, w'')
      ]

  -- The fuel counts the groups that the call may visit; none is out of fuel.
  unfoldable pub enqueue :
      ℕ → ℤ → ℕ → ℤ → ℕ → World S → Option (Result AcdError (Unit {0}) × World S)
  unfolding zcard store
  enqueue zero call id priority now w = none
  enqueue (suc fuel) call id priority now w = elim (b.find_group id w.backend) [
    | none ↦ some (store call id priority now w)
    | some g ↦ elim (ltb 0 g.max_queue_size) [
      | false ↦ some (store call id priority now w)
      | true ↦
          let (n, w') = zcard env id w in
          elim (leb g.max_queue_size n) [
            | false ↦ some (store call id priority now w')
            | true ↦ elim g.overflow_group [
              | none ↦ some (err queue_full, w')
              | some other ↦ enqueue fuel call other priority now w'
            ]
          ]
    ]
  ]

  -- The claim, the removal from the queue, and the ringing; a call that does not ring goes back.
  unfoldable pub claim_and_ring : ℕ → ℕ → Entry → ℤ → ℕ → World S → World S
  unfolding try_claim zrem release_claim zadd
  claim_and_ring id now e call agent w =
      let (claimed, w1) = try_claim env agent now w in
      elim claimed [
        | false ↦ w1
        | true ↦
            let (removed, w2) = zrem env id e.member w1 in
            elim removed [
              | false ↦ release_claim env agent w2
              | true ↦
                  let (rings, s) = b.ring call agent w2.backend in
                  let w3 : World S = record w2 { backend = s } in
                  if rings then w3 else (zadd env id e (release_claim env agent w3)).1
            ]
      ]

  unfoldable pub dispatch_head : ℕ → SkillGroup → ℕ → Entry → World S → World S
  unfolding pick_agent claim_and_ring
  dispatch_head id g now e w = elim (parse_member e.member) [
    | none ↦ (zrem env id e.member w).1
    | some (call, _) ↦
        let (agent, w') = pick_agent g call now w in
        if agent == 0 then w' else claim_and_ring id now e call agent w'
  ]

  unfoldable pub dispatch_one : ℕ → SkillGroup → ℕ → World S → World S
  unfolding dispatch_head zrange
  dispatch_one id g now w = elim (zrange env id w).0 [
    | [] ↦ (zrange env id w).1
    | e ∷ _ ↦ dispatch_head id g now e (zrange env id w).1
  ]

  -- One turn of the loop of expireQueued.
  unfoldable pub expire_entry : ℕ → ℤ → Entry → World S → World S
  unfolding zrem
  expire_entry id deadline e w = elim (parse_member e.member) [
    | none ↦ (zrem env id e.member w).1
    | some (call, enqueued_at) ↦ elim (is_kept deadline enqueued_at) [
      | true ↦ w
      | false ↦
          let (removed, w') = zrem env id e.member w in
          elim removed [
            | false ↦ w'
            | true ↦ record w' { backend = (b.end_call call w'.backend).1 }
          ]
    ]
  ]

  unfoldable pub expire_entries : ℕ → ℤ → List Entry → World S → World S
  expire_entries id deadline [] w = w
  expire_entries id deadline (e ∷ es) w =
      expire_entries id deadline es (expire_entry id deadline e w)

  unfoldable pub expire_queued : ℕ → SkillGroup → ℕ → World S → World S
  unfolding expire_entries zrange
  expire_queued id g now w = elim (ltb 0 g.max_wait_sec) [
    | false ↦ w
    | true ↦
        let (entries, w') = zrange env id w in
        expire_entries id (pos now -ℤ pos (g.max_wait_sec * 1000)) entries w'
  ]
