-- ===== src/Acd/Dispatch.antt =====
-- What becomes of the head of a queue: internal/application/acd/service.go, dispatchOne.
use ccc.Prelude.{
  ℕ, ◌+◌, ◌≡◌, refl, sym, true, false, none, some, List, ◌∷◌, ◌⊎◌, inl, inr, arith, Option-cases,
  List-cases, Bool-cases, ◌==◌, ==_refl,
}
use mathlib.Core.Path.{subst, ap, ◌∙◌}
use ccc.Prelude.Int.{ℤ}
use ccc.Acd.Member.{parse_member}
use ccc.Acd.Queue.{Entry, IsQueue, has_member, remove_member, same_codes_refl}
use ccc.Acd.Order.{add_entry-back}
use ccc.Acd.World.{
  Backend, Env, World, SkillGroup, is_free, agent_claim_ttl, try_claim, release_claim, zadd, zrem,
  zrange,
}
use ccc.Acd.Service.{
  claim_and_ring, dispatch_head, dispatch_one, pick_agent, IdleAgent, choose, lookup_familiar_agent,
}
use ccc.Acd.Choice.{IsIdleIn, pick_agent-IsIdle}

-- The call of an entry rang at an agent that nobody had claimed, and is claimed now.
pub record Rang {S : Type 0} (b : Backend S) (now agent : ℕ) (call : ℤ) (w w' : World S)
    : Type 0 where
  pub rings : (b.ring call agent w.backend).0 ≡ true
  pub after : w'.backend ≡ (b.ring call agent w.backend).1
  pub unclaimed : is_free now (w.claims agent) ≡ true
  pub claimed : w'.claims agent ≡ some (now + agent_claim_ttl)

module _ {S : Type 0} (b : Backend S) (env : Env) where
  -- Looking for an agent changes no queue, no claim and nothing behind the interfaces.
  record Looked (w w' : World S) : Type 0 where
    queues : w'.queues ≡ w.queues
    claims : w'.claims ≡ w.claims
    backend : w'.backend ≡ w.backend

  pick_agent-Looked :
      (g : SkillGroup) (call : ℤ) (now : ℕ) (w : World S)
      → Looked w (pick_agent b env g call now w).1
  unfolding pick_agent choose lookup_familiar_agent
  pick_agent-Looked g call now w = record {
    queues = grind arith;
    claims = grind arith;
    backend = grind arith;
  }

  Rang-Looked :
      (now agent : ℕ) (call : ℤ) (w w' x : World S)
      → Looked w w'
      → Rang b now agent call w' x
      → Rang b now agent call w x
  Rang-Looked now agent call w w' x l r = record {
    rings = ap (λ s. (b.ring call agent s).0) (sym l.backend) ∙ r.rings;
    after = r.after ∙ ap (λ s. (b.ring call agent s).1) l.backend;
    unclaimed = ap (λ f. is_free now (f agent)) (sym l.claims) ∙ r.unclaimed;
    claimed = r.claimed;
  }

  -- How one turn of the dispatcher leaves a queue.
  abbrev pub Dispatched : ℕ → SkillGroup → ℕ → World S → World S → Type 0
  Dispatched id g now w w' =
      (w'.queues id ≡ w.queues id)
      ⊎ ((e : Entry) × (q : List Entry) × (w.queues id ≡ e ∷ q)
          × (w'.queues id ≡ q)
          × ((parse_member e.member ≡ none)
              ⊎ ((call : ℤ) × (ms : ℤ) × (c : IdleAgent) × (parse_member e.member ≡ some (call, ms))
                  × IsIdleIn b env g.id w.backend c
                  × Rang b now c.0 call w w')))

  Dispatched-asked :
      (id : ℕ) (g : SkillGroup) (now n : ℕ) (w x : World S)
      → Dispatched id g now (record w { commands = n }) x
      → Dispatched id g now w x
  Dispatched-asked id g now n w x (inl kept) = inl kept
  Dispatched-asked id g now n w x (inr (e, q, at, gone, inl bad)) = inr (e, q, at, gone, inl bad)
  Dispatched-asked id g now n w x (inr (e, q, at, gone, inr (call, ms, c, k, free, rang))) =
      let looked : Looked w (record w { commands = n }) = record {
        queues = refl;
        claims = refl;
        backend = refl;
      } in
      inr (e, q, at, gone, inr (call, ms, c, k, free, Rang-Looked now c.0 call w _ x looked rang))

module _ {S : Type 0} (b : Backend S) (env : Env)
    (never : (n : ℕ) → env.redis_fails n ≡ false) where
  head_member : (e : Entry) (q : List Entry) → has_member e.member (e ∷ q) ≡ true
  unfolding has_member
  head_member e q = rw (same_codes_refl e.member) refl

  head_removed : (e : Entry) (q : List Entry) → remove_member e.member (e ∷ q) ≡ q
  unfolding remove_member
  head_removed e q = rw (same_codes_refl e.member) refl

  claim_and_ring-Rang :
      (id now : ℕ) (e : Entry) (q : List Entry) (call : ℤ) (agent : ℕ) (w : World S)
      → w.queues id ≡ e ∷ q
      → IsQueue (e ∷ q)
      → ((claim_and_ring b env id now e call agent w).queues id ≡ e ∷ q)
        ⊎ (((claim_and_ring b env id now e call agent w).queues id ≡ q)
            × Rang b now agent call w (claim_and_ring b env id now e call agent w))
  unfolding claim_and_ring try_claim release_claim zadd zrem
  claim_and_ring-Rang id now e q call agent w at s =
      elim (Bool-cases (is_free now (w.claims agent))) [
        | inr f ↦ inl (grind (arith, never))
        | inl f ↦ elim (Bool-cases (b.ring call agent w.backend).0) [
          | inl r ↦ inr (
            grind (arith, never, at, f, r, ==_refl id, head_member e q, head_removed e q),
            record {
              rings = r;
              after = grind (arith, never, at, f, r, ==_refl id, head_member e q, head_removed e q);
              unclaimed = f;
              claimed = grind (
                arith,
                never,
                at,
                f,
                r,
                ==_refl id,
                head_member e q,
                head_removed e q,
                ==_refl agent,
              );
            },
          )
          | inr r ↦ inl (
              grind (
                arith,
                never,
                at,
                f,
                r,
                ==_refl id,
                head_member e q,
                head_removed e q,
                add_entry-back e q s,
              ))
        ]
      ]

  dispatch_head-Dispatched :
      (id : ℕ) (g : SkillGroup) (now : ℕ) (e : Entry) (q : List Entry) (w : World S)
      → w.queues id ≡ e ∷ q
      → IsQueue (e ∷ q)
      → Dispatched b env id g now w (dispatch_head b env id g now e w)
  unfolding dispatch_head zrem
  dispatch_head-Dispatched id g now e q w at s = elim (Option-cases (parse_member e.member)) [
    | inl n ↦ inr (e, q, at, grind (arith, never, n, at, ==_refl id, head_removed e q), inl n)
    | inr ((call, ms), n) ↦
        let looked = pick_agent-Looked b env g call now w in
        let w' = (pick_agent b env g call now w).1 in
        let kept : w'.queues id ≡ w.queues id = ap (λ f. f id) looked.queues in
        elim (pick_agent-IsIdle b env g call now w) [
          | inl nobody ↦
              let same : dispatch_head b env id g now e w ≡ w' = ground (arith, n, nobody) in
              subst (Dispatched b env id g now w) (sym same) (inl kept)
          | inr (c, picked, free) ↦ elim (Bool-cases (c.0 == 0)) [
            | inl z ↦
                let same : dispatch_head b env id g now e w ≡ w' = ground (arith, n, picked, z) in
                subst (Dispatched b env id g now w) (sym same) (inl kept)
            | inr z ↦
                let same : dispatch_head b env id g now e w
                    ≡ claim_and_ring b env id now e call c.0 w' =
                  ground (arith, n, picked, z) in
                subst (Dispatched b env id g now w) (sym same)
                  (elim (claim_and_ring-Rang id now e q call c.0 w' (kept ∙ at) s) [
                    | inl back ↦ inl (back ∙ sym at)
                    | inr (gone, rang) ↦ inr (
                      e,
                      q,
                      at,
                      gone,
                      inr (call, ms, c, n, free, Rang-Looked b env now c.0 call w w' _ looked rang),
                    )
                  ])
          ]
        ]
  ]

  -- One turn of the dispatcher, while Redis answers: a queue in order stays as it is, calls that do
  -- not ring and calls for which there is no agent keep their place; or its head leaves it, as a
  -- malformed member, or as a call that rings at an idle member of the group that had no claim.
  pub dispatch_one-Dispatched :
      (id : ℕ) (g : SkillGroup) (now : ℕ) (w : World S)
      → IsQueue (w.queues id)
      → Dispatched b env id g now w (dispatch_one b env id g now w)
  unfolding dispatch_one zrange
  dispatch_one-Dispatched id g now w s =
      let w' : World S = record w { commands = w.commands + 1 } in
      elim (List-cases (w.queues id)) [
        | inl n ↦ inl (grind (arith, never, n))
        | inr (e, q, at) ↦
            let same : dispatch_one b env id g now w ≡ dispatch_head b env id g now e w' =
              grind (arith, never, at) in
            subst (Dispatched b env id g now w) (sym same) (
              Dispatched-asked b env id g now (w.commands + 1) w _
                (dispatch_head-Dispatched id g now e q w' at (subst IsQueue at s)))
      ]
