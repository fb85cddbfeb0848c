-- ===== src/Acd/History.antt =====
-- Histories of the dispatcher's work: internal/application/acd/service.go.
use ccc.Prelude.{
  ℕ, ◌≡◌, sym, String, none, some, List, [], ◌∷◌, inl, inr, arith, Bool-cases, Option-cases, ltb,
  ◌*◌, ◌+◌, ◌⊎◌, refl,
}
use mathlib.Core.Path.{subst}
use ccc.Prelude.Int.{ℤ, pos, ◌-ℤ◌, ◌*ℤ◌}
use ccc.Flow.Validate.Correct.{All}
use ccc.Acd.Member.{parse_member, member_for}
use ccc.Acd.Queue.{Entry, IsQueue, score_for}
use ccc.Acd.World.{Backend, Env, World, SkillGroup, zrem, zrange}
use ccc.Acd.Service.{
  enqueue, dispatch_one, expire_entry, expire_entries, expire_queued, remember_agent, is_kept,
}
use ccc.Acd.Tick.{load_groups, serve_groups, tick}
use ccc.Acd.Ordered.{InOrder, zrem-InOrder, enqueue-InOrder, dispatch_one-InOrder}

-- Calls of the methods, and changes that others make behind the interfaces. `enqueues` has the fuel
-- for the groups visited; without enough it is no step.
pub data AcdRequest (S : Type 0) : Type 0 where
  enqueues : ℕ → ℤ → ℕ → ℤ → AcdRequest S
  dispatches expires : ℕ → SkillGroup → AcdRequest S
  remembers : ℕ → String → ℕ → ℕ → AcdRequest S
  elsewhere : S → AcdRequest S
  ticks : AcdRequest S

-- An entry of a call that came at a time, whose rank is its time less its priority's advance, which is
-- 10^10 milliseconds for each point.
pub record IsEntryOf (call priority : ℤ) (now : ℕ) (e : Entry) : Type 0 where
  pub scored : e.score ≡ pos now -ℤ priority *ℤ pos 10000000000
  pub named : e.member ≡ member_for call (pos now)

-- The entries that a request asks for, and those of a history.
abbrev pub Made : {S : Type 0} → AcdRequest S → ℕ → Entry → Type 0
Made (AcdRequest.enqueues fuel call id priority) now e = IsEntryOf call priority now e
Made _ now e = ⊥

abbrev pub WasEnqueued : {S : Type 0} → List (AcdRequest S × ℕ) → Entry → Type 0
WasEnqueued [] e = ⊥
WasEnqueued ((r, now) ∷ rs) e = Made r now e ⊎ WasEnqueued rs e

module _ {S : Type 0} (b : Backend S) (env : Env) where
  -- The state that a request leaves.
  unfoldable pub attend : AcdRequest S → ℕ → World S → World S
  attend (AcdRequest.enqueues fuel call id priority) now w =
      elim (enqueue b env fuel call id priority now w) [ none ↦ w | some (_, w') ↦ w' ]
  attend (AcdRequest.dispatches id g) now w = dispatch_one b env id g now w
  attend (AcdRequest.expires id g) now w = expire_queued b env id g now w
  attend (AcdRequest.remembers tenant caller agent ttl) now w =
      remember_agent b env tenant caller agent ttl now w
  attend (AcdRequest.elsewhere s) now w = record w { backend = s }
  attend AcdRequest.ticks now w = tick b env now w

  -- A history: requests with their times.
  unfoldable pub attend_all : List (AcdRequest S × ℕ) → World S → World S
  attend_all [] w = w
  attend_all ((r, now) ∷ rs) w = attend_all rs (attend r now w)

module _ {S : Type 0} (b : Backend S) (env : Env) (P : Entry → Type 0) where
  expire_entry-InOrder :
      (id : ℕ) (deadline : ℤ) (e : Entry) (w : World S)
      → InOrder P w
      → InOrder P (expire_entry b env id deadline e w)
  unfolding expire_entry
  expire_entry-InOrder id deadline e w s =
      let w' = (zrem env id e.member w).1 in
      let s' : InOrder P w' = zrem-InOrder b env P id e.member w s in
      elim (Option-cases (parse_member e.member)) [
        | inl n ↦
            let same : expire_entry b env id deadline e w ≡ w' = ground (arith, n) in
            subst (InOrder P) (sym same) s'
        | inr ((call, ms), n) ↦ elim (Bool-cases (is_kept deadline ms)) [
          | inl k ↦
              let same : expire_entry b env id deadline e w ≡ w = ground (arith, n, k) in
              subst (InOrder P) (sym same) s
          | inr k ↦ elim (Bool-cases (zrem env id e.member w).0) [
            | inl r ↦
                let same : expire_entry b env id deadline e w
                    ≡ record w' { backend = (b.end_call call w'.backend).1 } =
                  ground (arith, n, k, r) in
                subst (InOrder P) (sym same) s'
            | inr r ↦
                let same : expire_entry b env id deadline e w ≡ w' = ground (arith, n, k, r) in
                subst (InOrder P) (sym same) s'
          ]
        ]
      ]

  expire_entries-InOrder :
      (id : ℕ) (deadline : ℤ) (es : List Entry) (w : World S)
      → InOrder P w
      → InOrder P (expire_entries b env id deadline es w)
  unfolding expire_entries
  expire_entries-InOrder id deadline [] w s = s
  expire_entries-InOrder id deadline (e ∷ es) w s =
      expire_entries-InOrder id deadline es (expire_entry b env id deadline e w)
        (expire_entry-InOrder id deadline e w s)

  expire_queued-InOrder :
      (id : ℕ) (g : SkillGroup) (now : ℕ) (w : World S)
      → InOrder P w
      → InOrder P (expire_queued b env id g now w)
  unfolding expire_queued zrange
  expire_queued-InOrder id g now w s =
      let deadline = pos now -ℤ pos (g.max_wait_sec * 1000) in
      let entries = (zrange env id w).0 in
      let w' = (zrange env id w).1 in
      elim (Bool-cases (ltb 0 g.max_wait_sec)) [
        | inl f ↦
            let same : expire_queued b env id g now w
                ≡ expire_entries b env id deadline entries w' =
              ground (arith, f) in
            subst (InOrder P) (sym same) (expire_entries-InOrder id deadline entries w' s)
        | inr f ↦
            let same : expire_queued b env id g now w ≡ w = ground (arith, f) in
            subst (InOrder P) (sym same) s
      ]

  remember_agent_queues :
      (tenant : ℕ) (caller : String) (agent ttl now : ℕ) (w : World S)
      → (remember_agent b env tenant caller agent ttl now w).queues ≡ w.queues
  unfolding remember_agent
  remember_agent_queues tenant caller agent ttl now w = ground arith

  serve_groups-InOrder :
      (gs : List (ℕ × SkillGroup)) (now : ℕ) (w : World S)
      → InOrder P w
      → InOrder P (serve_groups b env gs now w)
  unfolding serve_groups
  serve_groups-InOrder [] now w s = s
  serve_groups-InOrder ((id, g) ∷ rest) now w s =
      serve_groups-InOrder rest now (dispatch_one b env id g now (expire_queued b env id g now w)) (
        dispatch_one-InOrder b env P id g now (expire_queued b env id g now w)
          (expire_queued-InOrder id g now w s))

  tick-InOrder : (now : ℕ) (w : World S) → InOrder P w → InOrder P (tick b env now w)
  unfolding tick
  tick-InOrder now w s =
      let w' : World S = record w { commands = w.commands + 1 } in
      let groups = env.walk (load_groups b env w.active_groups w.backend) in
      elim (Bool-cases (env.redis_fails w.commands)) [
        | inl f ↦
            let same : tick b env now w ≡ w' = ground (arith, f) in subst (InOrder P) (sym same) s
        | inr f ↦
            let same : tick b env now w ≡ serve_groups b env groups now w' = ground (arith, f) in
            subst (InOrder P) (sym same) (serve_groups-InOrder groups now w' s)
      ]

  attend-InOrder :
      (r : AcdRequest S) (now : ℕ) (w : World S)
      → ((e : Entry) → Made r now e → P e)
      → InOrder P w
      → InOrder P (attend b env r now w)
  unfolding attend score_for
  attend-InOrder (AcdRequest.enqueues fuel call id priority) now w made s =
      elim (Option-cases (enqueue b env fuel call id priority now w)) [
        | inl n ↦
            let same : attend b env (AcdRequest.enqueues fuel call id priority) now w ≡ w =
              ground (arith, n) in
            subst (InOrder P) (sym same) s
        | inr (r, n) ↦
            let same : attend b env (AcdRequest.enqueues fuel call id priority) now w ≡ r.1 =
              ground (arith, n) in
            subst (InOrder P) (sym same) (
              enqueue-InOrder b env P fuel call id priority now w r n
                (made _ (record { scored = refl; named = refl })) s)
      ]
  attend-InOrder (AcdRequest.dispatches id g) now w made s =
      dispatch_one-InOrder b env P id g now w s
  attend-InOrder (AcdRequest.expires id g) now w made s = expire_queued-InOrder id g now w s
  attend-InOrder (AcdRequest.remembers tenant caller agent ttl) now w made s = λ i.
      subst (λ f. IsQueue (f i) × All P (f i))
        (sym (remember_agent_queues tenant caller agent ttl now w)) (s i)
  attend-InOrder (AcdRequest.elsewhere x) now w made s = s
  attend-InOrder AcdRequest.ticks now w made s = tick-InOrder now w s

  attend_all-Kept :
      (rs : List (AcdRequest S × ℕ)) (w : World S)
      → ((e : Entry) → WasEnqueued rs e → P e)
      → InOrder P w
      → InOrder P (attend_all b env rs w)
  unfolding attend_all
  attend_all-Kept [] w made s = s
  attend_all-Kept ((r, now) ∷ rs) w made s =
      attend_all-Kept rs (attend b env r now w) (λ e h. made e (inr h))
        (attend-InOrder r now w (λ e h. made e (inl h)) s)

-- Whatever commands Redis refuses, and whatever happens behind the interfaces, after any history from
-- empty queues each queue stands in the order of score and member, with each member once, and holds
-- only calls that were enqueued, each with its own time and the rank that its priority gave it.
pub attend_all-InOrder :
    {S : Type 0} (b : Backend S) (env : Env) (rs : List (AcdRequest S × ℕ)) (w : World S)
    → ((i : ℕ) → w.queues i ≡ [])
    → InOrder (WasEnqueued rs) (attend_all b env rs w)
attend_all-InOrder b env rs w empty =
    attend_all-Kept b env (WasEnqueued rs) rs w (λ e h. h) (λ i. rw (empty i) (tt, tt))
