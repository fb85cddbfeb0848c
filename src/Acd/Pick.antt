-- ===== src/Acd/Pick.antt =====
-- Whom pickAgent chooses: internal/application/acd/service.go.
use ccc.Prelude.{
  ℕ, zero, suc, ◌%◌, ◌≤◌, ◌<◌, ◌≡◌, refl, sym, true, false, some, List, [], ◌∷◌, ◌⊎◌, inl, inr,
  arith, Option-cases, length, ◌==◌, ==→eq, Bool-cases, ltb, ◌&&◌,
}
use mathlib.Core.Path.{subst, ap, ◌∙◌}
use ccc.Prelude.Int.{ℤ}
use ccc.Presence.Entity.{AgentPresence, PresenceStatus, idle}
use ccc.Presence.Table.{row_of}
use ccc.Acd.World.{
  Backend, Env, World, SkillGroup, RoutingPolicy, random, round_robin, familiar_agent, other_policy,
}
use ccc.Acd.Service.{
  IdleAgent, candidates, longest_idle, agent_at, is_candidate, choose, is_idle,
  lookup_familiar_agent,
}

abbrev pub In : {A : Type 0} → A → List A → Type 0
In a [] = ⊥
In a (x ∷ xs) = (a ≡ x) ⊎ In a xs

-- A member of the group whose presence says idle since a time.
abbrev pub IsIdle : IdleAgent → List ℕ → List AgentPresence → Type 0
IsIdle c members ps =
    In c.0 members
    × ((p : AgentPresence) × (row_of c.0 ps ≡ some p)
        × (p.status ≡ idle)
        × (p.last_status_at ≡ c.1))

is_idle-idle : (s : PresenceStatus) → is_idle s ≡ true → s ≡ idle
is_idle-idle s h = ground (arith, h)

pub candidates-IsIdle :
    (c : IdleAgent) (members : List ℕ) (ps : List AgentPresence)
    → In c (candidates members ps)
    → IsIdle c members ps
unfolding candidates
candidates-IsIdle c [] ps h = elim h [ ]
candidates-IsIdle c (x ∷ members) ps h =
    let behind : In c (candidates members ps) → IsIdle c (x ∷ members) ps =
      λ k. let (m, p) = candidates-IsIdle c members ps k in (inr m, p) in
    elim (Option-cases (row_of x ps)) [
      | inl e ↦ behind (subst (In c) (ground (arith, e)) h)
      | inr (p, e) ↦ elim (Bool-cases (is_idle p.status)) [
        | inr f ↦ behind (subst (In c) (ground (arith, e, f)) h)
        | inl f ↦
            let here : candidates (x ∷ members) ps ≡ (x, p.last_status_at) ∷ candidates members ps =
              ground (arith, e, f) in
            elim (subst (In c) here h) [
              | inl same ↦ (
                inl (ap (λ d. d.0) same),
                (
                  p,
                  ap (λ d. row_of d.0 ps) same ∙ e,
                  is_idle-idle p.status f,
                  ap (λ d. d.1) (sym same),
                ),
              )
              | inr k ↦ behind k
            ]
      ]
    ]

pub IsIdle-candidates :
    (x : ℕ) (p : AgentPresence) (members : List ℕ) (ps : List AgentPresence)
    → In x members
    → row_of x ps ≡ some p
    → p.status ≡ idle
    → In (x, p.last_status_at) (candidates members ps)
unfolding candidates
IsIdle-candidates x p [] ps m e s = elim m [ ]
IsIdle-candidates x p (y ∷ members) ps (inl same) e s =
    let here : candidates (y ∷ members) ps ≡ (x, p.last_status_at) ∷ candidates members ps =
      ground (arith, same, e, s) in
    subst (In (x, p.last_status_at)) (sym here) (inl refl)
IsIdle-candidates x p (y ∷ members) ps (inr m) e s =
    let rest = IsIdle-candidates x p members ps m e s in
    elim (Option-cases (row_of y ps)) [
      | inl f ↦
          let shut : candidates (y ∷ members) ps ≡ candidates members ps = ground (arith, f) in
          subst (In (x, p.last_status_at)) (sym shut) rest
      | inr (q, f) ↦ elim (Bool-cases (is_idle q.status)) [
        | inl g ↦
            let more : candidates (y ∷ members) ps ≡ (y, q.last_status_at) ∷ candidates members ps =
              ground (arith, f, g) in
            subst (In (x, p.last_status_at)) (sym more) (inr rest)
        | inr g ↦
            let shut : candidates (y ∷ members) ps ≡ candidates members ps = ground (arith, f, g) in
            subst (In (x, p.last_status_at)) (sym shut) rest
      ]
    ]

pub longest_idle-In :
    (best : IdleAgent) (cs : List IdleAgent) → In (longest_idle best cs) (best ∷ cs)
unfolding longest_idle
longest_idle-In best [] = inl refl
longest_idle-In best (c ∷ cs) = elim (Bool-cases (ltb c.1 best.1)) [
  | inl f ↦
      let same : longest_idle best (c ∷ cs) ≡ longest_idle c cs = ground (arith, f) in
      subst (λ d. In d (best ∷ c ∷ cs)) (sym same) (inr (longest_idle-In c cs))
  | inr f ↦
      let same : longest_idle best (c ∷ cs) ≡ longest_idle best cs = ground (arith, f) in
      subst (λ d. In d (best ∷ c ∷ cs)) (sym same)
        (elim (longest_idle-In best cs) [ inl e ↦ inl e | inr e ↦ inr (inr e) ])
]

less : (a b : ℕ) → ltb a b ≡ true → a ≤ b
less a b h = ground arith

more : (a b : ℕ) → ltb a b ≡ false → b ≤ a
more a b h = ground arith

pub longest_idle_le :
    (best d : IdleAgent) (cs : List IdleAgent) → In d (best ∷ cs) → (longest_idle best cs).1 ≤ d.1
unfolding longest_idle
longest_idle_le best d [] (inl e) = rw e (omega arith)
longest_idle_le best d [] (inr e) = elim e [ ]
longest_idle_le best d (c ∷ cs) m = elim (Bool-cases (ltb c.1 best.1)) [
  | inl f ↦
      let won : longest_idle best (c ∷ cs) ≡ longest_idle c cs = ground (arith, f) in
      rw won (elim m [
        | inl e ↦ rw e (omega (arith, longest_idle_le c c cs (inl refl), less c.1 best.1 f))
        | inr k ↦ longest_idle_le c d cs k
      ])
  | inr f ↦
      let won : longest_idle best (c ∷ cs) ≡ longest_idle best cs = ground (arith, f) in
      rw won (elim m [
        | inl e ↦ longest_idle_le best d cs (inl e)
        | inr (inl e) ↦
            rw e (omega (arith, longest_idle_le best best cs (inl refl), more c.1 best.1 f))
        | inr (inr k) ↦ longest_idle_le best d cs (inr k)
      ])
]

agent_at-In :
    (i : ℕ) (cs : List IdleAgent)
    → i < length cs
    → (c : IdleAgent) × In c cs × (agent_at i cs ≡ c.0)
unfolding agent_at
agent_at-In i [] h = let no : ⊥ = omega (arith, h) in elim no [ ]
agent_at-In zero (c ∷ cs) h = (c, inl refl, refl)
agent_at-In (suc i) (c ∷ cs) h =
    let (d, m, e) = agent_at-In i cs (omega (arith, h)) in (d, inr m, e)

is_candidate-In :
    (a : ℕ) (cs : List IdleAgent) → is_candidate a cs ≡ true → (c : IdleAgent) × In c cs × (a ≡ c.0)
unfolding is_candidate
is_candidate-In a [] h = cc
is_candidate-In a (c ∷ cs) h = elim (Bool-cases (c.0 == a)) [
  | inl f ↦ (c, inl refl, sym (==→eq c.0 a f))
  | inr f ↦ let (d, m, e) = is_candidate-In a cs (ground (arith, h, f)) in (d, inr m, e)
]

module _ {S : Type 0} (b : Backend S) (env : Env) where
  pub choose-In :
      (g : SkillGroup) (call : ℤ) (now : ℕ) (c : IdleAgent) (cs : List IdleAgent) (w : World S)
      (policy : RoutingPolicy)
      → g.routing_policy ≡ policy
      → (d : IdleAgent) × In d (c ∷ cs) × ((choose b env g call now c cs w).0 ≡ d.0)
  unfolding choose
  choose-In g call now c cs w random e =
      let (d, m, same) =
        agent_at-In (env.rolls w.rolled % length (c ∷ cs)) (c ∷ cs) (omega arith) in
      (d, m, ground (arith, e, same))
  choose-In g call now c cs w round_robin e = elim (Bool-cases (env.redis_fails w.commands)) [
    | inl f ↦ (c, inl refl, ground (arith, e, f))
    | inr f ↦
        let (d, m, same) = agent_at-In (w.cursors g.id % length (c ∷ cs)) (c ∷ cs) (omega arith) in
        (d, m, ground (arith, e, f, same))
  ]
  choose-In g call now c cs w familiar_agent e =
      let preferred = (lookup_familiar_agent b env call now w).0 in
      elim (Bool-cases (ltb 0 preferred && is_candidate preferred (c ∷ cs))) [
        | inl f ↦
            let (d, m, same) = is_candidate-In preferred (c ∷ cs) (ground (arith, f)) in
            (d, m, ground (arith, e, f, same))
        | inr f ↦ (longest_idle c cs, longest_idle-In c cs, ground (arith, e, f))
      ]
  choose-In g call now c cs w other_policy e =
      (longest_idle c cs, longest_idle-In c cs, ground (arith, e))
