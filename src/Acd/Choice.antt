-- ===== src/Acd/Choice.antt =====
-- What pickAgent promises: internal/application/acd/service.go.
use ccc.Prelude.{ℕ, ◌≤◌, ◌≡◌, refl, sym, some, List, ◌⊎◌, inl, inr, arith, Option-cases, List-cases}
use mathlib.Core.Path.{subst}
use ccc.Prelude.Int.{ℤ}
use ccc.Presence.Entity.{AgentPresence, idle}
use ccc.Presence.Table.{row_of}
use ccc.Acd.World.{Backend, Env, World, SkillGroup, other_policy}
use ccc.Acd.Service.{IdleAgent, candidates, longest_idle, choose, pick_agent}
use ccc.Acd.Pick.{
  In, IsIdle, candidates-IsIdle, IsIdle-candidates, longest_idle_le, longest_idle-In, choose-In,
}

module _ {S : Type 0} (b : Backend S) (env : Env) where
  -- Of an idle agent of the group, as the repositories report it.
  abbrev pub IsIdleIn : ℕ → S → IdleAgent → Type 0
  IsIdleIn id s c =
      (members : List ℕ) × (ps : List AgentPresence) × (b.members_of id s ≡ some members)
      × (b.presences_of members s ≡ some ps)
      × IsIdle c members ps

  -- Under every policy, whatever Redis and the random generator answer, the agent picked is none or
  -- an idle member of the group.
  pub pick_agent-IsIdle :
      (g : SkillGroup) (call : ℤ) (now : ℕ) (w : World S)
      → ((pick_agent b env g call now w).0 ≡ 0)
        ⊎ ((c : IdleAgent) × ((pick_agent b env g call now w).0 ≡ c.0) × IsIdleIn g.id w.backend c)
  unfolding pick_agent
  pick_agent-IsIdle g call now w = elim (Option-cases (b.members_of g.id w.backend)) [
    | inl e ↦ inl (ground (arith, e))
    | inr (members, e) ↦ elim (Option-cases (b.presences_of members w.backend)) [
      | inl f ↦ inl (ground (arith, e, f))
      | inr (ps, f) ↦ elim (List-cases (candidates members ps)) [
        | inl n ↦ inl (ground (arith, e, f, n))
        | inr (c, cs, n) ↦
            let (d, m, same) = choose-In b env g call now c cs w g.routing_policy refl in
            inr (
              d,
              ground (arith, e, f, n, same),
              (members, ps, e, f, candidates-IsIdle d members ps (subst (In d) (sym n) m)),
            )
      ]
    ]
  ]

  -- Under the default policy no idle member of the group has been idle longer than the agent picked.
  pub pick_agent-longest :
      (g : SkillGroup) (call : ℤ) (now : ℕ) (w : World S) (x : ℕ) (p : AgentPresence)
      (members : List ℕ) (ps : List AgentPresence)
      → g.routing_policy ≡ other_policy
      → b.members_of g.id w.backend ≡ some members
      → b.presences_of members w.backend ≡ some ps
      → In x members
      → row_of x ps ≡ some p
      → p.status ≡ idle
      → (c : IdleAgent) × ((pick_agent b env g call now w).0 ≡ c.0)
        × IsIdle c members ps
        × (c.1 ≤ p.last_status_at)
  unfolding pick_agent choose
  pick_agent-longest g call now w x p members ps policy e f m at s =
      let here = IsIdle-candidates x p members ps m at s in
      elim (List-cases (candidates members ps)) [
        | inl n ↦ elim (subst (In (x, p.last_status_at)) n here) [ ]
        | inr (c, cs, n) ↦ (
          longest_idle c cs,
          ground (arith, policy, e, f, n),
          candidates-IsIdle (longest_idle c cs) members ps
              (subst (In (longest_idle c cs)) (sym n) (longest_idle-In c cs)),
          longest_idle_le c (x, p.last_status_at) cs (subst (In (x, p.last_status_at)) n here),
        )
      ]
