-- ===== src/Presence/Ghosts.antt =====
-- The reset of agents whose state is stale moves every agent along the diagram too.
use ccc.Prelude.{
  ℕ, ◌+◌, ◌≡◌, refl, Bool, true, false, not, ◌&&◌, ◌||◌, some, List, [], ◌∷◌, arith, ◌∙◌, ◌==◌,
  Bool-cases, inl, inr, ◌⊎◌, value_or, ==_refl, ==→eq,
}
use mathlib.Core.Path.{subst}
use ccc.Presence.Entity.{AgentPresence, PresenceStatus, idle, talking, dialing}
use ccc.Presence.Service.{is}
use ccc.Presence.Table.{row_of, upsert_row, rows_of_tenant, row_of-upsert}
use ccc.Presence.World.{Env, World}
use ccc.Presence.Moves.{Moves, Moves-refl, Moves-of_upsert, stay, leave, give_up, release, ◌⟶◌}
use ccc.Presence.Reset.{reset_row, reset_one, reset_all, reset_ghost_agents, is_stuck, is_stale}

abbrev pub has_agent : ℕ → List AgentPresence → Bool
has_agent a [] = false
has_agent a (p ∷ ps) = (p.agent_id == a) || has_agent a ps

-- No agent has two rows.
abbrev pub is_keyed : List AgentPresence → Bool
is_keyed [] = true
is_keyed (p ∷ ps) = not (has_agent p.agent_id ps) && is_keyed ps

-- Each of the rows `ps` stands in the table.
abbrev Current : List AgentPresence → List AgentPresence → Type 0
Current [] t = Unit
Current (p ∷ ps) t = (row_of p.agent_id t ≡ some p) × Current ps t

abbrev changed : ℕ → ℕ → AgentPresence → AgentPresence
changed max now p = value_or p (reset_row max now p)

changed-agent : (max now : ℕ) (p : AgentPresence) → (changed max now p).agent_id ≡ p.agent_id
unfolding reset_row
changed-agent max now p = ground arith

edge_to_idle : (s : PresenceStatus) → (is s talking || is s dialing) ≡ true → s ⟶ idle
edge_to_idle s h = grind (arith, give_up, release)

changed-edge : (max now : ℕ) (p : AgentPresence) → p.status ⟶ (changed max now p).status
unfolding reset_row
changed-edge max now p = elim (Bool-cases (is_stuck max now p)) [
  | inl stuck ↦ rw stuck (edge_to_idle p.status (ground arith))
  | inr moving ↦ elim (Bool-cases (is_stale max now p)) [
    | inl stale ↦ rw (moving, stale) leave
    | inr fresh ↦ rw (moving, fresh) stay
  ]
]

-- One turn of the loop upserts the changed row, or leaves the table.
reset_one-rows :
    (env : Env) (max now : ℕ) (p : AgentPresence) (count : ℕ) (w : World)
    → ((reset_one env max now p count w).1.rows ≡ w.rows)
      ⊎ ((reset_one env max now p count w).1.rows
          ≡ upsert_row env.default_acw (changed max now p) w.rows)
unfolding reset_one
reset_one-rows env max now p count w = ground arith

reset_one-keeps :
    (env : Env) (max now : ℕ) (p : AgentPresence) (count : ℕ) (w : World) (a : ℕ)
    → (p.agent_id == a) ≡ false
    → row_of a (reset_one env max now p count w).1.rows ≡ row_of a w.rows
reset_one-keeps env max now p count w a other = elim (reset_one-rows env max now p count w) [
  | inl kept ↦ rw kept refl
  | inr wrote ↦ rw (wrote, row_of-upsert, changed-agent max now p, other) refl
]

reset_one-Current :
    (env : Env) (max now : ℕ) (p : AgentPresence) (count : ℕ) (w : World) (ps : List AgentPresence)
    → has_agent p.agent_id ps ≡ false
    → Current ps w.rows
    → Current ps (reset_one env max now p count w).1.rows
reset_one-Current env max now p count w [] absent current = tt
reset_one-Current env max now p count w (q ∷ ps) absent (here, rest) =
    let other : (p.agent_id == q.agent_id) ≡ false = ground arith in
    (
      rw (reset_one-keeps env max now p count w q.agent_id other) here,
      reset_one-Current env max now p count w ps (ground arith) rest,
    )

reset_one-Moves :
    (env : Env) (max now : ℕ) (p : AgentPresence) (count : ℕ) (w : World) (a : ℕ)
    → row_of p.agent_id w.rows ≡ some p
    → Moves (row_of a w.rows) (row_of a (reset_one env max now p count w).1.rows)
reset_one-Moves env max now p count w a current =
    Moves-of_upsert a p.agent_id env.default_acw (changed max now) (λ q. true) w.rows
      (reset_one env max now p count w).1.rows (changed-agent max now)
      (λ q m. changed-edge max now q) (λ e. ground arith)
      (λ q e. ground (arith, reset_one-rows env max now p count w))

reset_all-keeps :
    (env : Env) (max now : ℕ) (ps : List AgentPresence) (count : ℕ) (w : World) (a : ℕ)
    → has_agent a ps ≡ false
    → row_of a (reset_all env max now ps count w).1.rows ≡ row_of a w.rows
unfolding reset_all
reset_all-keeps env max now [] count w a absent = refl
reset_all-keeps env max now (p ∷ ps) count w a absent =
    let (count', w') = reset_one env max now p count w in
    reset_all-keeps env max now ps count' w' a (ground arith)
    ∙ reset_one-keeps env max now p count w a (ground arith)

reset_all-Moves :
    (env : Env) (max now : ℕ) (ps : List AgentPresence) (count : ℕ) (w : World) (a : ℕ)
    → is_keyed ps ≡ true
    → Current ps w.rows
    → Moves (row_of a w.rows) (row_of a (reset_all env max now ps count w).1.rows)
unfolding reset_all
reset_all-Moves env max now [] count w a keyed current = Moves-refl _
reset_all-Moves env max now (p ∷ ps) count w a keyed (here, rest) =
    let (count', w') = reset_one env max now p count w in
    elim (Bool-cases (p.agent_id == a)) [
      | inl hit ↦
          let absent : has_agent a ps ≡ false = ground (arith, ==→eq p.agent_id a hit) in
          rw (reset_all-keeps env max now ps count' w' a absent)
            (reset_one-Moves env max now p count w a here)
      | inr miss ↦
          subst (λ o. Moves o (row_of a (reset_all env max now ps count' w').1.rows))
            (reset_one-keeps env max now p count w a miss)
            (reset_all-Moves env max now ps count' w' a (ground arith)
              (reset_one-Current env max now p count w ps (ground arith) rest))
    ]

Current-rest :
    (x : AgentPresence) (ps t : List AgentPresence)
    → has_agent x.agent_id ps ≡ false
    → Current ps t
    → Current ps (x ∷ t)
unfolding row_of
Current-rest x [] t absent current = tt
Current-rest x (p ∷ ps) t absent (here, rest) =
    (ground arith, Current-rest x ps t (ground arith) rest)

has_agent-tenant :
    (a n : ℕ) (t : List AgentPresence)
    → has_agent a t ≡ false
    → has_agent a (rows_of_tenant n t) ≡ false
unfolding rows_of_tenant
has_agent-tenant a n [] absent = refl
has_agent-tenant a n (x ∷ t) absent = ground (arith, has_agent-tenant a n t)

rows_of_tenant-keyed :
    (n : ℕ) (t : List AgentPresence) → is_keyed t ≡ true → is_keyed (rows_of_tenant n t) ≡ true
unfolding rows_of_tenant
rows_of_tenant-keyed n [] keyed = refl
rows_of_tenant-keyed n (x ∷ t) keyed =
    ground (arith, rows_of_tenant-keyed n t, has_agent-tenant x.agent_id n t)

rows_of_tenant-Current :
    (n : ℕ) (t : List AgentPresence) → is_keyed t ≡ true → Current (rows_of_tenant n t) t
unfolding rows_of_tenant row_of
rows_of_tenant-Current n [] keyed = tt
rows_of_tenant-Current n (x ∷ t) keyed =
    let rest =
      Current-rest x (rows_of_tenant n t) t (has_agent-tenant x.agent_id n t (ground arith))
        (rows_of_tenant-Current n t (ground arith)) in
    elim (Bool-cases (x.tenant_id == n)) [
      | inl mine ↦ rw mine (ground (arith, ==_refl x.agent_id), rest)
      | inr other ↦ rw other rest
    ]

-- The reset of a tenant's stale agents, in a table with one row for each agent, moves every agent's
-- row along the diagram of the states, or leaves it where it was, also when the database refuses any
-- of its statements; and it makes and deletes no row.
pub reset_ghost_agents-Moves :
    (env : Env) (tenant max now : ℕ) (w : World) (a : ℕ)
    → is_keyed w.rows ≡ true
    → Moves (row_of a w.rows) (row_of a (reset_ghost_agents env tenant max now w).1.rows)
unfolding reset_ghost_agents
reset_ghost_agents-Moves env tenant max now w a keyed =
    let start : World = record w { queries = w.queries + 1 } in
    let moves =
      reset_all-Moves env max now (rows_of_tenant tenant w.rows) 0 start a
        (rows_of_tenant-keyed tenant w.rows keyed) (rows_of_tenant-Current tenant w.rows keyed) in
    elim (Bool-cases (env.db_fails w.queries)) [
      | inl refused ↦ rw refused (Moves-refl _)
      | inr answered ↦ rw answered moves
    ]
