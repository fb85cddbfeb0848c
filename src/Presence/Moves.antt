-- ===== src/Presence/Moves.antt =====
-- How the rows of agents move between the states.
use ccc.Prelude.{
  ℕ, ◌≡◌, refl, [], ◌∷◌, Bool, true, Option, none, some, List, ◌⊎◌, inl, inr, ◌==◌, arith,
  Option-cases, Bool-cases, ==→eq, ◌∷◌,
}
use ccc.Presence.Entity.{
  AgentPresence, PresenceStatus, offline, online, idle, break, talking, acw, dialing, SubState,
}
use ccc.Presence.Table.{row_of, upsert_row, row_of-upsert, row_of-agent}
use ccc.Presence.World.{Env, World}
use ccc.Presence.Service.{
  transition_to, set_sub_state, is_valid_transition, valid_transitions, is_one_of, moved,
}

-- The diagram of an agent who has checked in.
infix 40 ◌⟶◌
pub data ◌⟶◌ : PresenceStatus → PresenceStatus → Type 0 where
  stay : {s : PresenceStatus} → s ⟶ s
  leave : {s : PresenceStatus} → s ⟶ offline
  arrive : offline ⟶ online
  settle : online ⟶ idle
  dial : idle ⟶ dialing
  take : idle ⟶ talking
  rest : idle ⟶ break
  connect : dialing ⟶ talking
  wrap_up : talking ⟶ acw
  wrap_up_dialed : dialing ⟶ acw
  give_up : dialing ⟶ idle
  release : talking ⟶ idle
  finish : acw ⟶ idle
  resume : break ⟶ idle

ruleset edges = (
  stay, leave, arrive, settle, dial, take, rest, connect, wrap_up, wrap_up_dialed, give_up, release,
  finish, resume,
)

-- What a request may do to an agent's row: its status follows the diagram, and whom it belongs to,
-- when the agent checked in and the seconds of after-call work stay.
pub record Move (p p' : AgentPresence) : Type 0 where
  pub edge : p.status ⟶ p'.status
  pub same_id : p'.id ≡ p.id
  pub same_tenant : p'.tenant_id ≡ p.tenant_id
  pub same_agent : p'.agent_id ≡ p.agent_id
  pub same_check_in : p'.checked_in_at ≡ p.checked_in_at
  pub same_acw : p'.acw_seconds ≡ p.acw_seconds

abbrev pub Moves : Option AgentPresence → Option AgentPresence → Type 0
Moves none none = Unit
Moves none (some p) = ⊥
Moves (some p) none = ⊥
Moves (some p) (some p') = Move p p'

Move-refl : (p : AgentPresence) → Move p p
Move-refl p = record {
  edge = stay;
  same_id = ground arith;
  same_tenant = ground arith;
  same_agent = ground arith;
  same_check_in = ground arith;
  same_acw = ground arith;
}

pub Moves-refl : (o : Option AgentPresence) → Moves o o
Moves-refl none = tt
Moves-refl (some p) = Move-refl p

-- The table of transitions is the diagram without the loops.
pub edge_of_valid : (s t : PresenceStatus) → is_valid_transition s t ≡ true → s ⟶ t
unfolding is_valid_transition valid_transitions is_one_of
edge_of_valid s t h = grind (arith, edges)

-- A method that upserts `change p` for the row `p` that it read, where `may p` lets it.
pub Moves-of_upsert :
    (a id d : ℕ) (change : AgentPresence → AgentPresence) (may : AgentPresence → Bool)
    (t t' : List AgentPresence)
    → ((p : AgentPresence) → (change p).agent_id ≡ p.agent_id)
    → ((p : AgentPresence) → may p ≡ true → p.status ⟶ (change p).status)
    → (row_of id t ≡ none → t' ≡ t)
    → ((p : AgentPresence)
        → row_of id t ≡ some p
        → (t' ≡ t) ⊎ ((may p ≡ true) × (t' ≡ upsert_row d (change p) t)))
    → Moves (row_of a t) (row_of a t')
Moves-of_upsert a id d change may t t' same edge missing wrote = elim (Option-cases (row_of id t)) [
  | inl e ↦ rw (missing e) (Moves-refl _)
  | inr (p, e) ↦ elim (wrote p e) [
    | inl kept ↦ rw kept (Moves-refl _)
    | inr (m, w) ↦
        rw (w, row_of-upsert)
          (elim (Bool-cases ((change p).agent_id == a)) [
            | inl hit ↦
                let at : row_of a t ≡ some p =
                  cc (==→eq _ _ hit, same p, row_of-agent id t p e, e) in
                rw (hit, at)
                  (record {
                    edge = edge p m;
                    same_id = refl;
                    same_tenant = refl;
                    same_agent = refl;
                    same_check_in = refl;
                    same_acw = refl;
                  })
            | inr miss ↦ rw miss (Moves-refl _)
          ])
  ]
]

-- A second upsert of the same agent overwrites the first.
pub upsert-upsert :
    (d : ℕ) (p p' q : AgentPresence) (t : List AgentPresence)
    → p'.agent_id ≡ p.agent_id
    → row_of p.agent_id t ≡ some q
    → upsert_row d p' (upsert_row d p t) ≡ upsert_row d p' t
unfolding row_of upsert_row
upsert-upsert d p p' q [] same found = ground arith
upsert-upsert d p p' q (x ∷ t) same found = ground (arith, upsert-upsert d p p' q t same)

pub set_sub_state-Moves :
    (a : ℕ) (env : Env) (id : ℕ) (sub : SubState) (now : ℕ) (w : World)
    → Moves (row_of a w.rows) (row_of a (set_sub_state env id sub now w).1.rows)
unfolding set_sub_state
set_sub_state-Moves a env id sub now w =
    Moves-of_upsert a id env.default_acw (λ p. record p { sub_state = sub; updated_at = now })
      (λ p. true) w.rows (set_sub_state env id sub now w).1.rows (λ p. refl) (λ p m. stay)
      (λ e. ground arith) (λ p e. ground arith)

pub transition_to-Moves :
    (a : ℕ) (env : Env) (id : ℕ) (to : PresenceStatus) (now : ℕ) (w : World)
    → Moves (row_of a w.rows) (row_of a (transition_to env id to now w).1.rows)
unfolding transition_to
transition_to-Moves a env id to now w =
    Moves-of_upsert a id env.default_acw (moved to now) (λ p. is_valid_transition p.status to)
      w.rows (transition_to env id to now w).1.rows (λ p. refl) (λ p m. edge_of_valid p.status to m)
      (λ e. ground arith) (λ p e. ground arith)
