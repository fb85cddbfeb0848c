-- ===== src/Flow/Locks.antt =====
-- The editing lock of a flow, and its publication.
use ccc.Prelude.{
  ℕ, ◌≤◌, ◌≡◌, refl, Bool, true, false, none, some, List, [], ◌∷◌, arith, ok, err, ◌==◌, ==_refl,
  ==→eq, inl, inr, Option-cases, Bool-cases, Result, ◌⊎◌, if◌then◌else◌,
}
use mathlib.Core.Option
use ccc.Flow.Graph.{FlowGraph}
use ccc.Flow.Validate.{validate_graph}
use ccc.Flow.Validate.Correct.{IsWellFormed, validate_graph-IsWellFormed}
use ccc.Flow.Service.{
  IvrFlow, Env, World, flow_of, update_flows, updated_flow, publication, locked, is_locked_out,
}
use ccc.Flow.Editing.{publish, lock}

flow_of-id : (i : ℕ) (t : List IvrFlow) (f : IvrFlow) → flow_of i t ≡ some f → f.id ≡ i
unfolding flow_of
flow_of-id i [] f h = ground arith
flow_of-id i (x ∷ t) f h = ground (arith, flow_of-id i t f)

pub flow_of-update :
    (i : ℕ) (f : IvrFlow) (t : List IvrFlow)
    → flow_of i (update_flows f t)
      ≡ (if f.id == i then Option.map (λ x. updated_flow x f) (flow_of i t) else flow_of i t)
unfolding flow_of update_flows
flow_of-update i f [] = ground arith
flow_of-update i f (x ∷ t) = ground (arith, flow_of-update i f t)

-- The row of a flow after the update of its own record.
flow_of-updated :
    (i : ℕ) (f f' : IvrFlow) (t : List IvrFlow)
    → flow_of i t ≡ some f
    → f'.id ≡ i
    → flow_of i (update_flows f' t) ≡ some (updated_flow f f')
flow_of-updated i f f' t found same =
    let hit : (f'.id == i) ≡ true = ground (arith, ==_refl i, same) in
    rw (flow_of-update, hit, found) refl

-- Whom a lock may be given to: it is free, or the user's own, or it has expired.
abbrev pub MayLock : IvrFlow → ℕ → ℕ → Type 0
MayLock f user now =
    (f.locked_by ≡ none)
    ⊎ ((f.locked_by ≡ some user) ⊎ ((at : ℕ) × (f.lock_expires_at ≡ some at) × (at ≤ now)))

may_lock : (f : IvrFlow) (user now : ℕ) → is_locked_out f user now ≡ false → MayLock f user now
may_lock f user now h = elim (Option-cases f.locked_by) [
  | inl free ↦ inl free
  | inr (owner, owned) ↦ elim (Bool-cases (owner == user)) [
    | inl own ↦ inr (inl (cc (owned, ==→eq owner user own)))
    | inr foreign ↦ elim (Option-cases f.lock_expires_at) [
      | inl endless ↦ ground arith
      | inr (at, expires) ↦ inr (inr (at, expires, ground arith))
    ]
  ]
]

-- A lock is given to a user only when it is free, the user's own, or has expired; the user then
-- holds it in the table.
pub lock-MayLock :
    (env : Env) (id user now : ℕ) (w : World) (f f' : IvrFlow)
    → flow_of id w.flows ≡ some f
    → (lock env id user now w).0 ≡ ok f'
    → MayLock f user now
      × (Option.map (λ x. x.locked_by) (flow_of id (lock env id user now w).1.flows)
          ≡ some (some user))
unfolding lock
lock-MayLock env id user now w f f' found done =
    let open_ : is_locked_out f user now ≡ false = ground arith in
    (
      may_lock f user now open_,
      ground (
        arith,
        flow_of-updated id f (locked user now f) w.flows found (flow_of-id id w.flows f found),
      ),
    )

abbrev pub is_ok : {E A : Type 0} → Result E A → Bool
is_ok (ok _) = true
is_ok (err _) = false

-- A lock that is stored never expires: after a user was given the lock of a flow whose row had no
-- time of expiry, the request of another user for it fails at any time.
pub lock-never_expires :
    (env : Env) (id user other now later : ℕ) (w : World) (f f' : IvrFlow)
    → flow_of id w.flows ≡ some f
    → f.lock_expires_at ≡ none
    → (user == other) ≡ false
    → (lock env id user now w).0 ≡ ok f'
    → is_ok (lock env id other later (lock env id user now w).1).0 ≡ false
unfolding lock
lock-never_expires env id user other now later w f f' found unset distinct done =
    let after =
      flow_of-updated id f (locked user now f) w.flows found (flow_of-id id w.flows f found) in
    ground (arith, after)

pub Result-cases :
    {E A : Type 0} (r : Result E A) → ((a : A) × (r ≡ ok a)) ⊎ ((e : E) × (r ≡ err e))
Result-cases (ok a) = inl (a, refl)
Result-cases (err e) = inr (e, refl)

pub publish-IsWellFormed :
    (env : Env) (id user now : ℕ) (w : World) (f f' : IvrFlow)
    → flow_of id w.flows ≡ some f
    → (publish env id user now w).0 ≡ ok f'
    → (g : FlowGraph) × (env.decode f.graph ≡ some g)
      × IsWellFormed g.nodes
      × (flow_of id (publish env id user now w).1.flows ≡ some (updated_flow f (publication now f)))
unfolding publish validate_graph
publish-IsWellFormed env id user now w f f' found done =
    let after =
      flow_of-updated id f (publication now f) w.flows found (flow_of-id id w.flows f found) in
    let accepted : is_ok (validate_graph (env.decode f.graph)) ≡ true = ground arith in
    elim (Option-cases (env.decode f.graph)) [
      | inl e ↦ absurd (ground (arith, accepted))
      | inr (g, e) ↦ elim (Result-cases (validate_graph (some g))) [
        | inl (g', valid) ↦
            (g, e, (validate_graph-IsWellFormed g g' valid).1, ground (arith, after))
        | inr (x, refused) ↦ absurd (ground (arith, accepted))
      ]
    ]
