-- ===== src/Flow/Sound.antt =====
-- When the flows of a table are sound (internal/domain/routing/service.go): what the callers of a
-- published flow rely on.
use mathlib.Core.Path.{subst}
use ccc.Prelude.{
  ℕ, ◌≡◌, some, List, [], ◌∷◌, ◌++◌, arith, ◌==◌, inl, inr, Option-cases, Bool-cases, ◌⊎◌, sym,
}
use ccc.Flow.Graph.{FlowGraph}
use ccc.Flow.Validate.Correct.{IsWellFormed}
use ccc.Flow.Service.{IvrFlow, Env, flow_of, update_flows, updated_flow, published, draft}
use ccc.Flow.Locks.{flow_of-update}

-- A published flow has a graph that decodes into a well-formed one.
abbrev pub IsSound : Env → IvrFlow → Type 0
IsSound env f =
    f.status ≡ published → (g : FlowGraph) × (env.decode f.graph ≡ some g) × IsWellFormed g.nodes

abbrev pub AllSound : Env → List IvrFlow → Type 0
AllSound env t = (i : ℕ) (f : IvrFlow) → flow_of i t ≡ some f → IsSound env f

AllSound-update :
    (env : Env) (f' : IvrFlow) (t : List IvrFlow)
    → AllSound env t
    → IsSound env f'
    → AllSound env (update_flows f' t)
AllSound-update env f' t sound new i f found = elim (Option-cases (flow_of i t)) [
  | inl e ↦ absurd (ground (arith, flow_of-update i f' t))
  | inr (old, e) ↦ elim (Bool-cases (f'.id == i)) [
    | inl hit ↦
        let same : updated_flow old f' ≡ f = ground (arith, flow_of-update i f' t) in
        subst (IsSound env) same new
    | inr miss ↦
        let same : old ≡ f = ground (arith, flow_of-update i f' t) in
        subst (IsSound env) same (sound i old e)
  ]
]

flow_of-append :
    (i : ℕ) (f' f : IvrFlow) (t : List IvrFlow)
    → flow_of i (t ++ f' ∷ []) ≡ some f
    → (flow_of i t ≡ some f) ⊎ (f' ≡ f)
unfolding flow_of
flow_of-append i f' f [] found = ground arith
flow_of-append i f' f (x ∷ t) found = ground (arith, flow_of-append i f' f t)

AllSound-append :
    (env : Env) (f' : IvrFlow) (t : List IvrFlow)
    → AllSound env t
    → IsSound env f'
    → AllSound env (t ++ f' ∷ [])
AllSound-append env f' t sound new i f found = elim (flow_of-append i f' f t found) [
  | inl old ↦ sound i f old
  | inr same ↦ subst (IsSound env) same new
]

-- A draft is sound.
pub draft-IsSound : (env : Env) (f : IvrFlow) → f.status ≡ draft → IsSound env f
draft-IsSound env f e h = absurd (cc)

-- What a request writes, if it writes: an update, or a new row, of a sound flow.
pub AllSound-write :
    (env : Env) (f' : IvrFlow) (t t' : List IvrFlow)
    → AllSound env t
    → IsSound env f'
    → (t' ≡ t) ⊎ ((t' ≡ update_flows f' t) ⊎ (t' ≡ t ++ f' ∷ []))
    → AllSound env t'
AllSound-write env f' t t' sound new (inl kept) = subst (AllSound env) (sym kept) sound
AllSound-write env f' t t' sound new (inr (inl wrote)) =
    subst (AllSound env) (sym wrote) (AllSound-update env f' t sound new)
AllSound-write env f' t t' sound new (inr (inr wrote)) =
    subst (AllSound env) (sym wrote) (AllSound-append env f' t sound new)
