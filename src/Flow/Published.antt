-- ===== src/Flow/Published.antt =====
-- Histories of requests to IVRFlowService (internal/domain/routing/service.go).
use mathlib.Core.Path.{subst}
use ccc.Prelude.{ℕ, ◌+◌, ◌≡◌, String, some, List, [], ◌∷◌, arith, inl, inr, Option-cases, refl, sym}
use ccc.Flow.Service.{
  CreateFlowInput, IvrFlow, Env, World, flow_of, draft, publication, locked, unlocked, new_flow,
  lock_ttl, version_of,
}
use ccc.Flow.Locks.{Result-cases, publish-IsWellFormed}
use ccc.Flow.Editing.{create, publish, lock, refresh_lock, unlock, clone, rollback, type_or_main}
use ccc.Flow.Sound.{AllSound, AllSound-write, draft-IsSound}

-- A method of the service that changes state, with its arguments.
pub data FlowRequest : Type 0 where
  creates : CreateFlowInput → FlowRequest
  publishes locks refreshes unlocks : ℕ → ℕ → FlowRequest
  clones : ℕ → String → String → FlowRequest
  rolls_back : ℕ → ℕ → FlowRequest

-- The state that a request leaves.
unfoldable pub serve : Env → FlowRequest → ℕ → World → World
serve env (FlowRequest.creates input) now w = (create env input now w).1
serve env (FlowRequest.publishes id user) now w = (publish env id user now w).1
serve env (FlowRequest.locks id user) now w = (lock env id user now w).1
serve env (FlowRequest.refreshes id user) now w = (refresh_lock env id user now w).1
serve env (FlowRequest.unlocks id user) now w = (unlock env id user now w).1
serve env (FlowRequest.clones id code name) now w = (clone env id code name now w).1
serve env (FlowRequest.rolls_back id version) now w = (rollback env id version now w).1

unfoldable pub serve_all : Env → List (ℕ × FlowRequest) → World → World
serve_all env [] w = w
serve_all env ((now, r) ∷ rs) w = serve_all env rs (serve env r now w)

lock-AllSound :
    (env : Env) (id user now : ℕ) (w : World)
    → AllSound env w.flows
    → AllSound env (lock env id user now w).1.flows
unfolding lock
lock-AllSound env id user now w sound = elim (Option-cases (flow_of id w.flows)) [
  | inl e ↦
      let kept : (lock env id user now w).1.flows ≡ w.flows = ground arith in
      subst (AllSound env) (sym kept) sound
  | inr (f, e) ↦
      AllSound-write env (locked user now f) w.flows (lock env id user now w).1.flows sound
        (sound id f e) (ground arith)
]

refresh_lock-AllSound :
    (env : Env) (id user now : ℕ) (w : World)
    → AllSound env w.flows
    → AllSound env (refresh_lock env id user now w).1.flows
unfolding refresh_lock
refresh_lock-AllSound env id user now w sound = elim (Option-cases (flow_of id w.flows)) [
  | inl e ↦
      let kept : (refresh_lock env id user now w).1.flows ≡ w.flows = ground arith in
      subst (AllSound env) (sym kept) sound
  | inr (f, e) ↦
      AllSound-write env (record f { lock_expires_at = some (now + lock_ttl); updated_at = now })
        w.flows (refresh_lock env id user now w).1.flows sound (sound id f e) (ground arith)
]

unlock-AllSound :
    (env : Env) (id user now : ℕ) (w : World)
    → AllSound env w.flows
    → AllSound env (unlock env id user now w).1.flows
unfolding unlock
unlock-AllSound env id user now w sound = elim (Option-cases (flow_of id w.flows)) [
  | inl e ↦
      let kept : (unlock env id user now w).1.flows ≡ w.flows = ground arith in
      subst (AllSound env) (sym kept) sound
  | inr (f, e) ↦
      AllSound-write env (unlocked now f) w.flows (unlock env id user now w).1.flows sound
        (sound id f e) (ground arith)
]

create-AllSound :
    (env : Env) (input : CreateFlowInput) (now : ℕ) (w : World)
    → AllSound env w.flows
    → AllSound env (create env input now w).1.flows
unfolding create
create-AllSound env input now w sound =
    let f =
      new_flow (env.ids w.drawn) input.tenant_id input.code input.name
        (type_or_main input.flow_type) input.graph now in
    AllSound-write env f w.flows (create env input now w).1.flows sound (draft-IsSound env f refl)
      (ground arith)

clone-AllSound :
    (env : Env) (id : ℕ) (code name : String) (now : ℕ) (w : World)
    → AllSound env w.flows
    → AllSound env (clone env id code name now w).1.flows
unfolding clone
clone-AllSound env id code name now w sound = elim (Option-cases (flow_of id w.flows)) [
  | inl e ↦
      let kept : (clone env id code name now w).1.flows ≡ w.flows = ground arith in
      subst (AllSound env) (sym kept) sound
  | inr (f, e) ↦
      let f' = new_flow (env.ids w.drawn) f.tenant_id code name f.flow_type f.graph now in
      AllSound-write env f' w.flows (clone env id code name now w).1.flows sound
        (draft-IsSound env f' refl) (ground arith)
]

rollback-AllSound :
    (env : Env) (id version now : ℕ) (w : World)
    → AllSound env w.flows
    → AllSound env (rollback env id version now w).1.flows
unfolding rollback
rollback-AllSound env id version now w sound = elim (Option-cases (flow_of id w.flows)) [
  | inl e ↦
      let kept : (rollback env id version now w).1.flows ≡ w.flows = ground arith in
      subst (AllSound env) (sym kept) sound
  | inr (f, e) ↦ elim (Option-cases (version_of id version w.versions)) [
    | inl absent ↦
        let kept : (rollback env id version now w).1.flows ≡ w.flows = ground arith in
        subst (AllSound env) (sym kept) sound
    | inr (v, there) ↦
        let f' : IvrFlow = record f { graph = v.graph; status = draft; updated_at = now } in
        AllSound-write env f' w.flows (rollback env id version now w).1.flows sound
          (draft-IsSound env f' refl) (ground arith)
  ]
]

publish-AllSound :
    (env : Env) (id user now : ℕ) (w : World)
    → AllSound env w.flows
    → AllSound env (publish env id user now w).1.flows
unfolding publish
publish-AllSound env id user now w sound = elim (Option-cases (flow_of id w.flows)) [
  | inl e ↦
      let kept : (publish env id user now w).1.flows ≡ w.flows = ground arith in
      subst (AllSound env) (sym kept) sound
  | inr (f, e) ↦ elim (Result-cases (publish env id user now w).0) [
    | inl (f', done) ↦
        let (g, decoded, formed, _) = publish-IsWellFormed env id user now w f f' e done in
        AllSound-write env (publication now f) w.flows (publish env id user now w).1.flows sound
          (λ h. (g, decoded, formed)) (ground arith)
    | inr (x, refused) ↦
        let kept : (publish env id user now w).1.flows ≡ w.flows = ground arith in
        subst (AllSound env) (sym kept) sound
  ]
]

-- Through any history of requests, whatever statements the database refuses: if every published flow
-- of the table has a graph that decodes into a well-formed one, so it stays.
pub serve_all-AllSound :
    (env : Env) (rs : List (ℕ × FlowRequest)) (w : World)
    → AllSound env w.flows
    → AllSound env (serve_all env rs w).flows
unfolding serve_all serve
serve_all-AllSound env [] w sound = sound
serve_all-AllSound env ((now, FlowRequest.creates input) ∷ rs) w sound =
    serve_all-AllSound env rs (create env input now w).1 (create-AllSound env input now w sound)
serve_all-AllSound env ((now, FlowRequest.publishes id user) ∷ rs) w sound =
    serve_all-AllSound env rs (publish env id user now w).1
      (publish-AllSound env id user now w sound)
serve_all-AllSound env ((now, FlowRequest.locks id user) ∷ rs) w sound =
    serve_all-AllSound env rs (lock env id user now w).1 (lock-AllSound env id user now w sound)
serve_all-AllSound env ((now, FlowRequest.refreshes id user) ∷ rs) w sound =
    serve_all-AllSound env rs (refresh_lock env id user now w).1
      (refresh_lock-AllSound env id user now w sound)
serve_all-AllSound env ((now, FlowRequest.unlocks id user) ∷ rs) w sound =
    serve_all-AllSound env rs (unlock env id user now w).1 (unlock-AllSound env id user now w sound)
serve_all-AllSound env ((now, FlowRequest.clones id code name) ∷ rs) w sound =
    serve_all-AllSound env rs (clone env id code name now w).1
      (clone-AllSound env id code name now w sound)
serve_all-AllSound env ((now, FlowRequest.rolls_back id version) ∷ rs) w sound =
    serve_all-AllSound env rs (rollback env id version now w).1
      (rollback-AllSound env id version now w sound)
