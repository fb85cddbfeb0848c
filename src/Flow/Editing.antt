-- ===== src/Flow/Editing.antt =====
-- internal/domain/routing/service.go: the methods of IVRFlowService.
use ccc.Prelude.{ℕ, String, not, none, some, pure, fail_if, ◌>>=◌, ◌>>◌}
use ccc.Flow.Validate.{FlowError}
use ccc.Flow.Service.{
  CreateFlowInput, FlowType, IvrFlow, Env, Action, get_flow, check_code, check_graph, update_flow,
  create_flow, draw_id, log_version, get_version, new_flow, may_publish, publication, locked,
  unlocked, is_locked_out, is_owner, draft, lock_ttl,
}
use ccc.Prelude.{◌+◌, true, false}

-- `if ft == "" { ft = FlowTypeMain }`
abbrev pub type_or_main : FlowType → FlowType
type_or_main FlowType.unset_type = FlowType.main
type_or_main t = t

module _ (env : Env) where
  unfoldable pub create : CreateFlowInput → ℕ → Action IvrFlow
  unfolding check_code check_graph draw_id create_flow
  create input now = do
    check_code env input.tenant_id input.code
    check_graph env input.graph
    id ← draw_id env
    let f =
        new_flow id input.tenant_id input.code input.name (type_or_main input.flow_type) input.graph
          now
    create_flow env f
    pure f

  unfoldable pub publish : ℕ → ℕ → ℕ → Action IvrFlow
  unfolding get_flow check_graph update_flow log_version
  publish id user now = do
    f ← get_flow env id
    fail_if (not (may_publish f.status)) FlowError.flow_not_draft
    check_graph env f.graph
    let f' = publication now f
    update_flow env f'
    log_version env f' user now
    pure f'

  unfoldable pub lock : ℕ → ℕ → ℕ → Action IvrFlow
  unfolding get_flow update_flow
  lock id user now = do
    f ← get_flow env id
    fail_if (is_locked_out f user now) FlowError.flow_locked
    let f' = locked user now f
    update_flow env f'
    pure f'

  unfoldable pub refresh_lock : ℕ → ℕ → ℕ → Action IvrFlow
  unfolding get_flow update_flow
  refresh_lock id user now = do
    f ← get_flow env id
    fail_if (not (is_owner f user)) FlowError.flow_not_owner
    let f' = record f { lock_expires_at = some (now + lock_ttl); updated_at = now }
    update_flow env f'
    pure f'

  unfoldable pub unlock : ℕ → ℕ → ℕ → Action IvrFlow
  unfolding get_flow update_flow
  unlock id user now = do
    f ← get_flow env id
    fail_if (elim f.locked_by [ none ↦ true | some _ ↦ false ]) FlowError.flow_not_locked
    fail_if (not (is_owner f user)) FlowError.flow_not_owner
    let f' = unlocked now f
    update_flow env f'
    pure f'

  unfoldable pub clone : ℕ → String → String → ℕ → Action IvrFlow
  unfolding get_flow check_code draw_id create_flow
  clone id new_code new_name now = do
    f ← get_flow env id
    check_code env f.tenant_id new_code
    new_id ← draw_id env
    let f' = new_flow new_id f.tenant_id new_code new_name f.flow_type f.graph now
    create_flow env f'
    pure f'

  unfoldable pub rollback : ℕ → ℕ → ℕ → Action IvrFlow
  unfolding get_flow get_version update_flow
  rollback id version now = do
    f ← get_flow env id
    v ← get_version env id version
    let f' = record f { graph = v.graph; status = draft; updated_at = now }
    update_flow env f'
    pure f'
