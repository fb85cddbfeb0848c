-- ===== src/Flow/Service.antt =====
-- internal/domain/routing/service.go: IVRFlowService, with what the statements of
-- internal/infrastructure/mysql/ivr_flow_repo.go do to the rows. The database, the id generator and
-- json.Unmarshal are not part of the repository: `Env` holds their answers, with any statement free
-- to fail. `now` is the one reading of the clock in each call.
use ccc.Prelude.{
  ℕ, ◌+◌, ◌*◌, String, Bool, true, false, not, ◌&&◌, Option, none, some, List, [], ◌∷◌, ◌++◌, ltb,
  if◌then◌else◌, ◌==◌, ok, err, Method, or_fail,
}
use ccc.Call.Durations.{second}
use ccc.Flow.Names.{same_text}
use ccc.Flow.Graph.{FlowGraph}
use ccc.Flow.Validate.{FlowError, validate_graph}

pub data FlowStatus : Type 0 where
  draft publishing published editing published_with_draft failed archived : FlowStatus

-- `unset_type` is the empty string.
pub data FlowType : Type 0 where
  main sub survey unset_type : FlowType

pub record IvrFlow : Type 0 where
  pub id : ℕ
  pub tenant_id : ℕ
  pub code : String
  pub name : String
  pub flow_type : FlowType
  pub version : ℕ
  pub graph : String
  pub status : FlowStatus
  pub locked_by : Option ℕ
  pub locked_at : Option ℕ
  pub lock_expires_at : Option ℕ
  pub published_at : Option ℕ
  pub created_at : ℕ
  pub updated_at : ℕ

-- The number that the database gives a version is left out.
pub record IvrFlowVersion : Type 0 where
  pub ivr_flow_id : ℕ
  pub tenant_id : ℕ
  pub version : ℕ
  pub graph : String
  pub published_by : Option ℕ
  pub published_at : ℕ

pub record CreateFlowInput : Type 0 where
  pub tenant_id : ℕ
  pub code : String
  pub name : String
  pub flow_type : FlowType
  pub graph : String

pub record Env : Type 0 where
  pub ids : ℕ → ℕ
  pub db_fails : ℕ → Bool
  pub decode : String → Option FlowGraph

pub record World : Type 0 where
  pub flows : List IvrFlow
  pub versions : List IvrFlowVersion
  pub drawn : ℕ
  pub queries : ℕ

abbrev pub Action : Type 0 → Type 0
Action = Method World FlowError

unfoldable pub flow_of : ℕ → List IvrFlow → Option IvrFlow
flow_of i [] = none
flow_of i (f ∷ t) = if f.id == i then some f else flow_of i t

-- SELECT * FROM ivr_flows WHERE tenant_id = ? AND code = ?
unfoldable pub has_code : ℕ → String → List IvrFlow → Bool
has_code n code [] = false
has_code n code (f ∷ t) =
    if (f.tenant_id == n) && same_text f.code code then true else has_code n code t

-- The UPDATE statement, which does not list lock_expires_at.
abbrev pub updated_flow : IvrFlow → IvrFlow → IvrFlow
updated_flow old f = record old {
  name = f.name;
  version = f.version;
  graph = f.graph;
  status = f.status;
  locked_by = f.locked_by;
  locked_at = f.locked_at;
  published_at = f.published_at;
  updated_at = f.updated_at;
}

unfoldable pub update_flows : IvrFlow → List IvrFlow → List IvrFlow
update_flows f [] = []
update_flows f (x ∷ t) = (if x.id == f.id then updated_flow x f else x) ∷ update_flows f t

-- The first row of the version.
unfoldable pub version_of : ℕ → ℕ → List IvrFlowVersion → Option IvrFlowVersion
version_of i n [] = none
version_of i n (v ∷ t) =
    if (v.ivr_flow_id == i) && (v.version == n) then some v else version_of i n t

abbrev pub lock_ttl : ℕ
lock_ttl = 30 * 60 * second

abbrev pub may_publish : FlowStatus → Bool
may_publish draft = true
may_publish published_with_draft = true
may_publish _ = false

-- `f.LockedBy != nil && *f.LockedBy != userID`, and the lock has not expired.
abbrev pub is_locked_out : IvrFlow → ℕ → ℕ → Bool
is_locked_out f user now = elim f.locked_by [
  | none ↦ false
  | some owner ↦
      not (owner == user) && elim f.lock_expires_at [ none ↦ true | some at ↦ ltb now at ]
]

abbrev pub is_owner : IvrFlow → ℕ → Bool
is_owner f user = elim f.locked_by [ none ↦ false | some owner ↦ owner == user ]

-- What the methods write.
abbrev pub publication : ℕ → IvrFlow → IvrFlow
publication now f = record f {
  status = published;
  published_at = some now;
  updated_at = now;
  version = f.version + 1;
}

abbrev pub locked : ℕ → ℕ → IvrFlow → IvrFlow
locked user now f = record f {
  locked_by = some user;
  locked_at = some now;
  lock_expires_at = some (now + lock_ttl);
  updated_at = now;
}

abbrev pub unlocked : ℕ → IvrFlow → IvrFlow
unlocked now f = record f {
  locked_by = none;
  locked_at = none;
  lock_expires_at = none;
  updated_at = now;
}

-- A flow as Create and Clone build it. The INSERT statement does not list lock_expires_at either.
abbrev pub new_flow : ℕ → ℕ → String → String → FlowType → String → ℕ → IvrFlow
new_flow id tenant_id code name flow_type graph now = record {
  id = id;
  tenant_id = tenant_id;
  code = code;
  name = name;
  flow_type = flow_type;
  version = 1;
  graph = graph;
  status = draft;
  locked_by = none;
  locked_at = none;
  lock_expires_at = none;
  published_at = none;
  created_at = now;
  updated_at = now;
}

module _ (env : Env) where
  unfoldable pub get_flow : ℕ → Action IvrFlow
  get_flow i w = (
    if env.db_fails w.queries
        then err FlowError.flow_not_found
        else or_fail (flow_of i w.flows) FlowError.flow_not_found,
    record w { queries = w.queries + 1 },
  )

  -- `existing, _ := s.flows.GetByCode(...); if existing != nil { return nil, ErrFlowCodeExists }`:
  -- the repository returns a record together with an error, so a failed query counts as taken.
  unfoldable pub check_code : ℕ → String → Action (Unit {0})
  check_code n code w = (
    if env.db_fails w.queries
        then err FlowError.flow_code_exists
        else (if has_code n code w.flows then err FlowError.flow_code_exists else ok tt),
    record w { queries = w.queries + 1 },
  )

  -- `if _, err := ValidateGraph(raw); err != nil { return nil, err }`
  unfoldable pub check_graph : String → Action (Unit {0})
  check_graph raw w = (elim (validate_graph (env.decode raw)) [ ok _ ↦ ok tt | err e ↦ err e ], w)

  unfoldable pub update_flow : IvrFlow → Action (Unit {0})
  update_flow f w = elim (env.db_fails w.queries) [
    | true ↦ (err FlowError.repository_failed, record w { queries = w.queries + 1 })
    | false ↦ (ok tt, record w { queries = w.queries + 1; flows = update_flows f w.flows })
  ]

  -- The primary key refuses an id that is taken.
  unfoldable pub create_flow : IvrFlow → Action (Unit {0})
  create_flow f w = elim (env.db_fails w.queries) [
    | true ↦ (err FlowError.repository_failed, record w { queries = w.queries + 1 })
    | false ↦ elim (flow_of f.id w.flows) [
      | some _ ↦ (err FlowError.repository_failed, record w { queries = w.queries + 1 })
      | none ↦ (ok tt, record w { queries = w.queries + 1; flows = w.flows ++ f ∷ [] })
    ]
  ]

  unfoldable pub draw_id : Action ℕ
  draw_id w = (ok (env.ids w.drawn), record w { drawn = w.drawn + 1 })

  -- The error of the repository is dropped.
  unfoldable pub log_version : IvrFlow → ℕ → ℕ → Action (Unit {0})
  log_version f user now w =
      let v : IvrFlowVersion = record {
        ivr_flow_id = f.id;
        tenant_id = f.tenant_id;
        version = f.version;
        graph = f.graph;
        published_by = some user;
        published_at = now;
      } in
      (
        ok tt,
        record w {
          versions = if env.db_fails w.queries then w.versions else w.versions ++ v ∷ [];
          queries = w.queries + 1;
        },
      )

  unfoldable pub get_version : ℕ → ℕ → Action IvrFlowVersion
  get_version i n w = (
    if env.db_fails w.queries
        then err FlowError.version_not_found
        else or_fail (version_of i n w.versions) FlowError.version_not_found,
    record w { queries = w.queries + 1 },
  )
