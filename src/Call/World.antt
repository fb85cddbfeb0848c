-- ===== src/Call/World.antt =====
-- What the methods of internal/domain/call/service.go act on: the tables behind the repositories,
-- the commands sent to the media layer, the identifiers drawn and the statements run so far.
-- The database, the media layer and the id generator are not part of the repository: `Env` holds
-- their answers, with any statement and any command free to fail.
use ccc.Prelude.{
  true, ℕ, ◌+◌, String, Bool, Option, none, some, List, [], ◌∷◌, ◌++◌, if◌then◌else◌, ok, err,
  false, not, is_empty, Method, or_fail, pure, ◌>>◌,
}
use ccc.Call.Entity.{
  Call, CallEvent, EventKind, Text, Error, call_not_found, repository_failed, provider_failed,
}
use ccc.Call.Table.{find, update_rows, insert_row}

-- The methods of `TelephonyProvider` that the service calls.
pub data Command : Type 0 where
  originate : Text → Text → Command
  hangup hold retrieve : String → Command
  transfer : String → Text → Command
  send_dtmf : String → List ℕ → Command
  eavesdrop eavesdrop_whisper eavesdrop_barge intercept coach : String → String → Command
  conference : String → Text → Command
  whisper_announcement : String → String → Command

-- `provider` is `s.tp`, none for nil: its answer may depend on all commands so far, newest first;
-- none is an error, and the text is the channel that `Originate` returns.
pub record Env : Type 0 where
  pub ids : ℕ → ℕ
  pub db_fails : ℕ → Bool
  pub provider : Option (List Command → Option String)

pub record World : Type 0 where
  pub calls : List Call
  pub events : List CallEvent
  pub media : List Command
  pub drawn : ℕ
  pub queries : ℕ

abbrev pub Action : Type 0 → Type 0
Action = Method World Error

module _ (env : Env) where
  -- `c, err := s.calls.GetByID(ctx, id); if err != nil || c == nil { return ErrCallNotFound }`
  unfoldable pub get_call : ℕ → Action Call
  get_call i w = (
    if env.db_fails w.queries then err call_not_found else or_fail (find i w.calls) call_not_found,
    record w { queries = w.queries + 1 },
  )

  -- `s.calls.Update`: a statement that fails changes nothing.
  unfoldable pub update_call : Call → Action (Unit {0})
  update_call c w =
      if env.db_fails w.queries
      then (err repository_failed, record w { queries = w.queries + 1 })
      else (ok tt, record w { queries = w.queries + 1; calls = update_rows c w.calls })

  -- `s.calls.Create`: the primary key refuses an id that is taken.
  unfoldable pub create_call : Call → Action (Unit {0})
  create_call c w = elim (env.db_fails w.queries) [
    | true ↦ (err repository_failed, record w { queries = w.queries + 1 })
    | false ↦ elim (find c.id w.calls) [
      | some _ ↦ (err repository_failed, record w { queries = w.queries + 1 })
      | none ↦ (ok tt, record w { queries = w.queries + 1; calls = insert_row c w.calls })
    ]
  ]

  -- `snowflake.NextID()`
  unfoldable pub next_id : Action ℕ
  next_id w = (ok (env.ids w.drawn), record w { drawn = w.drawn + 1 })

  -- `_ = s.events.Create(ctx, &CallEvent{ID: snowflake.NextID(), ...})`: its error is dropped.
  unfoldable pub log_event : Call → EventKind → Text → ℕ → Action (Unit {0})
  log_event c kind detail now w =
      let e : CallEvent = record {
        id = env.ids w.drawn;
        call_id = c.id;
        tenant_id = c.tenant_id;
        event = kind;
        detail = detail;
        created_at = now;
      } in
      (
        ok tt,
        record w {
          events = if env.db_fails w.queries then w.events else w.events ++ e ∷ [];
          drawn = w.drawn + 1;
          queries = w.queries + 1;
        },
      )

  -- A command inside `if s.tp != nil { ... }`, its error returned.
  unfoldable pub command : Command → Action String
  command k w = elim env.provider [
    | none ↦ (ok "", w)
    | some answer ↦
        (or_fail (answer (k ∷ w.media)) provider_failed, record w { media = k ∷ w.media })
  ]

  -- `if s.tp != nil { uuid, err := s.tp.Originate(...) ... c.ChannelUUID = uuid }`: command's answer
  -- is the channel, and with no provider the channel stays empty.
  unfoldable pub originate_channel : Text → Text → Action String
  unfolding command
  originate_channel dest caller_id = command (originate dest caller_id)

  -- The same with its error dropped.
  unfoldable pub command_quietly : Command → Action (Unit {0})
  command_quietly k w = elim env.provider [
    | none ↦ (ok tt, w)
    | some _ ↦ (ok tt, record w { media = k ∷ w.media })
  ]

  -- `s.tp != nil && c.ChannelUUID != ""`
  abbrev pub has_channel : Call → Bool
  has_channel c = elim env.provider [ none ↦ false | some _ ↦ not (is_empty c.channel_uuid) ]

-- `if s.tp != nil && c.ChannelUUID != "" { ... }`: a command without a provider does nothing, so
-- the test of the channel alone decides.
unfoldable pub on_channel : {A : Type 0} → Call → Action A → Action (Unit {0})
on_channel c m = if is_empty c.channel_uuid then pure tt else (m >> pure tt)
