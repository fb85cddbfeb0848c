-- ===== src/Lifecycle/History.antt =====
-- Any history of requests to the lifecycle service, with the goroutines of EndCall in any order.
use ccc.Prelude.{ℕ, ◌≡◌, Option, some, none}
use ccc.Prelude.Int.{pos}
use ccc.Call.Entity.{Call}
use ccc.Call.World.{Env as CallEnv, World as CallWorld}
use ccc.Call.Control
use ccc.Call.Create.{CreateCallInput}
use ccc.Call.Table.{find, inserted_row}
use ccc.Lifecycle.World.{Env, World}
use ccc.Lifecycle.Inbound.{Menus, menu_session}
use ccc.Lifecycle.Request.{Request, arrives}
use ccc.Ivr.Engine.{execute_flow}
use ccc.Lifecycle.Joint.{Together}

-- What the voice menu of a call does to a state: nothing, where no engine is wired or the call has no
-- flow, and otherwise what the engine's run of that flow leaves of it.
pub data Ran {F : Type 0} (env : Env) (menus : Option (Menus F)) (c : Call) (v : World)
    : World → Type 0 where
  unwired : menus ≡ none → Ran env menus c v v
  flowless : c.ivr_flow_id ≡ none → Ran env menus c v v
  menu :
      (m : Menus F) (flow : ℕ)
      → menus ≡ some m
      → c.ivr_flow_id ≡ some flow
      → Ran env menus c v
          (execute_flow m.providers m.library m.json m.depth
            (pos flow)
            (menu_session env menus m c flow)
            v).1.1

-- What a request does: a step of the rows, and for a call that arrives the run of its menu after that
-- step, and nothing more to the rows.
pub data Reached {F : Type 0} (env : Env) (menus : Option (Menus F)) (r : Request) (w w' : World)
    : Type 0 where
  steps : Together w w' → Reached env menus r w w'
  enters :
      {input : CreateCallInput} {c : Call} {v v' : World}
      → r ≡ arrives input
      → Together w v
      → find c.id v.calls.calls ≡ some (inserted_row c)
      → Ran env menus c v v'
      → w'.calls ≡ v'.calls
      → w'.presence ≡ v'.presence
      → Reached env menus r w w'

module _ (env : Env) where
  module _ {F : Type 0} (menus : Option (Menus F)) where
    -- A state whose rows are those that a run of the menu leaves.
    abbrev After : Call → World → World → Type 0
    After c v w' =
        (v' : World) × Ran env menus c v v' × (w'.calls ≡ v'.calls) × (w'.presence ≡ v'.presence)
