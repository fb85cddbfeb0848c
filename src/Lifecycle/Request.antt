-- ===== src/Lifecycle/Request.antt =====
-- One request to the lifecycle service, or one of its goroutines that runs, and a history of them.
use ccc.Prelude.{ℕ, Option}
use ccc.Call.Entity.{HangupBy, HangupReason}
use ccc.Call.Create.{CreateCallInput}
use ccc.Lifecycle.World.{Env, World}
use ccc.Lifecycle.Service.{
  end_call, answer_call, transition_call_to_queue, transition_call_to_ringing,
}
use ccc.Lifecycle.Inbound.{Menus, handle_inbound_call}
use ccc.Lifecycle.Hooks.{run_hook}

pub data Request : Type 0 where
  arrives : CreateCallInput → Request
  ends : ℕ → HangupReason → Option HangupBy → Request
  answers queues rings : ℕ → ℕ → Request
  hook_runs : ℕ → Request

unfoldable pub handle : {F : Type 0} → Env → Option (Menus F) → Request → ℕ → World → World
handle env menus (arrives input) now w = (handle_inbound_call env menus input now w).1
handle env menus (ends id reason by) now w = (end_call env id reason by now w).1
handle env menus (answers id agent) now w = (answer_call env id agent now w).1
handle env menus (queues id group) now w = (transition_call_to_queue env id group now w).1
handle env menus (rings id agent) now w = (transition_call_to_ringing env id agent now w).1
handle env menus (hook_runs k) now w = run_hook env k now w
