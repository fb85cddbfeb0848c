-- ===== src/Call/Evolution/Moves.antt =====
-- The methods that move a call from state to state (Call/Control.antt).
use ccc.Prelude.{ℕ, refl, Option, not, ◌&&◌, arith}
use ccc.Call.Entity.{HangupBy, HangupReason, ivr, queue, ringing, active, held, completed}
use ccc.Call.Table.{find, updated_row}
use ccc.Call.World.{Env, World}
use ccc.Call.Control.{
  is, end_call, transition_to_queue, transition_to_ringing, transition_to_active, answer_call,
  hold_call, retrieve_call, ended, queued, rung, bridged, answered, put_on_hold, taken_off_hold,
}
use ccc.Call.Lifecycle.{Evolves, edges}
use ccc.Call.Evolution.Rules.{Evolves-of_write}

module _ (env : Env) (id now i : ℕ) (w : World) where
  pub end_call-Evolves :
      (reason : HangupReason) (by : Option HangupBy)
      → Evolves (find i w.calls) (find i (end_call env id reason by now w).1.calls)
  unfolding end_call updated_row
  end_call-Evolves reason by =
      Evolves-of_write i id (ended reason by now) (λ c. not (is c.status completed)) w.calls _
        (λ c. refl) (λ c m. grind (arith, edges)) (λ e. ground arith) (λ c e. ground arith)

  pub transition_to_queue-Evolves :
      (g : ℕ) → Evolves (find i w.calls) (find i (transition_to_queue env id g now w).1.calls)
  unfolding transition_to_queue updated_row
  transition_to_queue-Evolves g =
      Evolves-of_write i id (queued g) (λ c. is c.status ivr) w.calls _ (λ c. refl)
        (λ c m. grind (arith, edges)) (λ e. ground arith) (λ c e. ground arith)

  pub transition_to_ringing-Evolves :
      (a : ℕ) → Evolves (find i w.calls) (find i (transition_to_ringing env id a now w).1.calls)
  unfolding transition_to_ringing updated_row
  transition_to_ringing-Evolves a =
      Evolves-of_write i id (rung a) (λ c. not (not (is c.status queue) && not (is c.status ivr)))
        w.calls _ (λ c. refl) (λ c m. grind (arith, edges)) (λ e. ground arith)
        (λ c e. ground arith)

  pub transition_to_active-Evolves :
      Evolves (find i w.calls) (find i (transition_to_active env id now w).1.calls)
  unfolding transition_to_active updated_row
  transition_to_active-Evolves =
      Evolves-of_write i id (bridged now)
        (λ c. not (not (is c.status ringing) && not (is c.status queue))) w.calls _ (λ c. refl)
        (λ c m. grind (arith, edges)) (λ e. ground arith) (λ c e. ground arith)

  pub answer_call-Evolves :
      (a : ℕ) → Evolves (find i w.calls) (find i (answer_call env id a now w).1.calls)
  unfolding answer_call updated_row
  answer_call-Evolves a =
      Evolves-of_write i id (answered a now)
        (λ c. not (not (is c.status ringing) && not (is c.status ivr) && not (is c.status queue)))
        w.calls _ (λ c. refl) (λ c m. grind (arith, edges)) (λ e. ground arith)
        (λ c e. ground arith)

  pub hold_call-Evolves : Evolves (find i w.calls) (find i (hold_call env id now w).1.calls)
  unfolding hold_call updated_row
  hold_call-Evolves =
      Evolves-of_write i id put_on_hold (λ c. is c.status active) w.calls _ (λ c. refl)
        (λ c m. grind (arith, edges)) (λ e. ground arith) (λ c e. ground arith)

  pub retrieve_call-Evolves : Evolves (find i w.calls) (find i (retrieve_call env id now w).1.calls)
  unfolding retrieve_call updated_row
  retrieve_call-Evolves =
      Evolves-of_write i id taken_off_hold (λ c. is c.status held) w.calls _ (λ c. refl)
        (λ c m. grind (arith, edges)) (λ e. ground arith) (λ c e. ground arith)
