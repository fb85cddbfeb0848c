-- ===== src/Call/Evolution/Talk.antt =====
-- Transfers, consultation, conference and notes (Call/Transfer.antt, Call/Supervise.antt).
use ccc.Prelude.{ℕ, String, List, refl, true, ◌||◌, ◌≡◌, arith}
use ccc.Call.Entity.{active, consulting}
use ccc.Call.Table.{find, updated_row}
use ccc.Call.World.{Env, World}
use ccc.Call.Control.{is}
use ccc.Call.Transfer.{
  TransferTarget, blind_transfer, send_dtmf, attended_transfer, initiate_consult,
  complete_consult_transfer, cancel_consult, start_conference, transferred, consulted,
  consult_completed, consult_ended, conferenced,
}
use ccc.Call.Supervise.{whisper_pre_connect, set_disposition, update_customer_id, disposed, linked}
use ccc.Call.Lifecycle.{Evolves, edges}
use ccc.Call.Evolution.Rules.{Evolves-of_write}

module _ (env : Env) (id now i : ℕ) (w : World) where
  pub blind_transfer-Evolves :
      (target : TransferTarget)
      → Evolves (find i w.calls) (find i (blind_transfer env id target now w).1.calls)
  unfolding blind_transfer updated_row
  blind_transfer-Evolves target =
      Evolves-of_write i id transferred (λ c. true) w.calls _ (λ c. refl)
        (λ c m. grind (arith, edges)) (λ e. ground arith) (λ c e. ground arith)

  pub attended_transfer-Evolves :
      (target : TransferTarget)
      → Evolves (find i w.calls) (find i (attended_transfer env id target now w).1.calls)
  unfolding attended_transfer updated_row
  attended_transfer-Evolves target =
      Evolves-of_write i id transferred (λ c. true) w.calls _ (λ c. refl)
        (λ c m. grind (arith, edges)) (λ e. ground arith) (λ c e. ground arith)

  pub send_dtmf-calls : (digits : List ℕ) → (send_dtmf env id digits now w).1.calls ≡ w.calls
  unfolding send_dtmf
  send_dtmf-calls digits = ground arith

  pub initiate_consult-Evolves :
      (target : TransferTarget)
      → Evolves (find i w.calls) (find i (initiate_consult env id target now w).1.calls)
  unfolding initiate_consult updated_row
  initiate_consult-Evolves target =
      Evolves-of_write i id consulted (λ c. is c.status active) w.calls _ (λ c. refl)
        (λ c m. grind (arith, edges)) (λ e. ground arith) (λ c e. ground arith)

  pub complete_consult-Evolves :
      Evolves (find i w.calls) (find i (complete_consult_transfer env id now w).1.calls)
  unfolding complete_consult_transfer updated_row
  complete_consult-Evolves =
      Evolves-of_write i id consult_completed (λ c. is c.status consulting) w.calls _ (λ c. refl)
        (λ c m. grind (arith, edges)) (λ e. ground arith) (λ c e. ground arith)

  pub cancel_consult-Evolves :
      Evolves (find i w.calls) (find i (cancel_consult env id now w).1.calls)
  unfolding cancel_consult updated_row
  cancel_consult-Evolves =
      Evolves-of_write i id consult_ended (λ c. is c.status consulting) w.calls _ (λ c. refl)
        (λ c m. grind (arith, edges)) (λ e. ground arith) (λ c e. ground arith)

  pub start_conference-Evolves :
      Evolves (find i w.calls) (find i (start_conference env id now w).1.calls)
  unfolding start_conference updated_row
  start_conference-Evolves =
      Evolves-of_write i id conferenced (λ c. is c.status active || is c.status consulting) w.calls
        _ (λ c. refl) (λ c m. grind (arith, edges)) (λ e. ground arith) (λ c e. ground arith)

  pub whisper_pre_connect-calls :
      (message : String) → (whisper_pre_connect env id message now w).1.calls ≡ w.calls
  unfolding whisper_pre_connect
  whisper_pre_connect-calls message = ground arith

  pub set_disposition-Evolves :
      (code : String)
      → Evolves (find i w.calls) (find i (set_disposition env id code now w).1.calls)
  unfolding set_disposition updated_row
  set_disposition-Evolves code =
      Evolves-of_write i id (disposed code) (λ c. true) w.calls _ (λ c. refl)
        (λ c m. grind (arith, edges)) (λ e. ground arith) (λ c e. ground arith)

module _ (env : Env) (id i : ℕ) (w : World) where
  pub update_customer_id-Evolves :
      (customer : ℕ)
      → Evolves (find i w.calls) (find i (update_customer_id env id customer w).1.calls)
  unfolding update_customer_id updated_row
  update_customer_id-Evolves customer =
      Evolves-of_write i id (linked customer) (λ c. true) w.calls _ (λ c. refl)
        (λ c m. grind (arith, edges)) (λ e. ground arith) (λ c e. ground arith)
