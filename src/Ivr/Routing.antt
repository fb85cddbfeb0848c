-- ===== src/Ivr/Routing.antt =====
-- internal/application/ivr/nodes_routing.go, node_queue_position.go and node_customer_lookup.go: the
-- handlers that hand the call over, or say how long that takes.
use ccc.Prelude.{
  ℕ, String, Bool, true, false, ◌&&◌, Option, none, some, if◌then◌else◌, is_empty, ltb, ok, err,
}
use ccc.Prelude.Int.{ℤ, pos, ltb_ℤ, ◌*ℤ◌}
use ccc.Flow.Names.{same_text}
use ccc.Ivr.Variables.{get}
use ccc.Ivr.Session.{Session, Handled, Handler, assign}
use ccc.Ivr.Providers.{
  Destination, callcenter, user, external, plain, file, uuid_transfer, offer_callback, Providers,
  Library,
}
use ccc.Ivr.Config.{Json}
use ccc.Ivr.Basic.{leave, online, leave_with_error}

abbrev pub is_zero_int : ℤ → Bool
is_zero_int (pos ℕ.zero) = true
is_zero_int _ = false

-- The value of a setting, or what stands for its zero value.
abbrev pub text_or : String → String → String
text_or d s = if is_empty s then d else s

abbrev pub int_or : ℤ → ℤ → ℤ
int_or d i = if is_zero_int i then d else i

-- The outcome of a transfer.
unfoldable pub transfer_outcome :
    {A : Type 0} → Option String → Session → A → Handled × (Session × A)
unfolding leave_with_error
transfer_outcome none s a = leave "success" s a
transfer_outcome (some e) s a = leave_with_error "transfer_error" e s a

unfoldable pub blind_destination : String → String → Destination
blind_destination kind target =
    if same_text kind "agent"
    then user target
    else (if same_text kind "extension"
        then user target
        else (if same_text kind "number" then external target else plain target))

module _ {A F : Type 0} (p : Providers A F) (lib : Library F) (json : Json F) where
  -- `_ = sess.ESL.PlayAudio(...)` of a file that is set.
  unfoldable pub play_quietly : String → Session → A → A
  play_quietly name s a =
      if is_empty name
      then a
      else elim (online p s) [ none ↦ a | some esl ↦ (esl.play_audio s.call_uuid (file name) a).1 ]

  -- `_ = h.Context.Save(...)`
  unfoldable pub save_context : Session → A → A
  save_context s a = elim p.context [ none ↦ a | some save ↦ save s.call_id s.variables a ]

  unfoldable pub transfer_to_agent_handler : Handler A
  unfolding assign transfer_outcome play_quietly save_context
  transfer_to_agent_handler n s a =
      let c = json.transfer_agent n.config in
      let s' = assign "queue_priority" (lib.itoa c.queue_priority) (
        assign "transfer_strategy" c.routing_strategy
          (assign "transfer_skill_group" c.skill_group_id s)) in
      let a' = play_quietly c.queue_music_id s a in
      let group = (lib.parse_int c.skill_group_id).0 in
      let legacy : Handled × (Session × A) = elim (online p s) [
        | none ↦ transfer_outcome none s' a'
        | some esl ↦
            let (e, b) = esl.transfer_call s.call_uuid (callcenter c.skill_group_id) a' in
            transfer_outcome e s' b
      ] in
      elim p.acd [
        | none ↦ legacy
        | some enqueue ↦
            if ltb_ℤ (pos 0) group && ltb 0 s.call_id
            then (let (e, b) = enqueue s.call_id group c.queue_priority (save_context s' a') in
                transfer_outcome e s' b)
            else legacy
      ]

  unfoldable pub transfer_to_external_handler : Handler A
  unfolding assign transfer_outcome get
  transfer_to_external_handler n s a =
      let c = json.transfer_external n.config in
      let s' = assign "transfer_external_number" c.number s in
      elim (online p s) [
        | none ↦ leave "success" s' a
        | some esl ↦
            let caller = text_or (get "caller_number" s'.variables) c.caller_id in
            let (r, b) =
              esl.send_command
                (uuid_transfer s.call_uuid caller c.number (int_or (pos 30) c.timeout_sec)) a in
            elim r [ ok _ ↦ leave "success" s' b | err e ↦ transfer_outcome (some e) s' b ]
      ]

  unfoldable pub blind_transfer_handler : Handler A
  unfolding assign transfer_outcome blind_destination
  blind_transfer_handler n s a =
      let c = json.blind_transfer n.config in
      let s' = assign "blind_transfer_target" c.target s in
      elim (online p s) [
        | none ↦ leave "success" s' a
        | some esl ↦
            let (e, b) =
              esl.transfer_call s.call_uuid (blind_destination c.target_type c.target) a in
            transfer_outcome e s' b
      ]

  unfoldable pub callback_handler : Handler A
  unfolding assign get play_quietly
  callback_handler n s a =
      let c = json.callback n.config in
      let confirm = text_or "1" c.confirm_key in
      let number = text_or (get "caller_number" s.variables) c.callback_number in
      let s' = assign "callback_number" number s in
      elim (online p s) [
        | none ↦ leave "reject" s' a
        | some esl ↦
            let (r, b) =
              esl.send_command (offer_callback s.call_uuid confirm (text_or "2" c.reject_key))
                (play_quietly c.prompt_audio_id s a) in
            elim r [
              | err e ↦ leave "reject" s' b
              | ok digits ↦
                  if same_text digits confirm
                  then leave "confirm" (assign "callback_requested" "true" s') b
                  else leave "reject" s' b
            ]
      ]

  -- `aht` is the handler's AvgHandleTimeSec, which nothing sets.
  unfoldable pub queue_position_handler : ℤ → Handler A
  unfolding assign
  queue_position_handler aht n s a =
      let unknown = assign "est_wait_sec" "0" (assign "queue_position" "0" s) in
      elim (json.queue_position n.config) [
        | none ↦ leave "error" s a
        | some name ↦
            let group = (lib.parse_int name).0 in
            elim p.queue [
              | none ↦ leave "default" unknown a
              | some queue_len ↦
                  if is_zero_int group
                  then leave "default" unknown a
                  else (let (r, b) = queue_len group a in
                      elim r [
                        | err e ↦ leave "error" unknown b
                        | ok depth ↦
                            let wait = depth *ℤ (if ltb_ℤ (pos 0) aht then aht else pos 180) in
                            let s' =
                              assign "est_wait_sec" (lib.itoa wait)
                                (assign "queue_position" (lib.itoa depth) s) in
                            leave (if is_zero_int depth then "empty" else "default") s' b
                      ])
            ]
      ]

  unfoldable pub customer_lookup_handler : Handler A
  unfolding assign get
  customer_lookup_handler n s a =
      let phone = get "caller_number" s.variables in
      let unknown = assign "customer_level" "unknown" s in
      if is_empty phone then leave "default" unknown a else elim p.crm [
        | none ↦ leave "default" unknown a
        | some lookup_by_phone ↦
            let (r, b) = lookup_by_phone s.tenant_id phone a in
            elim r [
              | err e ↦ leave "not_found" unknown b
              | ok (name, level) ↦
                  leave
                    (if same_text level "svip"
                      then "svip"
                      else (if same_text level "vip" then "vip" else "default"))
                    (assign "customer_level" level (assign "customer_name" name s)) b
            ]
      ]
