-- ===== src/Ivr/Basic.antt =====
-- internal/application/ivr/nodes_basic.go: the handlers that take no decision on the call.
use ccc.Prelude.{String, not, Option, none, some, if◌then◌else◌, is_empty}
use ccc.Ivr.Session.{Session, Handled, leaves, Handler, assign, assign_all}
use ccc.Ivr.Providers.{Audio, file, say, Esl, Providers}
use ccc.Ivr.Config.{PlayConfig, Json}

-- `return name, nil`
abbrev pub leave : {A : Type 0} → String → Session → A → Handled × (Session × A)
leave name s a = (leaves name, (s, a))

-- `if sess.ESL != nil && sess.CallUUID != ""`
abbrev pub online : {A F : Type 0} → Providers A F → Session → Option (Esl A)
online p s = if is_empty s.call_uuid then none else p.esl

-- `err.Error()` kept in a variable, and the exit for an error.
unfoldable pub leave_with_error :
    {A : Type 0} → String → String → Session → A → Handled × (Session × A)
unfolding assign
leave_with_error x e s a = leave "error" (assign x e s) a

-- The audio that a play node names, none for nothing.
unfoldable pub audio_of : PlayConfig → Option Audio
audio_of c =
    if not (is_empty c.audio_file)
    then some (file c.audio_file)
    else (if is_empty c.tts_text then none else some (say c.tts_text))

module _ {A F : Type 0} (p : Providers A F) (json : Json F) where
  unfoldable pub start_handler : Handler A
  unfolding assign_all
  start_handler n s a = leave "default" (assign_all (json.start n.config) s) a

  unfoldable pub play_handler : Handler A
  unfolding audio_of leave_with_error
  play_handler n s a = elim (online p s) [
    | none ↦ leave "default" s a
    | some esl ↦ elim (audio_of (json.play n.config)) [
      | none ↦ leave "default" s a
      | some sound ↦
          let (e, a') = esl.play_audio s.call_uuid sound a in
          elim e [
            | none ↦ leave "default" s a'
            | some text ↦ leave_with_error "play_error" text s a'
          ]
    ]
  ]

  unfoldable pub set_variable_handler : Handler A
  unfolding assign_all
  set_variable_handler n s a = leave "default" (assign_all (json.assignments n.config) s) a

  unfoldable pub hangup_reason_handler : Handler A
  unfolding assign
  hangup_reason_handler n s a =
      let reason = json.hangup n.config in
      let s' = if is_empty reason then s else assign "hangup_reason" reason s in
      elim (online p s) [
        | none ↦ leave "default" s' a
        | some esl ↦ leave "default" s' (esl.hangup_call s.call_uuid a)
      ]

  unfoldable pub end_handler : Handler A
  end_handler n s a = leave "" s a
