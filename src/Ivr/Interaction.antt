-- ===== src/Ivr/Interaction.antt =====
-- internal/application/ivr/nodes_interaction.go and node_sentiment_gate.go: the handlers that listen
-- to the caller, and those that take a branch on what was heard.
use ccc.Prelude.{String, none, some, List, [], ◌∷◌, if◌then◌else◌, is_empty, ok, err, ◌/◌, suc}
use ccc.Prelude.Int.{ℤ, pos, negsuc, ◌*ℤ◌, ◌-ℤ◌}
use ccc.Ivr.Variables.{Variables, get}
use ccc.Ivr.Session.{Handler, assign}
use ccc.Ivr.Providers.{
  configured, by_call, collect_digits, collect_rating, uuid_record, Providers, Library,
}
use ccc.Ivr.Config.{BranchCondition, SentimentConfig, Json}
use ccc.Ivr.Basic.{leave, online, leave_with_error}
use ccc.Ivr.Routing.{text_or, int_or, play_quietly}
use ccc.Ivr.Conditions.{evaluate_condition}

abbrev pub silence : String
silence = "silence_stream://250"

-- `for _, c := range cfg.Conditions`: the name of the first condition that holds.
unfoldable pub first_holding : Variables → List BranchCondition → String
unfolding get evaluate_condition
first_holding vars [] = "default"
first_holding vars (c ∷ cs) =
    let rest = first_holding vars cs in
    if evaluate_condition (get c.variable vars) c.operator c.expected then c.name else rest

-- `ms / 1000`, which Go rounds towards zero.
unfoldable pub whole_seconds : ℤ → ℤ
whole_seconds (pos n) = pos (n / 1000)
whole_seconds (negsuc n) = pos 0 -ℤ pos (suc n / 1000)

module _ {A F : Type 0} (p : Providers A F) (lib : Library F) (json : Json F) where
  unfoldable pub collect_dtmf_handler : Handler A
  unfolding assign
  collect_dtmf_handler n s a =
      let c = json.collect_dtmf n.config in
      let min = int_or (pos 1) c.min_digits in
      elim (online p s) [
        | none ↦ leave "success" (assign "dtmf_input" "" s) a
        | some esl ↦
            let (r, b) =
              esl.send_command
                (collect_digits s.call_uuid min (int_or min c.max_digits)
                  (int_or (pos 3) c.retry_count) (int_or (pos 10) c.timeout_sec *ℤ pos 1000)
                  (text_or "#" c.term_char) (text_or silence c.prompt_audio_id)
                  (text_or silence c.fail_audio_id))
                a in
            elim r [
              | err e ↦ leave "timeout" (assign "dtmf_input" "" s) b
              | ok digits ↦ leave "success" (assign "dtmf_input" digits s) b
            ]
      ]

  unfoldable pub voicemail_handler : Handler A
  unfolding assign leave_with_error play_quietly
  voicemail_handler n s a =
      let c = json.voicemail n.config in
      elim (online p s) [
        | none ↦ leave "default" s a
        | some esl ↦
            let stored =
              if is_empty c.storage_path
              then by_call s.tenant_id s.call_id
              else configured c.storage_path in
            let (e, b) =
              esl.start_recording s.call_uuid stored (play_quietly p lib json c.beep_file s a) in
            elim e [
              | some text ↦ leave_with_error "voicemail_error" text s b
              | none ↦
                  leave "default"
                    (assign "voicemail_file"
                      (text_or (lib.voicemail_path s.tenant_id s.call_id) c.storage_path) s)
                    b
            ]
      ]

  unfoldable pub satisfaction_rating_handler : Handler A
  unfolding assign
  satisfaction_rating_handler n s a =
      let c = json.csat n.config in
      elim (online p s) [
        | none ↦ leave "success" (assign "csat_rating" "" s) a
        | some esl ↦
            let (r, b) =
              esl.send_command
                (collect_rating s.call_uuid (text_or silence c.prompt_audio_id)
                  (int_or (pos 5) c.max_rating))
                a in
            elim r [
              | err e ↦ leave "timeout" (assign "csat_rating" "" s) b
              | ok digits ↦ leave "success" (assign "csat_rating" digits s) b
            ]
      ]

  unfoldable pub asr_handler : Handler A
  unfolding assign leave_with_error whole_seconds
  asr_handler n s a =
      let c = json.asr n.config in
      let silent = assign "asr_result" "" s in
      elim (online p s) [
        | none ↦ leave "success" silent a
        | some esl ↦
            let (r, b) =
              esl.send_command
                (uuid_record s.call_uuid s.call_id
                  (whole_seconds (int_or (pos 10000) c.timeout_ms)))
                a in
            elim r [
              | err e ↦ leave "error" silent b
              | ok _ ↦
                  let recorded = assign "asr_audio_file" (lib.asr_path s.call_id) s in
                  elim p.asr [
                    | none ↦ leave "success" (assign "asr_result" "" recorded) b
                    | some transcribe ↦
                        let (heard, b') = transcribe s.call_id b in
                        elim heard [
                          | err e ↦
                              leave_with_error "asr_error" e (assign "asr_result" "" recorded) b'
                          | ok text ↦ leave "success" (assign "asr_result" text recorded) b'
                        ]
                  ]
            ]
      ]

  unfoldable pub branch_handler : Handler A
  unfolding first_holding
  branch_handler n s a = leave (first_holding s.variables (json.branch n.config)) s a

  unfoldable pub threshold_of : SentimentConfig F → F
  threshold_of c =
      if lib.is_zero c.negative_threshold then lib.negate lib.half else c.negative_threshold

  unfoldable pub sentiment_gate_handler : Handler A
  unfolding assign get threshold_of
  sentiment_gate_handler n s a =
      let unscored = assign "sentiment_score" "0" s in
      elim (json.sentiment_gate n.config) [
        | none ↦ leave "error" s a
        | some c ↦
            let text = get (text_or "last_utterance" c.source_var) s.variables in
            let low = threshold_of c in
            if is_empty text then leave "neutral" unscored a else elim p.sentiment [
              | none ↦ leave "neutral" unscored a
              | some analyze ↦
                  let (r, b) = analyze text a in
                  elim r [
                    | err e ↦ leave "error" unscored b
                    | ok score ↦
                        let s' = assign "sentiment_score" (lib.format_2 score) s in
                        leave
                          (if lib.float_le score low
                            then "negative"
                            else (if lib.float_le (lib.negate low) score
                                then "positive"
                                else "neutral"))
                          s' b
                  ]
            ]
      ]
