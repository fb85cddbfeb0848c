-- ===== src/Lifecycle/Service.antt =====
-- internal/application/lifecycle/service.go: the methods that move a call, with what each sets off in
-- the other domains. `now` is the one reading of the clock in each method.
use ccc.Prelude.{
  ℕ, ◌+◌, leb, Bool, true, false, not, ◌&&◌, Option, none, some, List, [], ◌∷◌, ◌++◌, ◌==◌,
  if◌then◌else◌, is_empty, ok, err, String, Result,
}
use ccc.Prelude.Int.{ℤ, pos, negsuc, ◌+ℤ◌}
use ccc.Call.World.{World as CallWorld}
use ccc.Call.Entity.{
  Error, Call, CallEvent, CallDirection, inbound, outbound, HangupBy, HangupReason,
}
use ccc.Call.World.{update_call}
use ccc.Call.Durations.{seconds_between, calculate_durations}
use ccc.Call.Control
use ccc.Call.Lifecycle.{is_some}
use ccc.Presence.Entity.{PresenceStatus, talking, dialing}
use ccc.Presence.Service.{transition_to, set_acw}
use ccc.Lifecycle.World.{
  Env, World, Outcome, Moment, queued, ringing, answered, ended, hangup_channel, announce,
  start_recording, notify_agent, publish, deliver, screen_pop, call_failed, count_at, emit, written,
  release,
}

abbrev pub is_inbound : CallDirection → Bool
is_inbound inbound = true
is_inbound _ = false

abbrev pub is_outbound : CallDirection → Bool
is_outbound outbound = true
is_outbound _ = false

-- The time between answer and end, 0 where one is missing.
abbrev pub talk_seconds : Call → ℤ
talk_seconds c = elim c.answered_at [
  | none ↦ pos 0
  | some a ↦ elim c.ended_at [ none ↦ pos 0 | some e ↦ seconds_between a e ]
]

-- A number of seconds that is not negative, as the campaign's counter takes it.
abbrev pub natural : ℤ → ℕ
natural (pos n) = n
natural (negsuc n) = 0

-- `ORDER BY created_at ASC`, events of one time in the order in which the rows were written.
unfoldable pub by_time : CallEvent → List CallEvent → List CallEvent
by_time e [] = e ∷ []
by_time e (d ∷ es) =
    let rest = by_time e es in if leb e.created_at d.created_at then e ∷ d ∷ es else d ∷ rest

-- `SELECT * FROM call_events WHERE call_id = ?`
unfoldable pub events_of : ℕ → List CallEvent → List CallEvent
unfolding by_time
events_of i [] = []
events_of i (e ∷ es) = let rest = events_of i es in if e.call_id == i then by_time e rest else rest

-- `c, err := s.callSvc...; if err != nil { return nil, err }`, and what follows with the call.
unfoldable pub continue :
    Result Error Call × CallWorld → (Call → World → Call × World) → World → Outcome Call
continue (err e, calls) f w = (err (call_failed e), record w { calls = calls })
continue (ok c, calls) f w = let (c', w') = f c (record w { calls = calls }) in (ok c', w')

module _ (env : Env) where
  -- `UpdateDurations`, its error logged.
  unfoldable pub save_call : Call → World → World
  save_call c w = record w { calls = (update_call env.calls c w.calls).1 }

  -- `s.recordingRepo.Create(ctx, &call.Recording{...})`, its error logged.
  unfoldable pub insert_recording : Call → String → ℕ → World → World
  insert_recording c path now w = record w {
    rows_written = w.rows_written + 1;
    recordings =
        written env w
          (record {
            tenant_id = c.tenant_id;
            call_id = c.id;
            agent_user_id = c.agent_user_id;
            file_path = path;
            duration_sec = talk_seconds c;
            encrypted = env.encrypts;
            created_at = now;
          })
          w.recordings;
  }

  -- The row of the recording, and its path on the call.
  unfoldable pub store_recording : Call → ℕ → World → Call × World
  store_recording c now w =
      let path = env.recording_path c.tenant_id c.id in
      let c' = record c { recording_url = some path } in
      (c', save_call c' (insert_recording c path now w))

  unfoldable pub save_recording : Call → ℕ → World → Call × World
  save_recording c now w =
      if env.keeps_recordings && is_some c.answered_at && not (is_empty c.channel_uuid)
      then store_recording c now w
      else (c, w)

  -- `if len(events) > 0 { ... }`
  unfoldable pub with_durations : Call → List CallEvent → World → Call × World
  with_durations c [] w = (c, w)
  with_durations c (e ∷ es) w =
      (calculate_durations c (e ∷ es), save_call (calculate_durations c (e ∷ es)) w)

  -- `events, _ := s.callSvc.ListEvents(ctx, callID)` and, if there are any, the durations.
  unfoldable pub save_durations : Call → World → Call × World
  save_durations c w =
      with_durations c
        (if env.calls.db_fails w.calls.queries then [] else events_of c.id w.calls.events)
        (record w { calls = record (w.calls) { queries = w.calls.queries + 1 } })

  -- `if s.presenceSvc != nil && c.AgentUserID != nil { _, _ = s.presenceSvc.SetACW(...) }`
  unfoldable pub wrap_up : Call → ℕ → World → World
  wrap_up c now w = elim env.presence [
    | none ↦ w
    | some penv ↦ elim c.agent_user_id [
      | none ↦ w
      | some a ↦ record w { presence = (set_acw penv a "" now w.presence).1 }
    ]
  ]

  -- The agent's presence follows, an error of it dropped.
  unfoldable pub follow_agent : ℕ → PresenceStatus → ℕ → World → World
  follow_agent a to now w = elim env.presence [
    | none ↦ w
    | some penv ↦ record w { presence = (transition_to penv a to now w.presence).1 }
  ]

  unfoldable pub notify_its_agent : Moment → Call → World → World
  notify_its_agent m c w = elim c.agent_user_id [
    | none ↦ w
    | some a ↦ emit env.has_notifier (notify_agent a m c) w
  ]

  -- The end of EndCall: the hooks are left to a goroutine, the slot is given back, gauges go down.
  unfoldable pub let_go : Call → World → World
  let_go c w =
      let w' = release env c.tenant_id (record w { hooks = w.hooks ++ c ∷ [] }) in
      emit env.has_publisher (publish ended c) (record w' {
        active_gauge = w'.active_gauge +ℤ negsuc 0;
        tenant_gauge = count_at c.tenant_id (negsuc 0) w'.tenant_gauge;
      })

  unfoldable pub hang_up : Call → World → World
  hang_up c w =
      emit (env.has_esl && not (is_empty c.channel_uuid)) (hangup_channel c.channel_uuid) w

  -- What EndCall does once the call's record has ended.
  unfoldable pub after_end : Call → ℕ → World → Call × World
  after_end c now w =
      let (c', w1) = save_recording c now (hang_up c w) in
      let (c'', w2) = save_durations c' w1 in
      (c'', let_go c'' (notify_its_agent ended c'' (wrap_up c'' now w2)))

  unfoldable pub end_call : ℕ → HangupReason → Option HangupBy → ℕ → World → Outcome Call
  end_call id reason by now w =
      continue (Control.end_call env.calls id reason by now w.calls) (λ c. after_end c now) w

  unfoldable pub start_to_record : Call → World → World
  start_to_record c w =
      let there = env.has_esl && not (is_empty c.channel_uuid) in
      emit there (start_recording c.channel_uuid)
        (emit (there && env.announces c.tenant_id) (announce c.channel_uuid) w)

  -- The screen pop, the webhook and the bus, after the agent was told.
  unfoldable pub tell_of_answer : ℕ → Call → World → World
  tell_of_answer agent c w = emit env.has_publisher (publish answered c) (
      emit env.has_webhook (deliver answered c) (
        emit env.has_screen_pop (screen_pop c)
          (emit env.has_notifier (notify_agent agent answered c) w)))

  unfoldable pub after_answer : ℕ → Call → ℕ → World → Call × World
  after_answer agent c now w =
      let w' = record w { tenant_gauge = count_at c.tenant_id (pos 1) w.tenant_gauge } in
      (c, tell_of_answer agent c (start_to_record c (follow_agent agent talking now w')))

  unfoldable pub answer_call : ℕ → ℕ → ℕ → World → Outcome Call
  answer_call id agent now w =
      continue (Control.answer_call env.calls id agent now w.calls) (λ c. after_answer agent c now)
        w

  -- `s.queueSnapshotRepo.Create(ctx, &call.QueueSnapshot{...})`, its error logged.
  unfoldable pub save_snapshot : Call → ℕ → ℕ → World → World
  save_snapshot c group now w =
      if env.keeps_snapshots
      then record w {
        rows_written = w.rows_written + 1;
        snapshots =
            written env w
              (record {
                tenant_id = c.tenant_id;
                skill_group_id = group;
                waiting_count = 1;
                snapshot_at = now;
              })
              w.snapshots;
      }
      else w

  unfoldable pub transition_call_to_queue : ℕ → ℕ → ℕ → World → Outcome Call
  transition_call_to_queue id group now w =
      continue (Control.transition_to_queue env.calls id group now w.calls)
        (λ c w. (c, notify_its_agent queued c (save_snapshot c group now w))) w

  unfoldable pub after_ringing : ℕ → Call → ℕ → World → Call × World
  after_ringing agent c now w =
      (c, emit env.has_notifier (notify_agent agent ringing c) (follow_agent agent dialing now w))

  unfoldable pub transition_call_to_ringing : ℕ → ℕ → ℕ → World → Outcome Call
  transition_call_to_ringing id agent now w =
      continue (Control.transition_to_ringing env.calls id agent now w.calls)
        (λ c. after_ringing agent c now) w
