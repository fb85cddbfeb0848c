-- ===== src/Call/Supervision.antt =====
-- The channels of supervisors, and holding.
use ccc.Prelude.{
  ℕ, ◌+◌, ◌≡◌, ◌⊎◌, String, false, Option, none, some, List, ◌∷◌, arith, is_empty, ok, err,
  Option-cases, inl, inr,
}
use ccc.Prelude.Int.{ℤ}
use ccc.Call.Entity.{Call, Error, lit, numbered, HangupBy, HangupReason}
use ccc.Call.Table.{find, find-update, find-id, updated_row}
use ccc.Call.World.{Env, World, Command}
use ccc.Call.Control.{end_call, hold_call, retrieve_call, ended}
use ccc.Call.Supervise.{
  MonitorMode, spy_command, monitor_call, coach_call, join_channel, create_leg,
}

-- The commands after a failure, by the answer to the command that dials the supervisor: none were
-- sent, the channel was refused, or it was hung up last.
abbrev pub Closed :
    Option String → Command → (String → Command) → List Command → List Command → Type 0
Closed none dial join before after = (after ≡ before) ⊎ (after ≡ dial ∷ before)
Closed (some u) dial join before after =
    (after ≡ before) ⊎ (after ≡ Command.hangup u ∷ join u ∷ dial ∷ before)

abbrev dial : ℕ → String → Command
dial user caller_id = Command.originate (numbered "user/" user) (lit caller_id)

-- A coaching session that fails leaves no channel of the coach up: if one was opened, the last
-- command hangs it up. The media layer names each channel that it opens.
coach_call-Closed :
    (env : Env) (tenant target user : ℕ) (timeout : ℤ) (now : ℕ) (w : World) (e : Error) (c : Call)
    (answer : List Command → Option String)
    → env.provider ≡ some answer
    → ((m : List Command) (u : String) → answer m ≡ some u → is_empty u ≡ false)
    → find target w.calls ≡ some c
    → (coach_call env tenant target user timeout now w).0 ≡ err e
    → Closed
        (answer (dial user "coach" ∷ w.media))
        (dial user "coach")
        (λ u. Command.coach u c.channel_uuid)
        w.media
        (coach_call env tenant target user timeout now w).1.media
unfolding coach_call join_channel create_leg
coach_call-Closed env tenant target user timeout now w e c answer p named found failed =
    elim (Option-cases (answer (dial user "coach" ∷ w.media))) [
      | inl q ↦ rw q (ground arith)
      | inr (u, q) ↦ rw q (ground (arith, named (dial user "coach" ∷ w.media) u q))
    ]

-- So for a session of any mode: its channel does not stay up when the session fails.
pub monitor_call-Closed :
    (env : Env) (tenant target user : ℕ) (mode : MonitorMode) (now : ℕ) (w : World) (e : Error)
    (c : Call) (answer : List Command → Option String)
    → env.provider ≡ some answer
    → ((m : List Command) (u : String) → answer m ≡ some u → is_empty u ≡ false)
    → find target w.calls ≡ some c
    → (monitor_call env tenant target user mode now w).0 ≡ err e
    → Closed
        (answer (dial user "monitor" ∷ w.media))
        (dial user "monitor")
        (λ u. spy_command mode u c.channel_uuid)
        w.media
        (monitor_call env tenant target user mode now w).1.media
unfolding monitor_call join_channel create_leg
monitor_call-Closed env tenant target user MonitorMode.listen now w e c answer p named found
      failed =
    elim (Option-cases (answer (dial user "monitor" ∷ w.media))) [
      | inl q ↦ rw q (ground arith)
      | inr (u, q) ↦ rw q (ground (arith, named (dial user "monitor" ∷ w.media) u q))
    ]
monitor_call-Closed env tenant target user _ now w e c answer p named found failed =
    elim (Option-cases (answer (dial user "monitor" ∷ w.media))) [
      | inl q ↦ rw q (ground arith)
      | inr (u, q) ↦ rw q (ground (arith, named (dial user "monitor" ∷ w.media) u q))
    ]

-- Holding an active call and taking it off hold, both with success, gives back the stored call with
-- one more hold counted.
retrieve-hold :
    (env : Env) (id now later : ℕ) (w : World) (c d d' : Call)
    → find id w.calls ≡ some c
    → (hold_call env id now w).0 ≡ ok d
    → (retrieve_call env id later (hold_call env id now w).1).0 ≡ ok d'
    → find id (retrieve_call env id later (hold_call env id now w).1).1.calls
      ≡ some (record c { hold_count = c.hold_count + 1 })
unfolding hold_call retrieve_call updated_row
retrieve-hold env id now later w c d d' found held_ok retrieved_ok =
    grind (arith, find-update, find-id)

-- Who hung up is not stored: a call that ends with success has its hangup reason in the table,
-- and in the column of the hanging-up side what was there before.
end_call-hangup_by_lost :
    (env : Env) (id : ℕ) (reason : HangupReason) (by : Option HangupBy) (now : ℕ) (w : World)
    (c c' : Call)
    → find id w.calls ≡ some c
    → (end_call env id reason by now w).0 ≡ ok c'
    → (d : Call) × (find id (end_call env id reason by now w).1.calls ≡ some d)
      × (d.hangup_reason ≡ some reason)
      × (d.hangup_by ≡ c.hangup_by)
unfolding end_call updated_row
end_call-hangup_by_lost env id reason by now w c c' found done = (
  updated_row c (ended reason by now c),
  grind (arith, find-update, find-id),
  ground arith,
  ground arith,
)
