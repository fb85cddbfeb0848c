-- ===== src/Lifecycle/Rows.antt =====
-- internal/application/lifecycle/service.go: what EndCall makes of the row of the call, and of the rows
-- of other calls.
use ccc.Prelude.{
  ℕ, ◌+◌, ◌≡◌, sym, ◌∙◌, true, false, some, List, [], ◌∷◌, ◌==◌, ◌&&◌, not, is_empty, ◌+◌, arith,
  Bool-cases, if◌then◌else◌, inl, inr, ◌&&◌, not, is_empty, Option, ==→eq, Result-cases, ok,
  Option-cases, err,
}
use mathlib.Core.Path.{subst}
use ccc.Call.World
use ccc.Call.Entity.{Call, CallEvent, HangupReason, HangupBy}
use ccc.Call.Table.{find, update_rows, updated_row, find-update, find-id}
use ccc.Call.World.{get_call, update_call, log_event}
use ccc.Call.Durations.{calculate_durations}
use ccc.Call.Control
use ccc.Call.Control.{ended, is}
use ccc.Call.Entity.{HangupReason, HangupBy, completed}
use ccc.Call.Evolution.Rules.{Evolves-refl}
use ccc.Call.Lifecycle.{Step, finish, ◌⟶◌, Evolves}
use ccc.Call.World.{Env as CallEnv, World as CallWorld}
use ccc.Call.Evolution.Moves.{end_call-Evolves as control_end-Evolves}
use ccc.Lifecycle.World.{Outcome, call_failed, Env, World, Moment, emit}
use ccc.Lifecycle.Service.{
  save_call, save_recording, save_durations, with_durations, store_recording, insert_recording,
  wrap_up, notify_its_agent, hang_up, after_end, end_call, events_of, continue,
}
use ccc.Call.Lifecycle.{is_some}
use ccc.Lifecycle.Frame.{
  Alike, Alike-trans, save_recording-Alike, let_go-lem, notify_its_agent-calls, wrap_up-others,
  calculate_durations-Alike,
}

-- The row of the call holds the record that ended, or one that differs from it in what is still
-- written; the other rows are as they were.
pub record Kept (i : ℕ) (c0 c : Call) (t0 t : List Call) : Type 0 where
  pub own : (c.id == i) ≡ true → (d : Call) × (find i t ≡ some (updated_row c0 d)) × Alike c d
  pub other : (c.id == i) ≡ false → find i t ≡ find i t0

Kept-update :
    (i : ℕ) (c0 c d : Call) (t0 t : List Call)
    → Alike c d
    → Kept i c0 c t0 t
    → Kept i c0 c t0 (update_rows d t)
unfolding updated_row
Kept-update i c0 c d t0 t alike kept = record {
  own = λ hit.
      let (x, e, _) = kept.own hit in
      (d, ground (arith, find-update i d t, alike.same_id, hit, e), alike);
  other = λ miss. ground (arith, find-update i d t, alike.same_id, miss, kept.other miss);
}

module _ (env : Env) (i : ℕ) (c0 c : Call) (t0 : List Call) where
  abbrev Holds : World → Type 0
  Holds w = Kept i c0 c t0 w.calls.calls

  save_call-Kept : (d : Call) (w : World) → Alike c d → Holds w → Holds (save_call env d w)
  unfolding save_call update_call
  save_call-Kept d w alike kept = elim (Bool-cases (env.calls.db_fails w.calls.queries)) [
    | inl e ↦ rw e kept
    | inr e ↦ rw e (Kept-update i c0 c d t0 w.calls.calls alike kept)
  ]

  hang_up-Kept : (d : Call) (w : World) → Holds w → Holds (hang_up env d w)
  unfolding hang_up emit
  hang_up-Kept d w kept =
      let same : (hang_up env d w).calls ≡ w.calls = ground arith in
      subst (λ (k : ccc.Call.World.World). Kept i c0 c t0 k.calls) (sym same) kept

  save_recording-Kept : (now : ℕ) (w : World) → Holds w → Holds (save_recording env c now w).1
  unfolding save_recording store_recording insert_recording
  save_recording-Kept now w kept =
      elim (Bool-cases
        (env.keeps_recordings && is_some c.answered_at && not (is_empty c.channel_uuid))) [
          | inl e ↦ rw e (
              save_call-Kept
                (record c { recording_url = some (env.recording_path c.tenant_id c.id) })
                (insert_recording env c (env.recording_path c.tenant_id c.id) now w) (ground arith)
                kept)
          | inr e ↦ rw e kept
        ]

  with_durations-Kept :
      (d : Call) (es : List CallEvent) (w : World)
      → Alike c d
      → Holds w
      → Holds (with_durations env d es w).1
  unfolding with_durations
  with_durations-Kept d [] w alike kept = kept
  with_durations-Kept d (e ∷ es) w alike kept =
      save_call-Kept (calculate_durations d (e ∷ es)) w
        (Alike-trans alike (calculate_durations-Alike d (e ∷ es))) kept

  after_end-Kept : (now : ℕ) (w : World) → Holds w → Holds (after_end env c now w).1
  unfolding after_end save_durations
  after_end-Kept now w kept =
      let (c1, w1) = save_recording env c now (hang_up env c w) in
      let kept1 : Holds w1 = save_recording-Kept now (hang_up env c w) (hang_up-Kept c w kept) in
      let (c2, w2) = save_durations env c1 w1 in
      let kept2 : Holds w2 =
        with_durations-Kept c1
          (if env.calls.db_fails w1.calls.queries then [] else events_of c1.id w1.calls.events)
          (record w1 { calls = record (w1.calls) { queries = w1.calls.queries + 1 } })
          (save_recording-Alike env c now (hang_up env c w)) kept1 in
      let w3 : World = wrap_up env c2 now w2 in
      let w4 : World = notify_its_agent env Moment.ended c2 w3 in
      let same : (after_end env c now w).1.calls ≡ w2.calls =
        (let_go-lem env c2 w4).0
        ∙ notify_its_agent-calls env Moment.ended c2 w3
        ∙ (wrap_up-others env c2 now w2).0 in
      subst (λ (k : ccc.Call.World.World). Kept i c0 c t0 k.calls) (sym same) kept2

-- A record that ended makes a step of the life of a call, and so does one that differs in what is
-- still written.
Step-of_Alike :
    (reason : HangupReason) (by : Option HangupBy) (now : ℕ) (c0 d : Call)
    → is c0.status completed ≡ false
    → Alike (ended reason by now c0) d
    → Step c0 (updated_row c0 d)
unfolding updated_row
Step-of_Alike reason by now c0 d live alike = record {
  edge = subst (λ t. c0.status ⟶ t) (sym alike.same_status) finish;
  identity = ground arith;
  frozen = λ e. ground (arith, e, live);
  valid = λ v. record {
    answered = ground (arith, alike);
    ended = ground (arith, alike);
    explained = ground (arith, alike);
    running = ground (arith, alike);
    queued = ground (arith, alike);
  };
  holds = ground (arith, alike);
  transfers = ground (arith, alike);
}

end_call-ok :
    (env : CallEnv) (id : ℕ) (reason : HangupReason) (by : Option HangupBy) (now : ℕ)
    (w : CallWorld) (c : Call)
    → (Control.end_call env id reason by now w).0 ≡ ok c
    → (c0 : Call) × (find id w.calls ≡ some c0)
      × (is c0.status completed ≡ false)
      × (c ≡ ended reason by now c0)
      × ((Control.end_call env id reason by now w).1.calls ≡ update_rows c w.calls)
unfolding Control.end_call get_call update_call log_event
end_call-ok env id reason by now w c done = elim (Option-cases (find id w.calls)) [
  | inl e ↦ ground (arith, done, e)
  | inr (c0, e) ↦ (c0, e, ground (arith, done, e), ground (arith, done, e), ground (arith, done, e))
]

Kept-begin :
    (i id : ℕ) (reason : HangupReason) (by : Option HangupBy) (now : ℕ) (c0 : Call) (t : List Call)
    → find id t ≡ some c0
    → Kept i c0 (ended reason by now c0) t (update_rows (ended reason by now c0) t)
Kept-begin i id reason by now c0 t e = record {
  own = λ hit.
      let same : c0.id ≡ i = ==→eq c0.id i hit in
      let here : find i t ≡ some c0 = cc (find-id id t c0 e, same, e) in
      (
        ended reason by now c0,
        ground (arith, find-update i (ended reason by now c0) t, hit, here),
        ground arith,
      );
  other = λ miss. ground (arith, find-update i (ended reason by now c0) t, miss);
}

Evolves-of_Kept :
    (i id : ℕ) (reason : HangupReason) (by : Option HangupBy) (now : ℕ) (c0 : Call)
    (t0 t : List Call)
    → find id t0 ≡ some c0
    → is c0.status completed ≡ false
    → Kept i c0 (ended reason by now c0) t0 t
    → Evolves (find i t0) (find i t)
Evolves-of_Kept i id reason by now c0 t0 t e live kept = elim (Bool-cases (c0.id == i)) [
  | inl hit ↦
      let (d, after, alike) = kept.own hit in
      let same : c0.id ≡ i = ==→eq c0.id i hit in
      let here : find i t0 ≡ some c0 = cc (find-id id t0 c0 e, same, e) in
      rw (here, after) (Step-of_Alike reason by now c0 d live alike)
  | inr miss ↦ rw (kept.other miss) (Evolves-refl _)
]

-- However the database answers, EndCall with all that follows it keeps every call's row or takes it
-- one step along the life of a call.
pub end_call-Evolves :
    (env : Env) (id : ℕ) (reason : HangupReason) (by : Option HangupBy) (now : ℕ) (w : World)
    (i : ℕ)
    → Evolves (find i w.calls.calls) (find i (end_call env id reason by now w).1.calls.calls)
unfolding end_call continue
end_call-Evolves env id reason by now w i =
    let run = Control.end_call env.calls id reason by now w.calls in
    let w1 : World = record w { calls = run.1 } in
    elim (Result-cases run.0) [
      | inr (e, failed) ↦
          let eq : end_call env id reason by now w ≡ (err (call_failed e), w1) =
            ground (arith, failed) in
          subst (λ (r : Outcome Call). Evolves (find i w.calls.calls) (find i r.1.calls.calls))
            (sym eq) (control_end-Evolves env.calls id now i w.calls reason by)
      | inl (c, done) ↦
          let (c0, e, live, same, rows) = end_call-ok env.calls id reason by now w.calls c done in
          let eq : end_call env id reason by now w
              ≡ (ok (after_end env c now w1).0, (after_end env c now w1).1) =
            ground (arith, done) in
          let begun : Kept i c0 (ended reason by now c0) w.calls.calls
              (update_rows (ended reason by now c0) w.calls.calls) =
            Kept-begin i id reason by now c0 w.calls.calls e in
          let start : Kept i c0 c w.calls.calls w1.calls.calls =
            subst (λ t. Kept i c0 c w.calls.calls t) (sym rows)
              (subst (λ d. Kept i c0 d w.calls.calls (update_rows d w.calls.calls)) (sym same)
                begun) in
          let kept : Kept i c0 c w.calls.calls (after_end env c now w1).1.calls.calls =
            after_end-Kept env i c0 c w.calls.calls now w1 start in
          subst (λ (r : Outcome Call). Evolves (find i w.calls.calls) (find i r.1.calls.calls))
            (sym eq)
            (Evolves-of_Kept i id reason by now c0 w.calls.calls
              (after_end env c now w1).1.calls.calls e live
              (subst (λ d. Kept i c0 d w.calls.calls (after_end env c now w1).1.calls.calls) same
                kept))
    ]
