-- ===== src/Presence/Wrapping.antt =====
-- internal/domain/identity/service.go: SetACW, in each of its outcomes.
use ccc.Prelude.{
  ℕ, ◌+◌, ◌≡◌, refl, ◌⊎◌, inl, inr, Bool-cases, Option-cases, true, false, none, some, arith,
  String,
}
use ccc.Presence.Entity.{AgentPresence, PresenceStatus, acw, talking, dialing}
use ccc.Presence.Table.{row_of, upsert_row, row_of-agent}
use ccc.Presence.World.{Env, World}
use ccc.Presence.Service.{
  set_acw, transition_to, moved, is_valid_transition, acw_seconds_of, valid_transitions, is_one_of,
}
use ccc.Presence.Moves.{upsert-upsert}
use ccc.Presence.Timers.{status_of, status_of-upsert}

-- How after-call work of an agent begins, or why it does not.
pub data WrapsUp (env : Env) (a : ℕ) (w w' : World) : Type 0 where
  begins :
      {p : AgentPresence}
      → row_of a w.rows ≡ some p
      → (p.status ≡ talking) ⊎ (p.status ≡ dialing)
      → status_of a w'.rows ≡ some acw
      → WrapsUp env a w w'
  absent : row_of a w.rows ≡ none → w'.rows ≡ w.rows → WrapsUp env a w w'
  illegal :
      {p : AgentPresence}
      → row_of a w.rows ≡ some p
      → ¬ ((p.status ≡ talking) ⊎ (p.status ≡ dialing))
      → w'.rows ≡ w.rows
      → WrapsUp env a w w'
  refused : {n : ℕ} → env.db_fails n ≡ true → w'.rows ≡ w.rows → WrapsUp env a w w'

on_call_of_valid :
    (s : PresenceStatus) → is_valid_transition s acw ≡ true → (s ≡ talking) ⊎ (s ≡ dialing)
unfolding is_valid_transition valid_transitions is_one_of
on_call_of_valid s valid = ground arith

off_call_of_invalid :
    (s : PresenceStatus) → is_valid_transition s acw ≡ false → ¬ ((s ≡ talking) ⊎ (s ≡ dialing))
unfolding is_valid_transition valid_transitions is_one_of
off_call_of_invalid s invalid = ground arith

set_acw-rows :
    (env : Env) (a : ℕ) (code : String) (now : ℕ) (w : World) (p : AgentPresence)
    → row_of a w.rows ≡ some p
    → is_valid_transition p.status acw ≡ true
    → env.db_fails w.queries ≡ false
    → env.db_fails (w.queries + 1 + 1) ≡ false
    → status_of a (set_acw env a code now w).1.rows ≡ some acw
unfolding set_acw transition_to
set_acw-rows env a code now w p there valid read wrote =
    let p2 : AgentPresence = record (moved acw now p) {
      disposition_code = code;
      acw_seconds = acw_seconds_of env (moved acw now p);
      updated_at = now;
    } in
    let same : p.agent_id ≡ a = row_of-agent a w.rows p there in
    let found : row_of p.agent_id w.rows ≡ some p = cc (there, same) in
    let d = env.default_acw in
    elim (Bool-cases (env.db_fails (w.queries + 1 + 1 + 1))) [
      | inl lost ↦
          let rows : (set_acw env a code now w).1.rows ≡ upsert_row d (moved acw now p) w.rows =
            ground arith in
          rw rows (status_of-upsert a d p (moved acw now p) w.rows there same)
      | inr kept ↦
          let rows : (set_acw env a code now w).1.rows
              ≡ upsert_row d p2 (upsert_row d (moved acw now p) w.rows) =
            ground arith in
          rw rows (
            rw (upsert-upsert d (moved acw now p) p2 p w.rows refl found)
              (status_of-upsert a d p p2 w.rows there same))
    ]

-- SetACW takes the agent into after-call work, unless they have no row, are neither talking nor
-- dialing, or the database refuses a statement; then it changes no row.
pub set_acw-WrapsUp :
    (env : Env) (a : ℕ) (code : String) (now : ℕ) (w : World)
    → WrapsUp env a w (set_acw env a code now w).1
unfolding set_acw transition_to
set_acw-WrapsUp env a code now w = elim (Bool-cases (env.db_fails w.queries)) [
  | inl fails ↦ refused fails (ground (arith, fails))
  | inr read ↦ elim (Option-cases (row_of a w.rows)) [
    | inl e ↦ absent e (ground (arith, e, read))
    | inr (p, e) ↦ elim (Bool-cases (is_valid_transition p.status acw)) [
      | inr invalid ↦
          illegal e (off_call_of_invalid p.status invalid) (ground (arith, e, read, invalid))
      | inl valid ↦ elim (Bool-cases (env.db_fails (w.queries + 1 + 1))) [
        | inl fails ↦ refused fails (ground (arith, e, read, valid, fails))
        | inr wrote ↦
            begins e (on_call_of_valid p.status valid)
              (set_acw-rows env a code now w p e valid read wrote)
      ]
    ]
  ]
]
