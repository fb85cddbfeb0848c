-- ===== src/Call/Table.antt =====
-- internal/infrastructure/mysql/call_repo.go: what the INSERT and the UPDATE statements do to the
-- rows of the table `calls`. An UPDATE writes the columns that it lists and keeps the others.
use ccc.Prelude.{ℕ, ◌≡◌, Option, none, some, List, [], ◌∷◌, ◌++◌, arith, ◌==◌, if◌then◌else◌}
use ccc.Call.Entity.{Call}
use mathlib.Core.Option

-- The columns of the INSERT statement; the others take the column's default, NULL.
unfoldable pub inserted_row : Call → Call
inserted_row c = record c { sip_trunk_id = none; hangup_by = none }

unfoldable pub updated_row : Call → Call → Call
updated_row old c = record old {
  status = c.status;
  hangup_reason = c.hangup_reason;
  disposition_code = c.disposition_code;
  agent_user_id = c.agent_user_id;
  skill_group_id = c.skill_group_id;
  customer_id = c.customer_id;
  hold_count = c.hold_count;
  transfer_count = c.transfer_count;
  satisfaction_rating = c.satisfaction_rating;
  ivr_duration_sec = c.ivr_duration_sec;
  ring_duration_sec = c.ring_duration_sec;
  queue_duration_sec = c.queue_duration_sec;
  wait_duration_sec = c.wait_duration_sec;
  duration_sec = c.duration_sec;
  recording_url = c.recording_url;
  custom_data = c.custom_data;
  answered_at = c.answered_at;
  ended_at = c.ended_at;
}

-- SELECT * FROM calls WHERE id = ?
unfoldable pub find : ℕ → List Call → Option Call
find i [] = none
find i (c ∷ t) = if c.id == i then some c else find i t

unfoldable pub update_rows : Call → List Call → List Call
update_rows c [] = []
update_rows c (x ∷ t) = (if x.id == c.id then updated_row x c else x) ∷ update_rows c t

unfoldable pub insert_row : Call → List Call → List Call
insert_row c t = t ++ inserted_row c ∷ []

pub find-id : (i : ℕ) (t : List Call) (c : Call) → find i t ≡ some c → c.id ≡ i
unfolding find
find-id i [] c h = ground arith
find-id i (x ∷ t) c h = ground (arith, find-id i t c)

-- A row that an UPDATE names holds the written columns; every other row is as it was.
pub find-update :
    (i : ℕ) (c : Call) (t : List Call)
    → find i (update_rows c t)
      ≡ (if c.id == i then Option.map (λ x. updated_row x c) (find i t) else find i t)
unfolding find update_rows updated_row
find-update i c [] = ground arith
find-update i c (x ∷ t) = ground (arith, find-update i c t)

pub find-insert :
    (i : ℕ) (c : Call) (t : List Call)
    → find c.id t ≡ none
    → find i (insert_row c t) ≡ (if c.id == i then some (inserted_row c) else find i t)
unfolding find insert_row inserted_row
find-insert i c [] h = ground arith
find-insert i c (x ∷ t) h = ground (arith, find-insert i c t)
