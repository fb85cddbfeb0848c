-- ===== src/Presence/Table.antt =====
-- internal/infrastructure/mysql/agent_presence_repo.go: what its statements do to the rows.
-- No file of the repository creates the table agent_presence. `agent_id` is taken as its unique key,
-- by which the upsert finds its row.
use ccc.Prelude.{
  ℕ, ◌≡◌, Bool, Option, none, some, List, [], ◌∷◌, arith, ◌==◌, ◌&&◌, if◌then◌else◌, ltb, false,
  not,
}
use ccc.Prelude.Int.{ℤ}
use ccc.Presence.Entity.{AgentPresence, Shift}

-- ON DUPLICATE KEY UPDATE writes the columns that it lists.
abbrev pub upserted_row : AgentPresence → AgentPresence → AgentPresence
upserted_row old p = record old {
  status = p.status;
  sub_state = p.sub_state;
  work_mode = p.work_mode;
  break_reason_code = p.break_reason_code;
  disposition_code = p.disposition_code;
  current_call_id = p.current_call_id;
  last_status_at = p.last_status_at;
  updated_at = p.updated_at;
}

-- `default_acw` is the default of the column acw_seconds, which the INSERT does not list.
abbrev pub new_row : ℕ → AgentPresence → AgentPresence
new_row default_acw p = record p { acw_seconds = default_acw }

-- SELECT * FROM agent_presence WHERE agent_id = ?
unfoldable pub row_of : ℕ → List AgentPresence → Option AgentPresence
row_of a [] = none
row_of a (p ∷ t) = if p.agent_id == a then some p else row_of a t

unfoldable pub upsert_row : ℕ → AgentPresence → List AgentPresence → List AgentPresence
upsert_row d p [] = new_row d p ∷ []
upsert_row d p (x ∷ t) =
    let rest = upsert_row d p t in
    if x.agent_id == p.agent_id then upserted_row x p ∷ t else x ∷ rest

-- SELECT * FROM agent_presence WHERE tenant_id = ?
unfoldable pub rows_of_tenant : ℕ → List AgentPresence → List AgentPresence
rows_of_tenant n [] = []
rows_of_tenant n (p ∷ t) =
    let rest = rows_of_tenant n t in if p.tenant_id == n then p ∷ rest else rest

abbrev is_open : ℕ → Shift → Bool
is_open a s = elim s.check_out_at [ none ↦ s.agent_id == a | some _ ↦ false ]

-- ... WHERE agent_id = ? AND check_out_at IS NULL ORDER BY check_in_at DESC LIMIT 1
unfoldable pub open_shift : ℕ → List Shift → Option Shift
open_shift a [] = none
open_shift a (s ∷ t) = elim (open_shift a t) [
  | none ↦ if is_open a s then some s else none
  | some other ↦
      if is_open a s && not (ltb s.check_in_at other.check_in_at) then some s else some other
]

-- UPDATE agent_shift_log SET check_out_at = ?, total_online_sec = ? WHERE id = ?
unfoldable pub end_shift : ℕ → ℕ → ℤ → List Shift → List Shift
end_shift i at total [] = []
end_shift i at total (s ∷ t) =
    (if s.id == i then record s { check_out_at = some at; total_online_sec = total } else s)
    ∷ end_shift i at total t

pub row_of-upsert :
    (a d : ℕ) (p : AgentPresence) (t : List AgentPresence)
    → row_of a (upsert_row d p t) ≡ (
        if p.agent_id == a
        then elim (row_of a t) [ none ↦ some (new_row d p) | some old ↦ some (upserted_row old p) ]
        else row_of a t)
unfolding row_of upsert_row
row_of-upsert a d p [] = ground arith
row_of-upsert a d p (x ∷ t) = ground (arith, row_of-upsert a d p t)

pub row_of-agent :
    (a : ℕ) (t : List AgentPresence) (p : AgentPresence) → row_of a t ≡ some p → p.agent_id ≡ a
unfolding row_of
row_of-agent a [] p h = ground arith
row_of-agent a (x ∷ t) p h = ground (arith, row_of-agent a t p)
