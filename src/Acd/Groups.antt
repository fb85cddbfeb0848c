-- ===== src/Acd/Groups.antt =====
-- internal/infrastructure/mysql/skill_group_repo.go: what its queries give the dispatcher
-- (internal/application/acd/service.go).
use ccc.Prelude.{
  ℕ, suc, ◌≡◌, Bool, not, ◌&&◌, Option, none, some, List, [], ◌∷◌, inl, inr, arith, Option-cases,
  ◌==◌, if◌then◌else◌,
}
use ccc.Prelude.Int.{ℤ}
use ccc.Acd.World.{SkillGroup, Backend, Env, World}
use ccc.Acd.Service.{store, enqueue}

pub record SkillGroupRow : Type 0 where
  pub group : SkillGroup
  pub is_deleted : Bool

-- The columns that the SELECT lists: the others of the record keep their zero values.
abbrev pub loaded : SkillGroup → SkillGroup
loaded g = record g { max_queue_size = 0; overflow_group = none }

-- ... WHERE id = ? AND status != 'deleted'
unfoldable pub group_by_id : ℕ → List SkillGroupRow → Option SkillGroup
group_by_id id [] = none
group_by_id id (r ∷ rows) =
    if (r.group.id == id) && not r.is_deleted then some (loaded r.group) else group_by_id id rows

-- SELECT ... FROM skill_group_members WHERE skill_group_id = ?, on pairs of group and agent.
unfoldable pub group_members : ℕ → List (ℕ × ℕ) → List ℕ
group_members id [] = []
group_members id (m ∷ ms) = let rest = group_members id ms in if m.0 == id then m.1 ∷ rest else rest

group_by_id-unlimited :
    (id : ℕ) (rows : List SkillGroupRow) (g : SkillGroup)
    → group_by_id id rows ≡ some g
    → g.max_queue_size ≡ 0
unfolding group_by_id
group_by_id-unlimited id [] g h = ground (arith, h)
group_by_id-unlimited id (r ∷ rows) g h = ground (arith, h, group_by_id-unlimited id rows g)

-- With the groups that the repository loads, Enqueue stores the call in the queue of its group
-- whatever the queue's length and the limit in the table: no queue is ever full, none overflows.
enqueue-unlimited :
    {S : Type 0} (b : Backend S) (env : Env) (rows : S → List SkillGroupRow) (call : ℤ) (id : ℕ)
    (priority : ℤ) (now fuel : ℕ) (w : World S)
    → ((i : ℕ) → b.find_group i w.backend ≡ group_by_id i (rows w.backend))
    → enqueue b env (suc fuel) call id priority now w ≡ some (store b env call id priority now w)
unfolding enqueue
enqueue-unlimited b env rows call id priority now fuel w repository =
    elim (Option-cases (group_by_id id (rows w.backend))) [
      | inl n ↦ ground (arith, repository id, n)
      | inr (g, n) ↦ ground (arith, repository id, n, group_by_id-unlimited id (rows w.backend) g n)
    ]
